-- ===== src/Scripts/Sms/Sending.antt =====
-- What the first step has sent where it succeeds, and which passcodes the second step takes then.
use community_edition_setup.Prelude.{
  ℕ, ◌≤◌, ◌<◌, String, ◌≡◌, refl, ap, ◌↔◌, Option, none, some, Bool, true, false, Result, ok, err,
  name_error, List, ◌≢◌, not, ◌&&◌, ◌==◌, if◌then◌else◌,
}
use community_edition_setup.Prelude.Text.{length as text_length}
use community_edition_setup.Prelude.Decimal.{decimal}
use community_edition_setup.Scripts.Sms.{Settings}
use community_edition_setup.Scripts.Sms.Passcodes.{accepts_iff, raises_iff}
use community_edition_setup.Scripts.Sms.Steps.{
  Services, State, log_in_and_send, authenticate, logged_in, send_to_user, send_code, sent,
  find_mobile_number, number_to_call,
}

module _ (s : Services) (k : Settings) where
  -- The user `w` names has a number, to which the code was sent in the world that keeps both.
  abbrev pub SendsIn : s.World → ℕ → s.World → Type 0
  SendsIn w code after =
      (user : s.User) × (phone : String) × (s.authenticated_user w ≡ ok (some user))
      × (find_mobile_number s k user ≡ some phone)
      × (s.submit k (s.set_mobile_number (s.set_code w code) phone) (number_to_call k phone)
            (decimal code)
          ≡ (after, true))

  -- The password is right, and the code was sent.
  abbrev pub Sends : String → String → ℕ → s.World → s.World → Type 0
  Sends name password code w after =
      (logged : s.World) × (s.authenticate w name password ≡ (logged, ok true))
      × SendsIn logged code after

  module _ (code : ℕ) (after : State s k) where
    sent-ok :
        (messages : List String) (answer : s.World × Bool)
        → sent s k messages answer ≡ (after, ok true)
        → answer ≡ (after.world, true)
    sent-ok messages (w, true) e = ap (λ (out : State s k × Result Bool). (out.0.world, true)) e
    sent-ok messages (w, false) e = cc

    send_code-ok :
        (st : State s k) (user : s.User) (number : Option String)
        → s.authenticated_user st.world ≡ ok (some user)
        → find_mobile_number s k user ≡ number
        → send_code s k code st number ≡ (after, ok true)
        → SendsIn st.world code after.world
    unfolding send_code
    send_code-ok st user none u n e = cc
    send_code-ok st user (some phone) u n e = (user, phone, u, n, sent-ok st.messages _ e)

    send_to_user-ok :
        (st : State s k) (user : Result (Option s.User))
        → s.authenticated_user st.world ≡ user
        → send_to_user s k code st user ≡ (after, ok true)
        → SendsIn st.world code after.world
    unfolding send_to_user
    send_to_user-ok st (err raised) u e = cc
    send_to_user-ok st (ok none) u e = cc
    send_to_user-ok st (ok (some user)) u e =
        send_code-ok st user (find_mobile_number s k user) u refl e

    logged_in-ok :
        (name password : String) (st : State s k) (answer : s.World × Result Bool)
        → s.authenticate st.world name password ≡ answer
        → logged_in s k code st answer ≡ (after, ok true)
        → Sends name password code st.world after.world
    unfolding logged_in
    logged_in-ok name password st (w, err raised) a e = cc
    logged_in-ok name password st (w, ok false) a e = cc
    logged_in-ok name password st (w, ok true) a e =
        (w, a, send_to_user-ok (record st { world = w }) (s.authenticated_user w) refl e)

    either_ok :
        (b : Bool) (st : State s k) (run : State s k × Result Bool)
        → (if b then run else (st, ok false)) ≡ (after, ok true)
        → run ≡ (after, ok true)
    either_ok true st run e = e
    either_ok false st run e = cc

    log_in_and_send-ok :
        (name password : String) (st : State s k)
        → log_in_and_send s k name password code st ≡ (after, ok true)
        → Sends name password code st.world after.world
    unfolding log_in_and_send
    log_in_and_send-ok name password st e =
        logged_in-ok name password st (s.authenticate st.world name password) refl
          (either_ok (not (name == "") && not (password == "")) st _ e)

  -- The first step is taken with what the page and the session hold, and after it the second step
  -- with the code of the session.
  module _ (name password : String) (code : ℕ) (session_code form_passcode : Option String)
      (st after later : State s k) where
    -- Where step 1 succeeds with a code of six digits, the server took the password and the code was
    -- sent, as a text, to the number of the user. Where the session has that text, step 2 succeeds
    -- with this passcode alone. It raises `NameError` for the other passcodes of six characters.
    pub authenticate-Sends :
        100000 ≤ code
        → code < 1000000
        → authenticate s k name password code session_code form_passcode 1 st ≡ (after, ok true)
        → (passcode : String)
        → Sends name password code st.world after.world
          × ((authenticate s k name password code (some (decimal code)) (some passcode) 2 later
                ≡ (later, ok true))
              ↔ (passcode ≡ decimal code))
          × ((authenticate s k name password code (some (decimal code)) (some passcode) 2 later
                ≡ (later, err name_error))
              ↔ ((text_length passcode ≡ 6) × (passcode ≢ decimal code)))
    unfolding authenticate
    authenticate-Sends low high done passcode = (
      log_in_and_send-ok code after name password st done,
      let (to, from) = accepts_iff code low high passcode in
          (
            λ e. to (ap (λ (out : State s k × Result Bool). out.1) e),
            λ same. ap (λ (r : Result Bool). (later, r)) (from same),
          ),
      let (to, from) = raises_iff code low high passcode in
          (
            λ e. to (ap (λ (out : State s k × Result Bool). out.1) e),
            λ wrong. ap (λ (r : Result Bool). (later, r)) (from wrong),
          ),
    )
