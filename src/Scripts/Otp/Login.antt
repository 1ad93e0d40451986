-- ===== src/Scripts/Otp/Login.antt =====
-- A whole login by the script for one-time codes, as a series of steps that the server asks for.
use community_edition_setup.Prelude.{
  ℕ, suc, ◌≡◌, ◌≢◌, ◌⊎◌, inl, inr, refl, sym, ◌∙◌, Option, none, some, true, arith, ok, subst,
}
use community_edition_setup.Scripts.Otp.Calls.{Services, Value, Works}
use community_edition_setup.Scripts.Otp.{Settings, State, working, set_request_scoped_parameters}
use community_edition_setup.Scripts.Otp.Steps.{
  authenticate, step_2, step_3, get_next_step, get_count_authentication_steps,
}
use community_edition_setup.Scripts.Otp.Preparing.{prepare_for_step}
use community_edition_setup.Scripts.Otp.Coherence.{IsCoherent, request_scoped-IsCoherent}
use community_edition_setup.Scripts.Otp.Invariant.{
  authenticate-IsCoherent, prepare_for_step-IsCoherent,
}
use community_edition_setup.Scripts.Otp.Checks.{
  Request, asked, Checked, step_2_for-Checked, step_3_for-Checked, Checked-request_scoped,
}

module _ (s : Services) (k : Settings) where
  -- The steps that the server goes through: after a request, the step that `getNextStep` names; where
  -- it names none, the step that follows if the request was accepted, and the same step again if it
  -- was refused or raised an exception.
  pub data Reaches (start : State s) : ℕ → State s → Type 0 where
    here : Reaches start 1 start
    prepared :
        {n : ℕ} {st : State s} → Reaches start n st → Reaches start n (prepare_for_step s k n st).0
    passed :
        {n : ℕ} {st : State s} (r : Request s k)
        → Reaches start n st
        → (asked s k r n st).1 ≡ ok true
        → get_next_step s k n (asked s k r n st).0 ≡ none
        → Reaches start (suc n) (asked s k r n st).0
    refused :
        {n : ℕ} {st : State s} (r : Request s k)
        → Reaches start n st
        → (asked s k r n st).1 ≢ ok true
        → get_next_step s k n (asked s k r n st).0 ≡ none
        → Reaches start n (asked s k r n st).0
    again :
        {n : ℕ} {st : State s} (r : Request s k) (m : ℕ)
        → Reaches start n st
        → get_next_step s k n (asked s k r n st).0 ≡ some m
        → Reaches start m (asked s k r n st).0

  module _ (works : Works s) where
    Reaches-IsCoherent :
        {start : State s} {n : ℕ} {st : State s}
        → Reaches start n st
        → IsCoherent s k start.identity
        → IsCoherent s k st.identity
    Reaches-IsCoherent here c = c
    Reaches-IsCoherent (prepared {n} {st} before) c =
        prepare_for_step-IsCoherent s k works n st (Reaches-IsCoherent before c)
    Reaches-IsCoherent (passed {n} {st} r before accepted next) c =
        authenticate-IsCoherent s k works r.now r.name r.password r.parameter n st
          (Reaches-IsCoherent before c)
    Reaches-IsCoherent (refused {n} {st} r before answer next) c =
        authenticate-IsCoherent s k works r.now r.name r.password r.parameter n st
          (Reaches-IsCoherent before c)
    Reaches-IsCoherent (again {n} {st} r m before next) c =
        authenticate-IsCoherent s k works r.now r.name r.password r.parameter n st
          (Reaches-IsCoherent before c)

    -- The number of steps in a coherent session.
    count-IsCoherent :
        (st : State s)
        → IsCoherent s k st.identity
        → (get_count_authentication_steps s k st ≡ some 2)
          ⊎ (get_count_authentication_steps s k st ≡ some 3)
    unfolding get_count_authentication_steps
    count-IsCoherent st c = elim c.counted [
      | inl unset ↦ inl (rw (unset, get_count_authentication_steps) refl)
      | inr three ↦ inr (rw (three, get_count_authentication_steps) refl)
    ]

    two_ne_three : ◌≢◌ {A = Option ℕ} (some 2) (some 3)
    two_ne_three e = ground arith

    some_inj : {m n : ℕ} → some m ≡ some n → m ≡ n
    some_inj e = ground arith

    count_three :
        (st : State s)
        → working s st "otp_count_login_steps" ≡ some (Value.number 3)
        → get_count_authentication_steps s k st ≡ some 3
    unfolding get_count_authentication_steps
    count_three st three = rw (three, get_count_authentication_steps) refl

    last_2 :
        (r : Request s k) (st : State s)
        → IsCoherent s k st.identity
        → (asked s k r 2 st).1 ≡ ok true
        → get_count_authentication_steps s k (asked s k r 2 st).0 ≡ some 2
        → Checked s k works r st
    unfolding authenticate step_2
    last_2 r st c accepted count =
        elim (step_2_for-Checked s k works r (set_request_scoped_parameters s k st) _
          (request_scoped-IsCoherent s k works st c) accepted) [
            | inl found ↦ Checked-request_scoped s k works r st found
            | inr three ↦ absurd (two_ne_three (sym count ∙ count_three (asked s k r 2 st).0 three))
          ]

    last_3 :
        (r : Request s k) (st : State s) → (asked s k r 3 st).1 ≡ ok true → Checked s k works r st
    unfolding authenticate step_3
    last_3 r st accepted =
        Checked-request_scoped s k works r st
          (step_3_for-Checked s k works r (set_request_scoped_parameters s k st) _ accepted)

    -- No login ends without a code that fits a key: from a session that is coherent, as a new one
    -- is, whatever requests were sent before, accepted or refused, and whatever steps were repeated,
    -- the request that is accepted in the last step has a code that fits a key of the session or of the user.
    pub login-Checked :
        {start : State s} {n : ℕ} {st : State s} (r : Request s k)
        → IsCoherent s k start.identity
        → Reaches start n st
        → (asked s k r n st).1 ≡ ok true
        → get_count_authentication_steps s k (asked s k r n st).0 ≡ some n
        → Checked s k works r st
    login-Checked {n} {st} r fresh reached accepted count =
        let c = Reaches-IsCoherent reached fresh in
        let c' = authenticate-IsCoherent s k works r.now r.name r.password r.parameter n st c in
        elim (count-IsCoherent (asked s k r n st).0 c') [
          | inl two ↦
              let e : n ≡ 2 = some_inj (sym count ∙ two) in
              last_2 r st c (subst (λ m. (asked s k r m st).1 ≡ ok true) e accepted) (
                subst (λ m. get_count_authentication_steps s k (asked s k r m st).0 ≡ some m) e
                  count)
          | inr three ↦
              let e : n ≡ 3 = some_inj (sym count ∙ three) in
              last_3 r st (subst (λ m. (asked s k r m st).1 ≡ ok true) e accepted)
        ]
