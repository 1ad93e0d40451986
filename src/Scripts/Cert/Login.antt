-- ===== src/Scripts/Cert/Login.antt =====
-- A login by a certificate, as a series of requests.
use community_edition_setup.Prelude.{
  ℕ, String, ◌≡◌, ◌⊎◌, inl, inr, refl, ap, Option, none, some, Bool, true, false, List,
  if◌then◌else◌, not, ◌&&◌, ◌==◌, Result, ok, err,
}
use community_edition_setup.Scripts.Cert.{Settings}
use community_edition_setup.Scripts.Cert.Steps.{
  Services, State, Request, get_session_attribute, added, keep_certificate, after_password,
  with_uid, map_certificate, authenticate,
}
use community_edition_setup.Scripts.Cert.Preparing.{prepare_for_step}
use community_edition_setup.Scripts.Cert.Valid.{
  IsValidUid, KeepsValid, authenticate-KeepsValid, prepare_for_step-KeepsValid,
}

module _ {Chain : Type 0} (s : Services Chain) (k : Settings Chain) where
  -- The sessions after requests for any steps in any order, whatever their answers were.
  pub data Reaches (start : State s k) : State s k → Type 0 where
    here : Reaches start start
    prepared :
        {st : State s k} (header : Option String) (certs : Option (List s.Certificate)) (step : ℕ)
        → Reaches start st
        → Reaches start (prepare_for_step s k header certs step st).0
    asked :
        {st : State s k} (r : Request s k) (step : ℕ)
        → Reaches start st
        → Reaches start (authenticate s k r step st).0

  Reaches-KeepsValid :
      {start st : State s k} → Reaches start st → KeepsValid s k start → KeepsValid s k st
  Reaches-KeepsValid here fresh = fresh
  Reaches-KeepsValid (prepared {st} header certs step reached) fresh =
      prepare_for_step-KeepsValid s k header certs step st (Reaches-KeepsValid reached fresh)
  Reaches-KeepsValid (asked {st} r step reached) fresh =
      authenticate-KeepsValid s k r step st (Reaches-KeepsValid reached fresh)

  -- Somebody has the certificate already, or the user of `name` gets it.
  abbrev pub HasAccount : String → String → s.World → s.World → Type 0
  HasAccount name uid w after =
      ((user : s.User) × (s.get_user_by_attribute w "oxExternalUid" uid ≡ some user))
      ⊎ ((user : s.User) × (s.get_user_by_attribute w "oxExternalUid" uid ≡ none)
          × (s.add_user_attribute w name "oxExternalUid" uid ≡ (after, some user)))

  -- The password is right, and the certificate of `uid` has an account then.
  abbrev pub Maps : String → String → String → s.World → s.World → Type 0
  Maps name password uid w after =
      (logged : s.World) × (s.authenticate w name password ≡ (logged, ok true))
      × HasAccount name uid logged after

  module _ (after : State s k) where
    added-ok :
        (st : State s k) (answer : s.World × Option s.User)
        → added s k st answer ≡ (after, ok true)
        → (user : s.User) × (answer ≡ (after.world, some user))
    unfolding added
    added-ok st (w, none) e = cc
    added-ok st (w, some user) e =
        (user, ap (λ (out : State s k × Result Bool). (out.0.world, some user)) e)

    keep_certificate-ok :
        (name uid : String) (st : State s k) (user : Option s.User)
        → s.get_user_by_attribute st.world "oxExternalUid" uid ≡ user
        → keep_certificate s k name uid st user ≡ (after, ok true)
        → HasAccount name uid st.world after.world
    unfolding keep_certificate
    keep_certificate-ok name uid st (some user) u e = inl (user, u)
    keep_certificate-ok name uid st none u e =
        let (user, given) =
          added-ok st (s.add_user_attribute st.world name "oxExternalUid" uid) e in
        inr (user, u, given)

    after_password-ok :
        (name password uid : String) (st : State s k) (answer : s.World × Result Bool)
        → s.authenticate st.world name password ≡ answer
        → after_password s k name uid st answer ≡ (after, ok true)
        → Maps name password uid st.world after.world
    unfolding after_password
    after_password-ok name password uid st (w, err raised) a e = cc
    after_password-ok name password uid st (w, ok false) a e = cc
    after_password-ok name password uid st (w, ok true) a e =
        (w, a, keep_certificate-ok name uid (record st { world = w }) _ refl e)

    either_ok :
        (b : Bool) (st : State s k) (run : State s k × Result Bool)
        → (if b then run else (st, ok false)) ≡ (after, ok true)
        → run ≡ (after, ok true)
    either_ok true st run e = e
    either_ok false st run e = cc

    with_uid-ok :
        (name password : String) (st : State s k) (waiting : Option String)
        → with_uid s k name password st waiting ≡ (after, ok true)
        → (uid : String) × (waiting ≡ some uid) × Maps name password uid st.world after.world
    unfolding with_uid
    with_uid-ok name password st none e = cc
    with_uid-ok name password st (some uid) e = (
      uid,
      refl,
      after_password-ok name password uid st (s.authenticate st.world name password) refl
          (either_ok (not (name == "") && not (password == "")) st _ e),
    )

  -- Where the third step is accepted, after any requests that began in a session in which no unchecked
  -- certificate waits for an account, the certificate that got an account was valid by each
  -- validator in use, and the password was right.
  pub login-IsValidUid :
      {start st : State s k} (r : Request s k) (after : State s k)
      → KeepsValid s k start
      → Reaches start st
      → authenticate s k r 3 st ≡ (after, ok true)
      → (uid : String) × IsValidUid s k uid × Maps r.name r.password uid st.world after.world
  unfolding authenticate map_certificate
  login-IsValidUid {start} {st} r after fresh reached accepted =
      let (uid, same, maps) =
        with_uid-ok after r.name r.password st
          (get_session_attribute s k (λ p. p.cert_user_external_uid) st) accepted in
      (uid, Reaches-KeepsValid reached fresh uid same, maps)
