-- ===== src/Scripts/Cert/Valid.antt =====
-- The name of a certificate that waits for an account is the name of one that was valid.
use community_edition_setup.Prelude.{
  ℕ, String, ◌≡◌, refl, sym, Option, none, some, Bool, true, false, List, if◌then◌else◌, ◌=ℕ◌, not,
  ◌&&◌, ◌==◌, Result, ok, err, subst,
}
use community_edition_setup.Scripts.Cert.{
  Settings, RecaptchaCreds, Validator, generic, path, ocsp, crl,
}
use community_edition_setup.Scripts.Cert.Steps.{
  Services, State, Request, validate_certificate, uid_of, get_session_attribute, enter, with_user,
  after_validation, with_certificate, with_selection, use_certificate, added, keep_certificate,
  after_password, with_uid, map_certificate, authenticate,
}
use community_edition_setup.Scripts.Cert.Preparing.{
  prepare_for_step, store_certificate, store_header, store_attribute, set_site_key,
}

module _ {Chain : Type 0} (s : Services Chain) (k : Settings Chain) where
  -- Each validator in use takes the certificate at a time.
  abbrev pub IsValid : ℕ → s.Certificate → Type 0
  IsValid now cert =
      (type : Validator) → k.validators type ≡ true → s.validate type cert k.chain_certs now ≡ true

  -- It names a certificate that was valid at some time.
  pub IsValidUid : String → Type 0
  IsValidUid uid = (cert : s.Certificate) × (now : ℕ) × IsValid now cert × (uid ≡ uid_of s k cert)

  accepts_in :
      (used valid rest : Bool)
      → (if used && not valid then false else rest) ≡ true
      → (used ≡ true → valid ≡ true) × (rest ≡ true)
  accepts_in false valid rest e = (λ u. cc, e)
  accepts_in true true rest e = (λ u. refl, e)
  accepts_in true false rest e = cc

  validate_certificate-IsValid :
      (now : ℕ) (cert : s.Certificate) → validate_certificate s k now cert ≡ true → IsValid now cert
  unfolding validate_certificate
  validate_certificate-IsValid now cert e =
      let (by_generic, e₁) = accepts_in (k.validators generic) _ _ e in
      let (by_path, e₂) = accepts_in (k.validators path) _ _ e₁ in
      let (by_ocsp, e₃) = accepts_in (k.validators ocsp) _ _ e₂ in
      let (by_crl, e₄) = accepts_in (k.validators crl) _ _ e₃ in
      by_each by_generic by_path by_ocsp by_crl
    where
      Takes : Validator → Type 0
      Takes v = k.validators v ≡ true → s.validate v cert k.chain_certs now ≡ true

      by_each : Takes generic → Takes path → Takes ocsp → Takes crl → (v : Validator) → Takes v
      by_each g p o c generic = g
      by_each g p o c path = p
      by_each g p o c ocsp = o
      by_each g p o c crl = c

  abbrev pub IsMapped : Option String → Type 0
  IsMapped waiting = (uid : String) → waiting ≡ some uid → IsValidUid uid

  abbrev pub KeepsValid : State s k → Type 0
  KeepsValid st = IsMapped (get_session_attribute s k (λ p. p.cert_user_external_uid) st)

  either-KeepsValid :
      (b : Bool) (x y : State s k × Result Bool)
      → KeepsValid x.0
      → KeepsValid y.0
      → KeepsValid (if b then x else y).0
  either-KeepsValid true x y p q = p
  either-KeepsValid false x y p q = q

  IsMapped-some : (uid : String) → IsValidUid uid → IsMapped (some uid)
  IsMapped-some uid valid u e = let same : uid ≡ u = cc in subst IsValidUid same valid

  enter-KeepsValid :
      (st : State s k) (answer : s.World × Result Bool)
      → KeepsValid st
      → KeepsValid (enter s k st answer).0
  unfolding enter
  enter-KeepsValid st (w, err raised) kept = kept
  enter-KeepsValid st (w, ok b) kept = kept

  with_user-KeepsValid :
      (uid : String) (st : State s k) (user : Option s.User)
      → IsValidUid uid
      → KeepsValid st
      → KeepsValid (with_user s k uid st user).0
  unfolding with_user
  with_user-KeepsValid uid st none valid kept =
      either-KeepsValid k.map_user_cert _ _ (IsMapped-some uid valid) kept
  with_user-KeepsValid uid st (some user) valid kept = enter-KeepsValid st _ kept

  after_validation-KeepsValid :
      (now : ℕ) (cert : s.Certificate) (st : State s k) (b : Bool)
      → validate_certificate s k now cert ≡ b
      → KeepsValid st
      → KeepsValid (after_validation s k cert st b).0
  unfolding after_validation IsValidUid
  after_validation-KeepsValid now cert st false e kept = kept
  after_validation-KeepsValid now cert st true e kept =
      with_user-KeepsValid (uid_of s k cert) _ _
        (cert, now, validate_certificate-IsValid now cert e, refl) kept

  with_certificate-KeepsValid :
      (now : ℕ) (st : State s k) (cert : Result (Option s.Certificate))
      → KeepsValid st
      → KeepsValid (with_certificate s k now st cert).0
  unfolding with_certificate
  with_certificate-KeepsValid now st (err raised) kept = kept
  with_certificate-KeepsValid now st (ok none) kept = kept
  with_certificate-KeepsValid now st (ok (some cert)) kept =
      after_validation-KeepsValid now cert st (validate_certificate s k now cert) refl kept

  with_selection-KeepsValid :
      (now : ℕ) (st : State s k) (text : Option String)
      → KeepsValid st
      → KeepsValid (with_selection s k now st text).0
  unfolding with_selection
  with_selection-KeepsValid now st none kept = kept
  with_selection-KeepsValid now st (some text) kept = with_certificate-KeepsValid now _ _ kept

  abbrev waiting : State s k → Option String
  waiting st = get_session_attribute s k (λ p. p.cert_user_external_uid) st

  -- The third step leaves the name that waits.
  added-waiting :
      (st : State s k) (answer : s.World × Option s.User)
      → waiting (added s k st answer).0 ≡ waiting st
  unfolding added
  added-waiting st (w, none) = refl
  added-waiting st (w, some user) = refl

  keep_certificate-waiting :
      (name uid : String) (st : State s k) (user : Option s.User)
      → waiting (keep_certificate s k name uid st user).0 ≡ waiting st
  unfolding keep_certificate
  keep_certificate-waiting name uid st none = added-waiting st _
  keep_certificate-waiting name uid st (some user) = refl

  after_password-waiting :
      (name uid : String) (st : State s k) (answer : s.World × Result Bool)
      → waiting (after_password s k name uid st answer).0 ≡ waiting st
  unfolding after_password
  after_password-waiting name uid st (w, err raised) = refl
  after_password-waiting name uid st (w, ok false) = refl
  after_password-waiting name uid st (w, ok true) =
      keep_certificate-waiting name uid (record st { world = w }) _

  with_uid-KeepsValid :
      (name password : String) (st : State s k) (uid : Option String)
      → KeepsValid st
      → KeepsValid (with_uid s k name password st uid).0
  unfolding with_uid
  with_uid-KeepsValid name password st none kept = kept
  with_uid-KeepsValid name password st (some uid) kept =
      either-KeepsValid (not (name == "") && not (password == "")) _ (st, ok false)
        (subst IsMapped
          (sym (after_password-waiting name uid st (s.authenticate st.world name password))) kept)
        kept

  pub authenticate-KeepsValid :
      (r : Request s k) (step : ℕ) (st : State s k)
      → KeepsValid st
      → KeepsValid (authenticate s k r step st).0
  unfolding authenticate use_certificate map_certificate
  authenticate-KeepsValid r step st kept = either-KeepsValid (step =ℕ 1) _ _ kept (
      either-KeepsValid (step =ℕ 2) _ _ (with_selection-KeepsValid r.now st _ kept)
        (either-KeepsValid (step =ℕ 3) _ _ (with_uid-KeepsValid r.name r.password st _ kept) kept))

  store_header-KeepsValid :
      (st : State s k) (cert : Result (Option s.Certificate))
      → KeepsValid st
      → KeepsValid (store_header s k st cert).0
  unfolding store_header
  store_header-KeepsValid st (err raised) kept = kept
  store_header-KeepsValid st (ok cert) kept = kept

  store_attribute-KeepsValid :
      (st : State s k) (certs : Option (List s.Certificate))
      → KeepsValid st
      → KeepsValid (store_attribute s k st certs).0
  unfolding store_attribute
  store_attribute-KeepsValid st none kept = kept
  store_attribute-KeepsValid st (some List.[]) kept = kept
  store_attribute-KeepsValid st (some (List.◌∷◌ cert certs)) kept = kept

  store_certificate-KeepsValid :
      (header : Option String) (certs : Option (List s.Certificate)) (st : State s k)
      → KeepsValid st
      → KeepsValid (store_certificate s k header certs st).0
  unfolding store_certificate
  store_certificate-KeepsValid none certs st kept = store_attribute-KeepsValid st certs kept
  store_certificate-KeepsValid (some header) certs st kept = store_header-KeepsValid st _ kept

  set_site_key-KeepsValid :
      (creds : Option RecaptchaCreds) (st : State s k)
      → KeepsValid st
      → KeepsValid (set_site_key s k creds st)
  set_site_key-KeepsValid none st kept = kept
  set_site_key-KeepsValid (some creds) st kept = kept

  pub prepare_for_step-KeepsValid :
      (header : Option String) (certs : Option (List s.Certificate)) (step : ℕ) (st : State s k)
      → KeepsValid st
      → KeepsValid (prepare_for_step s k header certs step st).0
  unfolding prepare_for_step
  prepare_for_step-KeepsValid header certs step st kept =
      either-KeepsValid (step =ℕ 1) _ _ (set_site_key-KeepsValid k.recaptcha_creds st kept)
        (either-KeepsValid (step =ℕ 2) _ _ (store_certificate-KeepsValid header certs st kept) kept)
