-- ===== src/Scripts/Cert/Steps.antt =====
-- UserCertExternalAuthenticator.py: the session of a login and `authenticate`.
use community_edition_setup.Prelude.{
  ℕ, String, ◌<>◌, List, [], ◌∷◌, Option, none, some, Bool, true, false, not, ◌&&◌, if◌then◌else◌,
  ◌==◌, ◌=ℕ◌, Result, ok, err, attribute_error,
}
use community_edition_setup.Scripts.Cert.{Validator, validator_types, Settings, RecaptchaCreds}

-- The answer of the server that checks reCAPTCHA.
pub record HttpResponse : Type 0 where
  pub is_status_ok : Bool
  pub content : Option String

-- What the script calls. `decode` is the certificate of a base64 text: it raises, or has none;
-- `encode` is the text of a certificate. A validator tells whether a certificate is valid with a
-- chain at a time. The calls of `AuthenticationService` and `UserService` may change the world.
-- `post` sends the secret and the response of the user, and is `none` where it raises;
-- `success` reads the JSON text of the answer.
pub record Services (Chain : Type 0) : Type 1 where
  pub World : Type 0
  pub User : Type 0
  pub Certificate : Type 0
  pub decode : String → Result (Option Certificate)
  pub encode : Certificate → String
  pub fingerprint : Certificate → String
  pub validate : Validator → Certificate → Chain → ℕ → Bool
  pub get_user_by_attribute : World → String → String → Option User
  pub add_user_attribute : World → String → String → String → World × Option User
  pub user_id : User → String
  pub authenticate : World → String → String → World × Result Bool
  pub authenticate_name : World → String → World × Result Bool
  pub post : String → Option String → Option HttpResponse
  pub success : String → Result Bool

-- The working parameters, which the session keeps between the steps.
pub record Parameters : Type 0 where
  pub recaptcha_site_key : Option String
  pub cert_selected : Option Bool
  pub cert_valid : Option Bool
  pub cert_x509 : Option (Option String)
  pub cert_x509_fingerprint : Option String
  pub cert_count_login_steps : Option ℕ
  pub cert_user_external_uid : Option String

-- A name that is missing or empty.
abbrev pub is_blank : Option String → Bool
is_blank none = true
is_blank (some s) = s == ""

abbrev pub or_session :
    {A : Type 0} → Option A → (Parameters → Option A) → Option Parameters → Option A
or_session (some v) f session = some v
or_session none f none = none
or_session none f (some session) = f session

abbrev pub text_in : Option (Option String) → Option String
text_in none = none
text_in (some value) = value

module _ {Chain : Type 0} (s : Services Chain) (k : Settings Chain) where
  -- `session` is `None` where the session has no attributes.
  pub record State : Type 0 where
    pub world : s.World
    pub parameters : Parameters
    pub session : Option Parameters

  -- `getSessionAttribute`
  abbrev pub get_session_attribute : {A : Type 0} → (Parameters → Option A) → State → Option A
  get_session_attribute f st = or_session (f st.parameters) f st.session

  -- `validateCertificate`, over the kinds of validators.
  abbrev pub accepted_by : ℕ → s.Certificate → List Validator → Bool
  accepted_by now cert [] = true
  accepted_by now cert (type ∷ types) =
      let rest = accepted_by now cert types in
      if k.validators type && not (s.validate type cert k.chain_certs now) then false else rest

  unfoldable pub validate_certificate : ℕ → s.Certificate → Bool
  validate_certificate now cert = accepted_by now cert validator_types

  abbrev answer_of : Option String → Result Bool
  answer_of none = ok false
  answer_of (some content) = s.success content

  abbrev response_of : Option HttpResponse → Result Bool
  response_of none = ok false
  response_of (some r) = if r.is_status_ok then answer_of r.content else ok false

  unfoldable pub validate_recaptcha : RecaptchaCreds → Option String → Result Bool
  validate_recaptcha creds response = response_of (s.post creds.secret_key response)

  abbrev recaptcha_result : Option String → Option RecaptchaCreds → Result Bool
  recaptcha_result response none = ok true
  recaptcha_result response (some creds) = validate_recaptcha creds response

  -- Step 1, with the button and the response of the form.
  unfoldable pub submit_form : Option String → Option String → Result Bool
  submit_form button response =
      if is_blank button then ok false else recaptcha_result response k.recaptcha_creds

  -- Lines 188 to 195: the user of the certificate is logged in without a password.
  unfoldable pub enter : State → s.World × Result Bool → State × Result Bool
  enter st (w, err raised) = (record st { world = w }, err raised)
  enter st (w, ok logged_in) = (
    record st { world = w; parameters = record st.parameters { cert_count_login_steps = some 2 } },
    ok logged_in,
  )

  -- Lines 173 to 195
  unfoldable pub with_user : String → State → Option s.User → State × Result Bool
  with_user uid st none =
      if k.map_user_cert
      then (
        record st { parameters = record st.parameters { cert_user_external_uid = some uid } },
        ok true,
      )
      else (
        record st { parameters = record st.parameters { cert_count_login_steps = some 2 } },
        ok false,
      )
  with_user uid st (some user) = enter st (s.authenticate_name st.world (s.user_id user))

  abbrev pub uid_of : s.Certificate → String
  uid_of cert = "cert:" <> s.fingerprint cert

  -- Lines 154 to 195, with the answer of `validateCertificate`.
  unfoldable pub after_validation : s.Certificate → State → Bool → State × Result Bool
  after_validation cert st false =
      (record st { parameters = record st.parameters { cert_valid = some false } }, ok true)
  after_validation cert st true =
      with_user (uid_of cert)
        (record st {
          parameters = record st.parameters {
            cert_valid = some true;
            cert_x509_fingerprint = some (s.fingerprint cert);
          };
        })
        (s.get_user_by_attribute st.world "oxExternalUid" (uid_of cert))

  unfoldable pub with_certificate : ℕ → State → Result (Option s.Certificate) → State × Result Bool
  with_certificate now st (err raised) = (st, err raised)
  with_certificate now st (ok none) = (st, err attribute_error)
  with_certificate now st (ok (some cert)) =
      after_validation cert st (validate_certificate now cert)

  unfoldable pub with_selection : ℕ → State → Option String → State × Result Bool
  with_selection now st none =
      (record st { parameters = record st.parameters { cert_selected = some false } }, ok true)
  with_selection now st (some text) =
      with_certificate now
        (record st { parameters = record st.parameters { cert_selected = some true } })
        (s.decode text)

  -- Step 2
  unfoldable pub use_certificate : ℕ → State → State × Result Bool
  use_certificate now st =
      with_selection now st (text_in (get_session_attribute (λ p. p.cert_x509) st))

  -- Lines 217 to 226: the certificate gets an account unless it has one.
  unfoldable pub added : State → s.World × Option s.User → State × Result Bool
  added st (w, none) = (record st { world = w }, ok false)
  added st (w, some user) = (record st { world = w }, ok true)

  unfoldable pub keep_certificate : String → String → State → Option s.User → State × Result Bool
  keep_certificate name uid st (some user) = (st, ok true)
  keep_certificate name uid st none =
      added st (s.add_user_attribute st.world name "oxExternalUid" uid)

  unfoldable pub after_password :
      String → String → State → s.World × Result Bool → State × Result Bool
  after_password name uid st (w, err raised) = (record st { world = w }, err raised)
  after_password name uid st (w, ok false) = (record st { world = w }, ok false)
  after_password name uid st (w, ok true) =
      keep_certificate name uid (record st { world = w })
        (s.get_user_by_attribute w "oxExternalUid" uid)

  unfoldable pub with_uid : String → String → State → Option String → State × Result Bool
  with_uid name password st none = (st, ok false)
  with_uid name password st (some uid) =
      if not (name == "") && not (password == "")
      then after_password name uid st (s.authenticate st.world name password)
      else (st, ok false)

  -- Step 3
  unfoldable pub map_certificate : String → String → State → State × Result Bool
  map_certificate name password st =
      with_uid name password st (get_session_attribute (λ p. p.cert_user_external_uid) st)

  -- What a page sends: the credentials, the parameters of the request, and the time.
  pub record Request : Type 0 where
    pub name : String
    pub password : String
    pub parameter : String → Option String
    pub now : ℕ

  unfoldable pub authenticate : Request → ℕ → State → State × Result Bool
  authenticate r step st =
      if step =ℕ 1
      then (
        st,
        submit_form (r.parameter "loginForm:loginButton") (r.parameter "g-recaptcha-response"),
      )
      else if step =ℕ 2
      then use_certificate r.now st
      else if step =ℕ 3
      then map_certificate r.name r.password st
      else (st, ok false)

  unfoldable pub get_count_authentication_steps : State → ℕ
  get_count_authentication_steps st =
      elim (get_session_attribute (λ p. p.cert_count_login_steps) st) [ some n ↦ n | none ↦ 3 ]

  abbrev says_yes : Option Bool → Bool
  says_yes none = false
  says_yes (some b) = b

  unfoldable pub get_page_for_step : ℕ → State → String
  get_page_for_step step st =
      if step =ℕ 1
      then "/auth/cert/login.xhtml"
      else if step =ℕ 2
      then "/auth/cert/cert-login.xhtml"
      else if step =ℕ 3
      then (if not (says_yes (get_session_attribute (λ p. p.cert_selected) st))
          then "/auth/cert/cert-not-selected.xhtml"
          else if not (says_yes (get_session_attribute (λ p. p.cert_valid) st))
          then "/auth/cert/cert-invalid.xhtml"
          else "/login.xhtml")
      else ""
