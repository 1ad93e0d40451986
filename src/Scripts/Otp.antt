-- ===== src/Scripts/Otp.antt =====
-- static/extension/person_authentication/OtpExternalAuthenticator.py: a password and a one-time
-- code, counted (HOTP) or timed (TOTP), with the enrollment of a key.
pub mod Calls
pub mod Codes
pub mod Steps
pub mod Preparing
pub mod Replay
pub mod Enrollments
pub mod Accepting
pub mod Processing
pub mod Coherence
pub mod Invariant
pub mod Checks
pub mod Login
mod Tests
use community_edition_setup.Prelude.{
  ℕ, ◌+◌, String, ◌<>◌, ◌≡◌, List, [], ◌∷◌, ◌++◌, Option, none, some, Bool, true, false, not, ◌&&◌,
  ◌||◌, if◌then◌else◌, ◌==◌, Result, ok, err, Exception,
}
use community_edition_setup.Prelude.Text.{lower, same_codes}
use community_edition_setup.Scripts.Otp.Calls.{
  Services, Value, Algorithm, HotpConfiguration, TotpConfiguration,
}

-- What `init` keeps. `qr_options` is `{}` where there are none.
pub record Settings : Type 0 where
  pub otp_type : String
  pub otp_issuer : String
  pub custom_label : Option String
  pub custom_qr_options : Option String
  pub registration_uri : Option String
  pub hotp_configuration : HotpConfiguration
  pub totp_configuration : TotpConfiguration

-- The file of `otp_conf_file` as the JSON that it holds: both parts may be missing, and so may the
-- name of the algorithm. The numbers of a part that is there are.
pub record OtpFile : Type 0 where
  pub hotp : Option HotpConfiguration
  pub totp : Option (TotpConfiguration × Option String)

-- `loadOtpConfiguration`, lines 324 to 347: another name of an algorithm leaves it `None`.
unfoldable pub algorithm_of : String → Option Algorithm
algorithm_of name =
    if same_codes (lower name) (lower "sha1")
    then some Algorithm.hmac_sha_1
    else if same_codes (lower name) (lower "sha256")
    then some Algorithm.hmac_sha_256
    else if same_codes (lower name) (lower "sha512")
    then some Algorithm.hmac_sha_512
    else none

unfoldable pub configured : OtpFile → Option (HotpConfiguration × TotpConfiguration)
unfolding algorithm_of
configured file = elim file.hotp [
  | none ↦ none
  | some h ↦ elim file.totp [
    | none ↦ none
    | some (t, none) ↦ none
    | some (t, some name) ↦ some (h, record t { hmac_sha_algorithm_type = algorithm_of name })
  ]
]

-- `load path` is what opening and reading a file gives: it raises, is no JSON, or is a file.
unfoldable pub load_otp_configuration :
    (String → Result (Option OtpFile))
    → (String → Option String)
    → Result (Option (HotpConfiguration × TotpConfiguration))
unfolding configured
load_otp_configuration load conf = elim (conf "otp_conf_file") [
  | none ↦ ok none
  | some path ↦ elim (load path) [
    | err raised ↦ err raised
    | ok none ↦ ok none
    | ok (some file) ↦ ok (configured file)
  ]
]

abbrev is_otp_type : String → Bool
is_otp_type t = t == "hotp" || t == "totp"

abbrev settled :
    String
    → String
    → (String → Option String)
    → Option (HotpConfiguration × TotpConfiguration)
    → Option Settings
settled otp_type issuer conf none = none
settled otp_type issuer conf (some (h, t)) = some (record {
  otp_type = otp_type;
  otp_issuer = issuer;
  custom_label = conf "label";
  custom_qr_options = conf "qr_options";
  registration_uri = conf "registration_uri";
  hotp_configuration = h;
  totp_configuration = t;
})

-- `init`: the settings where it returns `True`.
unfoldable pub init :
    (String → Result (Option OtpFile)) → (String → Option String) → Result (Option Settings)
unfolding load_otp_configuration
init load conf = elim (conf "otp_type") [
  | none ↦ ok none
  | some otp_type ↦
      if is_otp_type otp_type
      then elim (conf "issuer") [
        | none ↦ ok none
        | some issuer ↦ elim (load_otp_configuration load conf) [
          | err raised ↦ err raised
          | ok c ↦ ok (settled otp_type issuer conf c)
        ]
      ]
      else ok none
]

-- `x == text` of a working parameter.
abbrev pub holds_text : Option Value → String → Bool
holds_text (some (Value.text s)) t = s == t
holds_text _ t = false

module _ (s : Services) where
  -- The server, the working parameters of the session, and the messages for the page.
  pub record State : Type 0 where
    pub world : s.World
    pub identity : s.Identity
    pub messages : List String

  unfoldable pub say : String → State → State
  say text st = record st { messages = st.messages ++ text ∷ [] }

  unfoldable pub set_working : String → Value → State → State
  set_working name v st = record st { identity = s.set_working_parameter st.identity name v }

  abbrev pub working : State → String → Option Value
  working st name = s.get_working_parameter st.identity name

  abbrev options_of : Option String → Value
  options_of none = Value.empty
  options_of (some t) = Value.text t

  abbrev pub set_given : String → Option String → State → State
  set_given name none st = st
  set_given name (some t) st = set_working name (Value.text t) st

  -- `setRequestScopedParameters`
  unfoldable pub set_request_scoped_parameters : Settings → State → State
  unfolding set_working
  set_request_scoped_parameters k st = set_working "qr_options" (options_of k.custom_qr_options) (
      set_given "qr_label" k.custom_label
        (set_given "external_registration_uri" k.registration_uri st))

  -- `validateSessionId`
  unfoldable pub validate_session_id : State → Bool
  validate_session_id st =
      s.has_session st.world
      && (holds_text (working st "otp_auth_method") "enroll"
          || holds_text (working st "otp_auth_method") "authenticate")
