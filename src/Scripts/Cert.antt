-- ===== src/Scripts/Cert.antt =====
-- static/extension/person_authentication/UserCertExternalAuthenticator.py: a login by a certificate,
-- which is kept with an account after a login by password.
pub mod Steps
pub mod Preparing
pub mod Valid
pub mod Login
mod Tests
use community_edition_setup.Prelude.{
  ℕ, ◌*◌, String, Option, none, some, Bool, true, false, List, [], ◌∷◌, if◌then◌else◌,
}

-- `validator_types`
pub data Validator : Type 0 where
  generic path ocsp crl : Validator

abbrev pub validator_types : List Validator
validator_types = generic ∷ path ∷ ocsp ∷ crl ∷ []

-- `"use_%s_validator" % type`
abbrev validator_param_name : Validator → String
validator_param_name generic = "use_generic_validator"
validator_param_name path = "use_path_validator"
validator_param_name ocsp = "use_ocsp_validator"
validator_param_name crl = "use_crl_validator"

-- `creds["recaptcha"]` of the JSON file.
pub record RecaptchaFile : Type 0 where
  pub enabled : Bool
  pub site_key : String
  pub secret_key : String

pub record RecaptchaCreds : Type 0 where
  pub site_key : String
  pub secret_key : String

-- What `init` keeps of the configuration; `enabled_recaptcha` says that there are credentials.
pub record Settings (Chain : Type 0) : Type 0 where
  pub chain_certs : Chain
  pub crl_max_response_size : ℕ
  pub validators : Validator → Bool
  pub map_user_cert : Bool
  pub recaptcha_creds : Option RecaptchaCreds

-- What `init` calls: `CertUtil` loads the chain of a path, `StringHelper` reads numbers and truth
-- values with a default, `read_creds` is the JSON text of a file, where it can be parsed, with its part
-- for reCAPTCHA, where it is there, and `decrypt` fails for a text that is not encrypted.
pub record Loader : Type 1 where
  pub Chain : Type 0
  pub load_chain : String → Option Chain
  pub to_integer : String → ℕ → ℕ
  pub to_boolean : String → Bool → Bool
  pub read_creds : String → Option (Option RecaptchaFile)
  pub decrypt : String → Option String

abbrev decrypted : String → Option String → String
decrypted key none = key
decrypted key (some plain) = plain

module _ (l : Loader) where
  abbrev enabled_creds : Option (Option RecaptchaFile) → Option RecaptchaCreds
  enabled_creds none = none
  enabled_creds (some none) = none
  enabled_creds (some (some file)) =
      if file.enabled
      then some (record {
        site_key = decrypted file.site_key (l.decrypt file.site_key);
        secret_key = decrypted file.secret_key (l.decrypt file.secret_key);
      })
      else none

  abbrev creds_of : Option String → Option RecaptchaCreds
  creds_of none = none
  creds_of (some file) = enabled_creds (l.read_creds file)

  -- `initRecaptcha`: `none` where it returns `False`.
  unfoldable pub init_recaptcha : (String → Option String) → Option RecaptchaCreds
  init_recaptcha conf = creds_of (conf "credentials_file")

  abbrev validator_status : Option String → Bool
  validator_status none = false
  validator_status (some value) = l.to_boolean value false

  abbrev max_size : Option String → ℕ
  max_size none = 5242880
  max_size (some value) = l.to_integer value 5242880

  abbrev with_chain : (String → Option String) → String → Option l.Chain → Option (Settings l.Chain)
  with_chain conf map_value none = none
  with_chain conf map_value (some chain) = some (record {
    chain_certs = chain;
    crl_max_response_size = max_size (conf "crl_max_response_size");
    validators = λ type. validator_status (conf (validator_param_name type));
    map_user_cert = l.to_boolean map_value false;
    recaptcha_creds = init_recaptcha conf;
  })

  abbrev with_mandatory :
      (String → Option String) → Option String → Option String → Option (Settings l.Chain)
  with_mandatory conf (some file) (some map_value) = with_chain conf map_value (l.load_chain file)
  with_mandatory conf (some file) none = none
  with_mandatory conf none map_value = none

  -- `init`: `none` where it returns `False`.
  unfoldable pub init : (String → Option String) → Option (Settings l.Chain)
  unfolding init_recaptcha
  init conf = with_mandatory conf (conf "chain_cert_file_path") (conf "map_user_cert")
