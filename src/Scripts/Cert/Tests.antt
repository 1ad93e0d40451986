-- ===== src/Scripts/Cert/Tests.antt =====
-- Runs of UserCertExternalAuthenticator.py.
use community_edition_setup.Prelude.{
  String, ◌≡◌, refl, Option, none, some, Bool, true, false, ◌==◌, if◌then◌else◌, ok, err,
  value_error, not,
}
use community_edition_setup.Prelude.Text.{
  starts_with, strip, rstrip, lstrip, is_space, length as text_length,
}
use community_edition_setup.Scripts.Cert.{Settings, Loader, Validator, crl, init}
use community_edition_setup.Scripts.Cert.Steps
use community_edition_setup.Scripts.Cert.Preparing.{
  left_out, pem_body, prepare_for_step, store_certificate, store_header,
}
use community_edition_setup.Scripts.Cert.Valid.{IsValidUid}
use community_edition_setup.Scripts.Cert.Login.{prepared, asked, here, Maps, login-IsValidUid}

-- One path of a chain, and texts that are encrypted by a mark.
abbrev loader : Loader
loader = record {
  Chain = String;
  load_chain = λ file. if file == "chain.pem" then some "chain" else none;
  to_integer = λ text default. default;
  to_boolean = λ text default. text == "true";
  read_creds = λ file. none;
  decrypt = λ text. none;
}

abbrev configuration : String → Option String
configuration key =
    if key == "chain_cert_file_path"
    then some "chain.pem"
    else if key == "map_user_cert"
    then some "true"
    else if key == "use_crl_validator"
    then some "true"
    else none

abbrev settings : Settings String
settings = record {
  chain_certs = "chain";
  crl_max_response_size = 5242880;
  validators = λ type. type_of type;
  map_user_cert = true;
  recaptcha_creds = none;
}
  where
    type_of : Validator → Bool
    type_of crl = true
    type_of _ = false

pem_body-marks : pem_body "-----BEGIN CERTIFICATE----- AbC -----END CERTIFICATE-----" ≡ "AbC"
unfolding pem_body strip rstrip lstrip left_out starts_with text_length is_space
pem_body-marks = refl

abbrev without_certificate : Option (Settings String) → Bool
without_certificate none = false
without_certificate (some k) = k.validators crl

init-crl : without_certificate (init loader configuration) ≡ true
unfolding init
init-crl = refl

init-missing : init loader (λ key. none) ≡ none
unfolding init
init-missing = refl

-- Every certificate but "old" is valid, and every password is "s3cret".
abbrev memory : Steps.Services String
memory = record {
  World = String → Option String;
  User = String;
  Certificate = String;
  decode = λ text. if text == "" then err value_error else ok (some text);
  encode = λ cert. cert;
  fingerprint = λ cert. cert;
  validate = λ type cert chain now. not (cert == "old");
  get_user_by_attribute = λ w attribute uid. w uid;
  add_user_attribute =
      λ w name attribute uid. (λ other. if other == uid then some name else w other, some name);
  user_id = λ user. user;
  authenticate = λ w name password. (w, ok (password == "s3cret"));
  authenticate_name = λ w name. (w, ok true);
  post = λ secret response. none;
  success = λ text. ok true;
}

abbrev start : Steps.State memory settings
start = record {
  world = λ uid. none;
  parameters = record {
    recaptcha_site_key = none;
    cert_selected = none;
    cert_valid = none;
    cert_x509 = none;
    cert_x509_fingerprint = none;
    cert_count_login_steps = none;
    cert_user_external_uid = none;
  };
  session = none;
}

abbrev sam : Steps.Request memory settings
sam = record { name = "sam"; password = "s3cret"; parameter = λ name. none; now = 0 }

abbrev with_header : Steps.State memory settings
with_header = (prepare_for_step memory settings (some "AbC") none 2 start).0

abbrev waiting : Steps.State memory settings
waiting = (Steps.authenticate memory settings sam 2 with_header).0

abbrev mapped : Steps.State memory settings
mapped = (Steps.authenticate memory settings sam 3 waiting).0

page-login : Steps.get_page_for_step memory settings 3 waiting ≡ "/login.xhtml"
unfolding Steps.get_page_for_step Steps.authenticate Steps.use_certificate Steps.with_selection
    Steps.with_certificate Steps.after_validation Steps.validate_certificate Steps.with_user
    prepare_for_step store_certificate store_header pem_body strip rstrip lstrip left_out
    starts_with text_length is_space
page-login = refl

authenticate-mapped : Steps.authenticate memory settings sam 3 waiting ≡ (mapped, ok true)
unfolding Steps.map_certificate Steps.with_uid Steps.after_password Steps.keep_certificate
    Steps.added Steps.authenticate Steps.use_certificate Steps.with_selection Steps.with_certificate
    Steps.after_validation Steps.validate_certificate Steps.with_user prepare_for_step
    store_certificate store_header pem_body strip rstrip lstrip left_out starts_with text_length
    is_space
authenticate-mapped = refl

login-IsValidUid_example :
    (uid : String) × IsValidUid memory settings uid
    × Maps memory settings "sam" "s3cret" uid waiting.world mapped.world
login-IsValidUid_example =
    login-IsValidUid memory settings sam mapped (λ uid e. cc)
      (asked sam 2 (prepared (some "AbC") none 2 here)) authenticate-mapped
