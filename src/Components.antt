-- ===== src/Components.antt =====
-- The questions for optional components: `promptForHTTPD` to `promptForPasswurdApiKeystore` of
-- setup_app/utils/properties_utils.py, and the part of `promptForProperties` that asks them. The
-- password that `getPW` draws is an argument. The questions of `promptForCasaInstallation` depend
-- on a server that is asked over the network, and are left out.
pub mod Updates
pub mod Choices
pub mod Queue
mod Tests
use mathlib.Core.Logic.{ite}
use community_edition_setup.Prelude.{
  String, Bool, true, false, not, ◌&&◌, ◌||◌, Option, none, some, List, [], ◌∷◌, ◌++◌, ◌==◌,
  if◌then◌else◌, attribute_error,
}
use community_edition_setup.Config.{
  Config, Component, Component-discrete, httpd, scim_server, fido2, passport, saml, oxd,
  gluu_radius, casa, passwurd_keystore, Profile, ce, disa_stig,
}
use community_edition_setup.Session.{
  Session, pure, raise, modify, gets, get_default_option, ask_yes, ◌>>=◌, ◌>>◌,
}

-- The name of the flag, which is queued for the services to set up.
pub flag : Component → String
flag httpd = "installHttpd"
flag scim_server = "installScimServer"
flag fido2 = "installFido2"
flag passport = "installPassport"
flag saml = "installSaml"
flag oxd = "installOxd"
flag gluu_radius = "installGluuRadius"
flag casa = "installCasa"
flag passwurd_keystore = "generate_passwurd_api_keystore"

-- `Config.install… = True if answer == 'y' else False`
pub select : Component → Bool → Config → Config
select c b cfg = record cfg { selected = λ d. ite (Component-discrete d c) b (cfg.selected d) }

-- `if Config.installed_instance and Config.install…: Config.addPostSetupService.append(…)`
pub queue : Component → Config → Config
unfolding flag
queue c cfg =
    if cfg.installed_instance && cfg.selected c
    then record cfg { add_post_setup_service = cfg.add_post_setup_service ++ flag c ∷ [] }
    else cfg

pub installed : Component → Config → Bool
installed c cfg = cfg.installed_instance && cfg.selected c

-- `promptForScimServer`, `promptForFido2Server`, `promptForPassport` and `promptForGluuRadius` are
-- this, each for its component.
prompt_for : Component → Session Unit
unfolding installed select queue
prompt_for c = do
  skip ← gets (installed c)
  if skip then pure tt else do
    default ← gets (λ cfg. get_default_option (cfg.selected c))
    answer ← ask_yes default
    modify (select c answer)
    modify (queue c)

default_httpd : Option Bool → Session String
default_httpd none = raise attribute_error
default_httpd (some b) = pure (get_default_option b)

-- The default answer is read from `Config.installHTTPD`, another attribute than the one that is set.
prompt_for_httpd : Session Unit
unfolding installed select queue default_httpd
prompt_for_httpd = do
  skip ← gets (installed httpd)
  if skip then pure tt else do
    option ← gets (λ cfg. cfg.install_httpd_option)
    default ← default_httpd option
    answer ← ask_yes default
    modify (select httpd answer)
    modify (queue httpd)

set_up_saml : String → Bool → Config → Config
unfolding select
set_up_saml password false cfg = select saml false cfg
set_up_saml password true cfg =
    let chosen = select saml true cfg in
    record chosen {
      shibboleth_version = "v3";
      gluu_saml_enabled = "true";
      couchbase_shib_user_password =
          if cfg.persistence_type == "couchbase" || cfg.persistence_type == "hybrid"
          then password
          else cfg.couchbase_shib_user_password;
    }

prompt_for_shib_idp : String → Session Unit
unfolding installed set_up_saml queue
prompt_for_shib_idp password = do
  skip ← gets (installed saml)
  if skip then pure tt else do
    default ← gets (λ cfg. get_default_option (cfg.selected saml))
    answer ← ask_yes default
    modify (set_up_saml password answer)
    modify (queue saml)

ask_storage : Bool → Session Unit
ask_storage false = pure tt
ask_storage true = do
  default ← gets (λ cfg. get_default_option cfg.oxd_use_gluu_storage)
  answer ← ask_yes default
  modify (λ cfg. record cfg { oxd_use_gluu_storage = answer })

prompt_for_oxd : Session Unit
unfolding installed select queue ask_storage
prompt_for_oxd = do
  skip ← gets (installed oxd)
  if skip then pure tt else do
    default ← gets (λ cfg. get_default_option (cfg.selected oxd))
    answer ← ask_yes default
    modify (select oxd answer)
    ask_storage answer
    modify (queue oxd)

prompt_for_passwurd_api_keystore : Session Unit
unfolding select queue
prompt_for_passwurd_api_keystore = do
  answer ← ask_yes "No"
  modify (select passwurd_keystore answer)
  modify (queue passwurd_keystore)

unless : Bool → Session Unit → Session Unit
unless true m = pure tt
unless false m = m

is_stig : Config → Bool
is_stig cfg = elim cfg.profile [ disa_stig ↦ true | ce ↦ false ]

-- The end of `promptForProperties`. `oxd_package` says that there is one to install.
pub prompt_for_components : String → Bool → Session Unit
unfolding prompt_for prompt_for_httpd prompt_for_shib_idp prompt_for_oxd unless is_stig
prompt_for_components password oxd_package = do
  prompt_for_httpd
  no_saml ← gets (λ cfg. is_stig cfg || cfg.rdbm_type == "spanner")
  unless no_saml (prompt_for_shib_idp password)
  prompt_for scim_server
  prompt_for fido2
  stig ← gets is_stig
  unless stig (prompt_for passport)
  no_oxd ← gets (λ cfg. cfg.selected oxd || not oxd_package)
  unless no_oxd prompt_for_oxd
  unless stig (prompt_for gluu_radius)
