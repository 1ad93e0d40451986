-- ===== src/Config.antt =====
-- `Config` of setup_app/config.py, with the attributes that the modelled code reads and writes, and
-- the enumerations of setup_app/static.py.
pub mod Samples
use community_edition_setup.Prelude.{ℕ, String, Bool, true, false, Option, List}
use community_edition_setup.Prelude.Dict.{Dict}

-- `InstallTypes`; `NONE` is the falsy one.
pub data InstallType : Type 0 where
  absent local remote : InstallType

-- Truth of an install type, as in `if Config.ldap_install:`.
abbrev pub truth : InstallType → Bool
truth absent = false
truth local = true
truth remote = true

-- `BackendTypes`
pub data BackendType : Type 0 where
  ldap couchbase mysql pgsql spanner : BackendType

-- `SetupProfiles`
pub data Profile : Type 0 where
  ce disa_stig : Profile

-- A value of `couchbaseBucketDict`.
pub record Bucket : Type 0 where
  pub ldif : List String
  pub memory_allocation : ℕ
  pub mapping : String
  pub document_key_prefix : List String

-- The optional components, by the flag `install…` (`generate_passwurd_api_keystore` for the last).
pub data Component : Type 0 where
  httpd scim_server fido2 passport saml oxd gluu_radius casa passwurd_keystore : Component

unfoldable pub Component-discrete : Discrete Component
Component-discrete = hlevel

pub record Config : Type 0 where
  pub profile : Profile
  pub installed_instance : Bool
  pub selected : Component → Bool
  -- an attribute that the class does not declare; `none` while nothing has set it
  pub install_httpd_option : Option Bool
  pub oxd_use_gluu_storage : Bool
  pub gluu_saml_enabled : String
  pub shibboleth_version : String
  pub couchbase_shib_user_password : String
  pub add_post_setup_service : List String
  pub ldap_install : InstallType
  pub cb_install : InstallType
  pub rdbm_install : Bool
  pub rdbm_install_type : InstallType
  pub rdbm_type : String
  pub persistence_type : String
  pub couchbase_bucket_prefix : String
  pub bucket_dict : Dict Bucket
  pub mapping_locations : Dict String
