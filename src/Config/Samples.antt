-- ===== src/Config/Samples.antt =====
-- A configuration as `Config.init` of setup_app/config.py makes it, for tests.
use mathlib.Core.Logic.{ite}
use community_edition_setup.Prelude.{ℕ, String, true, false, some, List, [], ◌∷◌}
use community_edition_setup.Prelude.Dict.{Dict}
use community_edition_setup.Config.{Config, Bucket, absent, local, Component-discrete, passport, ce}

abbrev bucket : ℕ → String → List String → Bucket
bucket ram mapping prefixes = record {
  ldif = [];
  memory_allocation = ram;
  mapping = mapping;
  document_key_prefix = prefixes;
}

abbrev pub user : Bucket
user = bucket 300 "people, groups, authorizations" ("groups_" ∷ "people_" ∷ "authorizations_" ∷ [])

abbrev pub before_user : Dict Bucket
before_user = ("default", bucket 100 "" []) ∷ []

abbrev pub after_user : Dict Bucket
after_user =
    ("site", bucket 100 "cache-refresh" ("site_" ∷ "cache-refresh_" ∷ []))
    ∷ ("cache", bucket 100 "cache" ("cache_" ∷ []))
    ∷ ("token", bucket 300 "tokens" ("tokens_" ∷ []))
    ∷ ("session", bucket 200 "sessions" [])
    ∷ []

abbrev pub buckets : Dict Bucket
buckets = ("default", bucket 100 "" []) ∷ ("user", user) ∷ after_user

-- Users in Couchbase, all else in LDAP.
abbrev pub hybrid_mapping : Dict String
hybrid_mapping =
    ("default", "ldap")
    ∷ ("user", "couchbase")
    ∷ ("site", "ldap")
    ∷ ("cache", "ldap")
    ∷ ("token", "ldap")
    ∷ ("session", "ldap")
    ∷ []

abbrev pub hybrid : Config
hybrid = record {
  profile = ce;
  installed_instance = true;
  selected = λ c. ite (Component-discrete c passport) true false;
  install_httpd_option = some true;
  oxd_use_gluu_storage = false;
  gluu_saml_enabled = "false";
  shibboleth_version = "v3";
  couchbase_shib_user_password = "";
  add_post_setup_service = "installCasa" ∷ [];
  ldap_install = local;
  cb_install = local;
  rdbm_install = false;
  rdbm_install_type = absent;
  rdbm_type = "mysql";
  persistence_type = "ldap";
  couchbase_bucket_prefix = "gluu";
  bucket_dict = buckets;
  mapping_locations = hybrid_mapping;
}

-- An installation on an RDBM alone.
abbrev pub sql_only : Config
sql_only = record hybrid { ldap_install = absent; cb_install = absent; rdbm_install = true }
