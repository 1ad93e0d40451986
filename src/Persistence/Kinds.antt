-- ===== src/Persistence/Kinds.antt =====
-- The kind of persistence names the databases that are installed.
use mathlib.Core.Option
use community_edition_setup.Prelude.{
  String, ◌≡◌, ◌≢◌, Bool, true, false, arith, eq_iff, Option, none, some,
}
use community_edition_setup.Config.{Config, truth}
use community_edition_setup.Persistence.{set_persistence_type}

-- The kind that the three flags call for: `spanner` is an RDBM of its own kind, and nothing is said
-- of an RDBM beside another database, or of no database.
abbrev pub kind : Bool → Bool → Bool → Option String
kind true false false = some "ldap"
kind false true false = some "couchbase"
kind false false true = some "sql"
kind true true false = some "hybrid"
kind true true true = some "hybrid"
kind _ _ _ = none

-- Unless Spanner is the RDBM, the kind is the one that the installed databases call for, and it is
-- not touched where they call for none; nothing else of the configuration changes.
pub set_persistence_type-kind :
    (cfg : Config)
    → cfg.rdbm_type ≢ "spanner"
    → set_persistence_type cfg ≡ record cfg {
      persistence_type =
          Option.get_or
            (kind (truth cfg.ldap_install) (truth cfg.cb_install) cfg.rdbm_install)
            cfg.persistence_type;
    }
unfolding set_persistence_type
set_persistence_type-kind cfg h = ground (arith, eq_iff cfg.rdbm_type "spanner")
