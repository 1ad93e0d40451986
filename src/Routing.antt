-- ===== src/Routing.antt =====
-- Where an entry is stored: `get_key_prefix`, `get_group_for_key`, `get_bucket_for_key`,
-- `get_bucket_for_dn` and `get_backend_location_for_dn` of setup_app/utils/db_utils.py, and
-- `getMappingType` of setup_app/utils/setup_utils.py.
pub mod Groups
pub mod Units
pub mod Stores
mod Tests
use Prim.Native.Char.{code}
use mathlib.Core.Option
use community_edition_setup.Prelude.{
  String, ◌<>◌, ◌&&◌, not, Option, none, some, List, [], ◌∷◌, ◌==◌, ◌=ℕ◌, if◌then◌else◌, Result, ok,
  key_error, or_raise, map_ok, ◌>>=◌,
}
use community_edition_setup.Prelude.Dict
use community_edition_setup.Prelude.Dict.{Dict, contains}
use community_edition_setup.Config.{
  Config, Bucket, BackendType, ldap, couchbase, mysql, pgsql, spanner,
}
use community_edition_setup.Dn.{Rdn, get_key_from}

-- `key[:n + 1]` where `n = key.find('_')`: up to the first `_`, with it, and nothing if there is none.
unfoldable pub prefix_from : String → Option String
prefix_from String.[] = none
prefix_from (String.◌∷◌ c s) =
    let rest = Option.map (λ p. String.◌∷◌ c p) (prefix_from s) in
    if code c =ℕ b'_' then some (String.◌∷◌ c "") else rest

unfoldable pub get_key_prefix : String → String
get_key_prefix key = Option.get_or (prefix_from key) ""

-- The `for … else` over the groups.
unfoldable pub group_of : String → Dict Bucket → String
group_of prefix [] = "default"
group_of prefix ((group, b) ∷ groups) =
    if contains b.document_key_prefix prefix then group else group_of prefix groups

module _ (cfg : Config) where
  unfoldable pub get_group_for_key : String → String
  get_group_for_key key = group_of (get_key_prefix key) cfg.bucket_dict

  unfoldable pub get_bucket_for_key : String → String
  get_bucket_for_key key =
      let group = get_group_for_key key in
      if group == "default"
      then cfg.couchbase_bucket_prefix
      else cfg.couchbase_bucket_prefix <> ("_" <> group)

  -- The body of `get_backend_location_for_dn` once the group is known. A store that is none of the
  -- three, or an unknown kind of RDBM, ends the function without a value.
  unfoldable pub location_of_store : String → Option BackendType
  location_of_store store =
      if store == "ldap"
      then some ldap
      else if store == "rdbm" && cfg.rdbm_type == "mysql"
      then some mysql
      else if store == "rdbm" && cfg.rdbm_type == "pgsql"
      then some pgsql
      else if store == "rdbm" && cfg.rdbm_type == "spanner"
      then some spanner
      else if store == "couchbase"
      then some couchbase
      else none

  unfoldable pub location_for_key : String → Result (Option BackendType)
  location_for_key key =
      map_ok location_of_store
        (or_raise key_error (Dict.get cfg.mapping_locations (get_group_for_key key)))

  -- `getMappingType`
  unfoldable pub mapped : String → Dict String → List String
  mapped mtype [] = []
  mapped mtype ((group, store) ∷ locations) =
      let rest = mapped mtype locations in
      if not (group == "default") && store == mtype then group ∷ rest else rest

  unfoldable pub get_mapping_type : String → List String
  get_mapping_type mtype = mapped mtype cfg.mapping_locations

module _ (cfg : Config) (parse_dn : String → Option (List Rdn)) where
  unfoldable pub get_bucket_for_dn : String → Result String
  get_bucket_for_dn dn = do key ← get_key_from parse_dn dn; ok (get_bucket_for_key cfg key)

  unfoldable pub get_backend_location_for_dn : String → Result (Option BackendType)
  get_backend_location_for_dn dn = do key ← get_key_from parse_dn dn; location_for_key cfg key
