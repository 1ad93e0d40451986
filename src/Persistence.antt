-- ===== src/Persistence.antt =====
-- Which database holds what: `set_persistence_type`, the mapping step of `check_properties`,
-- `get_backend_list` and the assignment of groups in `promptForBackendMappings`, all of
-- setup_app/utils/properties_utils.py.
pub mod Kinds
pub mod Mappings
pub mod Choosing
pub mod Repeated
mod Tests
use Prim.Native.Char.{code}
use Prim.Native.String
use community_edition_setup.Prelude.{
  ℕ, ◌-◌, ◌+◌, String, Bool, true, false, not, ◌&&◌, ◌||◌, List, [], ◌∷◌, ◌++◌, ◌==◌, leb, length,
  get_elem?, if◌then◌else◌, Result, ok, err, value_error, index_error, or_raise, map_ok, ◌>>=◌,
}
use community_edition_setup.Prelude.Dict
use community_edition_setup.Prelude.Dict.{Dict}
use community_edition_setup.Config.{Config, Bucket, InstallType, truth, Profile, ce, disa_stig}

unfoldable pub set_persistence_type : Config → Config
set_persistence_type cfg =
    let ldap = truth cfg.ldap_install in
    let cb = truth cfg.cb_install in
    let rdbm = cfg.rdbm_install in
    if ldap && not cb && not rdbm
    then record cfg { persistence_type = "ldap" }
    else if not ldap && not rdbm && cb
    then record cfg { persistence_type = "couchbase" }
    else if cfg.rdbm_type == "spanner"
    then record cfg { persistence_type = "spanner" }
    else if not ldap && rdbm && not cb
    then record cfg { persistence_type = "sql" }
    else if ldap && cb
    then record cfg { persistence_type = "hybrid" }
    else cfg

-- `{ group: store for group in Config.couchbaseBucketDict }`
unfoldable pub all_to : String → Dict Bucket → Dict String
all_to store [] = []
all_to store ((group, _) ∷ groups) = (group, store) ∷ all_to store groups

-- `check_properties`: without LDAP every group goes to Couchbase, or to the RDBM.
unfoldable pub map_without_ldap : Config → Config
unfolding all_to
map_without_ldap cfg =
    if truth cfg.ldap_install
    then cfg
    else if cfg.rdbm_install
    then record cfg { mapping_locations = all_to "rdbm" cfg.bucket_dict }
    else if truth cfg.cb_install
    then record cfg { mapping_locations = all_to "couchbase" cfg.bucket_dict }
    else cfg

-- `BackendStrings`
pub data Backend : Type 0 where
  local_opendj remote_opendj local_couchbase remote_couchbase local_mysql remote_mysql local_pgsql
        remote_pgsql cloud_spanner spanner_emulator :
      Backend

-- The flag says that `getBackendTypes` found a Couchbase package; `insert(2, …)` puts it third.
pub get_backend_list : Config → Bool → List Backend
get_backend_list cfg couchbase_package = elim cfg.profile [
  | disa_stig ↦ local_opendj ∷ []
  | ce ↦
      local_opendj
      ∷ remote_opendj
      ∷ ((if couchbase_package then local_couchbase ∷ [] else [])
          ++ remote_couchbase ∷ local_mysql ∷ remote_mysql ∷ local_pgsql ∷ remote_pgsql
            ∷ cloud_spanner ∷ spanner_emulator ∷ [])
]

-- `re.match('^[1-n]+$', prompt)` for at most nine groups.
pub all_within : ℕ → String → Bool
all_within n String.[] = true
all_within n (String.◌∷◌ c s) = (leb b'1' (code c) && leb (code c) (b'0' + n)) && all_within n s

pub is_choice : ℕ → String → Bool
unfolding all_within
is_choice n s = not (s == "") && all_within n s

-- `list.remove`
pub remove : String → List String → Result (List String)
remove m [] = err value_error
remove m (x ∷ xs) = if x == m then ok xs else map_ok (λ ys. x ∷ ys) (remove m xs)

-- `for i in prompt: …remove(bucket_list[int(i)-1])`
pub leave_out : List String → String → List String → Result (List String)
unfolding remove
leave_out bucket_list String.[] mappings = ok mappings
leave_out bucket_list (String.◌∷◌ c s) mappings = do
  m ← or_raise index_error (get_elem? bucket_list (code c - b'1'))
  rest ← remove m mappings
  leave_out bucket_list s rest

-- `for m in couchbase_mappings: Config.mappingLocations[m] = 'couchbase'`
pub set_all : String → List String → Dict String → Dict String
set_all store [] d = d
set_all store (m ∷ ms) d = set_all store ms (Dict.set d m store)

-- What follows the loop of `promptForBackendMappings`, for an accepted prompt.
pub assign_mappings : Config → String → Result Config
unfolding leave_out set_all
assign_mappings cfg prompt = do
  let bucket_list = Dict.keys cfg.bucket_dict
  mappings ← leave_out bucket_list prompt bucket_list
  ok (record cfg { mapping_locations = set_all "couchbase" mappings cfg.mapping_locations })
