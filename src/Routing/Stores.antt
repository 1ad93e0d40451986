-- ===== src/Routing/Stores.antt =====
-- The routing is total for a valid configuration, and agrees with `getMappingType`.
use text.Mathlib.TextPositions.{eq_refl}
use community_edition_setup.Prelude.{
  String, ◌≡◌, refl, ◌≢◌, Bool, true, false, [], ◌∷◌, arith, ◌==◌, eq_iff, some, none, Option, ok,
  inl, inr, ◌||◌, ◌&&◌, map_ok, or_raise, key_error, ◌⊎◌, ◌↔◌, Option-cases,
}
use community_edition_setup.Prelude.Dict
use community_edition_setup.Prelude.Dict.{Dict, contains}
use community_edition_setup.Config.{Config, Bucket, BackendType, couchbase}
use community_edition_setup.Routing.{
  group_of, get_key_prefix, get_group_for_key, location_for_key, location_of_store,
  get_mapping_type, mapped,
}

abbrev pub known_store : Config → String → Bool
known_store cfg store =
    store == "ldap"
    || store == "couchbase"
    || (store == "rdbm"
        && (cfg.rdbm_type == "mysql" || cfg.rdbm_type == "pgsql" || cfg.rdbm_type == "spanner"))

-- `default` and every group of the bucket table have a store, and each is a known one.
pub record IsRouted (cfg : Config) : Type 0 where
  pub default_store : String
  pub has_default : Dict.get cfg.mapping_locations "default" ≡ some default_store
  pub default_known : known_store cfg default_store ≡ true
  pub has_store :
      (group : String)
      → contains (Dict.keys cfg.bucket_dict) group ≡ true
      → (store : String) × (Dict.get cfg.mapping_locations group ≡ some store)
        × (known_store cfg store ≡ true)

location_of_store-ne-none :
    (cfg : Config) (store : String)
    → known_store cfg store ≡ true
    → location_of_store cfg store ≢ none
unfolding location_of_store
location_of_store-ne-none cfg store h = ground arith

location_of_known :
    (cfg : Config) (store : String)
    → known_store cfg store ≡ true
    → (b : BackendType) × (location_of_store cfg store ≡ some b)
location_of_known cfg store h = elim (Option-cases (location_of_store cfg store)) [
  | inl e ↦ absurd (location_of_store-ne-none cfg store h e)
  | inr (b, e) ↦ (b, e)
]

-- The group of a key is `default` or a group of the table.
group_of-cases :
    (prefix : String) (groups : Dict Bucket)
    → (group_of prefix groups ≡ "default")
      ⊎ (contains (Dict.keys groups) (group_of prefix groups) ≡ true)
unfolding group_of
group_of-cases prefix [] = inl refl
group_of-cases prefix ((g, b) ∷ groups) = ground (arith, group_of-cases prefix groups, eq_refl g)

-- If `default` and every group of the bucket table have a store that the code knows, every key has a
-- backend: the lookup neither raises nor ends without a value.
pub location_for_key-total :
    (cfg : Config) (key : String)
    → IsRouted cfg
    → (b : BackendType) × (location_for_key cfg key ≡ ok (some b))
unfolding location_for_key get_group_for_key
location_for_key-total cfg key v = elim (group_of-cases (get_key_prefix key) cfg.bucket_dict) [
  | inl e ↦
      let (b, l) = location_of_known cfg v.default_store v.default_known in
      (b, rw e (rw (v.has_default) (rw l)))
  | inr m ↦
      let (store, s, k) = v.has_store _ m in
      let (b, l) = location_of_known cfg store k in (b, rw s (rw l))
]

holds : String → Option String → Bool
holds mtype none = false
holds mtype (some store) = store == mtype

contains-mapped :
    (cfg : Config) (mtype group : String) (locations : Dict String)
    → Dict.NodupKeys locations
    → group ≢ "default"
    → contains (mapped cfg mtype locations) group ≡ holds mtype (Dict.get locations group)
unfolding mapped holds Dict.get
contains-mapped cfg mtype group [] u h = refl
contains-mapped cfg mtype group ((g, store) ∷ locations) (fresh, u) h = ground (
  arith,
  contains-mapped cfg mtype group locations u h,
  eq_iff g group,
  eq_iff g "default",
  Dict.get_of_not_contains locations g,
)

location_of_couchbase :
    (cfg : Config) (o : Option String)
    → (map_ok (location_of_store cfg) (or_raise key_error o) ≡ ok (some couchbase))
      ↔ (holds "couchbase" o ≡ true)
unfolding holds location_of_store
location_of_couchbase cfg none = (λ h. cc, λ h. cc)
location_of_couchbase cfg (some store) =
    (λ h. ground arith, λ h. rw ((eq_iff store "couchbase").0 h))

-- Where no group stands twice in the mapping, a key of a group other than `default` is sent to Couchbase
-- exactly when `getMappingType('couchbase')` lists its group.
pub location_for_key-couchbase :
    (cfg : Config) (key : String)
    → Dict.NodupKeys cfg.mapping_locations
    → get_group_for_key cfg key ≢ "default"
    → (location_for_key cfg key ≡ ok (some couchbase))
      ↔ (contains (get_mapping_type cfg "couchbase") (get_group_for_key cfg key) ≡ true)
unfolding location_for_key get_mapping_type
location_for_key-couchbase cfg key u h =
    rw (contains-mapped cfg "couchbase" (get_group_for_key cfg key) cfg.mapping_locations u h)
      (location_of_couchbase cfg (Dict.get cfg.mapping_locations (get_group_for_key cfg key)))
