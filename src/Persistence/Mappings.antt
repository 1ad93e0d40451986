-- ===== src/Persistence/Mappings.antt =====
-- Without LDAP, `check_properties` leaves a routing table in which every group has a backend.
use community_edition_setup.Prelude.{
  String, ◌≡◌, inl, inr, true, false, ◌||◌, arith, if◌then◌else◌, some, Bool-cases, subst, sym, [],
  ◌∷◌,
}
use community_edition_setup.Prelude.Dict
use community_edition_setup.Prelude.Dict.{Dict, contains}
use community_edition_setup.Config.{Config, Bucket, truth}
use community_edition_setup.Persistence.{all_to, map_without_ldap}
use community_edition_setup.Routing.Stores.{IsRouted, known_store}

get-all_to :
    (store group : String) (groups : Dict Bucket)
    → contains (Dict.keys groups) group ≡ true
    → Dict.get (all_to store groups) group ≡ some store
unfolding all_to Dict.get
get-all_to store group [] h = cc
get-all_to store group ((g, b) ∷ groups) h = ground (arith, get-all_to store group groups)

-- A table that sends every group to one known store is a routing of them.
IsRouted-of_all_to :
    (cfg : Config) (store : String)
    → contains (Dict.keys cfg.bucket_dict) "default" ≡ true
    → known_store cfg store ≡ true
    → IsRouted (record cfg { mapping_locations = all_to store cfg.bucket_dict })
IsRouted-of_all_to cfg store d k = record {
  default_store = store;
  has_default = get-all_to store "default" cfg.bucket_dict d;
  default_known = k;
  has_store = λ group m. (store, get-all_to store group cfg.bucket_dict m, k);
}

map_without_ldap_lem :
    (cfg : Config)
    → truth cfg.ldap_install ≡ false
    → cfg.rdbm_install || truth cfg.cb_install ≡ true
    → map_without_ldap cfg ≡ record cfg {
      mapping_locations = all_to (if cfg.rdbm_install then "rdbm" else "couchbase") cfg.bucket_dict;
    }
unfolding map_without_ldap
map_without_ldap_lem cfg no_ldap some_db = ground arith

-- An installation without LDAP, on Couchbase or on an RDBM of a kind that the code knows, routes every
-- group to a backend, if `default` is one of the groups.
pub map_without_ldap-IsRouted :
    (cfg : Config)
    → truth cfg.ldap_install ≡ false
    → cfg.rdbm_install || truth cfg.cb_install ≡ true
    → (cfg.rdbm_install ≡ true → known_store cfg "rdbm" ≡ true)
    → contains (Dict.keys cfg.bucket_dict) "default" ≡ true
    → IsRouted (map_without_ldap cfg)
map_without_ldap-IsRouted cfg no_ldap some_db known d =
    subst IsRouted (sym (map_without_ldap_lem cfg no_ldap some_db)) (
      IsRouted-of_all_to cfg _ d
        (elim (Bool-cases cfg.rdbm_install) [ inl r ↦ simp r (known r) | inr r ↦ simp r ]))
