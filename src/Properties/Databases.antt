-- ===== src/Properties/Databases.antt =====
-- The databases that are installed fit the mapping of the file.
use community_edition_setup.Prelude.{
  String, ◌≡◌, ◌∙◌, Bool, true, false, ◌||◌, Bool-cases, inl, inr, none, some, List, [], ◌∷◌, ◌++◌,
  ◌==◌, eq_iff, arith,
}
use community_edition_setup.Prelude.Dict.{Dict, contains}
use community_edition_setup.Properties.{
  Install, is_on, collect_stores, load_installs, ldap_of, cb_of, asks_for_couchbase,
}

-- Some group has the store.
abbrev pub stores : Dict String → String → Bool
stores [] store = false
stores ((g, s) ∷ mapping) store = s == store || stores mapping store

contains-append :
    (xs : List String) (s k : String) → contains (xs ++ s ∷ []) k ≡ (contains xs k || s == k)
contains-append [] s k = ground arith
contains-append (x ∷ xs) s k = ground (arith, contains-append xs s k)

contains-collect_stores :
    (mapping : Dict String) (map_db : List String) (store : String)
    → contains (collect_stores mapping map_db) store
      ≡ (contains map_db store || stores mapping store)
unfolding collect_stores
contains-collect_stores [] map_db store = ground arith
contains-collect_stores ((g, s) ∷ mapping) map_db store = elim (Bool-cases (contains map_db s)) [
  | inl there ↦
      rw there (contains-collect_stores mapping map_db store ∙ ground (arith, eq_iff s store))
  | inr new ↦ rw new (
      contains-collect_stores mapping (map_db ++ s ∷ []) store
      ∙ ground (arith, contains-append map_db s store))
]

ldap_of_without :
    (p : Dict String) (rdbm : Bool) (map_db : List String) (store : String) (ldap cb : Install)
    → contains map_db store ≡ true
    → contains map_db "ldap" ≡ false
    → ldap_of p rdbm map_db ldap cb ≡ none
unfolding ldap_of
ldap_of_without p rdbm [] store ldap cb h k = cc h
ldap_of_without p rdbm (s ∷ map_db) store ldap cb h k = rw k

-- If the mapping sends some group to a store, and none to LDAP, no LDAP server is installed, whatever
-- else the file and the configuration say.
pub load_installs-ldap :
    (p : Dict String) (rdbm : Bool) (mapping : Dict String) (ldap cb : Install) (store : String)
    → stores mapping store ≡ true
    → stores mapping "ldap" ≡ false
    → (load_installs p rdbm (some mapping) ldap cb).0 ≡ none
unfolding load_installs
load_installs-ldap p rdbm mapping ldap cb store h k =
    ldap_of_without p rdbm (collect_stores mapping []) store ldap cb
      (contains-collect_stores mapping [] store ∙ h) (contains-collect_stores mapping [] "ldap" ∙ k)

cb_of_with :
    (p : Dict String) (rdbm : Bool) (map_db : List String) (cb : Install)
    → contains map_db "couchbase" ≡ true
    → asks_for_couchbase p ≡ true
    → is_on (cb_of p rdbm map_db cb) ≡ true
unfolding cb_of
cb_of_with p rdbm map_db cb h k = rw h (ground arith)

-- If the mapping sends some group to Couchbase, and the file asks for persistence in it, Couchbase is
-- installed, on this machine or on another.
pub load_installs-couchbase :
    (p : Dict String) (rdbm : Bool) (mapping : Dict String) (ldap cb : Install)
    → stores mapping "couchbase" ≡ true
    → asks_for_couchbase p ≡ true
    → is_on (load_installs p rdbm (some mapping) ldap cb).1 ≡ true
unfolding load_installs
load_installs-couchbase p rdbm mapping ldap cb h k =
    cb_of_with p rdbm (collect_stores mapping []) cb
      (contains-collect_stores mapping [] "couchbase" ∙ h) k
