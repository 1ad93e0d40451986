-- ===== src/Properties.antt =====
-- Which databases a properties file asks for: the part of `load_properties` of
-- setup_app/utils/properties_utils.py that decides `ldap_install` and `cb_install`, before the servers are tried. The properties are
-- those that are read from the file, and the mapping is its `mappingLocations`, parsed.
pub mod Databases
mod Tests
use community_edition_setup.Prelude.{
  String, Bool, true, false, not, ◌&&◌, ◌||◌, Option, none, some, List, [], ◌∷◌, ◌++◌, ◌==◌,
  if◌then◌else◌,
}
use community_edition_setup.Prelude.Text.{lower, codes, same_codes}
use community_edition_setup.Prelude.Dict
use community_edition_setup.Prelude.Dict.{Dict, contains}

-- A value of `ldap_install` or `cb_install`: `InstallTypes.NONE` and `False` are `none`, else it is a
-- text, `1` for `LOCAL` and `2` for `REMOTE`; `True` stands for the truth value.
abbrev pub Install : Type 0
Install = Option String

-- Its truth; an empty text is false.
pub is_on : Install → Bool
is_on none = false
is_on (some s) = not (s == "")

-- `map_db`: the stores of the mapping, each once, behind those that are there.
unfoldable pub collect_stores : Dict String → List String → List String
collect_stores [] map_db = map_db
collect_stores ((group, store) ∷ mapping) map_db =
    collect_stores mapping (if contains map_db store then map_db else map_db ++ store ∷ [])

-- `p.get(key,'').lower() == 'true'`
says_true : Dict String → String → Bool
says_true p key = elim (Dict.get p key) [
  | some s ↦ same_codes (lower s) (codes "true")
  | none ↦ false
]

-- `p.get(key)` after `'0'` has become `InstallTypes.NONE`.
install_of : Dict String → String → Install
install_of p key = elim (Dict.get p key) [
  | some s ↦ if s == "0" then none else some s
  | none ↦ none
]

-- `setattr(Config, prop, …)` for a property of the file; `False` becomes the truth value.
set_install : Dict String → String → Install → Install → Install
set_install p key value current =
    if contains (Dict.keys p) key
    then (elim value [ none ↦ none | some s ↦ if s == "False" then none else some s ])
    else current

-- `p.get('persistence_type') in ('couchbase', 'hybrid')`
pub asks_for_couchbase : Dict String → Bool
asks_for_couchbase p = elim (Dict.get p "persistence_type") [
  | some t ↦ t == "couchbase" || t == "hybrid"
  | none ↦ false
]

module _ (p : Dict String) (rdbm_install : Bool) where
  -- `p['ldap_install']`, which becomes `LOCAL` where `Config` has no database.
  given_ldap : Install → Install → Install
  unfolding is_on install_of
  given_ldap ldap cb =
      if not (is_on cb || rdbm_install || is_on ldap) then some "1" else install_of p "ldap_install"

  at_localhost : Bool
  at_localhost = elim (Dict.get p "ldap_hostname") [ some h ↦ h == "localhost" | none ↦ false ]

  -- `Config.ldap_install` before `map_db` is looked at.
  wanted_ldap : Install → Install → Install
  unfolding given_ldap at_localhost says_true set_install is_on
  wanted_ldap ldap cb =
      let given = given_ldap ldap cb in
      if at_localhost
      then set_install p "ldap_install" given ldap
      else if says_true p "remoteLdap"
      then some "2"
      else if says_true p "installLdap"
      then some "1"
      else if is_on given
      then given
      else none

  pub ldap_of : List String → Install → Install → Install
  unfolding wanted_ldap
  ldap_of [] ldap cb = wanted_ldap ldap cb
  ldap_of (s ∷ map_db) ldap cb = if contains (s ∷ map_db) "ldap" then wanted_ldap ldap cb else none

  pub cb_of : List String → Install → Install
  unfolding says_true install_of is_on asks_for_couchbase set_install
  cb_of map_db cb =
      let given = install_of p "cb_install" in
      if contains map_db "couchbase"
      then (if says_true p "remoteCouchbase"
          then some "2"
          else if is_on given
          then given
          else if asks_for_couchbase p
          then some "1"
          else none)
      else set_install p "cb_install" given cb

  -- Both values, by those that `Config` had and the mapping of the file, if it has one.
  pub load_installs : Option (Dict String) → Install → Install → Install × Install
  unfolding ldap_of cb_of
  load_installs mapping ldap cb =
      let map_db : List String = elim mapping [ some m ↦ collect_stores m [] | none ↦ [] ] in
      (ldap_of map_db ldap cb, cb_of map_db cb)
