-- ===== src/Loading/Ldap.antt =====
-- Loading the entries of an LDIF file into LDAP: the branch of `import_ldif` of
-- setup_app/utils/db_utils.py for it, and the branch of `dn_exists`. The directory is a parameter.
pub mod Twice
pub mod Keeping
mod Tests
use mathlib.Core.Option
use community_edition_setup.Prelude.{
  ℕ, String, Bool, true, false, ◌&&◌, Option, none, some, List, [], ◌∷◌, if◌then◌else◌, Result, ok,
  err, key_error, index_error, or_raise, map_ok, ◌>>=◌,
}
use community_edition_setup.Prelude.Dict
use community_edition_setup.Prelude.Dict.{Dict, contains}
use community_edition_setup.Dn.{Rdn}
use community_edition_setup.Loading.{Entry}
use community_edition_setup.Loading.Sql.{head_of}
use community_edition_setup.Loading.Attributes.{Parsers, AttribDataTypes}
use community_edition_setup.Loading.Document.{Document, get_document_from_entry}

-- `ldap3.MODIFY_ADD`, `ldap3.MODIFY_REPLACE`
pub data Modification : Type 0 where
  modify_add modify_replace : Modification

-- `ldap_conn`: a search for an entry with all its attributes, which gives the name and the attributes
-- of `response[0]`, or nothing where it is without a result; a change of one attribute; and a new
-- entry. Whether a change has been accepted is logged, and that is all.
pub record Directory (S : Type 0) : Type 0 where
  pub search : S → String → Option (String × Entry)
  pub modify : S → String → String → Modification → List String → S
  pub add : S → String → Entry → S

abbrev pub is_found : {A : Type 0} → Option A → Bool
is_found none = false
is_found (some x) = true

module _ {S : Type 0} (directory : Directory S) where
  unfoldable pub ldap_modify_add : String → Entry → S → Result S
  ldap_modify_add dn entry s = do
    names ← or_raise key_error (Dict.get entry "add")
    change_attr ← head_of names
    new_val ← or_raise key_error (Dict.get entry change_attr)
    ok (directory.modify s dn change_attr modify_add new_val)

  -- The first value only.
  unfoldable pub ldap_modify_replace : String → Entry → S → Result S
  ldap_modify_replace dn entry s = do
    names ← or_raise key_error (Dict.get entry "replace")
    change_attr ← head_of names
    new_val ← or_raise key_error (Dict.get entry change_attr)
    first ← head_of new_val
    ok (directory.modify s dn change_attr modify_replace (first ∷ []))

  -- `dn_exists(dn, check_only=True)`
  unfoldable pub ldap_dn_found : S → String → Bool
  ldap_dn_found s dn = is_found (directory.search s dn)

  -- `dn_exists` is given, since it asks the backend that the name is routed to.
  module _ (dn_exists : String → S → Result (S × Bool)) where
    unfoldable pub ldap_add : String → Entry → S → Result S
    ldap_add dn entry s = do
      found ← dn_exists dn s
      ok (if found.1 then found.0 else directory.add found.0 dn entry)

    unfoldable pub ldap_entry : String → Entry → S → Result S
    unfolding ldap_modify_add ldap_modify_replace ldap_add
    ldap_entry dn entry s =
        let is_there = contains (Dict.keys entry) in
        if is_there "add" && is_there "changetype"
        then ldap_modify_add dn entry s
        else if is_there "replace" && is_there "changetype"
        then ldap_modify_replace dn entry s
        else ldap_add dn entry s

  module _ (p : Parsers) (types : AttribDataTypes) (parse_dn : String → Option (List Rdn)) where
    -- An entry of two attributes or fewer has no document.
    unfoldable pub found_document : Option (String × Entry) → Result (Option Document)
    found_document none = ok none
    found_document (some (dn, attributes)) =
        map_ok (Option.map (λ key_doc. key_doc.1))
          (get_document_from_entry p types parse_dn dn attributes)

    -- `dn_exists(dn)` of a name in LDAP.
    unfoldable pub ldap_dn_exists : String → S → Result (Option Document)
    unfolding found_document
    ldap_dn_exists dn s = found_document (directory.search s dn)
