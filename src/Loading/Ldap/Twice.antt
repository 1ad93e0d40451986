-- ===== src/Loading/Ldap/Twice.antt =====
-- A new entry is added once.
use community_edition_setup.Prelude.{
  String, ◌≡◌, refl, ◌∙◌, Bool, false, Option, none, some, List, Result, ok, map_ok, arith,
}
use community_edition_setup.Prelude.Dict
use community_edition_setup.Prelude.Dict.{Dict, contains}
use community_edition_setup.Dn.{Rdn}
use community_edition_setup.Loading.{Entry}
use community_edition_setup.Loading.Attributes.{Parsers, AttribDataTypes}
use community_edition_setup.Loading.Document.{Document, get_document_from_entry}
use community_edition_setup.Loading.Ldap.{
  Directory, found_document, ldap_dn_exists, ldap_add, is_found, ldap_entry,
}

module _ (p : Parsers) (types : AttribDataTypes) (parse_dn : String → Option (List Rdn))
    {S : Type 0} (directory : Directory S) where
  -- A name is found after an entry has been added under it.
  pub record Finds (s : S) (dn : String) (entry : Entry) : Type 0 where
    pub found : directory.search (directory.add s dn entry) dn ≡ some (dn, entry)

  -- The name is routed to LDAP: a document, which has `dn`, counts as true.
  unfoldable pub exists_in_ldap : String → S → Result (S × Bool)
  unfolding ldap_dn_exists
  exists_in_ldap dn s =
      map_ok (λ found. (s, is_found found)) (ldap_dn_exists directory p types parse_dn dn s)

  is_new :
      (exists : String → S → Result (S × Bool)) (dn : String) (entry : Entry) (s : S)
      → contains (Dict.keys entry) "changetype" ≡ false
      → ldap_entry directory exists dn entry s ≡ ldap_add directory exists dn entry s
  unfolding ldap_entry
  is_new exists dn entry s new = ground arith

  -- A new entry whose name is not in the directory is added; if the directory finds it then, and a
  -- document can be made of it, loading it again changes nothing.
  pub ldap_entry-twice :
      (dn : String) (entry : Entry) (s : S) (key : String) (doc : Document)
      → contains (Dict.keys entry) "changetype" ≡ false
      → directory.search s dn ≡ none
      → Finds s dn entry
      → get_document_from_entry p types parse_dn dn entry ≡ ok (some (key, doc))
      → (ldap_entry directory exists_in_ldap dn entry s ≡ ok (directory.add s dn entry))
        × (ldap_entry directory exists_in_ldap dn entry (directory.add s dn entry)
            ≡ ok (directory.add s dn entry))
  unfolding ldap_add exists_in_ldap ldap_dn_exists found_document
  ldap_entry-twice dn entry s key doc new absent law made = (
    is_new exists_in_ldap dn entry s new ∙ rw (absent) refl,
    is_new exists_in_ldap dn entry _ new ∙ rw (law.found, made) refl,
  )
