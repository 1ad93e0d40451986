-- ===== src/Dn/Tests.antt =====
-- Keys of entries on concrete names.
use community_edition_setup.Prelude.{
  String, ◌<>◌, ◌≡◌, refl, Option, none, some, List, [], ◌∷◌, ◌==◌, if◌then◌else◌, ok,
}
use community_edition_setup.Prelude.Text.{join, differs}
use community_edition_setup.Dn.{
  Rdn, is_root, key_parts, key_of, get_key_from, root_of, get_rootdn, get_doc_id_from_dn, doc_id_of,
}
use community_edition_setup.Dn.Keys.{get_key_from-child}

abbrev gluu : Rdn
gluu = record { attr = "o"; value = "gluu" }

abbrev people : Rdn
people = record { attr = "ou"; value = "people" }

abbrev group : Rdn
group = record { attr = "inum"; value = "60B7" }

abbrev parse : String → Option (List Rdn)
parse dn =
    if dn == "inum=60B7,ou=people,o=gluu"
    then some (group ∷ people ∷ gluu ∷ [])
    else if dn == "ou=people,o=gluu"
    then some (people ∷ gluu ∷ [])
    else if dn == "ou=people"
    then some (people ∷ [])
    else if dn == "o=gluu"
    then some (gluu ∷ [])
    else none

key_of_user : get_key_from parse "inum=60B7,ou=people,o=gluu" ≡ ok "people_60B7"
unfolding get_key_from key_of key_parts is_root join
key_of_user = refl

key_of_root : get_key_from parse "o=gluu" ≡ ok "_"
unfolding get_key_from key_of key_parts is_root join
key_of_root = refl

root_of_user : get_rootdn parse "inum=60B7,ou=people,o=gluu" ≡ ok "ou=people,o=gluu"
unfolding get_rootdn root_of join
root_of_user = refl

id_of_user : get_doc_id_from_dn parse "inum=60B7,ou=people,o=gluu" ≡ ok "60B7"
unfolding get_doc_id_from_dn doc_id_of
id_of_user = refl

key_of_child : get_key_from parse "inum=60B7,ou=people,o=gluu" ≡ ok ("people" <> ("_" <> "60B7"))
unfolding is_root get_key_from key_of key_parts join
key_of_child =
    get_key_from-child parse "inum=60B7,ou=people,o=gluu" "ou=people,o=gluu" group
      (people ∷ gluu ∷ []) refl refl refl refl (differs "people" "_" refl)
