-- ===== src/Loading/Document/Samples.antt =====
-- A user, and its document, for tests.
use community_edition_setup.Prelude.{String, ◌≡◌, refl, none, some, Option, List, [], ◌∷◌, ok}
use community_edition_setup.Prelude.Text.{lower, is_infix, same_codes, join}
use community_edition_setup.Prelude.Dict
use community_edition_setup.Dn.{Rdn, get_key_from, key_of, key_parts, is_root}
use community_edition_setup.Loading.{Entry}
use community_edition_setup.Loading.Attributes.{
  text, Parsers, AttribDataTypes, get_attrib_data_type, type_in, get_typed_value,
}
use community_edition_setup.Loading.Document.{
  single, Document, unwrap, typed_content, object_class, remove_word, thin_out, thin_out_all,
  infix_codes, has_gluu, starts_codes, content_of, contents, with_dn, get_document_from_entry,
}

abbrev pub parsers : Parsers
parsers = record { loads = λ s. none; reformat = λ b s. none }

abbrev pub types : AttribDataTypes
types = record { list_attributes = "member" ∷ []; attrib_types = [] }

abbrev pub user_dn : String
user_dn = "inum=60B7,ou=people,o=gluu"

abbrev rdn : String → String → Rdn
rdn attr value = record { attr = attr; value = value }

abbrev pub parse : String → Option (List Rdn)
parse dn = some (rdn "inum" "60B7" ∷ rdn "ou" "people" ∷ rdn "o" "gluu" ∷ [])

abbrev pub user : Entry
user =
    ("objectClass", "top" ∷ "gluuPerson" ∷ []) ∷ ("uid", "admin" ∷ []) ∷ ("inum", "60B7" ∷ []) ∷ []

abbrev pub document : Document
document =
    ("objectClass", single (text "gluuPerson"))
    ∷ ("uid", single (text "admin"))
    ∷ ("inum", single (text "60B7"))
    ∷ ("dn", single (text user_dn))
    ∷ []

pub user_made : contents parsers types (with_dn parsers types user_dn user) ≡ ok document
unfolding contents content_of typed_content object_class with_dn unwrap get_attrib_data_type type_in
    get_typed_value remove_word thin_out_all thin_out has_gluu infix_codes starts_codes lower
    is_infix Dict.set same_codes
user_made = refl

pub user_key : get_key_from parse user_dn ≡ ok "people_60B7"
unfolding get_key_from key_of key_parts is_root join
user_key = refl

pub user_document :
    get_document_from_entry parsers types parse user_dn user ≡ ok (some ("people_60B7", document))
unfolding get_document_from_entry
user_document = rw (user_key, user_made) refl
