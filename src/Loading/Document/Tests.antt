-- ===== src/Loading/Document/Tests.antt =====
-- Documents of concrete entries.
use mathlib.Core.Option
use community_edition_setup.Prelude.{
  ◌≡◌, refl, true, none, [], ◌∷◌, ok, err, value_error, map, length, not, ◌||◌, ◌=ℕ◌,
}
use community_edition_setup.Prelude.Text.{lower, is_infix, same_codes}
use community_edition_setup.Prelude.Dict
use community_edition_setup.Prelude.Dict.{Dict, contains}
use community_edition_setup.Loading.{Entry}
use community_edition_setup.Loading.Attributes.{
  text, flag, Parsers, AttribDataTypes, get_attrib_data_type, type_in, get_typed_value,
}
use community_edition_setup.Loading.Document.{
  single, several, Document, texts, unwrap, typed_content, object_class, remove_word, thin_out,
  thin_out_all, infix_codes, has_gluu, starts_codes, content_of, contents, with_dn,
}
use community_edition_setup.Loading.Document.Classes.{
  chosen, object_class-chosen, object_class-raises,
}
use community_edition_setup.Loading.Document.Kept.{values, is_list, document-texts}

-- `top` is removed, and the loop leaves `gluuPerson`.
person_removed :
    remove_word "top" (text "top" ∷ text "ldapPerson" ∷ text "gluuPerson" ∷ [])
    ≡ ok (texts ("ldapPerson" ∷ "gluuPerson" ∷ []))
unfolding remove_word
person_removed = refl

object_class-chosen_example :
    object_class (several (text "top" ∷ text "ldapPerson" ∷ text "gluuPerson" ∷ []))
    ≡ ok (single (text (chosen "ldapPerson" ("gluuPerson" ∷ []))))
unfolding is_infix
object_class-chosen_example =
    object_class-chosen (text "top" ∷ text "ldapPerson" ∷ text "gluuPerson" ∷ []) "ldapPerson"
      ("gluuPerson" ∷ []) person_removed (refl, (refl, tt))

person : chosen "ldapPerson" ("gluuPerson" ∷ []) ≡ "gluuPerson"
unfolding has_gluu infix_codes starts_codes lower is_infix
person = refl

object_class-raises_example :
    object_class (several (text "top" ∷ text "userCustom" ∷ text "person" ∷ text "gluuPerson" ∷ []))
    ≡ err value_error
unfolding remove_word has_gluu infix_codes starts_codes lower is_infix
object_class-raises_example =
    object_class-raises (text "top" ∷ text "userCustom" ∷ text "person" ∷ text "gluuPerson" ∷ [])
      "userCustom" "person" "gluuPerson" [] refl refl (refl, (refl, tt))

abbrev parsers : Parsers
parsers = record { loads = λ s. none; reformat = λ b s. none }

abbrev types : AttribDataTypes
types = record {
  list_attributes = "member" ∷ [];
  attrib_types = ("boolean", "gluuStatus" ∷ []) ∷ [];
}

abbrev group : Entry
group =
    ("objectClass", "top" ∷ "gluuGroup" ∷ [])
    ∷ ("member", "inum=1" ∷ [])
    ∷ ("gluuStatus", "true" ∷ [])
    ∷ ("cn", "Managers" ∷ [])
    ∷ []

abbrev document : Document
document =
    ("objectClass", single (text "gluuGroup"))
    ∷ ("member", several (text "inum=1" ∷ []))
    ∷ ("gluuStatus", single (flag true))
    ∷ ("cn", single (text "Managers"))
    ∷ ("dn", single (text "inum=60B7,ou=groups,o=gluu"))
    ∷ []

group_made :
    contents parsers types (with_dn parsers types "inum=60B7,ou=groups,o=gluu" group) ≡ ok document
unfolding contents content_of typed_content object_class with_dn unwrap get_attrib_data_type type_in
    get_typed_value remove_word thin_out_all thin_out has_gluu infix_codes starts_codes lower
    is_infix Dict.set same_codes
group_made = refl

document-texts_example :
    (contains (Dict.keys document) "member" ≡ contains (Dict.keys group) "member")
    × (Option.map values (Dict.get document "member")
        ≡ Option.map (map text) (Dict.get group "member"))
    × (Option.map is_list (Dict.get document "member")
        ≡ Option.map
            (λ vs. contains types.list_attributes "member" || not (length vs =ℕ 1))
            (Dict.get group "member"))
unfolding get_attrib_data_type type_in
document-texts_example =
    document-texts parsers types "inum=60B7,ou=groups,o=gluu" group document "member" group_made
      refl refl refl
