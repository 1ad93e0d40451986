-- ===== src/Loading/Spanner/Tests.antt =====
-- A person with two external names, in Spanner.
use community_edition_setup.Prelude.{String, ◌≡◌, refl, true, false, [], ◌∷◌, ◌++◌, ok}
use community_edition_setup.Prelude.Dict
use community_edition_setup.Rdbm.Types.{Schema, of_type, in_subtable, get_attr_sql_data_type}
use community_edition_setup.Rdbm.Values.{many, text, same, column, get_rdbm_val}
use community_edition_setup.Loading.Writes.{single}
use community_edition_setup.Loading.Spanner.{spanner_val, sub_rows, write_entry}
use community_edition_setup.Loading.Spanner.Writing.{write_entry_first}

abbrev types : Schema
types = record {
  gluu_attributes = [];
  ldap_sql_data_type_mapping = [];
  sql_data_types =
      ("uid", ("mysql", of_type "VARCHAR") ∷ [])
      ∷ ("oxExternalUid", ("spanner", of_type "ARRAY<STRING(MAX)>") ∷ [])
      ∷ [];
  opendj_attributes_syntax = [];
  sub_tables = ("spanner", ("gluuPerson", ("oxExternalUid" ∷ "STRING(MAX)" ∷ []) ∷ []) ∷ []) ∷ [];
}

abbrev no_digest : String → String
no_digest s = s

abbrev user_dn : String
user_dn = "inum=60B7,ou=people,o=gluu"

has_sub_table : in_subtable types "spanner" "gluuPerson" "oxExternalUid" ≡ ok true
unfolding in_subtable Dict.get
has_sub_table = refl

one_name :
    spanner_val types "spanner" no_digest "oxExternalUid" (many ("saml:a" ∷ []))
    ≡ ok (same (many ("saml:a" ∷ [])))
unfolding spanner_val get_rdbm_val get_attr_sql_data_type Dict.get column
one_name = refl

two_names :
    spanner_val types "spanner" no_digest "oxExternalUid" (many ("saml:a" ∷ "saml:b" ∷ []))
    ≡ ok (same (many ("saml:a" ∷ "saml:b" ∷ [])))
unfolding spanner_val get_rdbm_val get_attr_sql_data_type Dict.get column
two_names = refl

writes_of_user :
    write_entry types "spanner" no_digest user_dn "gluuPerson" "60B7"
      (("uid", "admin" ∷ []) ∷ ("oxExternalUid", "saml:a" ∷ "saml:b" ∷ []) ∷ [])
    ≡ ok (
        record {
          table = "gluuPerson";
          columns = "doc_id" ∷ "dn" ∷ "objectClass" ∷ "uid" ∷ [];
          values =
              single (text "60B7")
              ∷ single (text "inum=60B7,ou=people,o=gluu")
              ∷ single (text "gluuPerson")
              ∷ single (text "admin")
              ∷ [];
          update = false;
        }
        ∷ record {
          table = "gluuPerson_oxExternalUid";
          columns = "doc_id" ∷ "dict_doc_id" ∷ "oxExternalUid" ∷ [];
          values = single (text "60B7") ∷ single (text "saml:a") ∷ single (text "saml:a") ∷ [];
          update = false;
        }
        ∷ [])
unfolding write_entry spanner_val get_rdbm_val get_attr_sql_data_type Dict.get column in_subtable
    sub_rows Dict.set
writes_of_user = refl

second_name_is_lost :
    write_entry types "spanner" no_digest user_dn "gluuPerson" "60B7"
      ((("uid", "admin" ∷ []) ∷ []) ++ ("oxExternalUid", "saml:a" ∷ []) ∷ [])
    ≡ write_entry types "spanner" no_digest user_dn "gluuPerson" "60B7"
        ((("uid", "admin" ∷ []) ∷ []) ++ ("oxExternalUid", "saml:a" ∷ "saml:b" ∷ []) ∷ [])
second_name_is_lost =
    write_entry_first types "spanner" no_digest user_dn "gluuPerson" "60B7" "oxExternalUid" "saml:a"
      [] ("saml:b" ∷ []) (("uid", "admin" ∷ []) ∷ []) [] has_sub_table one_name two_names
