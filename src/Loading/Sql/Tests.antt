-- ===== src/Loading/Sql/Tests.antt =====
-- A user that is loaded into a table of MySQL.
use community_edition_setup.Prelude.{
  String, ◌≡◌, refl, sym, ◌∙◌, subst, Bool, true, false, Option, none, some, List, [], ◌∷◌, ◌==◌,
  if◌then◌else◌, ok, Bool-cases, inl, inr, ◌⊎◌,
}
use community_edition_setup.Prelude.Text.{lower, same_codes}
use community_edition_setup.Prelude.Int
use community_edition_setup.Prelude.Dict
use community_edition_setup.Prelude.Dict.{Dict, contains}
use community_edition_setup.Dn.{Rdn, get_doc_id_from_dn, doc_id_of}
use community_edition_setup.Rdbm.Types.{of_type, Schema, get_attr_sql_data_type}
use community_edition_setup.Rdbm.Values.{
  int_val, text, column, is_truth, get_rdbm_val, get_clean_object_class,
}
use community_edition_setup.Loading.{Entry, Row, Table, Database}
use community_edition_setup.Loading.Sql.{sql_insert, is_unit, sql_entry}
use community_edition_setup.Loading.Sql.Inserting.{HasDn, sql_insert-sql_insert}
use community_edition_setup.Loading.Sql.Refining.{view, PutNew, sql_insert-Refines}

abbrev types : Schema
types = record {
  gluu_attributes = [];
  ldap_sql_data_type_mapping = [];
  sql_data_types =
      ("uid", ("mysql", of_type "VARCHAR") ∷ [])
      ∷ ("active", ("mysql", of_type "SMALLINT") ∷ [])
      ∷ [];
  opendj_attributes_syntax = [];
  sub_tables = [];
}

abbrev user_dn : String
user_dn = "inum=60B7,ou=people,o=gluu"

abbrev parse : String → Option (List Rdn)
parse dn =
    if dn == user_dn
    then some
        (record { attr = "inum"; value = "60B7" } ∷ record { attr = "ou"; value = "people" } ∷ [])
    else none

abbrev no_like : String → String → Bool
no_like t dn = false

abbrev every : Table → Row → Bool
every table row = true

abbrev user : Entry
user =
    ("objectClass", "top" ∷ "gluuPerson" ∷ [])
    ∷ ("uid", "admin" ∷ [])
    ∷ ("active", "TRUE" ∷ [])
    ∷ []

abbrev persons : List Row → Table
persons rows = record {
  columns =
      ("doc_id", false)
      ∷ ("dn", false)
      ∷ ("objectClass", false)
      ∷ ("uid", false)
      ∷ ("active", false)
      ∷ [];
  rows = rows;
}

abbrev empty : Database
empty = ("gluuPerson", persons []) ∷ []

abbrev admin : Row
admin =
    ("doc_id", text "60B7")
    ∷ ("dn", text "inum=60B7,ou=people,o=gluu")
    ∷ ("objectClass", text "gluuPerson")
    ∷ ("uid", text "admin")
    ∷ ("active", int_val (Int.pos 1))
    ∷ []

abbrev loaded : Database
loaded = ("gluuPerson", persons (admin ∷ [])) ∷ []

loads_user : sql_insert types "mysql" parse no_like every user_dn user empty ≡ ok loaded
unfolding sql_insert get_clean_object_class Dict.get same_codes lower get_doc_id_from_dn doc_id_of
    Dict.set Dict.erase get_rdbm_val get_attr_sql_data_type column is_truth
loads_user = refl

one_table :
    (o : Option Table) (table : Table)
    → o ≡ some (persons [])
    → o ≡ some table
    → contains (Dict.keys table.columns) "dn" ≡ true
one_table o table e h =
    let q : some (persons []) ≡ some table = sym e ∙ h in
    let same : persons [] ≡ table = cc q in
    subst (λ (t : Table). contains (Dict.keys t.columns) "dn" ≡ true) same refl

empty-HasDn : HasDn empty
unfolding Dict.get
empty-HasDn name table h = elim (Bool-cases ("gluuPerson" == name)) [
  | inl same ↦ one_table (Dict.get empty name) table (rw same) h
  | inr other ↦ cc (rw other at h)
]

sql_insert-sql_insert_example :
    sql_insert types "mysql" parse no_like every user_dn user loaded ≡ ok loaded
unfolding Dict.get
sql_insert-sql_insert_example =
    sql_insert-sql_insert types "mysql" parse no_like every user_dn user refl empty loaded
      empty-HasDn loads_user

-- An entry that changes an attribute sets it in the row of that name.
replaces_uid :
    sql_entry types "mysql" parse no_like every user_dn
      (("changetype", "modify" ∷ []) ∷ ("replace", "uid" ∷ []) ∷ ("uid", "root" ∷ []) ∷ [])
      loaded
    ≡ ok (("gluuPerson", persons (Dict.set admin "uid" (text "root") ∷ [])) ∷ [])
unfolding sql_entry get_clean_object_class Dict.get same_codes lower Dict.set get_rdbm_val
    get_attr_sql_data_type column
replaces_uid = refl

no_name : Dict.get user "dn" ≡ none
unfolding Dict.get
no_name = refl

sql_insert-Refines_example :
    (class : String) × (get_clean_object_class user ≡ ok (some class))
    × (((is_unit class ≡ true) × (view loaded ≡ view empty))
        ⊎ ((is_unit class ≡ false)
            × PutNew types "mysql" parse no_like every user_dn user no_name class empty loaded))
sql_insert-Refines_example =
    sql_insert-Refines types "mysql" parse no_like every user_dn user no_name empty loaded
      empty-HasDn loads_user
