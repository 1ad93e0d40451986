-- ===== src/Rdbm/Tables/Tests.antt =====
-- The table of a small class of persons in Spanner, where one attribute has a table of its own.
use community_edition_setup.Prelude.{
  ℕ, String, ◌≡◌, refl, false, Option, none, some, List, [], ◌∷◌, ok,
}
use community_edition_setup.Prelude.Text.{is_infix}
use community_edition_setup.Prelude.Dict
use community_edition_setup.Prelude.Dict.{Dict}
use community_edition_setup.Rdbm.Types.{Schema, TypeDef, of_type, get_attr_syntax}
use community_edition_setup.Rdbm.Tables.{
  SqlType, bare, sized, ObjectClass, Classes, get_sql_col_type, first_name, class_table, heads,
  read_subtable_attrs, get_sql_tables,
}
use community_edition_setup.Rdbm.Tables.Schemas.{
  IsTable, TableOf, class_table-TableOf, get_sql_tables-IsTable,
}

abbrev string_of : Option ℕ → TypeDef
string_of n = record { general = record { type_name = some "STRING"; size = n }; tables = [] }

abbrev types : Schema
types = record {
  gluu_attributes = [];
  ldap_sql_data_type_mapping =
      ("1.3.6.1.4.1.1466.115.121.1.15", ("spanner", string_of (some 64)) ∷ []) ∷ [];
  sql_data_types = ("jpegPhoto", ("mysql", of_type "TEXT") ∷ []) ∷ [];
  opendj_attributes_syntax = [];
  sub_tables = ("spanner", ("gluuPerson", ("oxExternalUid" ∷ "STRING(MAX)" ∷ []) ∷ []) ∷ []) ∷ [];
}

abbrev person : ObjectClass
person = record {
  names = "gluuPerson" ∷ [];
  attributes = "uid" ∷ "oxExternalUid" ∷ "jpegPhoto" ∷ "uid" ∷ [];
  sup = "top" ∷ [];
  sql = none;
}

abbrev person_columns : Dict SqlType
person_columns = ("uid", sized "STRING" 64) ∷ ("jpegPhoto", bare "STRING(MAX)") ∷ []

abbrev subtables : Dict (List String)
subtables = ("gluuPerson", "oxExternalUid" ∷ []) ∷ []

abbrev classes : Classes
classes = ("gluuPerson", person) ∷ []

table_of_person :
    class_table types "spanner" subtables "gluuPerson" person classes
    ≡ ok (classes, ("gluuPerson", person_columns))
unfolding class_table first_name Dict.get get_sql_col_type get_attr_syntax is_infix
table_of_person = refl

tables_of_person :
    get_sql_tables types "spanner" false (person ∷ []) ≡ ok (("gluuPerson", person_columns) ∷ [])
unfolding get_sql_tables Dict.get Dict.set first_name get_sql_col_type get_attr_syntax is_infix
tables_of_person = refl

-- A class with a further attribute, and with one of its superclass.
abbrev device : ObjectClass
device = record {
  names = "gluuDevice" ∷ [];
  attributes = "uid" ∷ [];
  sup = "top" ∷ "thing" ∷ [];
  sql = some (record { ignore = false; more = "jpegPhoto" ∷ []; include_object_class = none });
}

abbrev thing : ObjectClass
thing = record { names = "thing" ∷ []; attributes = "cn" ∷ "uid" ∷ []; sup = []; sql = none }

abbrev devices : Classes
devices = ("gluuDevice", device) ∷ ("thing", thing) ∷ []

abbrev devices_after : Classes
devices_after =
    ("gluuDevice", record device { attributes = "uid" ∷ "jpegPhoto" ∷ "cn" ∷ "uid" ∷ [] })
    ∷ ("thing", thing)
    ∷ []

abbrev device_columns : Dict SqlType
device_columns =
    ("uid", sized "STRING" 64) ∷ ("jpegPhoto", bare "STRING(MAX)") ∷ ("cn", sized "STRING" 64) ∷ []

table_of_device :
    class_table types "spanner" subtables "gluuDevice" device devices
    ≡ ok (devices_after, ("gluuDevice", device_columns))
unfolding class_table first_name Dict.get Dict.set get_sql_col_type get_attr_syntax is_infix
table_of_device = refl

class_table-TableOf_example :
    TableOf types "spanner" subtables "gluuDevice" device devices
      (devices_after, ("gluuDevice", device_columns))
class_table-TableOf_example =
    class_table-TableOf types "spanner" subtables "gluuDevice" device devices table_of_device

get_sql_tables-IsTable_example : IsTable subtables "gluuPerson" person_columns
unfolding Dict.get read_subtable_attrs heads
get_sql_tables-IsTable_example =
    get_sql_tables-IsTable types "spanner" false (person ∷ []) refl refl tables_of_person
      "gluuPerson" person_columns refl
