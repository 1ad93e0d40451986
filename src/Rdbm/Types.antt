-- ===== src/Rdbm/Types.antt =====
-- The SQL type of an attribute: `read_gluu_schema`, `in_subtable`, `get_attr_syntax` and
-- `get_attr_sql_data_type` of setup_app/utils/db_utils.py.
use community_edition_setup.Prelude.{
  ℕ, String, Bool, true, false, Option, none, some, List, [], ◌∷◌, ◌==◌, if◌then◌else◌, Result, ok,
  err, key_error, index_error, or_raise, ◌>>=◌,
}
use mathlib.Core.List.{flatten}
use community_edition_setup.Prelude.Dict
use community_edition_setup.Prelude.Dict.{Dict, contains}

-- An entry of `attributeTypes` in a schema file.
pub record GluuAttribute : Type 0 where
  pub names : List String
  pub multivalued : Bool
  pub syntax : String

-- A type as the data files describe it.
pub record ColumnType : Type 0 where
  pub type_name : Option String
  pub size : Option ℕ

-- The same with exceptions for some tables.
pub record TypeDef : Type 0 where
  pub general : ColumnType
  pub tables : Dict ColumnType

-- The definitions of one type, for each RDBM.
abbrev pub DataType : Type 0
DataType = Dict TypeDef

-- What `read_gluu_schema` leaves in the object. A sub table is a list whose head is the attribute.
pub record Schema : Type 0 where
  pub gluu_attributes : List GluuAttribute
  pub ldap_sql_data_type_mapping : Dict DataType
  pub sql_data_types : Dict DataType
  pub opendj_attributes_syntax : Dict String
  pub sub_tables : Dict (Dict (List (List String)))

abbrev pub of_type : String → TypeDef
of_type t = record { general = record { type_name = some t; size = none }; tables = [] }

abbrev pub list_type : DataType
list_type =
    ("mysql", of_type "JSON")
    ∷ ("pgsql", of_type "JSONB")
    ∷ ("spanner", of_type "ARRAY<STRING(MAX)>")
    ∷ []

-- The last loop of `read_gluu_schema`.
add_list_types : List String → Dict DataType → Dict DataType
add_list_types [] types = types
add_list_types (attr ∷ attrs) types =
    add_list_types attrs
      (if contains (Dict.keys types) attr then types else Dict.set types attr list_type)

-- `read_gluu_schema` on the contents of the schema files, each a list of attributes, and of the
-- four data files.
pub read_gluu_schema :
    List (List GluuAttribute)
    → Dict DataType
    → Dict DataType
    → Dict String
    → Dict (Dict (List (List String)))
    → List String
    → Schema
unfolding add_list_types
read_gluu_schema files mapping types syntaxes sub_tables list_attributes = record {
  gluu_attributes = flatten files;
  ldap_sql_data_type_mapping = mapping;
  sql_data_types = add_list_types list_attributes types;
  opendj_attributes_syntax = syntaxes;
  sub_tables = sub_tables;
}

-- `stbl[0] == attr` for some sub table; a sub table without a head raises.
find_subtable : List (List String) → String → Result Bool
find_subtable [] attr = ok false
find_subtable ([] ∷ stbls) attr = err index_error
find_subtable ((head ∷ _) ∷ stbls) attr =
    let rest = find_subtable stbls attr in if head == attr then ok true else rest

subtable_of : Option (List (List String)) → String → Result Bool
subtable_of none attr = ok false
subtable_of (some stbls) attr = find_subtable stbls attr

abbrev default_syntax : String
default_syntax = "1.3.6.1.4.1.1466.115.121.1.15"

unfoldable pub find_syntax : List GluuAttribute → String → Option String
find_syntax [] name = none
find_syntax (a ∷ attrs) name =
    let rest = find_syntax attrs name in
    if contains a.names name then some (if a.multivalued then "JSON" else a.syntax) else rest

abbrev or_default : String → Option String → String
or_default d none = d
or_default d (some s) = s

-- An empty dict counts as false.
abbrev pub filled : TypeDef → Bool
filled t = elim t.general.type_name [
  | some _ ↦ true
  | none ↦ elim t.general.size [
    | some _ ↦ true
    | none ↦ elim t.tables [ [] ↦ false | _ ∷ _ ↦ true ]
  ]
]

-- `x or y` for the dicts of types.
abbrev pub type_or : Option TypeDef → Result TypeDef → Result TypeDef
type_or none other = other
type_or (some t) other = if filled t then ok t else other

module _ (schema : Schema) (rdbm_type : String) where
  unfoldable pub in_subtable : String → String → Result Bool
  unfolding subtable_of find_subtable
  in_subtable table attr = do
    tables ← or_raise key_error (Dict.get schema.sub_tables rdbm_type)
    subtable_of (Dict.get tables table) attr

  unfoldable pub get_attr_syntax : String → String
  unfolding find_syntax
  get_attr_syntax name = elim (find_syntax schema.gluu_attributes name) [
    | some s ↦ s
    | none ↦ or_default default_syntax (Dict.get schema.opendj_attributes_syntax name)
  ]

  unfoldable pub data_type_of : String → Result DataType
  data_type_of key = elim (Dict.get schema.sql_data_types key) [
    | some t ↦ ok t
    | none ↦ or_raise key_error (Dict.get schema.ldap_sql_data_type_mapping (get_attr_syntax key))
  ]

  unfoldable pub get_attr_sql_data_type : String → Result String
  unfolding data_type_of
  get_attr_sql_data_type key = do
    data_type ← data_type_of key
    t ← type_or (Dict.get data_type rdbm_type) (or_raise key_error (Dict.get data_type "mysql"))
    or_raise key_error t.general.type_name
