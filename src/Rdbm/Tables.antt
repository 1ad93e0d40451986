-- ===== src/Rdbm/Tables.antt =====
-- The tables of the RDBM: `get_sql_col_type` and `get_sql_tables` of setup_app/installers/rdbm.py.
pub mod Columns
pub mod Extending
pub mod Schemas
mod Tests
use community_edition_setup.Prelude.{
  ℕ, String, ◌<>◌, Bool, true, false, ◌&&◌, ◌||◌, Option, none, some, List, [], ◌∷◌, ◌++◌, ◌==◌,
  leb, if◌then◌else◌, Result, ok, err, key_error, index_error, type_error, or_raise, map_ok, ◌>>=◌,
}
use community_edition_setup.Prelude.Text.{is_infix}
use community_edition_setup.Prelude.Dict
use community_edition_setup.Prelude.Dict.{Dict, contains}
use community_edition_setup.Rdbm.Types.{
  Schema, GluuAttribute, ColumnType, TypeDef, DataType, type_or, get_attr_syntax,
}

-- The text of a column's type; `sized t n` stands for `t(n)`.
pub data SqlType : Type 0 where
  bare : String → SqlType
  sized : String → ℕ → SqlType

-- `'size' in type_` or not
pub typed_by : ColumnType → Result SqlType
typed_by t = do
  name ← or_raise key_error t.type_name
  ok (elim t.size [ some n ↦ sized name n | none ↦ bare name ])

-- A short text has its size in the type.
pub text_type : String → String → ColumnType → Result SqlType
text_type rdbm_type char_type t = do
  name ← or_raise key_error t.type_name
  let of_size = map_ok by_size (or_raise key_error t.size)
  if is_infix name char_type then of_size else ok (bare name)
  where
    by_size : ℕ → SqlType
    by_size n =
        if leb n 127
        then sized char_type n
        else if leb n 255 && rdbm_type == "mysql"
        then bare "TINYTEXT"
        else bare "TEXT"

-- `STRING(MAX)` is the text of Spanner.
pub for_spanner : String → SqlType → SqlType
for_spanner rdbm_type (bare t) =
    if t == "TEXT" && rdbm_type == "spanner" then bare "STRING(MAX)" else bare t
for_spanner rdbm_type (sized t n) = sized t n

abbrev types_of : Option DataType → DataType
types_of none = []
types_of (some t) = t

module _ (schema : Schema) (rdbm_type : String) where
  -- The four places where the type of a known attribute is looked for.
  pub known_type : String → String → DataType → Result TypeDef
  known_type attrname table own =
      let special = types_of (Dict.get schema.sql_data_types (table <> (":" <> attrname))) in
      type_or (Dict.get special rdbm_type) (
        type_or (Dict.get special "mysql")
          (type_or (Dict.get own rdbm_type) (or_raise key_error (Dict.get own "mysql"))))

  pub get_sql_col_type : String → String → Result SqlType
  unfolding known_type text_type typed_by for_spanner
  get_sql_col_type attrname table =
      map_ok (for_spanner rdbm_type) (elim (Dict.get schema.sql_data_types attrname) [
        | some own ↦ do
          t ← known_type attrname table own
          elim (Dict.get t.tables table) [
            | some special ↦ typed_by special
            | none ↦ typed_by t.general
          ]
        | none ↦ do
          mapping ← or_raise key_error (
              Dict.get schema.ldap_sql_data_type_mapping
                (get_attr_syntax schema rdbm_type attrname))
          t ← type_or (Dict.get mapping rdbm_type) (or_raise key_error (Dict.get mapping "mysql"))
          text_type rdbm_type (if rdbm_type == "spanner" then "STRING" else "VARCHAR") t.general
      ])

-- The dict `obj['sql']`; an absent list of classes is `none`.
pub record SqlOptions : Type 0 where
  pub ignore : Bool
  pub more : List String
  pub include_object_class : Option (List String)

-- An entry of `objectClasses` in a schema file. `attributes` is its list `may`.
pub record ObjectClass : Type 0 where
  pub names : List String
  pub attributes : List String
  pub sup : List String
  pub sql : Option SqlOptions

abbrev pub Classes : Type 0
Classes = Dict ObjectClass

-- `attr_list` is the list `may` of the class itself: what is added to it stays in the schema, and the
-- classes that come later see it.
pub extend : String → List String → Classes → Result Classes
extend name attrs classes = do
  obj ← or_raise key_error (Dict.get classes name)
  ok (Dict.set classes name (record obj { attributes = obj.attributes ++ attrs }))

-- `for incobjcls in …: attr_list += all_schema[incobjcls]['may']`
pub extend_by : String → List String → Classes → Result Classes
unfolding extend
extend_by name [] classes = ok classes
extend_by name (other ∷ others) classes = do
  obj ← or_raise key_error (Dict.get classes other)
  next ← extend name obj.attributes classes
  extend_by name others next

-- The same for `sup`, where `top` is passed over.
pub without_top : List String → List String
without_top [] = []
without_top (s ∷ sup) = let rest = without_top sup in if s == "top" then rest else s ∷ rest

pub extend_by_options : String → Option SqlOptions → Classes → Result Classes
unfolding extend extend_by
extend_by_options name none classes = ok classes
extend_by_options name (some sql) classes = do
  next ← extend name sql.more classes
  elim sql.include_object_class [ none ↦ ok next | some others ↦ extend_by name others next ]

module _ (schema : Schema) (rdbm_type : String) where
  -- The last loop: the attributes that are not seen yet and have no sub table.
  pub columns_of : String → List String → List String → List String → Result (Dict SqlType)
  columns_of table subs seen [] = ok []
  columns_of table subs seen (attr ∷ attrs) =
      let later = columns_of table subs seen attrs in
      let added =
        (get_sql_col_type schema rdbm_type attr table >>= λ t.
        map_ok (λ cols. (attr, t) ∷ cols) (columns_of table subs (attr ∷ seen) attrs)) in
      if contains seen attr || contains subs attr then later else added

abbrev pub ignored : ObjectClass → Bool
ignored obj = elim obj.sql [ some sql ↦ sql.ignore | none ↦ false ]

abbrev pub or_empty : Option (List String) → List String
or_empty none = []
or_empty (some xs) = xs

-- `obj['names'][0]`
pub first_name : List String → Result String
first_name [] = err index_error
first_name (n ∷ ns) = ok n

module _ (schema : Schema) (rdbm_type : String) (subtable_attrs : Dict (List String)) where
  -- The body of the loop over the classes, for one that is not ignored: its table, by its first name.
  pub class_table : String → ObjectClass → Classes → Result (Classes × (String × Dict SqlType))
  unfolding extend_by_options extend_by without_top columns_of
  class_table obj_name obj classes = do
    table ← first_name obj.names
    included ← extend_by_options obj_name obj.sql classes
    full ← extend_by obj_name (without_top obj.sup) included
    final ← or_raise key_error (Dict.get full obj_name)
    cols ←
        columns_of schema rdbm_type table (or_empty (Dict.get subtable_attrs table)) []
          final.attributes
    ok (full, (table, cols))

  pub tables_of : List String → Classes → Dict (Dict SqlType) → Result (Dict (Dict SqlType))
  unfolding class_table
  tables_of [] classes tables = ok tables
  tables_of (obj_name ∷ names) classes tables = do
    obj ← or_raise key_error (Dict.get classes obj_name)
    let skipped = tables_of names classes tables
    let kept =
        (class_table obj_name obj classes >>= λ r.
        tables_of names r.0 (Dict.set tables r.1.0 r.1.1))
    if ignored obj then skipped else kept

-- `[ scol[0] for scol in … ]` for each table with sub tables.
heads : List (List String) → Result (List String)
heads [] = ok []
heads ([] ∷ rows) = err index_error
heads ((h ∷ _) ∷ rows) = map_ok (λ hs. h ∷ hs) (heads rows)

pub read_subtable_attrs : Dict (List (List String)) → Result (Dict (List String))
unfolding heads
read_subtable_attrs [] = ok []
read_subtable_attrs ((table, rows) ∷ d) = do
  hs ← heads rows
  rest ← read_subtable_attrs d
  ok ((table, hs) ∷ rest)

-- The first loop, for one class: with SAML a person has the attributes of `eduPerson`.
add_edu_person : Bool → ObjectClass → Result ObjectClass
add_edu_person install_saml obj = elim obj.sql [
  | none ↦ ok obj
  | some sql ↦
      let added =
        (or_raise key_error sql.include_object_class >>= λ cs. ok (record obj {
          sql = some (record sql { include_object_class = some (cs ++ "eduPerson" ∷ []) });
        })) in
      elim obj.names [
        | [] ↦ if install_saml then err index_error else ok obj
        | n ∷ _ ↦ if install_saml && n == "gluuPerson" then added else ok obj
      ]
]

pub read_classes : Bool → List ObjectClass → Classes → Result Classes
unfolding add_edu_person
read_classes install_saml [] classes = ok classes
read_classes install_saml (obj ∷ objs) classes = do
  new ← add_edu_person install_saml obj
  elim new.names [
    | [] ↦ err index_error
    | n ∷ _ ↦ read_classes install_saml objs (Dict.set classes n new)
  ]

-- `get_sql_tables` on the classes of the schema files, less the dict of all attributes.
pub get_sql_tables : Schema → String → Bool → List ObjectClass → Result (Dict (Dict SqlType))
unfolding read_classes read_subtable_attrs tables_of
get_sql_tables schema rdbm_type install_saml objs = do
  classes ← read_classes install_saml objs []
  -- `.get` gives `None` for an unknown RDBM, and that cannot be iterated
  subs ← or_raise type_error (Dict.get schema.sub_tables rdbm_type)
  subtable_attrs ← read_subtable_attrs subs
  tables_of schema rdbm_type subtable_attrs (Dict.keys classes) classes []
