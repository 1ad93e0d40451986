-- ===== src/Loading/Sql/Growing.antt =====
-- What a new entry adds to the tables: at most one row, whose values have their columns' types.
use community_edition_setup.Prelude.{
  String, ◌≡◌, true, ◌⊎◌, Option, none, some, List, [], ◌∷◌, ◌++◌, ok,
}
use community_edition_setup.Prelude.Dict
use community_edition_setup.Prelude.Dict.{Dict, contains}
use community_edition_setup.Rdbm.Types.{Schema, get_attr_sql_data_type}
use community_edition_setup.Rdbm.Values.{many, Stored}
use community_edition_setup.Rdbm.Values.Typed.{Fits}
use community_edition_setup.Loading.{Entry, Row, Table, Database}

-- An optional row as a list.
abbrev pub listed : Option Row → List Row
listed none = []
listed (some row) = row ∷ []

-- The keys that `import_ldif` sets itself.
abbrev pub own_keys : List String
own_keys = "doc_id" ∷ "dn" ∷ "objectClass" ∷ []

-- The entry has these values under the key.
abbrev pub Has : Entry → String → List String → Type 0
Has [] key vs = ⊥
Has ((k, us) ∷ entry) key vs = ((k ≡ key) × (us ≡ vs)) ⊎ Has entry key vs

module _ (schema : Schema) (rdbm_type : String) (whole : Entry) where
  -- What may be stored for the values that the entry has under the key, by the type of the attribute.
  pub record TypedCell (key : String) (v : Stored) : Type 0 where
    pub sql_type : String
    pub values : List String
    pub given : Has whole key values
    pub found : get_attr_sql_data_type schema rdbm_type key ≡ ok sql_type
    pub fits : Fits sql_type (many values) v

  abbrev pub Cells : Row → Type 0
  Cells row =
      (key : String) (v : Stored)
      → Dict.get row key ≡ some v
      → (contains own_keys key ≡ true) ⊎ TypedCell key v

-- The rows of a table after a new entry: the ones before, and at most one more, whose values fit.
pub record Grows (schema : Schema) (rdbm_type : String) (whole : Entry) (table after : Table)
    : Type 0 where
  pub new : Option Row
  pub rows : after.rows ≡ table.rows ++ listed new
  pub same_columns : after.columns ≡ table.columns
  pub typed : (row : Row) → new ≡ some row → Cells schema rdbm_type whole row

-- The tables of a database after a new entry.
abbrev GrowsAt : Schema → String → Entry → Database → Database → Type 0
GrowsAt schema rdbm_type whole db out =
    (name : String) (table : Table)
    → Dict.get db name ≡ some table
    → (after : Table) × (Dict.get out name ≡ some after) × Grows schema rdbm_type whole table after
