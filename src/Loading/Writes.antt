-- ===== src/Loading/Writes.antt =====
-- The writes to Spanner: what `write_data` is called with, and what the rows to write are made of, in
-- the branch of `import_ldif` of setup_app/utils/db_utils.py for Spanner.
use community_edition_setup.Prelude.{
  String, Bool, Option, none, some, List, [], ◌∷◌, ◌++◌, if◌then◌else◌, Result, ok, err,
  index_error, type_error, attribute_error,
}
use community_edition_setup.Prelude.Text.{chars}
use community_edition_setup.Rdbm.Values.{one, many, Stored, int_val, bool_val, text, json, same}
use community_edition_setup.Loading.{Row}

-- A value of a column: one value, or a list of them.
pub data Given : Type 0 where
  single : Stored → Given
  several : List Stored → Given

-- A call of `write_data`; the flag says that the mutation is `update`.
pub record Write : Type 0 where
  pub table : String
  pub columns : List String
  pub values : List Given
  pub update : Bool

-- `for subtableval in spanner_vals`: a dict gives its keys, a text its characters.
unfoldable pub iterate : Stored → Result (List String)
iterate (same (many vs)) = ok vs
iterate (same (one s)) = ok (chars s)
iterate (text s) = ok (chars s)
iterate (json vs) = ok ("v" ∷ [])
iterate (int_val n) = err type_error
iterate (bool_val b) = err type_error

-- What the server has for one column of a row: nothing that counts as true, a list, or one value.
pub data Current : Type 0 where
  nothing : Current
  list : List Stored → Current
  scalar : Stored → Current

-- `cur_data[change_attr].append(…)`, after a value that counts as false has become `[]`.
unfoldable pub append_to : Current → Stored → Result Current
append_to nothing v = ok (list (v ∷ []))
append_to (list old) v = ok (list (old ++ v ∷ []))
append_to (scalar cur) v = err attribute_error

unfoldable pub given : Current → Given
given nothing = several []
given (list vs) = several vs
given (scalar v) = single v

-- Attributes with a sub table: the table, the column, and the rows.
pub record SubData : Type 0 where
  pub sub_table : String
  pub column : String
  pub rows : List (List Given)

unfoldable pub first_row : List (List Given) → Result (List Given)
first_row [] = err index_error
first_row (r ∷ rows) = ok r

unfoldable pub values_of : Row → List Given
values_of [] = []
values_of ((k, v) ∷ row) = single v ∷ values_of row

-- `get_spanner_table_for_dn`: the first table that has a row of that name.
unfoldable pub find_table : (String → Bool) → List String → Option String
find_table has [] = none
find_table has (t ∷ ts) = let rest = find_table has ts in if has t then some t else rest
