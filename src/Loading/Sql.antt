-- ===== src/Loading/Sql.antt =====
-- One entry: the three cases of `import_ldif` for MySQL and PostgreSQL. What LIKE finds, and the rows
-- that the server accepts at a commit, are parameters.
pub mod Inserting
pub mod Growing
pub mod Refining
mod Tests
use mathlib.Core.Option
use community_edition_setup.Prelude.{
  ℕ, String, ◌<>◌, Bool, true, false, not, ◌&&◌, ◌||◌, Option, none, some, List, [], ◌∷◌, ◌++◌,
  ◌==◌, if◌then◌else◌, any, Result, ok, err, key_error, index_error, attribute_error, type_error,
  database_error, invalid_dn, or_raise, map_ok, ◌>>=◌, ◌>>◌,
}
use community_edition_setup.Prelude.Text.{codes, lower, same_codes}
use community_edition_setup.Prelude.Dict
use community_edition_setup.Prelude.Dict.{Dict, contains}
use community_edition_setup.Dn.{Rdn, get_doc_id_from_dn}
use community_edition_setup.Rdbm.Types.{Schema}
use community_edition_setup.Rdbm.Values.{
  Val, one, many, Stored, int_val, bool_val, text, json, same, get_rdbm_val, get_clean_object_class,
  remove_top,
}
use community_edition_setup.Loading.{Entry, Row, Table, Database}

-- `tbl.dn == dn`, or another test of the column.
abbrev pub dn_is : (String → Bool) → Row → Bool
dn_is test row = elim (Dict.get row "dn") [ some (text t) ↦ test t | _ ↦ false ]

-- The first row that passes is changed; `none` if there is none.
update_rows : (Row → Bool) → (Row → Result Row) → List Row → Result (Option (List Row))
update_rows test change [] = ok none
update_rows test change (row ∷ rows) =
    let later = map_ok (Option.map (λ rest. row ∷ rest)) (update_rows test change rows) in
    if test row then map_ok (λ new. some (new ∷ rows)) (change row) else later

-- The same over the tables, one after the other.
update_tables : (Row → Bool) → (Table → Row → Result Row) → Database → Result (Option Database)
unfolding update_rows
update_tables test change [] = ok none
update_tables test change ((name, table) ∷ db) =
    update_rows test (change table) table.rows >>= λ found. elim found [
      | some rows ↦ ok (some ((name, record table { rows = rows }) ∷ db))
      | none ↦ map_ok (Option.map (λ rest. (name, table) ∷ rest)) (update_tables test change db)
    ]

-- An attribute of the object that is no column is not stored.
abbrev pub assign : Table → String → Stored → Row → Row
assign table attribute v row =
    if contains (Dict.keys table.columns) attribute then Dict.set row attribute v else row

-- `cur_val['v'].append(val_)` in MySQL, else `cur_val.append(val_)`.
append_one : Bool → String → Option Stored → Result (Option Stored)
append_one true v (some (json vs)) = ok (some (json (vs ++ v ∷ [])))
append_one true v cur = err type_error
append_one false v (some (same (many vs))) = ok (some (same (many (vs ++ v ∷ []))))
append_one false v cur = err attribute_error

append_all : Bool → List String → Option Stored → Result (Option Stored)
unfolding append_one
append_all mysql [] cur = ok cur
append_all mysql (v ∷ vs) cur = do next ← append_one mysql v cur; append_all mysql vs next

-- `entry['add'][0]`, `new_val[0]`
abbrev pub head_of : List String → Result String
head_of [] = err index_error
head_of (v ∷ vs) = ok v

put : Table → String → Option Stored → Row → Row
put table attribute none row = row
put table attribute (some v) row = assign table attribute v row

-- `objectClass.remove('top')` inside `get_clean_objcet_class` changes the entry's own list, the first
-- of the two that is not empty.
drop_top : String → Option (List String) → Entry → Entry → Entry
drop_top key (some (c ∷ cs)) entry other = Dict.set entry key (remove_top (c ∷ cs))
drop_top key _ entry other = other

pub clean_class : Entry → Entry
unfolding drop_top
clean_class entry =
    drop_top "objectClass" (Dict.get entry "objectClass") entry
      (drop_top "objectclass" (Dict.get entry "objectclass") entry entry)

-- `entry.pop('objectClass')`, or the other spelling.
pub pop_class : Entry → Entry
pop_class entry =
    if contains (Dict.keys entry) "objectClass"
    then Dict.erase entry "objectClass"
    else Dict.erase entry "objectclass"

pub is_unit : String → Bool
is_unit name = same_codes (lower name) (codes "organizationalunit")

-- The columns of the new object that have a value.
pub row_of : Dict Bool → Row → Row
row_of [] vals = []
row_of ((c, is_json) ∷ columns) vals =
    let rest = row_of columns vals in
    elim (Dict.get vals c) [ some v ↦ (c, v) ∷ rest | none ↦ rest ]

-- `dn_parsed[0][0]`
pub rdn_name : List Rdn → Result String
rdn_name [] = err index_error
rdn_name (rd ∷ rds) = ok rd.attr

module _ (schema : Schema) (rdbm_type : String) where
  -- `for lkey in entry: vals[lkey] = self.get_rdbm_val(lkey, entry[lkey])`
  pub typed_values : Entry → Row → Result Row
  typed_values [] vals = ok vals
  typed_values ((key, val) ∷ entry) vals = do
    v ← get_rdbm_val schema rdbm_type key (many val) none
    typed_values entry (Dict.set vals key v)

-- `session.commit()`
pub commit : (Table → Row → Bool) → Table → Row → Result Row
commit accepts table row = if accepts table row then ok row else err database_error

module _ (schema : Schema) (rdbm_type : String) (parse_dn : String → Option (List Rdn))
    (like_end : String → String → Bool) (accepts : Table → Row → Bool) where
  -- `get_sqlalchObj_for_dn` and what is done with the object; `none` where it is not found.
  update_dn : String → (Table → Row → Result Row) → Database → Result (Option Database)
  unfolding update_tables
  update_dn dn change db = update_tables (dn_is (λ t. t == dn)) change db >>= λ found. elim found [
    | some new ↦ ok (some new)
    | none ↦ update_tables (dn_is (λ t. like_end t dn)) change db
  ]

  add_values : String → List String → Table → Row → Result Row
  unfolding append_all put commit
  add_values attribute new_val table row = do
    is_json ← or_raise key_error (Dict.get table.columns attribute)
    if is_json
        then (do
          cur ← append_all (rdbm_type == "mysql") new_val (Dict.get row attribute)
          commit accepts table (put table attribute cur row))
        else (do v ← head_of new_val; commit accepts table (assign table attribute (text v) row))

  -- `continue` leaves the database as it is.
  pub sql_add : String → Entry → Database → Result Database
  unfolding update_dn add_values
  sql_add dn entry db = do
    names ← or_raise key_error (Dict.get entry "add")
    attribute ← head_of names
    new_val ← or_raise key_error (Dict.get entry attribute)
    found ← update_dn dn (add_values attribute new_val) db
    ok (Option.get_or found db)

  pub sql_replace : String → Entry → Database → Result Database
  unfolding update_dn commit
  sql_replace dn entry db = do
    names ← or_raise key_error (Dict.get entry "replace")
    attribute ← head_of names
    given ← or_raise key_error (Dict.get entry attribute)
    new_val ← get_rdbm_val schema rdbm_type attribute (many given) none
    found ← update_dn dn (λ table row. commit accepts table (assign table attribute new_val row)) db
    ok (Option.get_or found db)

  -- The new object, with its values, is added to its table.
  pub add_object : String → String → Entry → String → Database → Table → Result Database
  unfolding typed_values row_of commit pop_class clean_class
  add_object dn name entry doc_id db table = do
    vals ←
        typed_values schema rdbm_type (pop_class (clean_class entry))
          (("doc_id", text doc_id) ∷ ("dn", text dn) ∷ ("objectClass", text name) ∷ [])
    row ← commit accepts table (row_of table.columns vals)
    ok (Dict.set db name (record table { rows = table.rows ++ row ∷ [] }))

  pub insert_into : String → String → Entry → Database → Result Database
  unfolding add_object
  insert_into dn name entry db = do
    doc_id ← get_doc_id_from_dn parse_dn dn
    table ← or_raise key_error (Dict.get db name)
    let added = add_object dn name entry doc_id db table
    if any (dn_is (λ t. t == dn)) table.rows then ok db else added

  pub sql_insert : String → Entry → Database → Result Database
  unfolding is_unit insert_into rdn_name
  sql_insert dn entry db = do
    rds ← or_raise invalid_dn (parse_dn dn)
    first ← rdn_name rds
    class ← get_clean_object_class entry
    name ← or_raise attribute_error class
    let inserted = insert_into dn name entry db
    if is_unit name then ok db else inserted

  pub sql_entry : String → Entry → Database → Result Database
  unfolding sql_add sql_replace sql_insert
  sql_entry dn entry db =
      let has = contains (Dict.keys entry) in
      if has "add" && has "changetype"
      then sql_add dn entry db
      else if has "replace" && has "changetype"
      then sql_replace dn entry db
      else sql_insert dn entry db

  -- The loop over the entries, all of which are routed to this database.
  pub sql_entries : List (String × Entry) → Database → Result Database
  unfolding sql_entry
  sql_entries [] db = ok db
  sql_entries ((dn, entry) ∷ entries) db = do next ← sql_entry dn entry db; sql_entries entries next
