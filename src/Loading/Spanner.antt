-- ===== src/Loading/Spanner.antt =====
-- Loading the entries of an LDIF file into Spanner: the branch of `import_ldif` of
-- setup_app/utils/db_utils.py for it. What `spanner_client.write_data` is called with is the result.
-- The digest of `get_sha_digest` is a parameter, and so are the answers of the server. What was
-- written before an exception is not kept.
pub mod Writing
mod Tests
use community_edition_setup.Prelude.{
  String, ◌<>◌, Bool, true, false, ◌&&◌, Option, none, some, List, [], ◌∷◌, ◌++◌, ◌==◌,
  if◌then◌else◌, Result, ok, err, key_error, index_error, type_error, attribute_error, invalid_dn,
  or_raise, map_ok, ◌>>=◌,
}
use community_edition_setup.Prelude.Text.{chars}
use community_edition_setup.Prelude.Dict
use community_edition_setup.Prelude.Dict.{Dict, contains}
use community_edition_setup.Dn.{Rdn, get_doc_id_from_dn}
use community_edition_setup.Rdbm.Types.{Schema, in_subtable}
use community_edition_setup.Rdbm.Values.{
  Val, one, many, Stored, int_val, bool_val, text, json, same, get_rdbm_val, get_clean_object_class,
}
use community_edition_setup.Loading.{Entry, Row}
use community_edition_setup.Loading.Writes.{
  Given, single, several, Write, iterate, Current, nothing, list, scalar, append_to, given, SubData,
  first_row, values_of, find_table,
}
use community_edition_setup.Loading.Sql.{head_of, is_unit, rdn_name, clean_class, pop_class}

module _ (schema : Schema) (rdbm_type : String) (digest : String → String) where
  -- `val.encode()` is there for a text only.
  pub get_sha_digest : Stored → Result String
  get_sha_digest (text s) = ok (digest s)
  get_sha_digest (same (one s)) = ok (digest s)
  get_sha_digest v = err attribute_error

  pub spanner_val : String → Val → Result Stored
  spanner_val key val = get_rdbm_val schema rdbm_type key val (some "spanner")

  pub sub_rows : String → List String → List (List Given)
  sub_rows doc_id [] = []
  sub_rows doc_id (v ∷ vs) =
      (single (text doc_id) ∷ single (text (digest v)) ∷ single (text v) ∷ []) ∷ sub_rows doc_id vs

  -- The loop over the attributes of a new entry: the values of the main table, and those of the sub
  -- tables.
  pub collect : String → String → Entry → Row → List SubData → Result (Row × List SubData)
  unfolding iterate
  collect table doc_id [] vals subs = ok (vals, subs)
  collect table doc_id ((key, val) ∷ entry) vals subs = do
    v ← spanner_val key (many val)
    in_sub ← in_subtable schema rdbm_type table key
    let own = collect table doc_id entry (Dict.set vals key v) subs
    let apart =
        (iterate v >>= λ vs. collect table doc_id entry vals (
          subs
          ++ record { sub_table = table <> ("_" <> key); column = key; rows = sub_rows doc_id vs }
            ∷ []))
    if in_sub then apart else own

  -- `values=sdata[2][0]`: the first of the rows.
  pub sub_writes : List SubData → Result (List Write)
  unfolding first_row
  sub_writes [] = ok []
  sub_writes (s ∷ subs) = do
    row ← first_row s.rows
    rest ← sub_writes subs
    ok (
        record {
          table = s.sub_table;
          columns = "doc_id" ∷ "dict_doc_id" ∷ s.column ∷ [];
          values = row;
          update = false;
        }
        ∷ rest)

  pub write_entry : String → String → String → Entry → Result (List Write)
  unfolding collect sub_writes values_of
  write_entry dn name doc_id entry = do
    found ←
        collect name doc_id entry
          (("doc_id", text doc_id) ∷ ("dn", text dn) ∷ ("objectClass", text name) ∷ []) []
    let main : Write = record {
      table = name;
      columns = Dict.keys found.0;
      values = values_of found.0;
      update = false;
    }
    rest ← sub_writes found.1
    ok (main ∷ rest)

  append_each : String → List String → Current → Result Current
  unfolding append_to
  append_each attr [] cur = ok cur
  append_each attr (v ∷ vs) cur = do
    t ← spanner_val attr (one v)
    next ← append_to cur t
    append_each attr vs next

  -- The value takes the place of the digest, which is computed and not used.
  add_to_sub : String → String → String → List String → Result (List Write)
  unfolding get_sha_digest
  add_to_sub table attr doc_id [] = ok []
  add_to_sub table attr doc_id (v ∷ vs) = do
    t ← spanner_val attr (one v)
    dict_doc_id ← get_sha_digest t
    rest ← add_to_sub table attr doc_id vs
    ok (
        record {
          table = table <> ("_" <> attr);
          columns = "doc_id" ∷ "dict_doc_id" ∷ attr ∷ [];
          values = single (text doc_id) ∷ single t ∷ single t ∷ [];
          update = false;
        }
        ∷ rest)

  module _ (parse_dn : String → Option (List Rdn)) (tables : List String)
      (has : String → String → Bool) (select : String → String → String → List (Dict Current)) where
    table_for_dn : String → Option String
    unfolding find_table
    table_for_dn dn = find_table (λ t. has t dn) tables

    first_of : List (Dict Current) → Result (Dict Current)
    first_of [] = err index_error
    first_of (r ∷ rs) = ok r

    add_to_main : String → String → String → Entry → Result (List Write)
    unfolding append_each given first_of
    add_to_main table attr doc_id entry = do
      row ← first_of (select table attr doc_id)
      cur ← or_raise key_error (Dict.get row attr)
      new_val ← or_raise key_error (Dict.get entry attr)
      value ← append_each attr new_val cur
      ok (
          record {
            table = table;
            columns = "doc_id" ∷ attr ∷ [];
            values = single (text doc_id) ∷ given value ∷ [];
            update = true;
          }
          ∷ [])

    pub spanner_add : String → Entry → Result (List Write)
    unfolding table_for_dn add_to_sub add_to_main
    spanner_add dn entry = do
      doc_id ← get_doc_id_from_dn parse_dn dn
      names ← or_raise key_error (Dict.get entry "add")
      attr ← head_of names
      elim (table_for_dn dn) [
        | none ↦ ok []
        | some table ↦ do
          in_sub ← in_subtable schema rdbm_type table attr
          let to_sub =
              (or_raise key_error (Dict.get entry attr) >>= λ new_val.
              add_to_sub table attr doc_id new_val)
          if in_sub then to_sub else add_to_main table attr doc_id entry
      ]

    -- Where a name is in no table, `in_subtable` finds no sub table, and the write is to `None`.
    pub spanner_replace : String → Entry → Result (List Write)
    unfolding table_for_dn
    spanner_replace dn entry = do
      doc_id ← get_doc_id_from_dn parse_dn dn
      names ← or_raise key_error (Dict.get entry "replace")
      attr ← head_of names
      new_val ← or_raise key_error (Dict.get entry attr)
      v ← spanner_val attr (many new_val)
      let table : String = elim (table_for_dn dn) [ some t ↦ t | none ↦ "None" ]
      in_sub ← in_subtable schema rdbm_type table attr
      ok (
          if in_sub
          then []
          else record {
            table = table;
            columns = "doc_id" ∷ attr ∷ [];
            values = single (text doc_id) ∷ single v ∷ [];
            update = true;
          }
            ∷ [])

    pub spanner_insert : String → Entry → Result (List Write)
    unfolding write_entry
    spanner_insert dn entry = do
      rds ← or_raise invalid_dn (parse_dn dn)
      first ← rdn_name rds
      class ← get_clean_object_class entry
      name ← or_raise attribute_error class
      let written =
          (get_doc_id_from_dn parse_dn dn >>= λ doc_id.
          write_entry dn name doc_id (pop_class (clean_class entry)))
      if is_unit name then ok [] else written

    pub spanner_entry : String → Entry → Result (List Write)
    unfolding spanner_add spanner_replace spanner_insert
    spanner_entry dn entry =
        let is_there = contains (Dict.keys entry) in
        if is_there "add" && is_there "changetype"
        then spanner_add dn entry
        else if is_there "replace" && is_there "changetype"
        then spanner_replace dn entry
        else spanner_insert dn entry
