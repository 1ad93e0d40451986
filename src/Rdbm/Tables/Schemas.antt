-- ===== src/Rdbm/Tables/Schemas.antt =====
-- The tables that the classes of the schema files give.
use community_edition_setup.Prelude.{
  String, ◌≡◌, sym, ap, ◌∙◌, subst, inl, inr, Bool, true, false, not, ◌&&◌, Bool-cases, Option,
  none, some, List, [], ◌∷◌, ◌==◌, eq_iff, arith, ok, or_raise, key_error, >>=-eq-ok,
}
use community_edition_setup.Prelude.Dict
use community_edition_setup.Prelude.Dict.{Dict, contains, get-set}
use community_edition_setup.Rdbm.Types.{Schema}
use community_edition_setup.Rdbm.Tables.{
  SqlType, ObjectClass, Classes, columns_of, class_table, tables_of, extend_by, extend_by_options,
  without_top, or_empty, first_name, ignored, read_classes, read_subtable_attrs, get_sql_tables,
}
use community_edition_setup.Rdbm.Tables.Extending.{wanted, lists-full}
use community_edition_setup.Rdbm.Tables.Columns.{contains-columns_of, NodupKeys-columns_of}

-- No column stands twice, and none has a sub table.
pub record IsTable (subtable_attrs : Dict (List String)) (table : String) (cols : Dict SqlType)
    : Type 0 where
  pub once : Dict.NodupKeys cols
  pub apart :
      (a : String)
      → contains (Dict.keys cols) a ≡ true
      → contains (or_empty (Dict.get subtable_attrs table)) a ≡ false

module _ (schema : Schema) (rdbm_type : String) (subtable_attrs : Dict (List String)) where
  -- The table of a class: its columns are the attributes that the class is to have.
  pub record TableOf (obj_name : String) (obj : ObjectClass) (classes : Classes)
      (out : Classes × (String × Dict SqlType)) : Type 0 where
    pub is_table : IsTable subtable_attrs out.1.0 out.1.1
    pub complete :
        (a : String)
        → contains (Dict.keys out.1.1) a ≡ (
            wanted obj classes obj_name a
            && not (contains (or_empty (Dict.get subtable_attrs out.1.0)) a))

  found_of :
      (o : Option ObjectClass) (obj : ObjectClass) → or_raise key_error o ≡ ok obj → o ≡ some obj
  found_of none obj h = cc
  found_of (some x) obj h = cc

  of_columns :
      (obj_name : String) (obj : ObjectClass) (table : String) (classes included full : Classes)
      (final : ObjectClass) (cols : Dict SqlType)
      → extend_by_options obj_name obj.sql classes ≡ ok included
      → extend_by obj_name (without_top obj.sup) included ≡ ok full
      → Dict.get full obj_name ≡ some final
      → columns_of schema rdbm_type table
          (or_empty (Dict.get subtable_attrs table))
          []
          final.attributes
        ≡ ok cols
      → TableOf obj_name obj classes (full, (table, cols))
  of_columns obj_name obj table classes included full final cols i k f h =
      let subs = or_empty (Dict.get subtable_attrs table) in
      let all = λ (a : String).
        contains-columns_of schema rdbm_type table subs [] final.attributes cols a h in
      let full_lists = λ (a : String). lists-full obj_name obj classes included full a i k in
      record {
        is_table = record {
          once = NodupKeys-columns_of schema rdbm_type table subs [] final.attributes cols h;
          apart = λ a c. ground (arith, all a);
        };
        complete = λ a. all a ∙ ap (λ b. b && not (contains subs a)) (rw f at (full_lists a));
      }

  -- A class that is not ignored gets a table. Its columns are the attributes that the class lists,
  -- the further ones of its options, and those of the classes that the options include and of its
  -- superclasses but `top`; each stands once, and those with a sub table are left out.
  pub class_table-TableOf :
      (obj_name : String) (obj : ObjectClass) (classes : Classes)
      {out : Classes × (String × Dict SqlType)}
      → class_table schema rdbm_type subtable_attrs obj_name obj classes ≡ ok out
      → TableOf obj_name obj classes out
  unfolding class_table
  class_table-TableOf obj_name obj classes {out} h =
      let (table, _, h1) = >>=-eq-ok (first_name obj.names) _ h in
      let (included, i, h2) = >>=-eq-ok (extend_by_options obj_name obj.sql classes) _ h1 in
      let (full, k, h3) = >>=-eq-ok (extend_by obj_name (without_top obj.sup) included) _ h2 in
      let (final, f, h4) = >>=-eq-ok (or_raise key_error (Dict.get full obj_name)) _ h3 in
      let (cols, c, all) =
        >>=-eq-ok
          (columns_of schema rdbm_type table (or_empty (Dict.get subtable_attrs table)) []
            final.attributes)
          _ h4 in
      let e : (full, (table, cols)) ≡ out = cc all in
      subst (TableOf obj_name obj classes) e
        (of_columns obj_name obj table classes included full final cols i k (found_of _ final f) c)

  abbrev pub AllTables : Dict (Dict SqlType) → Type 0
  AllTables tables =
      (name : String) (cols : Dict SqlType)
      → Dict.get tables name ≡ some cols
      → IsTable subtable_attrs name cols

  AllTables-set :
      (tables : Dict (Dict SqlType)) (table : String) (cols : Dict SqlType)
      → AllTables tables
      → IsTable subtable_attrs table cols
      → AllTables (Dict.set tables table cols)
  AllTables-set tables table cols all one name found e = elim (Bool-cases (table == name)) [
    | inl same ↦
        let q : some cols ≡ some found = sym (get-set tables table name cols ∙ rw same) ∙ e in
        subst (λ n. IsTable subtable_attrs n found) ((eq_iff table name).0 same)
          (subst (IsTable subtable_attrs table) (cc q) one)
    | inr other ↦ all name found (sym (get-set tables table name cols ∙ rw other) ∙ e)
  ]

  AllTables-tables_of :
      (names : List String) (classes : Classes) (tables out : Dict (Dict SqlType))
      → AllTables tables
      → tables_of schema rdbm_type subtable_attrs names classes tables ≡ ok out
      → AllTables out
  unfolding tables_of
  AllTables-tables_of [] classes tables out all h = subst AllTables (cc h) all
  AllTables-tables_of (n ∷ names) classes tables out all h =
      let (obj, _, h1) = >>=-eq-ok (or_raise key_error (Dict.get classes n)) _ h in
      elim (Bool-cases (ignored obj)) [
        | inl skip ↦ AllTables-tables_of names classes tables out all (rw skip at h1)
        | inr keep ↦
            let (r, c, h2) =
              >>=-eq-ok (class_table schema rdbm_type subtable_attrs n obj classes) _
                (rw keep at h1) in
            AllTables-tables_of names r.0 (Dict.set tables r.1.0 r.1.1) out
              (AllTables-set tables r.1.0 r.1.1 all (class_table-TableOf n obj classes c).is_table)
              h2
      ]

-- In every table that `get_sql_tables` makes no column stands twice, and none has a sub table.
pub get_sql_tables-IsTable :
    (schema : Schema) (rdbm_type : String) (install_saml : Bool) (objs : List ObjectClass)
    {subs : Dict (List (List String))} {subtable_attrs : Dict (List String)}
    {tables : Dict (Dict SqlType)}
    → Dict.get schema.sub_tables rdbm_type ≡ some subs
    → read_subtable_attrs subs ≡ ok subtable_attrs
    → get_sql_tables schema rdbm_type install_saml objs ≡ ok tables
    → (name : String) (cols : Dict SqlType) → Dict.get tables name ≡ some cols
    → IsTable subtable_attrs name cols
unfolding get_sql_tables Dict.get
get_sql_tables-IsTable schema rdbm_type install_saml objs {subs} {subtable_attrs} {tables} s r h =
    let (classes, _, h1) = >>=-eq-ok (read_classes install_saml objs []) _ h in
    AllTables-tables_of schema rdbm_type subtable_attrs (Dict.keys classes) classes [] tables
      (λ name cols e. cc e) (rw (s, r) at h1)
