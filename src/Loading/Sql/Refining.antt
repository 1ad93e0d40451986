-- ===== src/Loading/Sql/Refining.antt =====
-- The tables as one map from the names of a table and of an entry to a row, and what a new entry
-- does to that map.
use community_edition_setup.Prelude.{
  String, ◌≡◌, refl, sym, ap, ◌∙◌, subst, Bool, true, false, ◌&&◌, if◌then◌else◌, ◌⊎◌, inl, inr,
  Bool-cases, Option, none, some, List, [], ◌∷◌, ◌++◌, ◌==◌, eq_iff, arith, any, ok, key_error,
  attribute_error, invalid_dn, or_raise, >>=-eq-ok,
}
use mathlib.Core.Path.{fun_ext}
use community_edition_setup.Prelude.Dict
use community_edition_setup.Prelude.Dict.{Dict, contains, get-set}
use community_edition_setup.Dn.{Rdn, get_doc_id_from_dn}
use community_edition_setup.Rdbm.Types.{Schema}
use community_edition_setup.Rdbm.Values.{text, get_clean_object_class}
use community_edition_setup.Loading.{Entry, Row, Table, Database}
use community_edition_setup.Loading.Sql.{dn_is, insert_into, sql_insert, is_unit, rdn_name}
use community_edition_setup.Loading.Sql.Inserting.{HasDn, add_object-Added, or_raise-eq-ok}

-- The first row with the name of an entry.
abbrev pub row_with : String → List Row → Option Row
row_with dn [] = none
row_with dn (row ∷ rows) = if dn_is (λ t. t == dn) row then some row else row_with dn rows

abbrev pub row_in : String → Option Table → Option Row
row_in dn none = none
row_in dn (some table) = row_with dn table.rows

-- The abstract view of the database: it forgets the tables' columns, the order of the rows, and
-- rows behind another one of their name.
abbrev pub Entries : Type 0
Entries = String → String → Option Row

abbrev pub view : Database → Entries
view db name dn = row_in dn (Dict.get db name)

-- The abstract step: an entry is put into a table unless one of its name is there.
abbrev pub or_else : Option Row → Row → Option Row
or_else none row = some row
or_else (some old) row = some old

abbrev pub put_new : String → String → Row → Entries → Entries
put_new name dn row entries n d =
    if name == n && dn == d then or_else (entries n d) row else entries n d

row_with-append :
    (d : String) (rows : List Row) (row : Row)
    → row_with d (rows ++ row ∷ [])
      ≡ (if dn_is (λ t. t == d) row then or_else (row_with d rows) row else row_with d rows)
row_with-append d [] row = ground arith
row_with-append d (r ∷ rows) row = ground (arith, row_with-append d rows row)

dn_is-stored :
    (dn d : String) (row : Row)
    → Dict.get row "dn" ≡ some (text dn)
    → dn_is (λ t. t == d) row ≡ (dn == d)
dn_is-stored dn d row stored = rw (stored, dn_is) refl

-- A row of that name is found where the test of the code passes.
row_with-any :
    (dn : String) (rows : List Row)
    → any (dn_is (λ t. t == dn)) rows ≡ true
    → (row : Row) × (row_with dn rows ≡ some row) × (dn_is (λ t. t == dn) row ≡ true)
row_with-any dn [] e = cc
row_with-any dn (r ∷ rows) e = elim (Bool-cases (dn_is (λ t. t == dn) r)) [
  | inl this ↦ (r, rw this refl, this)
  | inr other ↦
      let found = row_with-any dn rows (rw other at e) in (found.0, rw other found.1, found.2)
]

-- One more row in one table is the abstract step.
view-added :
    (db : Database) (name dn : String) (table : Table) (row : Row)
    → Dict.get db name ≡ some table
    → Dict.get row "dn" ≡ some (text dn)
    → view (Dict.set db name (record table { rows = table.rows ++ row ∷ [] }))
      ≡ put_new name dn row (view db)
view-added db name dn table row t stored = fun_ext λ n. fun_ext λ d.
    let new : Table = record table { rows = table.rows ++ row ∷ [] } in
    elim (Bool-cases (name == n)) [
      | inl this ↦
          let same : name ≡ n = (eq_iff name n).0 this in
          let t' : Dict.get db n ≡ some table = subst (λ m. Dict.get db m ≡ some table) same t in
          ap (row_in d) (get-set db name n new)
          ∙ rw (this, t', row_with-append d table.rows row, dn_is-stored dn d row stored) refl
      | inr other ↦ ap (row_in d) (get-set db name n new) ∙ rw other refl
    ]

-- Putting what is there already changes nothing.
put_new-there :
    (db : Database) (name dn : String) (table : Table) (row : Row)
    → Dict.get db name ≡ some table
    → row_with dn table.rows ≡ some row
    → view db ≡ put_new name dn row (view db)
put_new-there db name dn table row t there = fun_ext λ n. fun_ext λ d.
    elim (Bool-cases (name == n && dn == d)) [
      | inl this ↦
          let found : view db n d ≡ some row = at_same (name == n) (dn == d) this (λ a b.
            subst (λ m. view db m d ≡ some row) ((eq_iff name n).0 a)
              (subst (λ e. view db name e ≡ some row) ((eq_iff dn d).0 b)
                (ap (row_in dn) t ∙ there))) in
          rw this (rw found refl)
      | inr other ↦ rw other refl
    ]
  where
    at_same : (a b : Bool) → (a && b) ≡ true → {P : Type 0} → (a ≡ true → b ≡ true → P) → P
    at_same true true both f = f refl refl
    at_same true false both f = cc
    at_same false b both f = cc

module _ (schema : Schema) (rdbm_type : String) (parse_dn : String → Option (List Rdn))
    (like_end : String → String → Bool) (accepts : Table → Row → Bool) (dn : String) (entry : Entry)
    (no_dn : Dict.get entry "dn" ≡ none) where
  -- The row of an entry is put into the view, where the entry is new.
  pub record PutNew (name : String) (db db' : Database) : Type 0 where
    pub row : Row
    pub named : dn_is (λ t. t == dn) row ≡ true
    pub same : view db' ≡ put_new name dn row (view db)

  insert_into-PutNew :
      (name : String) (db db' : Database)
      → HasDn db
      → insert_into schema rdbm_type parse_dn like_end accepts dn name entry db ≡ ok db'
      → PutNew name db db'
  unfolding insert_into
  insert_into-PutNew name db db' columns h =
      let (doc_id, d, h1) = >>=-eq-ok (get_doc_id_from_dn parse_dn dn) _ h in
      let (table, t, h2) = >>=-eq-ok (or_raise key_error (Dict.get db name)) _ h1 in
      let t' : Dict.get db name ≡ some table = or_raise-eq-ok _ _ table t in
      elim (Bool-cases (any (dn_is (λ t. t == dn)) table.rows)) [
        | inl there ↦
            let same : db ≡ db' = cc (rw there at h2) in
            let found = row_with-any dn table.rows there in
            record {
              row = found.0;
              named = found.2;
              same =
                  subst (λ (x : Database). view x ≡ put_new name dn found.0 (view db)) same
                    (put_new-there db name dn table found.0 t' found.1);
            }
        | inr fresh ↦
            let a =
              add_object-Added schema rdbm_type parse_dn like_end accepts dn entry no_dn name doc_id
                db table db' (columns name table t') (rw fresh at h2) in
            record {
              row = a.row;
              named = a.named;
              same = ap view a.now ∙ view-added db name dn table a.row t' a.stored;
            }
      ]

  -- Loading a new entry refines the abstract step: if it returns, the entry has a class; for an
  -- organizational unit the view stays as it is, and for any other class a row with the entry's
  -- name is put into the table of the class, unless one of that name is there. This holds if each
  -- table has a column for the name and the entry has no attribute `dn`.
  pub sql_insert-Refines :
      (db db' : Database)
      → HasDn db
      → sql_insert schema rdbm_type parse_dn like_end accepts dn entry db ≡ ok db'
      → (class : String) × (get_clean_object_class entry ≡ ok (some class))
        × (((is_unit class ≡ true) × (view db' ≡ view db))
            ⊎ ((is_unit class ≡ false) × PutNew class db db'))
  unfolding sql_insert
  sql_insert-Refines db db' columns h =
      let (rds, p, h1) = >>=-eq-ok (or_raise invalid_dn (parse_dn dn)) _ h in
      let (first, f, h2) = >>=-eq-ok (rdn_name rds) _ h1 in
      let (class, c, h3) = >>=-eq-ok (get_clean_object_class entry) _ h2 in
      let (name, n, h4) = >>=-eq-ok (or_raise attribute_error class) _ h3 in
      (
        name,
        c ∙ ap ok (or_raise-eq-ok _ _ name n),
        elim (Bool-cases (is_unit name)) [
          | inl unit ↦ let same : db ≡ db' = cc (rw unit at h4) in inl (unit, ap view (sym same))
          | inr other ↦ inr (other, insert_into-PutNew name db db' columns (rw other at h4))
        ],
      )
