-- ===== src/Loading/Sql/Inserting.antt =====
-- New entries: loading one twice is loading it once, and what is stored has its columns' types.
use community_edition_setup.Prelude.{
  String, ◌≡◌, refl, ap, subst, ◌∙◌, Bool, true, false, inl, inr, Bool-cases, Option-cases, Option,
  none, some, List, [], ◌∷◌, ◌++◌, ◌==◌, eq_iff, eq_refl, arith, if◌then◌else◌, any, Exception, ok,
  key_error, attribute_error, invalid_dn, or_raise, >>=-eq-ok,
}
use community_edition_setup.Prelude.Dict
use community_edition_setup.Prelude.Dict.{Dict, contains, get-set, get-erase}
use community_edition_setup.Dn.{Rdn, get_doc_id_from_dn}
use community_edition_setup.Rdbm.Types.{Schema}
use community_edition_setup.Rdbm.Values.{
  many, Stored, text, get_rdbm_val, get_clean_object_class, remove_top,
}
use community_edition_setup.Loading.{Entry, Row, Table, Database}
use community_edition_setup.Loading.Sql.{
  dn_is, row_of, drop_top, clean_class, pop_class, typed_values, commit, add_object, insert_into,
  sql_insert, is_unit, rdn_name,
}

row_of-none :
    (d : String) (j : Bool) (columns : Dict Bool) (vals : Row)
    → Dict.get vals d ≡ none
    → row_of ((d, j) ∷ columns) vals ≡ row_of columns vals
unfolding row_of
row_of-none d j columns vals e = rw (e, row_of)

row_of-some :
    (d : String) (j : Bool) (columns : Dict Bool) (vals : Row) (v : Stored)
    → Dict.get vals d ≡ some v
    → row_of ((d, j) ∷ columns) vals ≡ (d, v) ∷ row_of columns vals
unfolding row_of
row_of-some d j columns vals v e = rw (e, row_of)

-- A column that the table has gets the value that was given for it.
pub get-row_of :
    (columns : Dict Bool) (vals : Row) (c : String)
    → Dict.get (row_of columns vals) c
      ≡ (if contains (Dict.keys columns) c then Dict.get vals c else none)
unfolding row_of Dict.get
get-row_of [] vals c = refl
get-row_of ((d, j) ∷ columns) vals c = elim (Option-cases (Dict.get vals d)) [
  | inl e ↦
      rw (row_of-none d j columns vals e) (ground (arith, get-row_of columns vals c, eq_iff d c, e))
  | inr (v, e) ↦
      rw (row_of-some d j columns vals v e)
        (ground (arith, get-row_of columns vals c, eq_iff d c, e))
]

-- A key that the entry does not have keeps its value.
pub typed_values_other :
    (schema : Schema) (rdbm_type : String) (entry : Entry) (vals out : Row) (key : String)
    → Dict.get entry key ≡ none
    → typed_values schema rdbm_type entry vals ≡ ok out
    → Dict.get out key ≡ Dict.get vals key
unfolding typed_values Dict.get
typed_values_other schema rdbm_type [] vals out key h e = cc
typed_values_other schema rdbm_type ((k, v) ∷ entry) vals out key h e =
    let (s, a, b) = >>=-eq-ok (get_rdbm_val schema rdbm_type k (many v) none) _ e in
    typed_values_other schema rdbm_type entry (Dict.set vals k s) out key (ground arith) b
    ∙ get-set vals k key s
    ∙ ground arith

drop_top_dn :
    (key : String) (o : Option (List String)) (entry other : Entry)
    → (key == "dn") ≡ false
    → Dict.get other "dn" ≡ Dict.get entry "dn"
    → Dict.get (drop_top key o entry other) "dn" ≡ Dict.get entry "dn"
unfolding drop_top
drop_top_dn key (some (c ∷ cs)) entry other h e =
    ground (arith, get-set entry key "dn" (remove_top (c ∷ cs)))
drop_top_dn key (some []) entry other h e = e
drop_top_dn key none entry other h e = e

clean_class_dn : (entry : Entry) → Dict.get (clean_class entry) "dn" ≡ Dict.get entry "dn"
unfolding clean_class
clean_class_dn entry =
    drop_top_dn "objectClass" _ entry _ refl (drop_top_dn "objectclass" _ entry entry refl refl)

pop_class_dn : (entry : Entry) → Dict.get (pop_class entry) "dn" ≡ Dict.get entry "dn"
unfolding pop_class
pop_class_dn entry =
    ground (arith, get-erase entry "objectClass" "dn", get-erase entry "objectclass" "dn")

any-concat :
    (p : Row → Bool) (rows : List Row) (row : Row) → p row ≡ true → any p (rows ++ row ∷ []) ≡ true
any-concat p [] row h = ground arith
any-concat p (r ∷ rows) row h = ground (arith, any-concat p rows row)

pub commit-eq-ok :
    (accepts : Table → Row → Bool) (table : Table) (row out : Row)
    → commit accepts table row ≡ ok out
    → out ≡ row
unfolding commit
commit-eq-ok accepts table row out h = ground arith

pub or_raise-eq-ok :
    {A : Type 0} (e : Exception) (o : Option A) (x : A) → or_raise e o ≡ ok x → o ≡ some x
or_raise-eq-ok e none x h = cc
or_raise-eq-ok e (some y) x h = cc

pub get-set_self :
    (db : Database) (name : String) (table : Table)
    → Dict.get (Dict.set db name table) name ≡ some table
get-set_self db name table = get-set db name name table ∙ rw (eq_refl name)

pub start_dn :
    (doc_id dn name : String)
    → Dict.get (("doc_id", text doc_id) ∷ ("dn", text dn) ∷ ("objectClass", text name) ∷ []) "dn"
      ≡ some (text dn)
unfolding Dict.get
start_dn doc_id dn name = refl

dn_is_of_text :
    (dn : String) (row : Row) → Dict.get row "dn" ≡ some (text dn) → dn_is (λ t. t == dn) row ≡ true
dn_is_of_text dn row e = rw (e, dn_is) (eq_refl dn)

-- Every table has a column for the name of the entry.
abbrev pub HasDn : Database → Type 0
HasDn db =
    (name : String) (table : Table)
    → Dict.get db name ≡ some table
    → contains (Dict.keys table.columns) "dn" ≡ true

module _ (schema : Schema) (rdbm_type : String) (parse_dn : String → Option (List Rdn))
    (like_end : String → String → Bool) (accepts : Table → Row → Bool) (dn : String) (entry : Entry)
    (no_dn : Dict.get entry "dn" ≡ none) where
  -- What `add_object` leaves: the table with one row more, which has the name of the entry.
  pub record Added (name doc_id : String) (db : Database) (table : Table) (out : Database)
      : Type 0 where
    pub row : Row
    pub named : dn_is (λ t. t == dn) row ≡ true
    pub stored : Dict.get row "dn" ≡ some (text dn)
    pub now : out ≡ Dict.set db name (record table { rows = table.rows ++ row ∷ [] })

  pub add_object-Added :
      (name doc_id : String) (db : Database) (table : Table) (out : Database)
      → contains (Dict.keys table.columns) "dn" ≡ true
      → add_object schema rdbm_type parse_dn like_end accepts dn name entry doc_id db table ≡ ok out
      → Added name doc_id db table out
  unfolding add_object
  add_object-Added name doc_id db table out column h =
      let (vals, typed, h1) =
        >>=-eq-ok (typed_values schema rdbm_type (pop_class (clean_class entry)) _) _ h in
      let (row, accepted, all) =
        >>=-eq-ok (commit accepts table (row_of table.columns vals)) _ h1 in
      let same : row ≡ row_of table.columns vals = commit-eq-ok accepts table _ row accepted in
      let given : Dict.get vals "dn" ≡ some (text dn) =
        typed_values_other schema rdbm_type _ _ vals "dn"
          (pop_class_dn (clean_class entry) ∙ clean_class_dn entry ∙ no_dn) typed
        ∙ start_dn doc_id dn name in
      let stored : Dict.get row "dn" ≡ some (text dn) =
        ap (λ r. Dict.get r "dn") same ∙ get-row_of table.columns vals "dn" ∙ rw column given in
      record { row = row; named = dn_is_of_text dn row stored; stored = stored; now = cc all }

  pub insert_into_there :
      (name doc_id : String) (db : Database) (table : Table)
      → get_doc_id_from_dn parse_dn dn ≡ ok doc_id
      → Dict.get db name ≡ some table
      → any (dn_is (λ t. t == dn)) table.rows ≡ true
      → insert_into schema rdbm_type parse_dn like_end accepts dn name entry db ≡ ok db
  unfolding insert_into
  insert_into_there name doc_id db table d t there = rw d (rw t (rw there))

  insert_into-insert_into :
      (name : String) (db db' : Database)
      → HasDn db
      → insert_into schema rdbm_type parse_dn like_end accepts dn name entry db ≡ ok db'
      → insert_into schema rdbm_type parse_dn like_end accepts dn name entry db' ≡ ok db'
  unfolding insert_into
  insert_into-insert_into name db db' columns h =
      let (doc_id, d, h1) = >>=-eq-ok (get_doc_id_from_dn parse_dn dn) _ h in
      let (table, t, h2) = >>=-eq-ok (or_raise key_error (Dict.get db name)) _ h1 in
      elim (Bool-cases (any (dn_is (λ t. t == dn)) table.rows)) [
        | inl there ↦
            let same : db ≡ db' = cc (rw there at h2) in
            subst
              (λ x. insert_into schema rdbm_type parse_dn like_end accepts dn name entry x ≡ ok db')
              same h
        | inr fresh ↦
            let a =
              add_object-Added name doc_id db table db'
                (columns name table (or_raise-eq-ok _ _ table t)) (rw fresh at h2) in
            insert_into_there name doc_id db' (record table { rows = table.rows ++ a.row ∷ [] }) d
              (ap (λ (x : Database). Dict.get x name) a.now ∙ get-set_self db name _)
              (any-concat _ table.rows a.row a.named)
      ]

  -- Loading an entry a second time changes nothing and raises nothing, if each table has a column
  -- for the entry's name, and the entry itself has no attribute `dn`.
  pub sql_insert-sql_insert :
      (db db' : Database)
      → HasDn db
      → sql_insert schema rdbm_type parse_dn like_end accepts dn entry db ≡ ok db'
      → sql_insert schema rdbm_type parse_dn like_end accepts dn entry db' ≡ ok db'
  unfolding sql_insert
  sql_insert-sql_insert db db' columns h =
      let (rds, p, h1) = >>=-eq-ok (or_raise invalid_dn (parse_dn dn)) _ h in
      let (first, f, h2) = >>=-eq-ok (rdn_name rds) _ h1 in
      let (class, c, h3) = >>=-eq-ok (get_clean_object_class entry) _ h2 in
      let (name, n, h4) = >>=-eq-ok (or_raise attribute_error class) _ h3 in
      rw p (
        rw f (
          rw c (
            rw n (elim (Bool-cases (is_unit name)) [
              | inl unit ↦ rw unit
              | inr other ↦ rw other (insert_into-insert_into name db db' columns (rw other at h4))
            ]))))
