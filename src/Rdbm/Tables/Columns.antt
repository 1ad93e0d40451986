-- ===== src/Rdbm/Tables/Columns.antt =====
-- The columns of a table: each attribute once, and none that has a sub table.
use community_edition_setup.Prelude.{
  String, ◌≡◌, refl, ◌∙◌, subst, inl, inr, true, false, not, ◌&&◌, ◌||◌, Bool-cases, List, [], ◌∷◌,
  eq_iff, eq_refl, arith, Result, ok, err, >>=-eq-ok, map_ok,
}
use community_edition_setup.Prelude.Dict
use community_edition_setup.Prelude.Dict.{Dict, contains, get-set}
use community_edition_setup.Rdbm.Types.{Schema}
use community_edition_setup.Rdbm.Tables.{SqlType, get_sql_col_type, columns_of}

map_ok-eq-ok :
    {A B : Type 0} (f : A → B) (r : Result A) (y : B)
    → map_ok f r ≡ ok y
    → (x : A) × (r ≡ ok x) × (f x ≡ y)
map_ok-eq-ok f (ok x) y h = (x, refl, cc)
map_ok-eq-ok f (err e) y h = cc

module _ (schema : Schema) (rdbm_type table : String) (subs : List String) where
  -- A column that is added, taken apart.
  record Step (seen : List String) (attr : String) (attrs : List String) (cols : Dict SqlType)
      : Type 0 where
    t : SqlType
    rest : Dict SqlType
    later : columns_of schema rdbm_type table subs (attr ∷ seen) attrs ≡ ok rest
    all : (attr, t) ∷ rest ≡ cols

  columns_of-Step :
      (seen : List String) (attr : String) (attrs : List String) (cols : Dict SqlType)
      → (contains seen attr || contains subs attr) ≡ false
      → columns_of schema rdbm_type table subs seen (attr ∷ attrs) ≡ ok cols
      → Step seen attr attrs cols
  unfolding columns_of
  columns_of-Step seen attr attrs cols fresh h =
      let (t, _, h1) = >>=-eq-ok (get_sql_col_type schema rdbm_type attr table) _ (rw fresh at h) in
      let (rest, later, all) = map_ok-eq-ok _ _ cols h1 in
      record { t = t; rest = rest; later = later; all = all }

  columns_of_skipped :
      (seen : List String) (attr : String) (attrs : List String) (cols : Dict SqlType)
      → (contains seen attr || contains subs attr) ≡ true
      → columns_of schema rdbm_type table subs seen (attr ∷ attrs) ≡ ok cols
      → columns_of schema rdbm_type table subs seen attrs ≡ ok cols
  unfolding columns_of
  columns_of_skipped seen attr attrs cols old h = rw old at h

  columns_of-nil :
      (seen : List String) (cols : Dict SqlType)
      → columns_of schema rdbm_type table subs seen [] ≡ ok cols
      → cols ≡ []
  unfolding columns_of
  columns_of-nil seen cols h = cc h

  pub contains-columns_of :
      (seen attrs : List String) (cols : Dict SqlType) (a : String)
      → columns_of schema rdbm_type table subs seen attrs ≡ ok cols
      → contains (Dict.keys cols) a ≡ (contains attrs a && not (contains seen a || contains subs a))
  contains-columns_of seen [] cols a h = rw (columns_of-nil seen cols h)
  contains-columns_of seen (attr ∷ attrs) cols a h =
      elim (Bool-cases (contains seen attr || contains subs attr)) [
        | inl old ↦
            contains-columns_of seen attrs cols a (columns_of_skipped seen attr attrs cols old h)
            ∙ ground (arith, eq_iff attr a)
        | inr fresh ↦
            let s = columns_of-Step seen attr attrs cols fresh h in
            rw⁻¹ s.all (
              ground
                (arith, eq_iff attr a, contains-columns_of (attr ∷ seen) attrs s.rest a s.later))
      ]

  pub NodupKeys-columns_of :
      (seen attrs : List String) (cols : Dict SqlType)
      → columns_of schema rdbm_type table subs seen attrs ≡ ok cols
      → Dict.NodupKeys cols
  NodupKeys-columns_of seen [] cols h = rw (columns_of-nil seen cols h) tt
  NodupKeys-columns_of seen (attr ∷ attrs) cols h =
      elim (Bool-cases (contains seen attr || contains subs attr)) [
        | inl old ↦
            NodupKeys-columns_of seen attrs cols (columns_of_skipped seen attr attrs cols old h)
        | inr fresh ↦
            let s = columns_of-Step seen attr attrs cols fresh h in
            subst Dict.NodupKeys s.all (
              ground (
                arith,
                eq_refl attr,
                contains-columns_of (attr ∷ seen) attrs s.rest attr s.later,
              ),
              NodupKeys-columns_of (attr ∷ seen) attrs s.rest s.later,
            )
      ]
