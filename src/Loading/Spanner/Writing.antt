-- ===== src/Loading/Spanner/Writing.antt =====
-- Sub tables get one row of a new entry, whatever the number of values.
use community_edition_setup.Prelude.{
  String, ◌<>◌, ◌≡◌, refl, sym, ap, ◌∙◌, Bool, true, false, List, [], ◌∷◌, ◌++◌, if◌then◌else◌,
  Result, ok, err, ◌>>=◌,
}
use community_edition_setup.Prelude.Dict
use community_edition_setup.Prelude.Dict.{Dict}
use community_edition_setup.Rdbm.Types.{Schema, in_subtable}
use community_edition_setup.Rdbm.Values.{many, same}
use community_edition_setup.Loading.{Entry, Row}
use community_edition_setup.Loading.Writes.{Write, iterate, SubData, first_row, values_of}
use community_edition_setup.Loading.Spanner.{
  spanner_val, sub_rows, collect, sub_writes, write_entry,
}

-- Two lists of sub tables that differ in later rows only.
Alike : List SubData → List SubData → Type 0
Alike [] [] = Unit
Alike (s ∷ ss) (t ∷ ts) =
    (s.sub_table ≡ t.sub_table)
    × (s.column ≡ t.column)
    × (first_row s.rows ≡ first_row t.rows)
    × Alike ss ts
Alike _ _ = ⊥

Alike-refl : (ss : List SubData) → Alike ss ss
unfolding Alike
Alike-refl [] = tt
Alike-refl (s ∷ ss) = (refl, refl, refl, Alike-refl ss)

Alike-append :
    (ss ts us vs : List SubData) → Alike ss ts → Alike us vs → Alike (ss ++ us) (ts ++ vs)
unfolding Alike
Alike-append [] [] us vs h k = k
Alike-append [] (t ∷ ts) us vs h k = absurd h
Alike-append (s ∷ ss) [] us vs h k = absurd h
Alike-append (s ∷ ss) (t ∷ ts) us vs (a, b, c, h) k = (a, b, c, Alike-append ss ts us vs h k)

module _ (schema : Schema) (rdbm_type : String) (digest : String → String) where
  sub_writes-Alike :
      (ss ts : List SubData)
      → Alike ss ts
      → sub_writes schema rdbm_type digest ss ≡ sub_writes schema rdbm_type digest ts
  unfolding sub_writes Alike
  sub_writes-Alike [] [] h = refl
  sub_writes-Alike [] (t ∷ ts) h = absurd h
  sub_writes-Alike (s ∷ ss) [] h = absurd h
  sub_writes-Alike (s ∷ ss) (t ∷ ts) (a, b, c, h) = rw (a, b, c, sub_writes-Alike ss ts h)

  -- What is written for the outcome of the loop.
  writes : String → Row × List SubData → Result (List Write)
  writes name found = sub_writes schema rdbm_type digest found.1 >>= λ rest. ok (
      record {
        table = name;
        columns = Dict.keys found.0;
        values = values_of found.0;
        update = false;
      }
      ∷ rest)

  after_call :
      {A : Type 0} (name : String) (r : Result A) (f g : A → Result (Row × List SubData))
      → ((x : A) → (f x >>= writes name) ≡ (g x >>= writes name))
      → ((r >>= f) >>= writes name) ≡ ((r >>= g) >>= writes name)
  after_call name (ok x) f g h = h x
  after_call name (err e) f g h = refl

  after_test :
      (name : String) (b : Bool) (x y x' y' : Result (Row × List SubData))
      → (x >>= writes name) ≡ (x' >>= writes name)
      → (y >>= writes name) ≡ (y' >>= writes name)
      → ((if b then x else y) >>= writes name) ≡ ((if b then x' else y') >>= writes name)
  after_test name true x y x' y' h k = h
  after_test name false x y x' y' h k = k

  collect-Alike :
      (name doc_id : String) (entry : Entry) (vals : Row) (ss ts : List SubData)
      → Alike ss ts
      → (collect schema rdbm_type digest name doc_id entry vals ss >>= writes name)
        ≡ (collect schema rdbm_type digest name doc_id entry vals ts >>= writes name)
  unfolding collect writes
  collect-Alike name doc_id [] vals ss ts h = rw (sub_writes-Alike ss ts h)
  collect-Alike name doc_id ((key, val) ∷ entry) vals ss ts h =
      after_call name (spanner_val schema rdbm_type digest key (many val)) _ _ (λ v.
        after_call name (in_subtable schema rdbm_type name key) _ _ (λ in_sub.
          after_test name in_sub _ _ _ _
            (after_call name (iterate v) _ _ (λ vs.
              collect-Alike name doc_id entry vals _ _ (Alike-append ss ts _ _ h (Alike-refl _))))
            (collect-Alike name doc_id entry (Dict.set vals key v) ss ts h)))

  -- The loop at an attribute with a sub table.
  collect_apart :
      (name doc_id key : String) (vs : List String) (after : Entry) (vals : Row) (ss : List SubData)
      → in_subtable schema rdbm_type name key ≡ ok true
      → spanner_val schema rdbm_type digest key (many vs) ≡ ok (same (many vs))
      → collect schema rdbm_type digest name doc_id ((key, vs) ∷ after) vals ss
        ≡ collect schema rdbm_type digest name doc_id after vals (
            ss
            ++ record {
              sub_table = name <> ("_" <> key);
              column = key;
              rows = sub_rows schema rdbm_type digest doc_id vs;
            }
              ∷ [])
  unfolding collect
  collect_apart name doc_id key vs after vals ss sub list = rw (list, sub)

  collect_first :
      (name doc_id key v : String) (vs ws : List String) (before after : Entry) (vals : Row)
      (ss : List SubData)
      → in_subtable schema rdbm_type name key ≡ ok true
      → spanner_val schema rdbm_type digest key (many (v ∷ vs)) ≡ ok (same (many (v ∷ vs)))
      → spanner_val schema rdbm_type digest key (many (v ∷ ws)) ≡ ok (same (many (v ∷ ws)))
      → (collect schema rdbm_type digest name doc_id (before ++ (key, v ∷ vs) ∷ after) vals ss
          >>= writes name)
        ≡ (collect schema rdbm_type digest name doc_id (before ++ (key, v ∷ ws) ∷ after) vals ss
            >>= writes name)
  unfolding collect Alike sub_rows first_row
  collect_first name doc_id key v vs ws [] after vals ss sub a b =
      ap (λ r. r >>= writes name) (collect_apart name doc_id key (v ∷ vs) after vals ss sub a)
      ∙ collect-Alike name doc_id after vals _ _
          (Alike-append ss ss _ _ (Alike-refl ss) (refl, refl, refl, tt))
      ∙ sym
          (ap (λ r. r >>= writes name) (collect_apart name doc_id key (v ∷ ws) after vals ss sub b))
  collect_first name doc_id key v vs ws ((k, val) ∷ before) after vals ss sub a b =
      after_call name (spanner_val schema rdbm_type digest k (many val)) _ _ (λ x.
        after_call name (in_subtable schema rdbm_type name k) _ _ (λ in_sub.
          after_test name in_sub _ _ _ _
            (after_call name (iterate x) _ _
              (λ ys. collect_first name doc_id key v vs ws before after vals _ sub a b))
            (collect_first name doc_id key v vs ws before after (Dict.set vals k x) ss sub a b)))

  -- Of an attribute with a sub table only the first value is written: entries that differ in the other
  -- values of such an attribute, where both lists are stored as they are, give the same writes.
  pub write_entry_first :
      (dn name doc_id key v : String) (vs ws : List String) (before after : Entry)
      → in_subtable schema rdbm_type name key ≡ ok true
      → spanner_val schema rdbm_type digest key (many (v ∷ vs)) ≡ ok (same (many (v ∷ vs)))
      → spanner_val schema rdbm_type digest key (many (v ∷ ws)) ≡ ok (same (many (v ∷ ws)))
      → write_entry schema rdbm_type digest dn name doc_id (before ++ (key, v ∷ vs) ∷ after)
        ≡ write_entry schema rdbm_type digest dn name doc_id (before ++ (key, v ∷ ws) ∷ after)
  unfolding write_entry writes
  write_entry_first dn name doc_id key v vs ws before after sub a b =
      collect_first name doc_id key v vs ws before after _ [] sub a b
