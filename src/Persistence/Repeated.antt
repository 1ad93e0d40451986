-- ===== src/Persistence/Repeated.antt =====
-- When the assignment of groups succeeds: no group may be chosen twice.
use Prim.Native.Char.{Char, code}
use community_edition_setup.Prelude.{
  ℕ, zero, suc, ◌-◌, ◌<◌, String, ◌≡◌, refl, sym, ap, ◌∙◌, subst, ◌⊎◌, inl, inr, Bool, true, false,
  not, ◌&&◌, Bool-cases, some, List, [], ◌∷◌, ◌==◌, eq_iff, eq_refl, arith, length, Result, ok, err,
  or_raise, value_error, index_error, >>=-of_ok, ◌>>=◌, get_elem?,
}
use mathlib.Core.Bool.{false≢true}
use community_edition_setup.Prelude.Dict
use community_edition_setup.Prelude.Dict.{Dict, contains}
use community_edition_setup.Config.{Config}
use community_edition_setup.Persistence.{
  remove, leave_out, set_all, assign_mappings, is_choice, all_within,
}
use community_edition_setup.Persistence.Choosing.{
  Distinct, Distinct-keys, chosen, remove-Removed, chosen-some,
}

elem_of_lt :
    (xs : List String) (i : ℕ)
    → i < length xs
    → (x : String) × (get_elem? xs i ≡ some x) × (contains xs x ≡ true)
elem_of_lt [] i h = absurd (omega arith)
elem_of_lt (x ∷ xs) zero h = (x, refl, ground (arith, eq_refl x))
elem_of_lt (x ∷ xs) (suc i) h =
    let (y, e, c) = elem_of_lt xs i (omega arith) in (y, e, ground arith)

-- A digit of an accepted prompt names a group.
digit_names :
    (bl : List String) (c : Char) (s : String)
    → all_within (length bl) (String.◌∷◌ c s) ≡ true
    → (m : String) × (get_elem? bl (code c - b'1') ≡ some m) × (contains bl m ≡ true)
unfolding all_within
digit_names bl c s h = elem_of_lt bl (code c - b'1') (ground arith)

rest_within :
    (n : ℕ) (c : Char) (s : String) → all_within n (String.◌∷◌ c s) ≡ true → all_within n s ≡ true
unfolding all_within
rest_within n c s h = ground arith

remove-ok :
    (m : String) (ms : List String)
    → contains ms m ≡ true
    → (out : List String) × (remove m ms ≡ ok out)
unfolding remove
remove-ok m [] h = cc
remove-ok m (x ∷ xs) h = elim (Bool-cases (x == m)) [
  | inl same ↦ (xs, rw same)
  | inr other ↦ let (ys, e) = remove-ok m xs (ground arith) in (x ∷ ys, rw other (rw e))
]

remove-err : (m : String) (ms : List String) → contains ms m ≡ false → remove m ms ≡ err value_error
unfolding remove
remove-err m [] h = refl
remove-err m (x ∷ xs) h = ground (arith, remove-err m xs)

-- The groups of a list are different, and all of them stand in another.
record Fits (names ms : List String) : Type 0 where
  distinct : Distinct names
  there : (g : String) → contains names g ≡ true → contains ms g ≡ true

Fits-cons :
    (m : String) (names ms rest : List String)
    → contains ms m ≡ true
    → ((g : String) → contains rest g ≡ (contains ms g && not (m == g)))
    → Fits names rest
    → Fits (m ∷ names) ms
Fits-cons m names ms rest h left f = record {
  distinct = (
    elim (Bool-cases (contains names m)) [
      | inl again ↦
          absurd_true (contains rest m) (left m ∙ ground (arith, eq_refl m)) (f.there m again)
      | inr new ↦ new
    ],
    f.distinct,
  );
  there = λ g c. elim (Bool-cases (contains names g)) [
    | inl later ↦ ground (arith, f.there g later, left g)
    | inr now ↦ ground (arith, eq_iff m g)
  ];
}
  where
    absurd_true : (b : Bool) → b ≡ false → b ≡ true → contains names m ≡ false
    absurd_true b h k = absurd (false≢true (sym h ∙ k))

Fits-tail :
    (m : String) (names ms rest : List String)
    → ((g : String) → contains rest g ≡ (contains ms g && not (m == g)))
    → Fits (m ∷ names) ms
    → Fits names rest
Fits-tail m names ms rest left f = record {
  distinct = f.distinct.1;
  there = λ g c. ground (arith, left g, f.there g, f.distinct.0, eq_iff m g);
}

Outcome : List String → String → List String → Type 0
Outcome bl s ms =
    ((out : List String) × (leave_out bl s ms ≡ ok out) × Fits (chosen bl s) ms)
    ⊎ ((leave_out bl s ms ≡ err value_error) × (Fits (chosen bl s) ms → ⊥))

leave_out-Outcome :
    (bl : List String) (s : String) (ms : List String)
    → all_within (length bl) s ≡ true
    → Distinct ms
    → Outcome bl s ms
unfolding Outcome leave_out
leave_out-Outcome bl String.[] ms w d =
    inl (ms, refl, record { distinct = tt; there = λ g h. cc h })
leave_out-Outcome bl (String.◌∷◌ c s) ms w d =
    let (m, e, _) = digit_names bl c s w in
    let all = chosen-some bl c s m e in
    let found : or_raise index_error (get_elem? bl (code c - b'1')) ≡ ok m =
      ap (or_raise index_error) e in
    elim (Bool-cases (contains ms m)) [
      | inl there ↦
          let (rest, r) = remove-ok m ms there in
          let q = remove-Removed m ms rest d r in
          elim (leave_out-Outcome bl s rest (rest_within (length bl) c s w) q.distinct) [
            | inl (out, l, f) ↦ inl (
              out,
              >>=-of_ok _ _ _ _ found (>>=-of_ok _ _ _ _ r l),
              subst (λ names. Fits names ms) (sym all)
                  (Fits-cons m (chosen bl s) ms rest there q.left f),
            )
            | inr (l, n) ↦ inr (
              >>=-of_ok _ _ _ _ found (>>=-of_ok _ _ _ _ r l),
              λ f.
                  n (
                    Fits-tail m (chosen bl s) ms rest q.left
                      (subst (λ names. Fits names ms) all f)),
            )
          ]
      | inr gone ↦ inr (
        >>=-of_ok _ _ _ _ found (stops _ _ (remove-err m ms gone)),
        λ f.
            false≢true (
              sym gone
              ∙ (subst (λ names. Fits names ms) all f).there m (ground (arith, eq_refl m))),
      )
    ]
  where
    stops :
        (r : Result (List String)) (f : List String → Result (List String))
        → r ≡ err value_error
        → (r >>= f) ≡ err value_error
    stops r f h = rw h

-- What is chosen stands in the list.
chosen_there :
    (bl : List String) (s : String) (g : String)
    → all_within (length bl) s ≡ true
    → contains (chosen bl s) g ≡ true
    → contains bl g ≡ true
chosen_there bl String.[] g w h = cc h
chosen_there bl (String.◌∷◌ c s) g w h =
    let (m, e, there) = digit_names bl c s w in
    elim (Bool-cases (m == g)) [
      | inl same ↦ subst (λ x. contains bl x ≡ true) ((eq_iff m g).0 same) there
      | inr other ↦
          chosen_there bl s g (rest_within (length bl) c s w)
            (sym (rw (chosen-some bl c s m e) (rw other)) ∙ h)
    ]

within_of_choice : (n : ℕ) (s : String) → is_choice n s ≡ true → all_within n s ≡ true
unfolding is_choice
within_of_choice n s h = ground arith

assign_raises :
    (cfg : Config) (prompt : String)
    → leave_out (Dict.keys cfg.bucket_dict) prompt (Dict.keys cfg.bucket_dict) ≡ err value_error
    → assign_mappings cfg prompt ≡ err value_error
unfolding assign_mappings
assign_raises cfg prompt l = rw l

-- For a prompt that is accepted, and a bucket table without repeated groups, the assignment succeeds exactly where no group is chosen twice; where
-- one is, it raises `ValueError`.
pub assign_mappings-Distinct :
    (cfg : Config) (prompt : String)
    → Dict.NodupKeys cfg.bucket_dict
    → is_choice (length (Dict.keys cfg.bucket_dict)) prompt ≡ true
    → (Distinct (chosen (Dict.keys cfg.bucket_dict) prompt)
        × ((after : Config) × (assign_mappings cfg prompt ≡ ok after)))
      ⊎ ((Distinct (chosen (Dict.keys cfg.bucket_dict) prompt) → ⊥)
          × (assign_mappings cfg prompt ≡ err value_error))
unfolding assign_mappings Outcome
assign_mappings-Distinct cfg prompt d h =
    let bl = Dict.keys cfg.bucket_dict in
    let w = within_of_choice (length bl) prompt h in
    elim (leave_out-Outcome bl prompt bl w (Distinct-keys cfg.bucket_dict d)) [
      | inl (ms, l, f) ↦ inl (
        f.distinct,
        (
          record cfg { mapping_locations = set_all "couchbase" ms cfg.mapping_locations },
          >>=-of_ok _ _ _ _ l refl,
        ),
      )
      | inr (l, n) ↦ inr (
        λ q. n (record { distinct = q; there = λ g c. chosen_there bl prompt g w c }),
        assign_raises cfg prompt l,
      )
    ]
