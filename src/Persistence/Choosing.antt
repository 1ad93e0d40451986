-- ===== src/Persistence/Choosing.antt =====
-- `promptForBackendMappings`: the groups that are chosen stay where they are, the others go to
-- Couchbase.
use Prim.Native.Char.{Char, code}
use community_edition_setup.Prelude.{
  ◌-◌, String, ◌≡◌, refl, sym, ap, ◌∙◌, subst, inl, inr, true, false, not, ◌&&◌, Bool-cases, Option,
  none, some, List, [], ◌∷◌, ◌==◌, eq_iff, arith, if◌then◌else◌, Result, ok, err, or_raise,
  index_error, >>=-eq-ok, map_ok, get_elem?,
}
use community_edition_setup.Prelude.Dict
use community_edition_setup.Prelude.Dict.{Dict, contains, get-set}
use community_edition_setup.Config.{Config}
use community_edition_setup.Persistence.{remove, leave_out, set_all, assign_mappings}

abbrev pub Distinct : List String → Type 0
Distinct [] = Unit
Distinct (x ∷ xs) = (contains xs x ≡ false) × Distinct xs

pub Distinct-keys : {V : Type 0} (d : Dict V) → Dict.NodupKeys d → Distinct (Dict.keys d)
Distinct-keys [] h = tt
Distinct-keys ((k, v) ∷ d) (fresh, h) = (fresh, Distinct-keys d h)

-- The groups that the digits of a prompt name.
abbrev pub chosen : List String → String → List String
chosen bucket_list String.[] = []
chosen bucket_list (String.◌∷◌ c s) = elim (get_elem? bucket_list (code c - b'1')) [
  | some m ↦ m ∷ chosen bucket_list s
  | none ↦ chosen bucket_list s
]

-- One removal.
pub record Removed (m : String) (ms out : List String) : Type 0 where
  pub distinct : Distinct out
  pub left : (g : String) → contains out g ≡ (contains ms g && not (m == g))

pub remove-Removed :
    (m : String) (ms out : List String) → Distinct ms → remove m ms ≡ ok out → Removed m ms out
unfolding remove
remove-Removed m [] out d h = cc
remove-Removed m (x ∷ xs) out (fresh, d) h = elim (Bool-cases (x == m)) [
  | inl same ↦
      let e : xs ≡ out = cc (rw same at h) in
      record {
        distinct = subst Distinct e d;
        left = λ g. rw⁻¹ e (ground (arith, eq_iff x m, eq_iff m g, eq_iff x g));
      }
  | inr other ↦
      let (ys, r, e) = mapped_ok (λ ys. x ∷ ys) (remove m xs) out (rw other at h) in
      let q = remove-Removed m xs ys d r in
      record {
        distinct = subst Distinct e (q.left x ∙ ground arith, q.distinct);
        left = λ g. rw⁻¹ e (ground (arith, q.left g, eq_iff x m, eq_iff m g, eq_iff x g));
      }
]
  where
    mapped_ok :
        (f : List String → List String) (r : Result (List String)) (out : List String)
        → map_ok f r ≡ ok out
        → (ys : List String) × (r ≡ ok ys) × (f ys ≡ out)
    mapped_ok f (ok ys) out h = (ys, refl, cc)
    mapped_ok f (err e) out h = cc

get-set_all :
    (store : String) (ms : List String) (d : Dict String) (g : String)
    → Dict.get (set_all store ms d) g ≡ (if contains ms g then some store else Dict.get d g)
unfolding set_all
get-set_all store [] d g = refl
get-set_all store (m ∷ ms) d g =
    get-set_all store ms (Dict.set d m store) g ∙ ground (arith, get-set d m g store)

chosen-none :
    (bl : List String) (c : Char) (s : String)
    → get_elem? bl (code c - b'1') ≡ none
    → chosen bl (String.◌∷◌ c s) ≡ chosen bl s
chosen-none bl c s e = rw (e, chosen)

pub chosen-some :
    (bl : List String) (c : Char) (s : String) (m : String)
    → get_elem? bl (code c - b'1') ≡ some m
    → chosen bl (String.◌∷◌ c s) ≡ m ∷ chosen bl s
chosen-some bl c s m e = rw (e, chosen)

pub or_raise-found : (o : Option String) (m : String) → or_raise index_error o ≡ ok m → o ≡ some m
or_raise-found none m h = cc
or_raise-found (some x) m h = cc

pub leave_out-left :
    (bl : List String) (s : String) (ms out : List String) (g : String)
    → Distinct ms
    → leave_out bl s ms ≡ ok out
    → contains out g ≡ (contains ms g && not (contains (chosen bl s) g))
unfolding leave_out
leave_out-left bl String.[] ms out g d h = let e : ms ≡ out = cc h in rw⁻¹ e (ground arith)
leave_out-left bl (String.◌∷◌ c s) ms out g d h =
    let (m, f, h1) = >>=-eq-ok (or_raise index_error (get_elem? bl (code c - b'1'))) _ h in
    let (rest, r, h2) = >>=-eq-ok (remove m ms) _ h1 in
    let q = remove-Removed m ms rest d r in
    leave_out-left bl s rest out g q.distinct h2
    ∙ rw (chosen-some bl c s m (or_raise-found _ m f)) (ground (arith, q.left g))

-- After the groups of a bucket table without repeated groups are assigned, a group of the table that was chosen has the store that it had, and
-- every other group of the table has Couchbase.
pub assign_mappings_lem :
    (cfg after : Config) (prompt group : String)
    → Dict.NodupKeys cfg.bucket_dict
    → assign_mappings cfg prompt ≡ ok after
    → contains (Dict.keys cfg.bucket_dict) group ≡ true
    → Dict.get after.mapping_locations group ≡ (
        if contains (chosen (Dict.keys cfg.bucket_dict) prompt) group
        then Dict.get cfg.mapping_locations group
        else some "couchbase")
unfolding assign_mappings
assign_mappings_lem cfg after prompt group d h there =
    let bl = Dict.keys cfg.bucket_dict in
    let (ms, l, e) = >>=-eq-ok (leave_out bl prompt bl) _ h in
    let now : record cfg { mapping_locations = set_all "couchbase" ms cfg.mapping_locations }
        ≡ after =
      cc e in
    ap (λ (x : Config). Dict.get x.mapping_locations group) (sym now)
    ∙ get-set_all "couchbase" ms cfg.mapping_locations group
    ∙ ground
        (arith, leave_out-left bl prompt bl ms group (Distinct-keys cfg.bucket_dict d) l, there)
