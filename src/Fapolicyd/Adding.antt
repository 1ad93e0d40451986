-- ===== src/Fapolicyd/Adding.antt =====
-- All rules are there in the end, no line is lost, and a file that has the rules is left alone.
use community_edition_setup.Prelude.{
  ℕ, zero, suc, String, ◌≡◌, refl, ◌∙◌, ap, Bool, true, false, not, ◌||◌, ◌⊎◌, Bool-cases, inl, inr,
  none, some, List, [], ◌∷◌, map, ◌==◌, eq_iff, arith, all,
}
use community_edition_setup.Prelude.Text.{strip, is_space}
use community_edition_setup.Prelude.Dict.{contains}
use community_edition_setup.Fapolicyd.{insert, add_rules, apply_fapolicyd_rules, start_of}

contains-insert :
    (n : ℕ) (x : String) (ls : List String) (k : String)
    → contains (insert n x ls) k ≡ (x == k || contains ls k)
unfolding insert
contains-insert zero x ls k = ground arith
contains-insert (suc n) x [] k = ground arith
contains-insert (suc n) x (l ∷ ls) k = ground (arith, contains-insert n x ls k)

-- The lines after the rules are those before and the rules.
contains-add_rules :
    (n : ℕ) (rules ls : List String) (write : Bool) (k : String)
    → contains (add_rules n rules ls write).0 k ≡ (contains rules k || contains ls k)
unfolding add_rules
contains-add_rules n [] ls write k = refl
contains-add_rules n (rule ∷ rules) ls write k = elim (Bool-cases (contains ls rule)) [
  | inl there ↦ rw there (contains-add_rules n rules ls write k ∙ ground (arith, eq_iff rule k))
  | inr new ↦ rw new (
      contains-add_rules n rules (insert n rule ls) true k
      ∙ ground (arith, contains-insert n rule ls k, eq_iff rule k))
]

add_rules_wrote : (n : ℕ) (rules ls : List String) → (add_rules n rules ls true).1 ≡ true
unfolding add_rules
add_rules_wrote n [] ls = refl
add_rules_wrote n (rule ∷ rules) ls = elim (Bool-cases (contains ls rule)) [
  | inl there ↦ rw there (add_rules_wrote n rules ls)
  | inr new ↦ rw new (add_rules_wrote n rules (insert n rule ls))
]

-- Something is written where a rule was missing.
add_rules_writes :
    (n : ℕ) (rules ls : List String)
    → (add_rules n rules ls false).1 ≡ not (all (contains ls) rules)
unfolding add_rules
add_rules_writes n [] ls = refl
add_rules_writes n (rule ∷ rules) ls = elim (Bool-cases (contains ls rule)) [
  | inl there ↦ rw there (add_rules_writes n rules ls)
  | inr new ↦ rw new (add_rules_wrote n rules (insert n rule ls))
]

-- The file is written exactly where one of the rules is not among its lines, less the blanks at the ends
-- of each; what is written then has those lines, the rules, and an empty line, and nothing else.
pub apply_fapolicyd_rules_lem :
    (rules file : List String)
    → let ls = map (strip is_space) file in
      ((all (contains ls) rules ≡ true) × (apply_fapolicyd_rules rules file ≡ none))
      ⊎ ((all (contains ls) rules ≡ false)
          × ((out : List String) × (apply_fapolicyd_rules rules file ≡ some out)
              × ((k : String)
                  → contains out k ≡ ("\n" == k || (contains rules k || contains ls k)))))
unfolding apply_fapolicyd_rules
apply_fapolicyd_rules_lem rules file =
    let ls = map (strip is_space) file in
    let n = start_of 0 0 ls in
    elim (Bool-cases (all (contains ls) rules)) [
      | inl full ↦ inl (full, rw (add_rules_writes n rules ls) (rw full))
      | inr missing ↦ inr (
        missing,
        (
          insert n "\n" (add_rules n rules ls false).0,
          rw (add_rules_writes n rules ls) (rw missing),
          λ k.
              contains-insert n "\n" (add_rules n rules ls false).0 k
              ∙ ap (λ b. "\n" == k || b) (contains-add_rules n rules ls false k),
        ),
      )
    ]
