-- ===== src/Fapolicyd.antt =====
-- The rules of fapolicyd: `apply_fapolicyd_rules` of setup_app/utils/setup_utils.py, from the lines of the
-- file of rules to those that are written, if any are.
pub mod Adding
mod Tests
use community_edition_setup.Prelude.{
  ℕ, zero, suc, ◌+◌, String, Bool, true, false, Option, none, some, List, [], ◌∷◌, map,
  if◌then◌else◌,
}
use community_edition_setup.Prelude.Text.{strip, is_space, starts_with}
use community_edition_setup.Prelude.Dict.{contains}

-- `fapolicyd_startn + 1`: the place behind the last line of languages. The first number is that of the
-- line, the second what is found so far.
start_of : ℕ → ℕ → List String → ℕ
start_of i found [] = found
start_of i found (l ∷ ls) =
    start_of (suc i) (if starts_with l "%languages" then suc i else found) ls

-- `list.insert`
pub insert : ℕ → String → List String → List String
insert zero x ls = x ∷ ls
insert (suc n) x [] = x ∷ []
insert (suc n) x (l ∷ ls) = l ∷ insert n x ls

-- The loop over the rules; the flag is `write_facl`.
pub add_rules : ℕ → List String → List String → Bool → List String × Bool
unfolding insert
add_rules n [] ls write = (ls, write)
add_rules n (rule ∷ rules) ls write =
    let present = add_rules n rules ls write in
    let added = add_rules n rules (insert n rule ls) true in
    if contains ls rule then present else added

pub apply_fapolicyd_rules : List String → List String → Option (List String)
unfolding start_of add_rules
apply_fapolicyd_rules rules file =
    let ls = map (strip is_space) file in
    let n = start_of 0 0 ls in
    let (out, write) = add_rules n rules ls false in
    if write then some (insert n "\n" out) else none
