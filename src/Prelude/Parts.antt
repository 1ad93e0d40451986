-- ===== src/Prelude/Parts.antt =====
-- Lemmas on the parts of a text: a text in front, and what stands between separators.
use Prim.Native.String.{String, [], ◌∷◌, ◌++◌ as ◌<>◌}
use Prim.Native.Char.{Char, code}
use Prim.Native.Nat.{ℕ}
use mathlib.Core.Bool.{true, false, ◌||◌}
use mathlib.Core.List.{List}
use mathlib.Core.Path.{◌≡◌, refl}
use native.Mathlib.Omega.{arith}
use text.Mathlib.TextLemmas.{cons-append, nil-append}
use community_edition_setup.Prelude.Tests.{◌=ℕ◌}
use community_edition_setup.Prelude.Text.{is_infix, starts_with, drop, split, has_code, length}

pub has_code-append : (n : ℕ) (s t : String) → has_code n (s <> t) ≡ (has_code n s || has_code n t)
unfolding has_code
has_code-append n [] t = rw nil-append refl
has_code-append n (c ∷ s) t = rw cons-append (ground (arith, has_code-append n s t))

-- A text without the separator is one part, and what follows the first separator is split alone.
pub split-free : (n : ℕ) (s : String) → has_code n s ≡ false → split n s ≡ List.◌∷◌ s List.[]
unfolding split has_code
split-free n [] free = refl
split-free n (d ∷ s) free =
    let here : (code d =ℕ n) ≡ false = ground arith in
    let more : has_code n s ≡ false = ground arith in rw (here, split-free n s more) refl

pub split-separator :
    (n : ℕ) (s : String) (c : Char) (t : String)
    → has_code n s ≡ false
    → (code c =ℕ n) ≡ true
    → split n (s <> (c ∷ t)) ≡ List.◌∷◌ s (split n t)
unfolding split has_code
split-separator n [] c t free is_n = rw (nil-append, is_n) refl
split-separator n (d ∷ s) c t free is_n =
    let here : (code d =ℕ n) ≡ false = ground arith in
    let more : has_code n s ≡ false = ground arith in
    rw (cons-append, here, split-separator n s c t more is_n) refl

starts_with-nil : (s : String) → starts_with s [] ≡ true
unfolding starts_with
starts_with-nil [] = refl
starts_with-nil (c ∷ s) = refl

-- `p + t` starts with `p`, contains it, and is `t` after it.
pub starts_with-append : (p t : String) → starts_with (p <> t) p ≡ true
unfolding starts_with
starts_with-append [] t = starts_with-nil ([] <> t)
starts_with-append (c ∷ p) t = rw (cons-append, starts_with-append p t) (ground arith)

pub drop-append : (p t : String) → drop (length p) (p <> t) ≡ t
unfolding drop length
drop-append [] t = nil-append t
drop-append (c ∷ p) t = rw cons-append (drop-append p t)

pub is_infix_of_starts : (p s : String) → starts_with s p ≡ true → is_infix p s ≡ true
unfolding is_infix
is_infix_of_starts p [] h = h
is_infix_of_starts p (d ∷ s) h = rw h refl
