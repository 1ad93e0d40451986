-- ===== src/Prelude/Text.antt =====
-- The operations of Python's `str` that the program uses, over native texts. Letters are ASCII.
use Prim.Native.Nat.{ℕ, zero, suc, ◌+◌}
use Prim.Native.Char.{Char, code}
use Prim.Native.String.{String, [], ◌∷◌, ◌++◌ as ◌<>◌}
use mathlib.Core.Bool.{Bool, true, false, ◌&&◌, ◌||◌}
use mathlib.Core.List.{List}
use mathlib.Core.Path.{◌≡◌}
use mathlib.Core.Logic.{◌≢◌}
use native.Mathlib.Omega.{arith}
use text.Mathlib.TextEquality.{eq_iff}
use text.Mathlib.Text.{◌==◌}
use community_edition_setup.Prelude.Tests.{leb, ◌=ℕ◌, if◌then◌else◌}

abbrev pub codes : String → List ℕ
codes [] = List.[]
codes (c ∷ s) = List.◌∷◌ (code c) (codes s)

-- `s.startswith(p)`
unfoldable pub starts_with : String → String → Bool
starts_with s [] = true
starts_with [] (c ∷ p) = false
starts_with (d ∷ s) (c ∷ p) = (code d =ℕ code c) && starts_with s p

-- `c in s` for one character, by its number.
unfoldable pub has_code : ℕ → String → Bool
has_code n [] = false
has_code n (c ∷ s) = (code c =ℕ n) || has_code n s

-- `p in s`
unfoldable pub is_infix : String → String → Bool
unfolding starts_with
is_infix p [] = starts_with [] p
is_infix p (d ∷ s) = starts_with (d ∷ s) p || is_infix p s

-- `sep.join(parts)`
unfoldable pub join : String → List String → String
join sep List.[] = ""
join sep (List.◌∷◌ p List.[]) = p
join sep (List.◌∷◌ p (List.◌∷◌ q ps)) = p <> (sep <> join sep (List.◌∷◌ q ps))

-- `c.lower()` of one character, by its number.
abbrev pub lower_code : ℕ → ℕ
lower_code c = if leb b'A' c && leb c b'Z' then c + 32 else c

-- `s.lower()`, by the numbers of its characters.
unfoldable pub lower : String → List ℕ
lower [] = List.[]
lower (c ∷ s) = List.◌∷◌ (lower_code (code c)) (lower s)

-- `s == t` for texts given by their numbers.
unfoldable pub same_codes : List ℕ → List ℕ → Bool
same_codes List.[] List.[] = true
same_codes (List.◌∷◌ a s) (List.◌∷◌ b t) = (a =ℕ b) && same_codes s t
same_codes _ _ = false

-- `s[:n]` and `s[n:]`, which count characters.
unfoldable pub take : ℕ → String → String
take zero s = ""
take (suc n) [] = ""
take (suc n) (c ∷ s) = c ∷ take n s

unfoldable pub drop : ℕ → String → String
drop zero s = s
drop (suc n) [] = ""
drop (suc n) (c ∷ s) = drop n s

-- A blank of Python's `str.strip()`.
unfoldable pub is_space : ℕ → Bool
is_space c = c =ℕ 32 || (leb 9 c && leb c 13) || (leb 28 c && leb c 31)

-- `s.lstrip(chars)` and `s.rstrip(chars)`, the set of characters as a test on their numbers.
unfoldable pub lstrip : (ℕ → Bool) → String → String
lstrip p [] = []
lstrip p (c ∷ s) = let rest = lstrip p s in if p (code c) then rest else c ∷ s

unfoldable pub rstrip : (ℕ → Bool) → String → String
rstrip p [] = []
rstrip p (c ∷ s) = let rest = rstrip p s in if p (code c) && rest == "" then "" else c ∷ rest

unfoldable pub strip : (ℕ → Bool) → String → String
strip p s = rstrip p (lstrip p s)

-- `s.split(c)` for one character; there is always a part.
abbrev pub in_front : Char → List String → List String
in_front c List.[] = List.◌∷◌ (c ∷ []) List.[]
in_front c (List.◌∷◌ p ps) = List.◌∷◌ (c ∷ p) ps

unfoldable pub split : ℕ → String → List String
split n [] = List.◌∷◌ "" List.[]
split n (c ∷ s) = let rest = split n s in if code c =ℕ n then List.◌∷◌ "" rest else in_front c rest

-- `s.replace(c, d)` for one character.
unfoldable pub replace_code : ℕ → Char → String → String
replace_code n d [] = []
replace_code n d (c ∷ s) = (if code c =ℕ n then d else c) ∷ replace_code n d s

-- The texts of one character each that a loop over a text meets.
unfoldable pub chars : String → List String
chars [] = List.[]
chars (c ∷ s) = List.◌∷◌ (c ∷ []) (chars s)

-- Two texts that the test tells apart.
pub differs : (s t : String) → (s == t) ≡ false → s ≢ t
differs s t h e = ground (arith, eq_iff s t)

-- `len(s)`
unfoldable pub length : String → ℕ
length [] = 0
length (c ∷ s) = suc (length s)
