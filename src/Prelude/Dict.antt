-- ===== src/Prelude/Dict.antt =====
-- Python's `dict` with text keys, in insertion order: assignment to a known key keeps its place.
use Prim.Native.String.{String}
use mathlib.Core.Path.{◌≡◌, refl}
use mathlib.Core.Bool.{Bool, true, false}
use mathlib.Core.Option.{Option, none, some}
use mathlib.Core.List.{List, [], ◌∷◌}
use native.Mathlib.Omega.{arith}
use text.Mathlib.Text.{◌==◌}
use text.Mathlib.TextEquality.{eq_iff}
use community_edition_setup.Prelude.Tests.{if◌then◌else◌}

abbrev pub Dict {ℓ} : Type ℓ → Type ℓ
Dict V = List (String × V)

-- `k in ks` for a list of texts.
abbrev pub contains : List String → String → Bool
contains [] k = false
contains (j ∷ ks) k = if j == k then true else contains ks k

module _ {ℓ} {V : Type ℓ} where
  abbrev pub keys : Dict V → List String
  keys [] = []
  keys ((j, _) ∷ d) = j ∷ keys d

  -- `d.get(k)`
  unfoldable pub get : Dict V → String → Option V
  get [] k = none
  get ((j, v) ∷ d) k = if j == k then some v else get d k

  -- `d[k] = v`
  unfoldable pub set : Dict V → String → V → Dict V
  set [] k v = (k, v) ∷ []
  set ((j, w) ∷ d) k v = if j == k then (j, v) ∷ d else (j, w) ∷ set d k v

  -- `d.pop(k, None)`
  unfoldable pub erase : Dict V → String → Dict V
  erase [] k = []
  erase ((j, w) ∷ d) k = if j == k then erase d k else (j, w) ∷ erase d k

  pub get-set :
      (d : Dict V) (k j : String) (v : V) → get (set d k v) j ≡ (if k == j then some v else get d j)
  unfolding get set
  get-set [] k j v = refl
  get-set ((i, w) ∷ d) k j v = ground (arith, eq_iff k j, eq_iff i k, eq_iff i j, get-set d k j v)

  pub get-erase :
      (d : Dict V) (k j : String) → get (erase d k) j ≡ (if k == j then none else get d j)
  unfolding get erase
  get-erase [] k j = ground arith
  get-erase ((i, w) ∷ d) k j = ground (arith, eq_iff k j, eq_iff i k, eq_iff i j, get-erase d k j)

  -- No key stands twice, as in every dict.
  abbrev pub NodupKeys : Dict V → Type 0
  NodupKeys [] = Unit
  NodupKeys ((k, _) ∷ d) = (contains (keys d) k ≡ false) × NodupKeys d

  pub get_of_not_contains : (d : Dict V) (k : String) → contains (keys d) k ≡ false → get d k ≡ none
  unfolding get
  get_of_not_contains [] k h = refl
  get_of_not_contains ((j, w) ∷ d) k h = ground (arith, get_of_not_contains d k)
