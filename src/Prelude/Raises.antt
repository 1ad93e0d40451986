-- ===== src/Prelude/Raises.antt =====
-- Python code that may raise: the exceptions that the modelled code can meet, and their `do` blocks.
use mathlib.Core.Path.{◌≡◌, refl}
use mathlib.Core.Logic.{◌⊎◌, inl, inr}
use mathlib.Core.Option.{Option, none, some}

pub data Exception : Type 0 where
  -- a missing key of a dict, an index out of range, `int` or `list.remove` of a wrong value,
  -- a missing attribute, an operation on a value of a wrong type, a text that is no DN, a division
  -- by zero, a refused commit, refused credentials, an unknown name,
  -- the end of what is typed, and Ctrl-C
  key_error index_error value_error attribute_error type_error invalid_dn zero_division
        database_error authentication_error name_error end_of_file keyboard_interrupt :
      Exception

-- How a call ends: it returns, or it raises.
pub data Result {ℓ} (A : Type ℓ) : Type ℓ where
  err : Exception → Result A
  ok : A → Result A

module _ {ℓ κ} {A : Type ℓ} {B : Type κ} where
  abbrev pub map_ok : (A → B) → Result A → Result B
  map_ok f (err raised) = err raised
  map_ok f (ok x) = ok (f x)

  infixl 5 ◌>>=◌ ◌>>◌
  abbrev pub ◌>>=◌ : Result A → (A → Result B) → Result B
  err raised >>= next = err raised
  ok x >>= next = next x

  abbrev pub ◌>>◌ : Result A → Result B → Result B
  first >> second = first >>= λ _. second

  -- A call that returned in the end returned at each step.
  pub >>=-eq-ok :
      (call : Result A) (next : A → Result B) {y : B}
      → (call >>= next) ≡ ok y
      → (x : A) × (call ≡ ok x) × (next x ≡ ok y)
  >>=-eq-ok (err raised) next returned = cc
  >>=-eq-ok (ok x) next returned = (x, refl, returned)

  -- A step that returns is passed over.
  pub >>=-of_ok :
      (call : Result A) (next : A → Result B) (x : A) (out : Result B)
      → call ≡ ok x
      → next x ≡ out
      → (call >>= next) ≡ out
  >>=-of_ok call next x out e h = rw e h

module _ {ℓ} {A : Type ℓ} where
  -- What `x[i]` and `d[k]` do where there is nothing to return.
  abbrev pub or_raise : Exception → Option A → Result A
  or_raise raised none = err raised
  or_raise raised (some x) = ok x

  pub Result-cases : (r : Result A) → ((x : A) × (r ≡ ok x)) ⊎ ((e : Exception) × (r ≡ err e))
  Result-cases (err raised) = inr (raised, refl)
  Result-cases (ok x) = inl (x, refl)
