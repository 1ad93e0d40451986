-- ===== src/Rdbm/Values/Typed.antt =====
-- A stored value has the type of its column, and what does not fit is refused.
use community_edition_setup.Prelude.{
  String, ◌≡◌, refl, sym, subst, ◌⊎◌, inl, inr, Bool, true, false, ◌||◌, ◌==◌, Option, none, some,
  List, [], ◌∷◌, arith, eq_iff, Bool-cases, Option-cases, if◌then◌else◌, ok, err, Result, map_ok,
  Exception, or_raise, value_error, index_error, >>=-eq-ok,
}
use community_edition_setup.Prelude.Int.{ℤ, pos, parse_int}
use community_edition_setup.Prelude.Dict.{contains}
use community_edition_setup.Rdbm.Types.{Schema, get_attr_sql_data_type}
use community_edition_setup.Rdbm.Values.{
  Val, one, many, Stored, int_val, bool_val, text, json, same, first, is_truth, branches,
  value_of_type, Column, column, smallint, boolean, integer, date, json_list, array, plain,
  get_rdbm_val,
}

-- The names of types for which a value is not stored as its first text.
abbrev pub special_types : List String
special_types =
    "SMALLINT" ∷ "BOOL" ∷ "BOOLEAN" ∷ "INT" ∷ "DATETIME(3)" ∷ "TIMESTAMP" ∷ "JSON" ∷ "JSONB"
    ∷ "ARRAY<STRING(MAX)>" ∷ []

-- What may be stored for a value in a column, by the name of the column's type.
pub data Fits (t : String) (val : Val) : Stored → Type 0 where
  bit : (b : Bool) → t ≡ "SMALLINT" → Fits t val (int_val (pos (if b then 1 else 0)))
  truth : (b : Bool) → (t ≡ "BOOL") ⊎ (t ≡ "BOOLEAN") → Fits t val (bool_val b)
  number :
      (s : String) (n : ℤ)
      → t ≡ "INT"
      → first val ≡ ok s
      → parse_int s ≡ some n
      → Fits t val (int_val n)
  time : (s : String) → (t ≡ "DATETIME(3)") ⊎ (t ≡ "TIMESTAMP") → Fits t val (text s)
  object : (vs : List String) → t ≡ "JSON" → Fits t val (json vs)
  list : (t ≡ "ARRAY<STRING(MAX)>") ⊎ (t ≡ "JSONB") → Fits t val (same val)
  other : (s : String) → contains special_types t ≡ false → first val ≡ ok s → Fits t val (text s)

-- The type that leads to a branch.
Named : String → Column → Type 0
Named t smallint = t ≡ "SMALLINT"
Named t boolean = (t ≡ "BOOL") ⊎ (t ≡ "BOOLEAN")
Named t integer = t ≡ "INT"
Named t date = (t ≡ "DATETIME(3)") ⊎ (t ≡ "TIMESTAMP")
Named t json_list = t ≡ "JSON"
Named t array = (t ≡ "ARRAY<STRING(MAX)>") ⊎ (t ≡ "JSONB")
Named t plain = contains special_types t ≡ false

either_column :
    (P : Column → Type 0) (b : Bool) (x y : Column)
    → (b ≡ true → P x)
    → (b ≡ false → P y)
    → P (if b then x else y)
either_column P true x y h k = h refl
either_column P false x y h k = k refl

one_of : (t a b : String) → (t == a || t == b) ≡ true → (t ≡ a) ⊎ (t ≡ b)
one_of t a b h = elim (Bool-cases (t == a)) [
  | inl e ↦ inl ((eq_iff t a).0 e)
  | inr e ↦ inr ((eq_iff t b).0 (rw e at h))
]

turned : (t a : String) → (t == a) ≡ false → (a == t) ≡ false
turned t a h = ground (arith, eq_iff t a, eq_iff a t)

neither_of : (t a b : String) → (t == a || t == b) ≡ false → ((a == t) ≡ false) × ((b == t) ≡ false)
neither_of t a b h = (turned t a (ground arith), turned t b (ground arith))

no_special :
    (t : String)
    → (t == "SMALLINT") ≡ false
    → (t == "BOOL" || t == "BOOLEAN") ≡ false
    → (t == "INT") ≡ false
    → (t == "DATETIME(3)" || t == "TIMESTAMP") ≡ false
    → (t == "JSON") ≡ false
    → (t == "ARRAY<STRING(MAX)>" || t == "JSONB") ≡ false
    → contains special_types t ≡ false
no_special t a b c d e f =
    let (b1, b2) = neither_of t "BOOL" "BOOLEAN" b in
    let (d1, d2) = neither_of t "DATETIME(3)" "TIMESTAMP" d in
    let (f1, f2) = neither_of t "ARRAY<STRING(MAX)>" "JSONB" f in
    rw (turned t "SMALLINT" a, b1, b2, turned t "INT" c, d1, d2, turned t "JSON" e, f2, f1) refl

Named-column : (t : String) → Named t (column t)
unfolding column Named
Named-column t = either_column (Named t) (t == "SMALLINT") _ _ (eq_iff t "SMALLINT").0 (λ a.
    either_column (Named t) (t == "BOOL" || t == "BOOLEAN") _ _ (one_of t "BOOL" "BOOLEAN") (λ b.
      either_column (Named t) (t == "INT") _ _ (eq_iff t "INT").0 (λ c.
        either_column (Named t) (t == "DATETIME(3)" || t == "TIMESTAMP") _ _
          (one_of t "DATETIME(3)" "TIMESTAMP")
          (λ d. either_column (Named t) (t == "JSON") _ _ (eq_iff t "JSON").0 (λ e.
            either_column (Named t) (t == "ARRAY<STRING(MAX)>" || t == "JSONB") _ _
              (one_of t "ARRAY<STRING(MAX)>" "JSONB") (λ f. no_special t a b c d e f))))))

FitsOk : String → Val → Result Stored → Type 0
FitsOk t val (ok v) = Fits t val v
FitsOk t val (err e) = Unit

int_Fits :
    (t : String) (val : Val) (s : String) (o : Option ℤ)
    → t ≡ "INT"
    → first val ≡ ok s
    → parse_int s ≡ o
    → FitsOk t val (map_ok int_val (or_raise value_error o))
unfolding FitsOk
int_Fits t val s none named f p = tt
int_Fits t val s (some n) named f p = number s n named f p

branches-Fits :
    (t : String) (c : Column) (val : Val) (spanner : Bool) (s : String)
    → Named t c
    → first val ≡ ok s
    → FitsOk t val (branches c val spanner s)
unfolding branches FitsOk Named
branches-Fits t smallint val spanner s named f = bit (is_truth s) named
branches-Fits t boolean val spanner s named f = truth (is_truth s) named
branches-Fits t integer val spanner s named f = int_Fits t val s (parse_int s) named f refl
branches-Fits t date val spanner s named f = time _ named
branches-Fits t json_list val spanner s named f = object _ named
branches-Fits t array val spanner s named f = list named
branches-Fits t plain val spanner s named f = other s named f

of_ok :
    (t : String) (val : Val) (r : Result Stored) (v : Stored)
    → r ≡ ok v
    → FitsOk t val r
    → Fits t val v
unfolding FitsOk
of_ok t val r v e h = subst (FitsOk t val) e h

-- A value that is stored fits the type of its column: 0 or 1 in a `SMALLINT`, a truth value in a
-- `BOOL` or `BOOLEAN`, the number that the first text stands for in an `INT`, a text in a
-- `DATETIME(3)` or `TIMESTAMP`, an object with a list in a `JSON`, the value as it was given in an
-- `ARRAY<STRING(MAX)>` or `JSONB`; for every type of another name, `INT64` and `BYTEA` among them, it
-- is the first text as it is.
pub get_rdbm_val-Fits :
    (schema : Schema) (rdbm key : String) (val : Val) (arg : Option String) {t : String}
    {v : Stored}
    → get_attr_sql_data_type schema rdbm key ≡ ok t
    → get_rdbm_val schema rdbm key val arg ≡ ok v
    → Fits t val v
unfolding get_rdbm_val
get_rdbm_val-Fits schema rdbm key val arg {t} {v} e h =
    let (s, f, b) = >>=-eq-ok (first val) _ (rw e at h) in
    of_ok t val _ v b (branches-Fits t (column t) val _ s (Named-column t) f)

abbrev pub IsError : String → Val → Exception → Type 0
IsError t val e =
    ((val ≡ many []) × (e ≡ index_error))
    ⊎ ((t ≡ "INT") × record {
      first_text : String;
      is_first : first val ≡ ok first_text;
      no_number : parse_int first_text ≡ none;
      error : e ≡ value_error;
    })

int_IsError :
    (t s : String) (val : Val) (e : Exception)
    → t ≡ "INT"
    → first val ≡ ok s
    → map_ok int_val (or_raise value_error (parse_int s)) ≡ err e
    → IsError t val e
int_IsError t s val e named f h = elim (Option-cases (parse_int s)) [
  | inl n ↦ inr (
    named,
    record { first_text = s; is_first = f; no_number = n; error = sym (err_path (rw n at h)) },
  )
  | inr (n, p) ↦ cc (rw p at h)
]
  where
    err_path : (let r : Result Stored = err value_error in r ≡ err e) → value_error ≡ e
    err_path q = cc

branches-IsError :
    (t : String) (c : Column) (val : Val) (spanner : Bool) (s : String) (e : Exception)
    → Named t c
    → first val ≡ ok s
    → branches c val spanner s ≡ err e
    → IsError t val e
unfolding branches Named
branches-IsError t smallint val spanner s e named f h = cc
branches-IsError t integer val spanner s e named f h = int_IsError t s val e named f h
branches-IsError t _ val spanner s e named f h = cc

value_of_type-IsError :
    (t : String) (val : Val) (spanner : Bool) (e : Exception)
    → value_of_type t val spanner ≡ err e
    → IsError t val e
unfolding value_of_type
value_of_type-IsError t (one s) spanner e h =
    branches-IsError t (column t) (one s) spanner s e (Named-column t) refl h
value_of_type-IsError t (many []) spanner e h = inl (refl, cc)
value_of_type-IsError t (many (s ∷ ss)) spanner e h =
    branches-IsError t (column t) (many (s ∷ ss)) spanner s e (Named-column t) refl h

-- Where the type of the attribute is known `get_rdbm_val` raises for two reasons only: a list without a value,
-- or a first text that is no number for an `INT` column.
pub get_rdbm_val-IsError :
    (schema : Schema) (rdbm key : String) (val : Val) (arg : Option String) {t : String}
    {e : Exception}
    → get_attr_sql_data_type schema rdbm key ≡ ok t
    → get_rdbm_val schema rdbm key val arg ≡ err e
    → IsError t val e
unfolding get_rdbm_val
get_rdbm_val-IsError schema rdbm key val arg {t} {e} p h =
    value_of_type-IsError t val _ e (rw p at h)
