-- ===== src/Rdbm/Values.antt =====
-- The value that is stored for an attribute: `get_rdbm_val` and `get_clean_objcet_class` of
-- setup_app/utils/db_utils.py.
pub mod Typed
pub mod Timestamps
mod Tests
use mathlib.Core.Option
use community_edition_setup.Prelude.{
  ℕ, String, ◌<>◌, Bool, true, false, ◌||◌, ◌-◌, Option, none, some, List, [], ◌∷◌, ◌==◌, ◌=ℕ◌,
  if◌then◌else◌, any, Result, ok, err, value_error, index_error, type_error, or_raise, map_ok,
  ◌>>=◌,
}
use community_edition_setup.Prelude.Text.{codes, lower, same_codes, strip, take, drop, chars}
use community_edition_setup.Prelude.Int.{ℤ, pos, parse_int}
use community_edition_setup.Prelude.Dict
use community_edition_setup.Prelude.Dict.{Dict, contains}
use community_edition_setup.Rdbm.Types.{Schema, get_attr_sql_data_type}

-- A value of an LDIF entry as it is passed: one text, or a list of them.
pub data Val : Type 0 where
  one : String → Val
  many : List String → Val

-- A value for an SQL column. `json` is `{'v': […]}`, `same` the argument itself.
pub data Stored : Type 0 where
  int_val : ℤ → Stored
  bool_val : Bool → Stored
  text : String → Stored
  json : List String → Stored
  same : Val → Stored

-- `val[0] if isinstance(val, list) … else val`
pub first : Val → Result String
first (one s) = ok s
first (many []) = err index_error
first (many (s ∷ _)) = ok s

-- `for d in val`, which goes through the characters of a text.
items : Val → List String
items (one s) = chars s
items (many ss) = ss

abbrev truths : List String
truths = "1" ∷ "on" ∷ "true" ∷ "yes" ∷ "ok" ∷ []

unfoldable pub is_truth : String → Bool
unfolding lower same_codes
is_truth s = any (λ w. same_codes (lower s) (codes w)) truths

slice : ℕ → ℕ → String → String
slice a b s = take (b - a) (drop a s)

-- The `format` call of the date branch.
pub timestamp : Bool → String → String
unfolding slice
timestamp spanner val =
    let d = strip (λ c. c =ℕ b'Z') val in
    let sep = if spanner then "T" else " " in
    let postfix = if spanner then "Z" else "" in
    slice 0 4 d
    <> ("-"
        <> (slice 4 6 d
            <> ("-"
                <> (slice 6 8 d
                    <> (sep
                        <> (slice 8 10 d
                            <> (":"
                                <> (slice 10 12 d
                                    <> (":"
                                        <> (slice 12 14 d <> (slice 14 17 d <> postfix)))))))))))

-- The tests of `get_rdbm_val` on the column's type, in its order.
pub data Column : Type 0 where
  smallint boolean integer date json_list array plain : Column

unfoldable pub column : String → Column
column t =
    if t == "SMALLINT"
    then smallint
    else if t == "BOOL" || t == "BOOLEAN"
    then boolean
    else if t == "INT"
    then integer
    else if t == "DATETIME(3)" || t == "TIMESTAMP"
    then date
    else if t == "JSON"
    then json_list
    else if t == "ARRAY<STRING(MAX)>" || t == "JSONB"
    then array
    else plain

-- The branches, for the value and its first text. The flag is `rdbm_type == 'spanner'`.
branches : Column → Val → Bool → String → Result Stored
branches smallint val spanner val_ = ok (int_val (pos (if is_truth val_ then 1 else 0)))
branches boolean val spanner val_ = ok (bool_val (is_truth val_))
branches integer val spanner val_ = map_ok int_val (or_raise value_error (parse_int val_))
branches date val spanner val_ = ok (text (timestamp spanner val_))
branches json_list val spanner val_ = ok (json (items val))
branches array val spanner val_ = ok (same val)
branches plain val spanner val_ = ok (text val_)

value_of_type : String → Val → Bool → Result Stored
unfolding branches first items
value_of_type data_type val spanner = do
  val_ ← first val
  branches (column data_type) val spanner val_

-- `rdbm_type` of the object is `Config.rdbm_type`; the argument of the same name is optional.
unfoldable pub get_rdbm_val : Schema → String → String → Val → Option String → Result Stored
unfolding value_of_type
get_rdbm_val schema config_rdbm_type key val rdbm_type = do
  data_type ← get_attr_sql_data_type schema config_rdbm_type key
  value_of_type data_type val (Option.get_or (Option.map (λ t. t == "spanner") rdbm_type) false)

-- `list.remove('top')` if `top` is there: the first one goes.
unfoldable pub remove_top : List String → List String
remove_top [] = []
remove_top (c ∷ cs) = if c == "top" then cs else c ∷ remove_top cs

last : List String → Result String
last [] = err index_error
last (c ∷ []) = ok c
last (c ∷ d ∷ cs) = last (d ∷ cs)

-- `a or b` on lists under two keys: an absent or empty one counts as false.
either : Option (List String) → Option (List String) → Option (List String)
either (some (c ∷ cs)) other = some (c ∷ cs)
either (some []) other = other
either none other = other

-- The result is the class, or what was falsy: an empty list or `None`.
unfoldable pub get_clean_object_class : Dict (List String) → Result (Option String)
unfolding either remove_top last
get_clean_object_class entry =
    elim (either (Dict.get entry "objectClass") (Dict.get entry "objectclass")) [
      | none ↦ ok none
      | some [] ↦ ok none
      | some (c ∷ cs) ↦ map_ok some (last (remove_top (c ∷ cs)))
    ]
