-- ===== src/Session.antt =====
-- Questions on the terminal: setup_app/utils/properties_utils.py from `getDefaultOption` to
-- `getPrompt`. What the user types is the list of coming events; behind its end `input` raises
-- `EOFError`. What is printed has no effect, and is left out.
pub mod Prompting
mod Tests
use Prim.Native.Char.{code}
use Prim.Native.String
use community_edition_setup.Prelude.{
  ℕ, String, Bool, true, false, not, ◌&&◌, Option, none, some, List, [], ◌∷◌, ◌==◌, ◌=ℕ◌,
  if◌then◌else◌, Result, ok, err, Exception, value_error, type_error, index_error,
}
use community_edition_setup.Prelude.Text.{strip, is_space, lower_code}
use community_edition_setup.Prelude.Int.{ℤ, pos, parse_int, is_digit}
use community_edition_setup.Config.{Config}

-- A line, or Ctrl-C.
pub data Event : Type 0 where
  line : String → Event
  interrupt : Event

-- What `getPrompt` can return; `None` is `none` of an option around it.
pub data Answer : Type 0 where
  text : String → Answer
  number : ℤ → Answer

pub record Console : Type 0 where
  pub cfg : Config
  pub input : List Event

-- How a call ends: with a value, an exception, or `sys.exit()`.
pub data Ended (A : Type 0) : Type 0 where
  returned : A → Ended A
  raised : Exception → Ended A
  exited : Ended A

abbrev pub Session : Type 0 → Type 0
Session A = Console → Ended A × Console

module _ {A B : Type 0} where
  abbrev pub continue : Ended A → (A → Session B) → Session B
  continue (returned a) f s = f a s
  continue (raised e) f s = (raised e, s)
  continue exited f s = (exited, s)

  infixl 5 ◌>>=◌ ◌>>◌
  abbrev pub ◌>>=◌ : Session A → (A → Session B) → Session B
  ◌>>=◌ m f s = let (r, s') = m s in continue r f s'

  abbrev pub ◌>>◌ : Session A → Session B → Session B
  m >> n = m >>= λ _. n

module _ {A : Type 0} where
  abbrev pub pure : A → Session A
  pure a s = (returned a, s)

  abbrev pub raise : Exception → Session A
  raise e s = (raised e, s)

abbrev pub modify : (Config → Config) → Session (Unit {0})
modify f s = (returned tt, record s { cfg = f s.cfg })

abbrev pub gets : {A : Type 0} → (Config → A) → Session A
gets f s = (returned (f s.cfg), s)

-- `getDefaultOption`
abbrev pub get_default_option : Bool → String
get_default_option b = if b then "Yes" else "No"

-- `s.isnumeric()`
pub is_numeric : String → Bool
is_numeric String.[] = false
is_numeric (String.◌∷◌ c String.[]) = is_digit (code c)
is_numeric (String.◌∷◌ c s) = is_digit (code c) && is_numeric s

-- `check_input_type`; the flag says that `itype` is `int`.
pub int_of : Option ℤ → Result Answer
int_of none = err value_error
int_of (some n) = ok (number n)

unfoldable pub check_input_type : String → Bool → Result Answer
unfolding int_of
check_input_type ival false = ok (text ival)
check_input_type ival true = if is_numeric ival then int_of (parse_int ival) else err value_error

-- A default that counts as false is no default.
unfoldable pub truthy : Option Answer → Option Answer
truthy none = none
truthy (some (text s)) = if s == "" then none else some (text s)
truthy (some (number (pos n))) = if n =ℕ 0 then none else some (number (pos n))
truthy (some (number n)) = some (number n)

-- One round: what a line answers, if anything. A blank line takes the default, if there is one, and
-- what is no number answers nothing where a number is wanted.
unfoldable pub or_none : Result Answer → Option Answer
or_none (ok v) = some v
or_none (err e) = none

unfoldable pub reply : Option Answer → Bool → String → Option Answer
reply default itype user_input =
    if user_input == "" then default else or_none (check_input_type user_input itype)

-- The loops of `getPrompt` over the coming events.
unfoldable pub ask : Option Answer → Bool → List Event → Ended (Option Answer) × List Event
ask default itype [] = (returned none, [])
ask default itype (interrupt ∷ es) = (exited, es)
ask default itype (line l ∷ es) =
    let again = ask default itype es in
    elim (reply default itype (strip is_space l)) [
      | none ↦ again
      | some v ↦ (returned (some v), es)
    ]

unfoldable pub get_prompt : Option Answer → Bool → Session (Option Answer)
unfolding truthy
get_prompt default itype s =
    let (r, es) = ask (truthy default) itype s.input in (r, record s { input = es })

-- `answer[0].lower() == 'y'`: `None[0]` and a number's `[0]` raise, and so does an empty text's.
unfoldable pub is_yes : Option Answer → Result Bool
is_yes none = err type_error
is_yes (some (number n)) = err type_error
is_yes (some (text String.[])) = err index_error
is_yes (some (text (String.◌∷◌ c s))) = ok (lower_code (code c) =ℕ b'y')

abbrev pub lift : {A : Type 0} → Result A → Session A
lift (ok a) = pure a
lift (err e) = raise e

-- `self.getPrompt(question, default)[0].lower() == 'y'`
unfoldable pub ask_yes : String → Session Bool
ask_yes default = do answer ← get_prompt (some (text default)) false; lift (is_yes answer)
