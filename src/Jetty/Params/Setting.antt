-- ===== src/Jetty/Params/Setting.antt =====
-- A parameter that is set is found again: the last value wins, and the other lines stay.
use Prim.Native.Char.{Char, code}
use text.Mathlib.TextLemmas.{cons-append, nil-append, cons≢nil}
use community_edition_setup.Prelude.{
  String, ◌<>◌, ◌≡◌, refl, ap, ◌≢◌, true, false, ◌&&◌, List, [], ◌∷◌, arith, ◌==◌, eq_iff, all, not,
  ◌++◌, ◌⊎◌, inl, inr, Bool-cases,
}
use community_edition_setup.Prelude.Text.{starts_with, strip, lstrip, rstrip, is_space}
use community_edition_setup.Jetty.Params.{matches, set_line, set_jetty_param}

rstrip-cons :
    (c : Char) (s : String)
    → (is_space (code c) && rstrip is_space s == "") ≡ false
    → rstrip is_space (String.◌∷◌ c s) ≡ String.◌∷◌ c (rstrip is_space s)
unfolding rstrip
rstrip-cons c s h = rw h

kept : (d : Char) (t : String) → t ≢ "" → (is_space (code d) && t == "") ≡ false
kept d t h = ground (arith, eq_iff t "")

-- What ends with a character that is no blank, or goes on behind one, is not stripped away.
rstrip-ne-nil :
    (p : String) (c : Char) (s : String)
    → is_space (code c) ≡ false
    → rstrip is_space (p <> String.◌∷◌ c s) ≢ ""
rstrip-ne-nil String.[] c s h e =
    cons≢nil (rw (nil-append (String.◌∷◌ c s), rstrip-cons c s (rw h)) at e)
rstrip-ne-nil (String.◌∷◌ d p) c s h e =
    cons≢nil (rw (cons-append, rstrip-cons d _ (kept d _ (rstrip-ne-nil p c s h))) at e)

-- What stands in front of a character that is no blank is kept.
starts_with-rstrip :
    (p : String) (c : Char) (s : String)
    → is_space (code c) ≡ false
    → starts_with (rstrip is_space (p <> (String.◌∷◌ c s))) p ≡ true
unfolding starts_with
starts_with-rstrip String.[] c s h = refl
starts_with-rstrip (String.◌∷◌ d p) c s h =
    rw (cons-append, rstrip-cons d _ (kept d _ (rstrip-ne-nil p c s h)))
      (ground (arith, starts_with-rstrip p c s h))

lstrip-cons :
    (c : Char) (s : String)
    → is_space (code c) ≡ false
    → lstrip is_space (String.◌∷◌ c s) ≡ String.◌∷◌ c s
unfolding lstrip
lstrip-cons c s h = rw h

strip-cons :
    (c : Char) (s : String)
    → is_space (code c) ≡ false
    → strip is_space (String.◌∷◌ c s) ≡ rstrip is_space (String.◌∷◌ c s)
unfolding strip
strip-cons c s h = rw (lstrip-cons c s h)

equals_sign : (v : String) → "=" <> v ≡ String.◌∷◌ "=" v
equals_sign v = rw (cons-append, nil-append)

name_kept :
    (c : Char) (p v : String)
    → is_space (code c) ≡ false
    → starts_with (strip is_space (String.◌∷◌ c p <> String.◌∷◌ "=" v)) (String.◌∷◌ c p) ≡ true
unfolding is_space
name_kept c p v h =
    rw (cons-append, strip-cons c _ h, ← cons-append)
      (starts_with-rstrip (String.◌∷◌ c p) "=" v refl)

-- The line that is written passes the test of the next call.
matches-line :
    (c : Char) (p v : String)
    → is_space (code c) ≡ false
    → matches (String.◌∷◌ c p) (String.◌∷◌ c p <> ("=" <> v)) ≡ true
unfolding matches
matches-line c p v h = rw equals_sign (ground (arith, name_kept c p v h))

set_line-set_line :
    (p a b : String) (ls : List String)
    → matches p a ≡ true
    → set_line p b (set_line p a ls) ≡ set_line p b ls
unfolding set_line
set_line-set_line p a b [] h = rw h
set_line-set_line p a b (l ∷ ls) h = ground (arith, set_line-set_line p a b ls)

-- The last of two settings of a parameter counts, and a second call with one value changes nothing,
-- if the parameter's name does not begin with a blank.
pub set_jetty_param-set_jetty_param :
    (c : Char) (p v w : String) (ls : List String)
    → is_space (code c) ≡ false
    → let param = String.◌∷◌ c p in
      set_jetty_param param w (set_jetty_param param v ls) ≡ set_jetty_param param w ls
unfolding set_jetty_param
set_jetty_param-set_jetty_param c p v w ls h =
    set_line-set_line (String.◌∷◌ c p) _ _ ls (matches-line c p v h)

-- Where `line` stands in `out`, and what stood there before.
pub record SetsLine (param line : String) (ls out : List String) : Type 0 where
  pub before : List String
  pub after : List String
  pub passed : all (λ l. not (matches param l)) before ≡ true
  pub now : out ≡ before ++ line ∷ after
  pub was :
      ((ls ≡ before) × (after ≡ []))
      ⊎ ((l : String) × (ls ≡ before ++ l ∷ after) × (matches param l ≡ true))

further :
    (param line l : String) (ls out : List String)
    → matches param l ≡ false
    → SetsLine param line ls out
    → SetsLine param line (l ∷ ls) (l ∷ out)
further param line l ls out h r = record {
  before = l ∷ r.before;
  after = r.after;
  passed = rw h r.passed;
  now = ap (λ t. l ∷ t) r.now;
  was = elim r.was [
    | inl e ↦ inl (ap (λ t. l ∷ t) e.0, e.1)
    | inr e ↦ inr (e.0, ap (λ t. l ∷ t) e.1, e.2)
  ];
}

set_line-SetsLine :
    (param line : String) (ls : List String) → SetsLine param line ls (set_line param line ls)
unfolding set_line
set_line-SetsLine param line [] = record {
  before = [];
  after = [];
  passed = refl;
  now = refl;
  was = inl (refl, refl);
}
set_line-SetsLine param line (l ∷ ls) = elim (Bool-cases (matches param l)) [
  | inl h ↦
      rw h (record { before = []; after = ls; passed = refl; now = refl; was = inr (l, refl, h) })
  | inr h ↦
      rw h (further param line l ls (set_line param line ls) h (set_line-SetsLine param line ls))
]

-- The first line that names the parameter is replaced, or, if there is none, one is added at the
-- end; the other lines stay where they are.
pub set_jetty_param-SetsLine :
    (param val : String) (ls : List String)
    → SetsLine param (param <> ("=" <> val)) ls (set_jetty_param param val ls)
unfolding set_jetty_param
set_jetty_param-SetsLine param val ls = set_line-SetsLine param _ ls
