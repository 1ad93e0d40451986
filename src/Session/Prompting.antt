-- ===== src/Session/Prompting.antt =====
-- What `getPrompt` returns, and what it leaves alone.
use community_edition_setup.Prelude.{
  String, ◌≡◌, refl, subst, ◌≢◌, ◌⊎◌, inl, inr, Bool, true, false, Option, none, some, List, [],
  ◌∷◌, ◌++◌, ◌==◌, ok, arith, eq_iff, Bool-cases, Option-cases, Result-cases, ◌∙◌, sym, all,
}
use community_edition_setup.Prelude.Text.{strip, is_space}
use community_edition_setup.Session.{
  Event, line, interrupt, Answer, text, number, Console, Ended, returned, raised, exited, ask,
  reply, or_none, check_input_type, int_of, truthy, get_prompt,
}

-- A new answer: a number where one is wanted, else a text that is not blank.
abbrev pub Fresh : Bool → Answer → Type 0
Fresh true (number n) = Unit
Fresh true (text t) = ⊥
Fresh false (number n) = ⊥
Fresh false (text t) = t ≢ ""

-- What a call may return, by its default, the kind of value that is wanted and the events left.
abbrev pub Answered : Option Answer → Bool → List Event → Option Answer → Type 0
Answered default itype rest none = rest ≡ []
Answered default itype rest (some v) = (default ≡ some v) ⊎ Fresh itype v

abbrev pub Answers : Option Answer → Bool → Ended (Option Answer) × List Event → Type 0
Answers default itype (returned a, rest) = Answered default itype rest a
Answers default itype (raised e, rest) = ⊥
Answers default itype (exited, rest) = Unit

check_input_type-Fresh :
    (u : String) (itype : Bool) (v : Answer)
    → u ≢ ""
    → check_input_type u itype ≡ ok v
    → Fresh itype v
unfolding check_input_type int_of
check_input_type-Fresh u true (number n) h e = tt
check_input_type-Fresh u true (text t) h e = ground arith
check_input_type-Fresh u false (number n) h e = cc
check_input_type-Fresh u false (text t) h e = λ empty. h (cc)

reply-Fresh :
    (default : Option Answer) (itype : Bool) (u : String) (v : Answer)
    → reply default itype u ≡ some v
    → (default ≡ some v) ⊎ Fresh itype v
unfolding reply or_none
reply-Fresh default itype u v h = elim (Bool-cases (u == "")) [
  | inl e ↦ inl (rw e at h)
  | inr n ↦ elim (Result-cases (check_input_type u itype)) [
    | inl (a, p) ↦ inr (
        check_input_type-Fresh u itype v (λ e. ground (arith, eq_iff u ""))
          (p ∙ cc (rw (n, p) at h)))
    | inr (e, p) ↦ cc (rw (n, p) at h)
  ]
]

ask-none :
    (default : Option Answer) (itype : Bool) (l : String) (es : List Event)
    → reply default itype (strip is_space l) ≡ none
    → ask default itype (line l ∷ es) ≡ ask default itype es
unfolding ask
ask-none default itype l es e = rw (e, ask)

ask-some :
    (default : Option Answer) (itype : Bool) (l : String) (es : List Event) (v : Answer)
    → reply default itype (strip is_space l) ≡ some v
    → ask default itype (line l ∷ es) ≡ (returned (some v), es)
unfolding ask
ask-some default itype l es v e = rw (e, ask)

ask-Answers :
    (default : Option Answer) (itype : Bool) (es : List Event)
    → Answers default itype (ask default itype es)
unfolding ask
ask-Answers default itype [] = refl
ask-Answers default itype (interrupt ∷ es) = tt
ask-Answers default itype (line l ∷ es) =
    elim (Option-cases (reply default itype (strip is_space l))) [
      | inl e ↦
          subst (Answers default itype) (sym (ask-none default itype l es e))
            (ask-Answers default itype es)
      | inr (v, e) ↦
          subst (Answers default itype) (sym (ask-some default itype l es v e))
            (reply-Fresh default itype (strip is_space l) v e)
    ]

-- `getPrompt` returns a default, a new answer of the wanted kind, or, only where the input has
-- ended, `None`. It raises nothing, and changes nothing of the configuration.
pub get_prompt-Answers :
    (default : Option Answer) (itype : Bool) (s : Console)
    → let (r, s') = get_prompt default itype s in
      Answers (truthy default) itype (r, s'.input) × (s'.cfg ≡ s.cfg)
unfolding get_prompt
get_prompt-Answers default itype s = (ask-Answers (truthy default) itype s.input, refl)

-- Blank lines are passed over where there is no default.
abbrev pub blank : Event → Bool
blank (line l) = strip is_space l == ""
blank interrupt = false

ask-blank :
    (itype : Bool) (blanks es : List Event)
    → all blank blanks ≡ true
    → ask none itype (blanks ++ es) ≡ ask none itype es
unfolding ask reply
ask-blank itype [] es h = refl
ask-blank itype (line l ∷ blanks) es h = ground (arith, ask-blank itype blanks es)
ask-blank itype (interrupt ∷ blanks) es h = cc

-- Without a default the answer is the first line that is not blank, less the blanks at its ends.
pub get_prompt-first :
    (s : Console) (blanks : List Event) (l : String) (rest : List Event)
    → s.input ≡ blanks ++ line l ∷ rest
    → all blank blanks ≡ true
    → strip is_space l ≢ ""
    → get_prompt none false s
      ≡ (returned (some (text (strip is_space l))), record s { input = rest })
unfolding get_prompt
get_prompt-first s blanks l rest e b n = rw e (
    rw (ask-blank false blanks (line l ∷ rest) b)
      (unfold ask reply or_none check_input_type in ground (arith, eq_iff (strip is_space l) "")))
