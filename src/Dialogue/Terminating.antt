-- ===== src/Dialogue/Terminating.antt =====
-- The first questions end on every input: each round of a loop uses up an event, or is the last.
use community_edition_setup.Prelude.{
  ℕ, zero, suc, ◌≤◌, ◌<◌, String, ◌≡◌, refl, false, Option, none, some, List, [], ◌∷◌, ◌⊎◌, inl,
  inr, length, arith, Option-cases,
}
use mathlib.Core.Option
use community_edition_setup.Prelude.Text.{strip, is_space}
use community_edition_setup.Session.{
  Event, line, interrupt, Answer, text, number, Ended, returned, raised, exited, ask, reply,
  get_prompt, truthy,
}
use community_edition_setup.Dialogue.{
  Talk, Dialogue, continue, ◌>>=◌, after_round, repeat, loop, text_ended, prompt,
}

abbrev pub coming : Talk → ℕ
coming t = length t.console.input

-- A call that ended with no more events than `n` to come, and a round that used one up if it has to
-- be repeated.
abbrev pub Bounded : {A : Type 0} → ℕ → Option (Ended A × Talk) → Type 0
Bounded n none = ⊥
Bounded n (some (e, t)) = coming t ≤ n

abbrev pub Used : {A B : Type 0} → ℕ → Option (Ended (A ⊎ B) × Talk) → Type 0
Used n none = ⊥
Used n (some (returned (inl x), t)) = coming t < n
Used n (some (returned (inr y), t)) = coming t ≤ n
Used n (some (raised e, t)) = coming t ≤ n
Used n (some (exited, t)) = coming t ≤ n

abbrev pub Ends : {A : Type 0} → Dialogue A → Type 0
Ends m = (t : Talk) → Bounded (coming t) (m t)

abbrev pub Rounds : {A B : Type 0} → (A → Dialogue (A ⊎ B)) → Type 0
Rounds body = (x : _) (t : Talk) → Used (coming t) (body x t)

module _ {A : Type 0} where
  Bounded-weaken : (m n : ℕ) (r : Option (Ended A × Talk)) → m ≤ n → Bounded m r → Bounded n r
  Bounded-weaken m n none le b = b
  Bounded-weaken m n (some (e, t)) le b = omega arith

module _ {A B : Type 0} where
  Bounded-continue :
      (n : ℕ) (r : Option (Ended A × Talk)) (f : A → Dialogue B)
      → Bounded n r
      → ((a : A) → Ends (f a))
      → Bounded n (continue r f)
  Bounded-continue n none f b h = b
  Bounded-continue n (some (returned a, t)) f b h = Bounded-weaken (coming t) n (f a t) b (h a t)
  Bounded-continue n (some (raised e, t)) f b h = b
  Bounded-continue n (some (exited, t)) f b h = b

  -- A chain of parts that end ends.
  pub Ends->>= :
      (m : Dialogue A) (f : A → Dialogue B) → Ends m → ((a : A) → Ends (f a)) → Ends (m >>= f)
  Ends->>= m f h k t = Bounded-continue (coming t) (m t) f (h t) k

  Bounded-after_round :
      (n : ℕ) (more : A → Dialogue B) (r : Option (Ended (A ⊎ B) × Talk))
      → Used n r
      → ((x : A) (t : Talk) → coming t < n → Bounded (coming t) (more x t))
      → Bounded n (after_round more r)
  Bounded-after_round n more none u h = u
  Bounded-after_round n more (some (returned (inl x), t)) u h =
      Bounded-weaken (coming t) n (more x t) (omega arith) (h x t u)
  Bounded-after_round n more (some (returned (inr y), t)) u h = u
  Bounded-after_round n more (some (raised e, t)) u h = u
  Bounded-after_round n more (some (exited, t)) u h = u

  -- A loop ends with fuel for the coming events, if each round uses one up or is the last.
  repeat-Bounded :
      (body : A → Dialogue (A ⊎ B))
      → Rounds body
      → (fuel : ℕ) (x : A) (t : Talk) → coming t < fuel
      → Bounded (coming t) (repeat fuel body x t)
  unfolding repeat
  repeat-Bounded body h zero x t enough = absurd (omega arith)
  repeat-Bounded body h (suc fuel) x t enough =
      Bounded-after_round (coming t) (repeat fuel body) (body x t) (h x t)
        (λ x' t' less. repeat-Bounded body h fuel x' t' (omega arith))

  pub Ends-loop : (body : A → Dialogue (A ⊎ B)) → Rounds body → (x : A) → Ends (loop body x)
  unfolding loop
  Ends-loop body h x t = repeat-Bounded body h (suc (coming t)) x t (omega arith)

  -- A round that asks: if there is an answer, an event was used up for it.
  Used-weaken : (m n : ℕ) (r : Option (Ended (A ⊎ B) × Talk)) → m < n → Bounded m r → Used n r
  Used-weaken m n none le b = b
  Used-weaken m n (some (returned (inl x), t)) le b = omega arith
  Used-weaken m n (some (returned (inr y), t)) le b = omega arith
  Used-weaken m n (some (raised e, t)) le b = omega arith
  Used-weaken m n (some (exited, t)) le b = omega arith

  Used-le : (m n : ℕ) (r : Option (Ended (A ⊎ B) × Talk)) → m ≤ n → Used m r → Used n r
  Used-le m n none le b = b
  Used-le m n (some (returned (inl x), t)) le b = omega arith
  Used-le m n (some (returned (inr y), t)) le b = omega arith
  Used-le m n (some (raised e, t)) le b = omega arith
  Used-le m n (some (exited, t)) le b = omega arith

-- What a question leaves of the events: with an answer, one less.
abbrev Left : ℕ → Ended (Option String) → ℕ → Type 0
Left n (returned none) m = m ≤ n
Left n (returned (some s)) m = m < n
Left n (raised e) m = ⊥
Left n exited m = m ≤ n

ask-Left :
    (default : Option Answer) (es : List Event)
    → Left (length es) (text_ended (ask default false es).0) (length (ask default false es).1)
unfolding ask
ask-Left default [] = omega arith
ask-Left default (interrupt ∷ es) = omega arith
ask-Left default (line l ∷ es) = elim (Option-cases (reply default false (strip is_space l))) [
  | inl nothing ↦ rw (nothing, ask) (later (ask default false es) (ask-Left default es))
  | inr (v, answer) ↦ rw (answer, ask) (one v)
]
  where
    later :
        (r : Ended (Option Answer) × List Event)
        → Left (length es) (text_ended r.0) (length r.1)
        → Left (suc (length es)) (text_ended r.0) (length r.1)
    later (returned (some (text s)), rest) h = omega arith
    later (returned (some (number n)), rest) h = omega arith
    later (returned none, rest) h = omega arith
    later (raised e, rest) h = h
    later (exited, rest) h = omega arith

    one : (v : Answer) → Left (suc (length es)) (text_ended (returned (some v))) (length es)
    one (text s) = omega arith
    one (number n) = omega arith

prompt-Left :
    (default : Option String) (t : Talk)
    → (r : Ended (Option String) × Talk) × (prompt default t ≡ some r)
      × Left (coming t) r.0 (coming r.1)
unfolding prompt get_prompt
prompt-Left default t =
    let d : Option Answer = truthy (Option.map text default) in
    (
      (
        text_ended (ask d false t.console.input).0,
        record t { console = record t.console { input = (ask d false t.console.input).1 } },
      ),
      refl,
      ask-Left d t.console.input,
    )

pub Ends-prompt : (default : Option String) → Ends (prompt default)
Ends-prompt default t = let p = prompt-Left default t in rw p.1 (bounded (coming t) p.0 p.2)
  where
    bounded :
        (n : ℕ) (r : Ended (Option String) × Talk) → Left n r.0 (coming r.1) → Bounded n (some r)
    bounded n (returned none, t') h = h
    bounded n (returned (some s), t') h = omega arith
    bounded n (raised e, t') h = absurd h
    bounded n (exited, t') h = h

module _ {A B : Type 0} where
  -- A round that asks uses an event up if there is an answer; without one it has to be the last.
  pub Used-prompt :
      (default : Option String) (f : Option String → Dialogue (A ⊎ B))
      → ((t : Talk) → Used (coming t) (f none t))
      → ((s : String) → Ends (f (some s)))
      → (t : Talk) → Used (coming t) ((prompt default >>= f) t)
  Used-prompt default f last more t =
      let p = prompt-Left default t in rw p.1 (used (coming t) p.0 p.2)
    where
      used :
          (n : ℕ) (r : Ended (Option String) × Talk)
          → Left n r.0 (coming r.1)
          → Used n (continue (some r) f)
      used n (returned none, t') h = Used-le (coming t') n (f none t') h (last t')
      used n (returned (some s), t') h = Used-weaken (coming t') n (f (some s) t') h (more s t')
      used n (raised e, t') h = absurd h
      used n (exited, t') h = h
