-- ===== src/Dialogue/Validating.antt =====
-- What the first questions leave in the configuration has passed the checks.
use community_edition_setup.Prelude.{
  ℕ, zero, suc, String, ◌≡◌, refl, Bool, true, false, Option, none, some, ◌⊎◌, inl, inr, ◌==◌, ◌=ℕ◌,
  ltb, if◌then◌else◌, length,
}
use mathlib.Core.Option
use community_edition_setup.Prelude.Text.{length as text_length}
use community_edition_setup.Session.{
  Answer, text, Console, get_prompt, Ended, returned, raised, exited,
}
use community_edition_setup.Dialogue.{
  Site, Talk, Host, Dialogue, continue, ◌>>=◌, after_round, repeat, loop, checked, prompt,
  text_ended, show,
}

-- A postcondition of a call, on its value and the configuration, where it returns.
abbrev pub Post : {A : Type 0} → (A → Site → Type 0) → Option (Ended A × Talk) → Type 0
Post Q none = Unit
Post Q (some (returned a, t)) = Q a t.site
Post Q (some (raised e, t)) = Unit
Post Q (some (exited, t)) = Unit

abbrev pub Ensures : {A : Type 0} → (Site → Type 0) → Dialogue A → (A → Site → Type 0) → Type 0
Ensures P m Q = (t : Talk) → P t.site → Post Q (m t)

abbrev pub OrAgain : {A B : Type 0} → (Site → Type 0) → (B → Site → Type 0) → A ⊎ B → Site → Type 0
OrAgain P Q (inl x) s = P s
OrAgain P Q (inr y) s = Q y s

module _ {A B : Type 0} (P : Site → Type 0) (R : A → Site → Type 0) (Q : B → Site → Type 0) where
  Post-continue :
      (r : Option (Ended A × Talk)) (f : A → Dialogue B)
      → Post R r
      → ((a : A) → Ensures (R a) (f a) Q)
      → Post Q (continue r f)
  Post-continue none f p h = tt
  Post-continue (some (returned a, t)) f p h = h a t p
  Post-continue (some (raised e, t)) f p h = tt
  Post-continue (some (exited, t)) f p h = tt

  pub Ensures->>= :
      (m : Dialogue A) (f : A → Dialogue B)
      → Ensures P m R
      → ((a : A) → Ensures (R a) (f a) Q)
      → Ensures P (m >>= f) Q
  Ensures->>= m f h k t p = Post-continue (m t) f (h t p) k

module _ {A B : Type 0} (P : Site → Type 0) (Q : B → Site → Type 0) where
  Post-after_round :
      (more : A → Dialogue B) (r : Option (Ended (A ⊎ B) × Talk))
      → Post (OrAgain P Q) r
      → ((x : A) → Ensures P (more x) Q)
      → Post Q (after_round more r)
  Post-after_round more none p h = tt
  Post-after_round more (some (returned (inl x), t)) p h = h x t p
  Post-after_round more (some (returned (inr y), t)) p h = p
  Post-after_round more (some (raised e, t)) p h = tt
  Post-after_round more (some (exited, t)) p h = tt

  repeat-Ensures :
      (body : A → Dialogue (A ⊎ B))
      → ((x : A) → Ensures P (body x) (OrAgain P Q))
      → (fuel : ℕ) (x : A) → Ensures P (repeat fuel body x) Q
  unfolding repeat
  repeat-Ensures body h zero x t p = tt
  repeat-Ensures body h (suc fuel) x t p =
      Post-after_round (repeat fuel body) (body x t) (h x t p) (repeat-Ensures body h fuel)

  pub Ensures-loop :
      (body : A → Dialogue (A ⊎ B))
      → ((x : A) → Ensures P (body x) (OrAgain P Q))
      → (x : A) → Ensures P (loop body x) Q
  unfolding loop
  Ensures-loop body h x t = repeat-Ensures body h (suc (length t.console.input)) x t

-- Nothing holds of every call.
abbrev pub Any : Site → Type 0
Any s = Unit

Post-Any : {A : Type 0} → (r : Option (Ended A × Talk)) → Post (λ a. Any) r
Post-Any none = tt
Post-Any (some (returned a, t)) = tt
Post-Any (some (raised e, t)) = tt
Post-Any (some (exited, t)) = tt

pub Ensures-Any : {A : Type 0} → (m : Dialogue A) → Ensures Any m (λ a. Any)
Ensures-Any m t p = Post-Any (m t)

-- A question leaves the configuration alone.
pub Ensures-prompt :
    (P : Site → Type 0) (default : Option String) → Ensures P (prompt default) (λ answer. P)
unfolding prompt
Ensures-prompt P default t p = kept (get_prompt (Option.map text default) false t.console)
  where
    kept :
        (r : Ended (Option Answer) × Console)
        → Post (λ (answer : Option String). P) (some (text_ended r.0, record t { console = r.1 }))
    kept (returned a, c) = p
    kept (raised e, c) = tt
    kept (exited, c) = tt

-- A round that decides by a test.
pub OrAgain-either :
    {A B : Type 0}
    → (P : Site → Type 0) (Q : B → Site → Type 0) (b : Bool) (x : A) (y : B) (s : Site)
    → (b ≡ true → P s)
    → (b ≡ false → Q y s)
    → OrAgain P Q (if b then inl x else inr y) s
OrAgain-either P Q true x y s h k = h refl
OrAgain-either P Q false x y s h k = k refl

pub OrAgain-accept :
    {A B : Type 0}
    → (P : Site → Type 0) (Q : B → Site → Type 0) (b : Bool) (x : A) (y : B) (s : Site) → P s
    → (b ≡ true → Q y s)
    → OrAgain P Q (if b then inr y else inl x) s
OrAgain-accept P Q true x y s h k = k refl
OrAgain-accept P Q false x y s h k = h

pub Ensures-checked :
    {A : Type 0}
    → (P : Site → Type 0) (Q : String → Site → Type 0) (test : String → Bool) (next : String → A)
    → ((answer : String) (s : Site) → P s → test answer ≡ true → Q answer s)
    → (answer : Option String) → Ensures P (checked test next answer) (OrAgain P Q)
Ensures-checked P Q test next h none t p = tt
Ensures-checked P Q test next h (some answer) t p =
    OrAgain-accept P Q (test answer) (next answer) answer t.site p (h answer t.site p)

-- What is checked of each answer.
abbrev pub HasHostname : Site → Type 0
HasHostname s = (show s.hostname == "localhost") ≡ false

abbrev pub HasCountry : Site → Type 0
HasCountry s = (code : String) × (s.country_code ≡ some code) × ((text_length code =ℕ 2) ≡ true)

abbrev pub HasPassword : Site → Type 0
HasPassword s =
    (password : String) × (s.oxtrust_admin_password ≡ some password)
    × (ltb 5 (text_length password) ≡ true)

abbrev pub HasEmail : Host → Site → Type 0
HasEmail host s = (email : String) × (s.admin_email ≡ some email) × (host.check_email email ≡ true)
