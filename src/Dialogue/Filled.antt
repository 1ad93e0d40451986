-- ===== src/Dialogue/Filled.antt =====
-- What a question of `check_properties` and `get_ip` leave in the configuration: the attribute is a
-- text that is not empty.
use Prim.Native.Char.{Char}
use text.Mathlib.TextLemmas.{cons-append}
use community_edition_setup.Prelude.{
  String, ◌<>◌, ◌≡◌, refl, Bool, true, false, not, Option, none, some, List, [], ◌∷◌, ◌&&◌, ◌==◌,
  if◌then◌else◌, arith, subst, suc, eq_iff, ap, ◌≢◌,
}
use community_edition_setup.Prelude.Text.{strip, is_space, split, length as text_length}
use community_edition_setup.Session.{Event, line, interrupt}
use community_edition_setup.Dialogue.{Site, Host, ◌>>=◌, loop, gets, modify, given, or_text, prompt}
use community_edition_setup.Dialogue.Questions.{get_ip, ask_ip, ip_round}
use community_edition_setup.Dialogue.Checking.{
  input_of, input_line, input_round, unless_set, has_three_parts, is_nonempty, has_two_characters,
  address_round, again_unless_set, unless_address, check_address,
}
use community_edition_setup.Dialogue.Validating.{
  Post, Ensures, OrAgain, OrAgain-accept, Ensures->>=, Ensures-loop, Ensures-prompt,
  Ensures-checked,
}

abbrev pub IsFilled : String → Type 0
IsFilled s = (s == "") ≡ false

abbrev pub IsSetTo : Option String → Type 0
IsSetTo o = (s : String) × (o ≡ some s) × IsFilled s

given-IsFilled : (o : Option String) (s : String) → given o ≡ some s → IsFilled s
given-IsFilled none s e = cc
given-IsFilled (some r) s e = filled (r == "") refl e
  where
    filled : (b : Bool) → (r == "") ≡ b → (if b then none else some r) ≡ some s → IsFilled s
    filled true h e = cc
    filled false h e = let same : r ≡ s = cc in subst IsFilled same h

pub or_text-IsSetTo : (o d : Option String) → IsSetTo d → IsSetTo (or_text (given o) d)
or_text-IsSetTo none d h = h
or_text-IsSetTo (some r) d h = either (r == "") refl
  where
    either : (b : Bool) → (r == "") ≡ b → IsSetTo (or_text (if b then none else some r) d)
    either true e = h
    either false e = (r, refl, e)

cons-IsFilled : (c : Char) (s : String) → IsFilled (String.◌∷◌ c s)
unfolding text_length
cons-IsFilled c s =
    let longer : ◌≢◌ {A = String} (String.◌∷◌ c s) "" =
      λ e. let size : suc (text_length s) ≡ 0 = ap text_length e in omega arith in
    ground (arith, eq_iff (String.◌∷◌ c s) "", longer)

pub append-IsFilled : (s t : String) → IsFilled s → IsFilled (s <> t)
append-IsFilled String.[] t h = cc
append-IsFilled (String.◌∷◌ c s) t h = rw cons-append (cons-IsFilled c (s <> t))

pub is_nonempty-IsFilled : (s : String) → is_nonempty s ≡ true → IsFilled s
is_nonempty-IsFilled s h = ground arith

pub has_two_characters-IsFilled : (s : String) → has_two_characters s ≡ true → IsFilled s
unfolding text_length
has_two_characters-IsFilled String.[] h = cc
has_two_characters-IsFilled (String.◌∷◌ c s) h = cons-IsFilled c s

pub has_three_parts-IsFilled : (s : String) → has_three_parts s ≡ true → IsFilled s
unfolding split
has_three_parts-IsFilled String.[] h = cc
has_three_parts-IsFilled (String.◌∷◌ c s) h = cons-IsFilled c s

Ensures-input_line : (P : Site → Type 0) → Ensures P input_line (λ s. P)
unfolding input_line
Ensures-input_line P t p = kept t.console.input
  where
    kept : (es : List Event) → Post (λ s. P) (input_of es t)
    kept [] = tt
    kept (interrupt ∷ es) = tt
    kept (line l ∷ es) = p

module _ (P : Site → Type 0) where
  abbrev Answered : String → Site → Type 0
  Answered s site = P site × IsFilled s

  module _ (accept : String → Bool) (filled : (s : String) → accept s ≡ true → IsFilled s) where
    Ensures-input_round : (u : Unit {0}) → Ensures P (input_round accept u) (OrAgain P Answered)
    unfolding input_round
    Ensures-input_round u =
        Ensures->>= P (λ s. P) (OrAgain P Answered) input_line _ (Ensures-input_line P)
          (λ s t p.
            OrAgain-accept P Answered (accept (strip is_space s)) tt (strip is_space s) t.site p
              (λ e. (p, filled (strip is_space s) e)))

    Ensures-unless_set :
        (o : Option String) (set : Option String)
        → given o ≡ set
        → Ensures P (unless_set accept set) Answered
    Ensures-unless_set o none e t p =
        Ensures-loop P Answered (input_round accept) Ensures-input_round tt t p
    Ensures-unless_set o (some s) e t p = (p, given-IsFilled o s e)

    -- A question for an attribute leaves it set.
    pub Ensures-ask :
        (get : Site → Option String) (put : String → Site → Site) (Q : Site → Type 0)
        → ((s : String) (site : Site) → P site → IsFilled s → Q (put s site))
        → Ensures P
            (do set ← gets (λ s. given (get s)); x ← unless_set accept set; modify (put x))
            (λ u. Q)
    Ensures-ask get put Q h t =
        Ensures->>= P Answered (λ u. Q) (unless_set accept (given (get t.site))) _
          (Ensures-unless_set (get t.site) (given (get t.site)) refl)
          (λ s t' p. h s t'.site p.0 p.1) t

module _ (host : Host) where
  -- `get_ip` leaves the configuration alone, and its answer is a text where it is asked for.
  module _ (P : Site → Type 0) where
    abbrev Filled : Option String → Site → Type 0
    Filled o site = P site × IsSetTo o

    Ensures-ip_round : (d : Option String) → Ensures P (ip_round host d) (OrAgain P (Answered P))
    unfolding ip_round
    Ensures-ip_round d =
        Ensures->>= P (λ answer. P) (OrAgain P (Answered P)) (prompt d) _ (Ensures-prompt P d)
          (Ensures-checked P (Answered P) (λ s. host.is_ip s && not (s == "")) (λ s. d)
            (λ s site p e. (p, ground arith)))

    Ensures-ask_ip :
        (no_prompt : Bool) (o d : Option String)
        → given o ≡ d
        → Ensures P (ask_ip host no_prompt d) Filled
    unfolding ask_ip
    Ensures-ask_ip b o none e t p =
        Ensures->>= P (Answered P) Filled (loop (ip_round host) none) _
          (Ensures-loop P (Answered P) (ip_round host) Ensures-ip_round none)
          (λ s t' q. (q.0, (s, refl, q.1))) t p
    Ensures-ask_ip true o (some d) e t p = (p, (d, refl, given-IsFilled o d e))
    Ensures-ask_ip false o (some d) e t p =
        Ensures->>= P (Answered P) Filled (loop (ip_round host) (some d)) _
          (Ensures-loop P (Answered P) (ip_round host) Ensures-ip_round (some d))
          (λ s t' q. (q.0, (s, refl, q.1))) t p

    pub Ensures-get_ip : Ensures P (get_ip host false) Filled
    unfolding get_ip
    Ensures-get_ip t =
        Ensures-ask_ip t.site.no_prompt (or_text (given t.site.ip) host.detect_ip) _ refl t

  -- Without an address on an installed instance the loop would not end.
  abbrev HasAddress : (Site → Type 0) → Site → Type 0
  HasAddress P s = P s × IsSetTo s.ip

  again-Ensures :
      (P : Site → Type 0) (ip : Option String) (s : Site)
      → P s
      → OrAgain P (Answered P) (again_unless_set (given ip)) s
  again-Ensures P ip s p = again (given ip) refl
    where
      again : (o : Option String) → given ip ≡ o → OrAgain P (Answered P) (again_unless_set o) s
      again none e = p
      again (some text) e = (p, given-IsFilled ip text e)

  module _ (P : Site → Type 0)
      (keeps : (s : Site) (ip : Option String) → P s → P (record s { ip = ip })) where
    Ensures-ask_ip_any :
        (no_prompt : Bool) (d : Option String) → Ensures P (ask_ip host no_prompt d) (λ ip. P)
    unfolding ask_ip
    Ensures-ask_ip_any b none t p =
        Ensures->>= P (Answered P) (λ ip. P) (loop (ip_round host) none) _
          (Ensures-loop P (Answered P) (ip_round host) (Ensures-ip_round P) none) (λ s t' q. q.0) t
          p
    Ensures-ask_ip_any true (some d) t p = p
    Ensures-ask_ip_any false (some d) t p =
        Ensures->>= P (Answered P) (λ ip. P) (loop (ip_round host) (some d)) _
          (Ensures-loop P (Answered P) (ip_round host) (Ensures-ip_round P) (some d))
          (λ s t' q. q.0) t p

    Ensures-get_ip_any : (installed : Bool) → Ensures P (get_ip host installed) (λ ip. P)
    unfolding get_ip
    Ensures-get_ip_any true t p = p
    Ensures-get_ip_any false t p = Ensures-ask_ip_any t.site.no_prompt _ t p

    Ensures-address_round :
        (installed : Bool) (u : Unit {0})
        → Ensures P (address_round host installed u) (OrAgain P (Answered P))
    unfolding address_round
    Ensures-address_round installed u =
        Ensures->>= P (λ ip. P) (OrAgain P (Answered P)) (get_ip host installed) _
          (Ensures-get_ip_any installed)
          (λ ip t p. again-Ensures P ip (record t.site { ip = ip }) (keeps t.site ip p))

    Ensures-unless_address :
        (installed : Bool) (o set : Option String)
        → given o ≡ set
        → Ensures P (unless_address host installed set) (Answered P)
    Ensures-unless_address installed o none e t p =
        Ensures-loop P (Answered P) (address_round host installed) (Ensures-address_round installed)
          tt t p
    Ensures-unless_address installed o (some ip) e t p = (p, given-IsFilled o ip e)

    pub Ensures-check_address :
        (installed : Bool) → Ensures P (check_address host installed) (λ u. HasAddress P)
    unfolding check_address
    Ensures-check_address installed t =
        Ensures->>= P (Answered P) (λ u. HasAddress P)
          (unless_address host installed (given t.site.ip)) _
          (Ensures-unless_address installed t.site.ip (given t.site.ip) refl)
          (λ ip t' p. (keeps t'.site (some ip) p.0, (ip, refl, p.1))) t
