-- ===== src/Loading/Document/Classes.antt =====
-- Which object class a document keeps.
use community_edition_setup.Prelude.{
  suc, ◌+◌, ◌<◌, String, ◌≡◌, ◌≢◌, refl, sym, ap, ◌∙◌, inl, inr, Bool, true, false, not, ◌&&◌, List,
  [], ◌∷◌, ◌++◌, ltb, length, if◌then◌else◌, ◌==◌, Result, ok, err, value_error, map_ok, ◌>>=◌, All,
  arith, eq_iff, eq_refl, Bool-cases, length-append,
}
use community_edition_setup.Prelude.Text.{is_infix}
use community_edition_setup.Loading.Attributes.{Value, text}
use community_edition_setup.Loading.Document.{
  Content, single, several, texts, remove_word, has_gluu, thin_out, thin_out_all, first_value,
  object_class,
}

-- A class of Gluu that is not named `Custom`, and one that the loop would remove twice.
abbrev pub is_own : String → Bool
is_own c = has_gluu c && not (is_infix "Custom" c)

abbrev pub is_foreign : String → Bool
is_foreign c = is_infix "Custom" c && not (has_gluu c)

-- The first class of Gluu's own, or the last one of all.
abbrev pub chosen : String → List String → String
chosen c [] = c
chosen c (d ∷ cs) = if is_own c then c else chosen d cs

abbrev head_or : List String → String → String
head_or [] c = c
head_or (k ∷ ks) c = k

texts-append : (a b : List String) → texts (a ++ b) ≡ texts a ++ texts b
texts-append [] b = refl
texts-append (x ∷ a) b = ap (λ vs. text x ∷ vs) (texts-append a b)

-- A class that is not the classes of `kept` is removed behind them.
remove_word-behind :
    (c : String) (kept rest : List String)
    → All (λ k. (k == c) ≡ false) kept
    → remove_word c (texts kept ++ text c ∷ texts rest) ≡ ok (texts kept ++ texts rest)
unfolding remove_word
remove_word-behind c [] rest h = rw (eq_refl c) refl
remove_word-behind c (k ∷ kept) rest (differs, h) =
    rw (differs, remove_word-behind c kept rest h) refl

own-differs :
    (c : String) (kept : List String)
    → is_own c ≡ false
    → All (λ k. is_own k ≡ true) kept
    → All (λ k. (k == c) ≡ false) kept
own-differs c [] other h = tt
own-differs c (k ∷ kept) other (own, h) =
    let differs : k ≢ c = λ same. cc (ap is_own same) in
    (ground (arith, eq_iff k c, differs), own-differs c kept other h)

-- A round keeps an own class, and removes another one unless it is alone.
thin_out-own : (c : String) (vs : List Value) → is_own c ≡ true → thin_out c vs ≡ ok vs
unfolding thin_out
thin_out-own c vs own = ground arith

thin_out-other :
    (c : String) (vs rest : List Value)
    → is_own c ≡ false
    → is_foreign c ≡ false
    → ltb 1 (length vs) ≡ true
    → remove_word c vs ≡ ok rest
    → thin_out c vs ≡ ok rest
unfolding thin_out
thin_out-other c vs rest other plain long removed = ground arith

thin_out-alone : (c : String) (v : Value) → thin_out c (v ∷ []) ≡ ok (v ∷ [])
unfolding thin_out
thin_out-alone c v = ground arith

length-texts : (a : List String) → length (texts a) ≡ length a
length-texts [] = refl
length-texts (x ∷ a) = ap suc (length-texts a)

length-behind :
    (c : String) (kept rest : List String)
    → 0 < length kept + length rest
    → ltb 1 (length (texts kept ++ text c ∷ texts rest)) ≡ true
length-behind c kept rest h =
    ground (
      arith,
      length-append (texts kept) (text c ∷ texts rest),
      length-texts kept,
      length-texts rest,
    )

-- A round with another class, behind own ones, that is not alone.
thin_out-behind :
    (c : String) (kept rest : List String)
    → is_own c ≡ false
    → is_foreign c ≡ false
    → All (λ k. is_own k ≡ true) kept
    → 0 < length kept + length rest
    → thin_out c (texts kept ++ text c ∷ texts rest) ≡ ok (texts kept ++ texts rest)
thin_out-behind c kept rest other plain owns more =
    thin_out-other c _ _ other plain (length-behind c kept rest more)
      (remove_word-behind c kept rest (own-differs c kept other owns))

first_text :
    (kept : List String) (c : String) (rest : List Value)
    → map_ok single (first_value (texts kept ++ text c ∷ rest))
      ≡ ok (single (text (head_or kept c)))
first_text [] c rest = refl
first_text (k ∷ kept) c rest = refl

-- The last round.
last_round : String → List Value → Result Content
last_round c vs = do left ← thin_out c vs; map_ok single (first_value left)

last_round-own :
    (kept : List String) (c : String)
    → is_own c ≡ true
    → last_round c (texts kept ++ text c ∷ []) ≡ ok (single (text (head_or kept c)))
unfolding last_round
last_round-own kept c own =
    rw (thin_out-own c (texts kept ++ text c ∷ []) own) (first_text kept c [])

last_round-other :
    (kept : List String) (c : String)
    → is_own c ≡ false
    → is_foreign c ≡ false
    → All (λ k. is_own k ≡ true) kept
    → last_round c (texts kept ++ text c ∷ []) ≡ ok (single (text (head_or kept c)))
unfolding last_round
last_round-other [] c other plain owns = rw (thin_out-alone c (text c)) refl
last_round-other (k ∷ kept) c other plain owns =
    rw (thin_out-behind c (k ∷ kept) [] other plain owns (omega arith)) refl

-- What the loop and the index behind it make of the classes.
first_left : List Value → List Value → Result Content
first_left copy vs = do left ← thin_out_all copy vs; map_ok single (first_value left)

first_left-next :
    (c : String) (copy vs next : List Value)
    → thin_out c vs ≡ ok next
    → first_left (text c ∷ copy) vs ≡ first_left copy next
unfolding first_left thin_out_all
first_left-next c copy vs next e = rw (e) refl

ok-last :
    (r : Result (List Value))
    → (k : List Value → Result Content) → ((r >>= λ x. ok x) >>= k) ≡ (r >>= k)
ok-last (ok x) k = refl
ok-last (err e) k = refl

first_left-last : (c : String) (vs : List Value) → first_left (text c ∷ []) vs ≡ last_round c vs
unfolding first_left thin_out_all last_round
first_left-last c vs = ok-last (thin_out c vs) _

shift :
    (kept : List String) (c : String) (rest : List String)
    → texts kept ++ text c ∷ texts rest ≡ texts (kept ++ c ∷ []) ++ texts rest
shift [] c rest = refl
shift (k ∷ kept) c rest = ap (λ vs. text k ∷ vs) (shift kept c rest)

All-snoc :
    (P : String → Type 0)
    → (kept : List String) (c : String) → All P kept
    → P c
    → All P (kept ++ c ∷ [])
All-snoc P [] c owns own = (own, tt)
All-snoc P (k ∷ kept) c (o, owns) own = (o, All-snoc _ kept c owns own)

head_or-snoc : (kept : List String) (c d : String) → head_or (kept ++ c ∷ []) d ≡ head_or kept c
head_or-snoc [] c d = refl
head_or-snoc (k ∷ kept) c d = refl

chosen-own : (c d : String) (cs : List String) → is_own c ≡ true → chosen c (d ∷ cs) ≡ c
chosen-own c d cs own = rw (own) refl

chosen-other :
    (c d : String) (cs : List String) → is_own c ≡ false → chosen c (d ∷ cs) ≡ chosen d cs
chosen-other c d cs other = rw (other) refl

first_left-lem :
    (kept : List String) (c : String) (cs : List String)
    → All (λ k. is_own k ≡ true) kept
    → All (λ k. is_foreign k ≡ false) (c ∷ cs)
    → first_left (texts (c ∷ cs)) (texts kept ++ texts (c ∷ cs))
      ≡ ok (single (text (head_or kept (chosen c cs))))
first_left-lem kept c [] owns (plain, plains) = elim (Bool-cases (is_own c)) [
  | inl own ↦ first_left-last c _ ∙ last_round-own kept c own
  | inr other ↦ first_left-last c _ ∙ last_round-other kept c other plain owns
]
first_left-lem kept c (d ∷ cs) owns (plain, plains) = elim (Bool-cases (is_own c)) [
  | inl own ↦
      first_left-next c (texts (d ∷ cs)) _ _
        (thin_out-own c (texts kept ++ text c ∷ texts (d ∷ cs)) own)
      ∙ ap (first_left (texts (d ∷ cs))) (shift kept c (d ∷ cs))
      ∙ first_left-lem (kept ++ c ∷ []) d cs (All-snoc _ kept c owns own) plains
      ∙ ap (λ x. ok (single (text x)))
          (head_or-snoc kept c (chosen d cs) ∙ ap (head_or kept) (sym (chosen-own c d cs own)))
  | inr other ↦
      first_left-next c (texts (d ∷ cs)) _ _
        (thin_out-behind c kept (d ∷ cs) other plain owns (omega arith))
      ∙ first_left-lem kept d cs owns plains
      ∙ ap (λ x. ok (single (text (head_or kept x)))) (sym (chosen-other c d cs other))
]

-- A list of object classes becomes its first class of Gluu's own, and the last class where there is
-- none; `top` is left aside, and no class names `Custom` without being one of Gluu's.
pub object_class-chosen :
    (vs : List Value) (c : String) (cs : List String)
    → remove_word "top" vs ≡ ok (texts (c ∷ cs))
    → All (λ k. is_foreign k ≡ false) (c ∷ cs)
    → object_class (several vs) ≡ ok (single (text (chosen c cs)))
unfolding object_class first_left
object_class-chosen vs c cs removed plains = rw (removed) (first_left-lem [] c cs tt plains)

remove_word-absent :
    (c : String) (ks : List String)
    → All (λ k. (k == c) ≡ false) ks
    → remove_word c (texts ks) ≡ err value_error
unfolding remove_word
remove_word-absent c [] h = refl
remove_word-absent c (k ∷ ks) (differs, h) = rw (differs, remove_word-absent c ks h) refl

thin_out-foreign :
    (c : String) (vs rest : List Value)
    → is_foreign c ≡ true
    → ltb 1 (length vs) ≡ true
    → ltb 1 (length rest) ≡ true
    → remove_word c vs ≡ ok rest
    → thin_out c vs ≡ remove_word c rest
unfolding thin_out
thin_out-foreign c vs rest foreign long still removed = ground arith

remove_word-head : (c : String) (rest : List Value) → remove_word c (text c ∷ rest) ≡ ok rest
unfolding remove_word
remove_word-head c rest = rw (eq_refl c) refl

-- A list of object classes of which, `top` left aside, the first names `Custom`, is not one of Gluu's
-- and is not repeated, and which has two further classes at least, raises a `ValueError`: the loop
-- removes the first class twice.
pub object_class-raises :
    (vs : List Value) (c d e : String) (rest : List String)
    → remove_word "top" vs ≡ ok (texts (c ∷ d ∷ e ∷ rest))
    → is_foreign c ≡ true
    → All (λ k. (k == c) ≡ false) (d ∷ e ∷ rest)
    → object_class (several vs) ≡ err value_error
unfolding object_class thin_out_all
object_class-raises vs c d e rest removed foreign absent =
    let twice : thin_out c (texts (c ∷ d ∷ e ∷ rest)) ≡ err value_error =
      thin_out-foreign c (texts (c ∷ d ∷ e ∷ rest)) (texts (d ∷ e ∷ rest)) foreign (ground arith)
        (ground arith) (remove_word-head c _)
      ∙ remove_word-absent c (d ∷ e ∷ rest) absent in
    rw (removed, twice) refl
