-- ===== src/Scripts/Otp/Enrollments.antt =====
-- What enrollments keep in a user's entry is found again as it was written.
use Prim.Native.Char.{Char}
use text.Mathlib.TextLemmas.{cons-append, nil-append}
use community_edition_setup.Prelude.{
  ℕ, zero, suc, ◌+◌, ◌/◌, ◌%◌, String, ◌<>◌, ◌≡◌, refl, ◌∙◌, ap, List, [], ◌∷◌, Option, none, some,
  Bool, true, false, if◌then◌else◌, ltb, ◌=ℕ◌, map, All, Bool-cases, inl, inr,
}
use community_edition_setup.Prelude.Text.{split, has_code}
use community_edition_setup.Prelude.Parts.{
  has_code-append, split-free, split-separator, starts_with-append, drop-append, is_infix_of_starts,
}
use community_edition_setup.Prelude.Decimal.{decimal, decimal_digits, digit}
use community_edition_setup.Scripts.Otp.Codes.{enrollments_in, hotp_uid, totp_uid, show}

either_free :
    (b : Bool) (s t : String)
    → has_code b';' s ≡ false
    → has_code b';' t ≡ false
    → has_code b';' (if b then s else t) ≡ false
either_free true s t h k = h
either_free false s t h k = k

digit_free : (d : ℕ) → has_code b';' (digit d) ≡ false
unfolding digit has_code
digit_free d = either_free (d =ℕ 0) _ _ refl (
    either_free (d =ℕ 1) _ _ refl (
      either_free (d =ℕ 2) _ _ refl (
        either_free (d =ℕ 3) _ _ refl (
          either_free (d =ℕ 4) _ _ refl (
            either_free (d =ℕ 5) _ _ refl (
              either_free (d =ℕ 6) _ _ refl
                (either_free (d =ℕ 7) _ _ refl (either_free (d =ℕ 8) _ _ refl refl))))))))

digits_free : (f n : ℕ) → has_code b';' (decimal_digits f n) ≡ false
unfolding decimal_digits has_code
digits_free zero n = refl
digits_free (suc f) n = elim (Bool-cases (ltb n 10)) [
  | inl small ↦ rw small (digit_free n)
  | inr large ↦
      rw
        (
          large,
          has_code-append b';' (decimal_digits f (n / 10)) (digit (n % 10)),
          digits_free f (n / 10),
        )
        (digit_free (n % 10))
]

show_free : (factor : Option ℕ) → has_code b';' (show factor) ≡ false
unfolding has_code decimal
show_free none = refl
show_free (some n) = digits_free (n + 1) n

-- An identifier of a type is found, and its prefix is cut.
found-enrollments_in :
    (otp_type body : String) (uids : List String)
    → enrollments_in otp_type true (((otp_type <> ":") <> body) ∷ uids)
      ≡ body ∷ enrollments_in otp_type true uids
unfolding enrollments_in
found-enrollments_in otp_type body uids =
    rw
      (
        is_infix_of_starts (otp_type <> ":") ((otp_type <> ":") <> body)
            (starts_with-append (otp_type <> ":") body),
        drop-append (otp_type <> ":") body,
      )
      refl

enrollments_in-nil : (otp_type : String) → enrollments_in otp_type true [] ≡ []
unfolding enrollments_in
enrollments_in-nil otp_type = refl

-- The keys of timed codes are found again, all of them and in their order.
pub enrollments_in-totp :
    (keys : List String) → enrollments_in "totp" true (map totp_uid keys) ≡ keys
enrollments_in-totp [] = enrollments_in-nil "totp"
enrollments_in-totp (key ∷ keys) =
    found-enrollments_in "totp" key (map totp_uid keys)
    ∙ ap (λ ks. key ∷ ks) (enrollments_in-totp keys)

separator : (t : String) → ";" <> t ≡ String.◌∷◌ ";" t
separator t = rw (cons-append, nil-append) refl

-- The parts of a counted enrollment, as the loop over the enrollments splits it.
split-hotp :
    (key : String) (factor : Option ℕ)
    → has_code b';' key ≡ false
    → split b';' (key <> (";" <> show factor)) ≡ key ∷ show factor ∷ []
split-hotp key factor free =
    let semicolon : Char = ";" in
    ap (λ t. split b';' (key <> t)) (separator (show factor))
    ∙ (split-separator b';' key semicolon (show factor) free refl
        ∙ ap (λ ps. key ∷ ps) (split-free b';' (show factor) (show_free factor)))

-- The key and the moving factor of a counted enrollment.
abbrev pub Counted : Type 0
Counted = String × Option ℕ

abbrev pub written : Counted → String
written (key, factor) = hotp_uid key factor

abbrev pub split_parts : Counted → List String
split_parts (key, factor) = key ∷ show factor ∷ []

-- The counted enrollments of an entry are found again, in their order, and split at `;` into the
-- key and the moving factor that were written, where no key holds a `;`.
pub enrollments_in-hotp :
    (es : List Counted)
    → All (λ e. has_code b';' e.0 ≡ false) es
    → map (split b';') (enrollments_in "hotp" true (map written es)) ≡ map split_parts es
enrollments_in-hotp [] _ = ap (map (split b';')) (enrollments_in-nil "hotp")
enrollments_in-hotp ((key, factor) ∷ es) (free, rest) =
    ap (map (split b';'))
      (found-enrollments_in "hotp" (key <> (";" <> show factor)) (map written es))
    ∙ (λ i. split-hotp key factor free i ∷ enrollments_in-hotp es rest i)
