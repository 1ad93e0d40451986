-- ===== src/Scripts/Sms/Passcodes.antt =====
-- Which passcodes the second step takes.
use text.Mathlib.TextLemmas.{cons-append, nil-append}
use community_edition_setup.Prelude.{
  ℕ, suc, ◌+◌, ◌-◌, ◌/◌, ◌%◌, ◌≤◌, ◌<◌, String, ◌<>◌, ◌≡◌, refl, ap, ◌∙◌, ◌↔◌, some, Bool, true,
  false, if◌then◌else◌, ltb, ◌=ℕ◌, ok, err, name_error, arith, eq_iff, ◌≢◌,
}
use community_edition_setup.Prelude.Text.{length as text_length}
use community_edition_setup.Prelude.Decimal.{decimal, decimal_digits, digit}
use community_edition_setup.Scripts.Sms.Steps.{check_passcode}

text_length-append : (s t : String) → text_length (s <> t) ≡ text_length s + text_length t
unfolding text_length
text_length-append String.[] t = rw nil-append (omega arith)
text_length-append (String.◌∷◌ c s) t = rw cons-append (omega (arith, text_length-append s t))

either_length :
    (b : Bool) (s t : String)
    → text_length s ≡ 1
    → text_length t ≡ 1
    → text_length (if b then s else t) ≡ 1
either_length true s t h k = h
either_length false s t h k = k

length-digit : (d : ℕ) → text_length (digit d) ≡ 1
unfolding digit text_length
length-digit d = either_length (d =ℕ 0) _ _ refl (
    either_length (d =ℕ 1) _ _ refl (
      either_length (d =ℕ 2) _ _ refl (
        either_length (d =ℕ 3) _ _ refl (
          either_length (d =ℕ 4) _ _ refl (
            either_length (d =ℕ 5) _ _ refl (
              either_length (d =ℕ 6) _ _ refl
                (either_length (d =ℕ 7) _ _ refl (either_length (d =ℕ 8) _ _ refl refl))))))))

-- One digit more for each division by ten.
length-digits-more :
    (f n : ℕ)
    → 10 ≤ n
    → text_length (decimal_digits (suc f) n) ≡ text_length (decimal_digits f (n / 10)) + 1
unfolding decimal_digits
length-digits-more f n large =
    let test : ltb n 10 ≡ false = ground arith in
    rw
      (test, text_length-append (decimal_digits f (n / 10)) (digit (n % 10)), length-digit (n % 10))
      refl

length-digits-one : (f n : ℕ) → n < 10 → text_length (decimal_digits (suc f) n) ≡ 1
unfolding decimal_digits
length-digits-one f n small = let test : ltb n 10 ≡ true = ground arith in rw test (length-digit n)

-- A digit less is one step of the fuel less.
length-digits-suc :
    (f n k : ℕ)
    → 10 ≤ n
    → text_length (decimal_digits f (n / 10)) ≡ k
    → text_length (decimal_digits (suc f) n) ≡ k + 1
length-digits-suc f n k large rest = length-digits-more f n large ∙ ap (λ m. m + 1) rest

pub length-digits-six :
    (f n : ℕ)
    → 100000 ≤ n
    → n < 1000000
    → text_length (decimal_digits (suc (suc (suc (suc (suc (suc f)))))) n) ≡ 6
length-digits-six f n low high =
    length-digits-suc (suc (suc (suc (suc (suc f))))) n 5 (omega arith) (
      length-digits-suc (suc (suc (suc (suc f)))) _ 4 (omega arith) (
        length-digits-suc (suc (suc (suc f))) _ 3 (omega arith) (
          length-digits-suc (suc (suc f)) _ 2 (omega arith)
            (length-digits-suc (suc f) _ 1 (omega arith) (length-digits-one f _ (omega arith))))))

-- The code that is sent has six characters.
pub length-code : (code : ℕ) → 100000 ≤ code → code < 1000000 → text_length (decimal code) ≡ 6
unfolding decimal
length-code code low high =
    let fuel : code + 1 ≡ suc (suc (suc (suc (suc (suc (code - 5)))))) = omega arith in
    rw fuel (length-digits-six (code - 5) code low high)

module _ (code : ℕ) (low : 100000 ≤ code) (high : code < 1000000) (passcode : String) where
  pub accepts_iff :
      (check_passcode (some (decimal code)) (some passcode) ≡ ok true) ↔ (passcode ≡ decimal code)
  unfolding check_passcode
  accepts_iff = (
    λ e. ground (arith, eq_iff passcode (decimal code)),
    λ same.
        let six : text_length passcode ≡ 6 = ap text_length same ∙ length-code code low high in
        ground (arith, eq_iff passcode (decimal code)),
  )

  pub raises_iff :
      (check_passcode (some (decimal code)) (some passcode) ≡ err name_error)
      ↔ ((text_length passcode ≡ 6) × (passcode ≢ decimal code))
  unfolding check_passcode
  raises_iff = (
    λ e. ground (arith, eq_iff passcode (decimal code)),
    λ wrong. ground (arith, eq_iff passcode (decimal code), wrong),
  )
