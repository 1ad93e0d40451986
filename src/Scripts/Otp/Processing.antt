-- ===== src/Scripts/Otp/Processing.antt =====
-- `processOtpAuthentication` accepts only codes that fit a key of the user.
use community_edition_setup.Prelude.{
  ℕ, String, ◌≡◌, inl, inr, refl, List, [], ◌∷◌, Option, none, some, Bool, true, false, ◌==◌, arith,
  get_elem?, ok, err, Bool-cases, Result-cases, Option-cases,
}
use community_edition_setup.Scripts.Otp.Calls.{Services, Value}
use community_edition_setup.Scripts.Otp.{Settings, State}
use community_edition_setup.Scripts.Otp.Codes.{
  Part, validate_hotp_key, validate_totp_key, check_code, authenticate_code, process_code,
  process_otp_authentication, process_given, ended, enroll, enroll_key, enroll_hotp, enrolled_totp,
}
use community_edition_setup.Scripts.Otp.Accepting.{
  Fits, IsChecked, IsEnrolled, IsOwn, Accepts, validate_totp_key-Fits, Accepts-try_all,
  try_hotp-IsChecked, try_totp-IsChecked, raised-Accepts,
}

module _ (s : Services) (k : Settings) (now : ℕ) where
  enroll_hotp-Fits :
      (w : s.World) (user code encoded : String) (key : s.Key)
      → Accepts s k now (enroll_hotp s k w user code encoded key)
      → Fits s k now key code
  unfolding enroll_hotp
  enroll_hotp-Fits w user code encoded key e =
      elim (Option-cases (validate_hotp_key s k key (some 1) code)) [
        | inl invalid ↦ ground arith
        | inr (new, valid) ↦ inl (some 1, new, valid)
      ]

  enrolled_totp-Fits :
      (user code encoded : String) (w : s.World) (key : s.Key) (r : s.World × Bool)
      → validate_totp_key s k now w key code user ≡ r
      → Accepts s k now (enrolled_totp s k user encoded r)
      → Fits s k now key code
  enrolled_totp-Fits user code encoded w key (w', true) v e =
      inr (validate_totp_key-Fits s k now w w' key code user v)
  enrolled_totp-Fits user code encoded w key (w', false) v e = cc

  enroll_key-Fits :
      (w : s.World) (user code encoded : String) (key : s.Key)
      → Accepts s k now (enroll_key s k now w user code encoded key)
      → Fits s k now key code
  unfolding enroll_key
  enroll_key-Fits w user code encoded key e = elim (Bool-cases (k.otp_type == "hotp")) [
    | inl hotp ↦ enroll_hotp-Fits w user code encoded key (ground arith)
    | inr other ↦ elim (Bool-cases (k.otp_type == "totp")) [
      | inl totp ↦
          enrolled_totp-Fits user code encoded w key (validate_totp_key s k now w key code user)
            refl (ground arith)
      | inr neither ↦ ground arith
    ]
  ]

  enroll-IsChecked :
      (w : s.World) (user code : String) (v : Option Value)
      → Accepts s k now (enroll s k now w user code v)
      → IsChecked s k now (λ encoded. v ≡ some (Value.text encoded)) code
  unfolding enroll
  enroll-IsChecked w user code (some (Value.text encoded)) e =
      elim (Result-cases (s.from_base64_url encoded)) [
        | inl (key, decoded) ↦ (
          encoded,
          refl,
          key,
          decoded,
          enroll_key-Fits w user code encoded key (rw (decoded, enroll) at e),
        )
        | inr (raised, failed) ↦ absurd (raised-Accepts s k now w raised (rw (failed, enroll) at e))
      ]
  enroll-IsChecked w user code none e = cc
  enroll-IsChecked w user code (some (Value.flag b)) e = cc
  enroll-IsChecked w user code (some (Value.number n)) e = cc
  enroll-IsChecked w user code (some Value.empty) e = cc

  check_code-IsChecked :
      (w : s.World) (user code : String) (es : List String)
      → Accepts s k now (check_code s k now w user code es)
      → IsChecked s k now (IsEnrolled s k now es) code
  unfolding check_code
  check_code-IsChecked w user code es e = elim (Bool-cases (k.otp_type == "hotp")) [
    | inl hotp ↦
        Accepts-try_all s k now _ (λ x. (i : ℕ) × (get_elem? es i ≡ some x))
          (IsChecked s k now (IsEnrolled s k now es) code)
          (λ w' x at.
            try_hotp-IsChecked s k now (IsEnrolled s k now es) user code w' x
              (λ encoded part. (at.0, x, at.1, inr part)))
          w es (λ i x at. (i, at)) (rw hotp at e)
    | inr other ↦ elim (Bool-cases (k.otp_type == "totp")) [
      | inl totp ↦
          Accepts-try_all s k now _ (λ x. (i : ℕ) × (get_elem? es i ≡ some x))
            (IsChecked s k now (IsEnrolled s k now es) code)
            (λ w' x at.
              try_totp-IsChecked s k now (IsEnrolled s k now es) user code w' x
                (at.0, x, at.1, inl refl))
            w es (λ i x at. (i, at)) (rw (other, totp) at e)
      | inr neither ↦ absurd (ground arith)
    ]
  ]

  Accepts-ended : (st : State s) (p : Part s k) → (ended s k st p).1 ≡ ok true → Accepts s k now p
  unfolding ended
  Accepts-ended st (w, err raised) e = cc
  Accepts-ended st (w, ok (some true)) e = refl
  Accepts-ended st (w, ok (some false)) e = cc
  Accepts-ended st (w, ok none) e = cc

  authenticate_code-IsChecked :
      (st : State s) (user code : String) (es : List String)
      → (authenticate_code s k now st user code es).1 ≡ ok true
      → IsChecked s k now (IsEnrolled s k now es) code
  unfolding authenticate_code
  authenticate_code-IsChecked st user code [] e = cc
  authenticate_code-IsChecked st user code (x ∷ es) e =
      check_code-IsChecked st.world user code (x ∷ es) (Accepts-ended st _ e)

  pub IsChecked-mono :
      {P Q : String → Type 0}
      → ((encoded : String) → P encoded → Q encoded)
      → (code : String) → IsChecked s k now P code
      → IsChecked s k now Q code
  IsChecked-mono into code (encoded, own, key, decoded, fits) =
      (encoded, into encoded own, key, decoded, fits)

  process_code-IsChecked :
      (st : State s) (user code method : String)
      → (process_code s k now st user code method).1 ≡ ok true
      → IsChecked s k now (IsOwn s k now st user) code
  unfolding process_code
  process_code-IsChecked st user code method e = elim (Bool-cases (method == "enroll")) [
    | inl enrolls ↦
        IsChecked-mono (λ encoded own. inl own) code
          (enroll-IsChecked st.world user code _ (Accepts-ended st _ (rw enrolls at e)))
    | inr other ↦ elim (Bool-cases (method == "authenticate")) [
      | inl logs_in ↦
          IsChecked-mono (λ encoded own. inr own) code
            (authenticate_code-IsChecked st user code _ (rw (other, logs_in) at e))
      | inr neither ↦ absurd (ground arith)
    ]
  ]

  process_given-IsChecked :
      (st : State s) (user method : String) (given : Option String)
      → (process_given s k now st user method given).1 ≡ ok true
      → (code : String) × (given ≡ some code) × IsChecked s k now (IsOwn s k now st user) code
  unfolding process_given
  process_given-IsChecked st user method none e = cc
  process_given-IsChecked st user method (some code) e = elim (Bool-cases (code == "")) [
    | inl blank ↦ absurd (ground arith)
    | inr filled ↦ (code, refl, process_code-IsChecked st user code method (rw filled at e))
  ]

  -- `processOtpAuthentication` accepts only a code of the request that fits a key
  -- of the session or of the user.
  pub process_otp_authentication-IsChecked :
      (request : String → Option String) (st : State s) (user method : String)
      → (process_otp_authentication s k now request st user method).1 ≡ ok true
      → (code : String) × (request "loginForm:otpCode" ≡ some code)
        × IsChecked s k now (IsOwn s k now st user) code
  unfolding process_otp_authentication
  process_otp_authentication-IsChecked request st user method =
      process_given-IsChecked st user method (request "loginForm:otpCode")
