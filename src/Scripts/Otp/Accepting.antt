-- ===== src/Scripts/Otp/Accepting.antt =====
-- When the script for one-time codes accepts: no login ends without a code that fits a key.
use community_edition_setup.Prelude.{
  ℕ, suc, String, ◌≡◌, ◌⊎◌, inl, inr, refl, List, [], ◌∷◌, Option, none, some, true, arith, eq_iff,
  get_elem?, ok, err, Result-cases, Exception,
}
use community_edition_setup.Prelude.Text.{split}
use community_edition_setup.Scripts.Otp.Calls.{Services, Value}
use community_edition_setup.Scripts.Otp.{Settings, State, working}
use community_edition_setup.Scripts.Otp.Codes.{
  Part, validate_hotp_key, validate_totp_key, find_enrollments, try_all, try_hotp, try_totp,
  try_hotp_parts, replaced, and_then,
}

module _ (s : Services) (k : Settings) (now : ℕ) where
  -- A code fits a key: counted, from some moving factor on, or at the time of the call.
  abbrev pub Fits : s.Key → String → Type 0
  Fits key code =
      ((factor : Option ℕ) × (new : ℕ) × (validate_hotp_key s k key factor code ≡ some new))
      ⊎ (s.totp_value k.totp_configuration key now ≡ code)

  -- A key that one of the texts `Own` encodes, and that the code fits.
  abbrev pub IsChecked : (String → Type 0) → String → Type 0
  IsChecked Own code =
      (encoded : String) × Own encoded
      × (key : s.Key) × (s.from_base64_url encoded ≡ ok key)
      × Fits key code

  -- The texts of a user's keys: the session's, where one is enrolled, and those of the enrollments,
  -- which are whole texts for timed codes and first parts for counted ones.
  abbrev pub IsEnrolled : List String → String → Type 0
  IsEnrolled es encoded =
      (i : ℕ) × (enrollment : String) × (get_elem? es i ≡ some enrollment)
      × ((encoded ≡ enrollment) ⊎ (get_elem? (split b';' enrollment) 0 ≡ some encoded))

  abbrev pub IsOwn : State s → String → String → Type 0
  IsOwn st user encoded =
      (working s st "otp_secret_key" ≡ some (Value.text encoded))
      ⊎ IsEnrolled (find_enrollments s k st.world user true) encoded

  pub validate_totp_key-Fits :
      (w w' : s.World) (key : s.Key) (code user : String)
      → validate_totp_key s k now w key code user ≡ (w', true)
      → s.totp_value k.totp_configuration key now ≡ code
  unfolding validate_totp_key
  validate_totp_key-Fits w w' key code user e =
      ground (arith, eq_iff (s.totp_value k.totp_configuration key now) code)

  -- A part of `processOtpAuthentication` that makes it return `True`.
  abbrev pub Accepts : Part s k → Type 0
  Accepts p = p.1 ≡ ok (some true)

  Accepts-and_then :
      (p : Part s k) (next : s.World → Part s k)
      → Accepts (and_then s k p next)
      → Accepts p ⊎ Accepts (next p.0)
  Accepts-and_then (w, err raised) next e = cc
  Accepts-and_then (w, ok (some b)) next e = inl e
  Accepts-and_then (w, ok none) next e = inr e

  -- A loop over enrollments returns `True` only where it does so for one of them.
  pub Accepts-try_all :
      (one : s.World → String → Part s k) (Q : String → Type 0) (P : Type 0)
      → ((w : s.World) (e : String) → Q e → Accepts (one w e) → P)
      → (w : s.World) (es : List String) → ((i : ℕ) (e : String) → get_elem? es i ≡ some e → Q e)
      → Accepts (try_all s k one w es)
      → P
  unfolding try_all
  Accepts-try_all one Q P each w [] member e = cc
  Accepts-try_all one Q P each w (x ∷ es) member e =
      elim (Accepts-and_then (one w x) (λ w'. try_all s k one w' es) e) [
        | inl here ↦ each w x (member 0 x refl) here
        | inr more ↦
            Accepts-try_all one Q P each (one w x).0 es (λ i y at. member (suc i) y at) more
      ]

  pub raised-Accepts : (w : s.World) (raised : Exception) → Accepts (w, err raised) → ⊥
  raised-Accepts w raised e = cc

  replaced-Fits :
      (w : s.World) (user encoded code : String) (key : s.Key) (factor : Option ℕ) (r : Option ℕ)
      → validate_hotp_key s k key factor code ≡ r
      → Accepts (replaced s k w user encoded factor r)
      → Fits key code
  unfolding replaced
  replaced-Fits w user encoded code key factor none v e = cc
  replaced-Fits w user encoded code key factor (some new) v e = inl (factor, new, v)

  module _ (Own : String → Type 0) where
    try_hotp_parts-IsChecked :
        (w : s.World) (user code : String) (a b : Option String)
        → ((encoded : String) → a ≡ some encoded → Own encoded)
        → Accepts (try_hotp_parts s k w user code a b)
        → IsChecked Own code
    unfolding try_hotp_parts
    try_hotp_parts-IsChecked w user code (some encoded) (some factor) own e =
        elim (Result-cases (s.from_base64_url encoded)) [
          | inl (key, decoded) ↦ (
            encoded,
            own encoded refl,
            key,
            decoded,
            replaced-Fits w user encoded code key (s.to_integer factor)
                (validate_hotp_key s k key (s.to_integer factor) code) refl
                (rw (decoded, try_hotp_parts) at e),
          )
          | inr (raised, failed) ↦
              absurd (raised-Accepts w raised (rw (failed, try_hotp_parts) at e))
        ]
    try_hotp_parts-IsChecked w user code none b own e = cc
    try_hotp_parts-IsChecked w user code (some encoded) none own e = cc

    pub try_hotp-IsChecked :
        (user code : String) (w : s.World) (enrollment : String)
        → ((encoded : String) → get_elem? (split b';' enrollment) 0 ≡ some encoded → Own encoded)
        → Accepts (try_hotp s k w user code enrollment)
        → IsChecked Own code
    unfolding try_hotp
    try_hotp-IsChecked user code w enrollment own e = try_hotp_parts-IsChecked w user code _ _ own e

    pub try_totp-IsChecked :
        (user code : String) (w : s.World) (enrollment : String)
        → Own enrollment
        → Accepts (try_totp s k now w user code enrollment)
        → IsChecked Own code
    unfolding try_totp
    try_totp-IsChecked user code w enrollment own e =
        elim (Result-cases (s.from_base64_url enrollment)) [
          | inl (key, decoded) ↦ (
            enrollment,
            own,
            key,
            decoded,
            inr (
                validate_totp_key-Fits w (validate_totp_key s k now w key code user).0 key code user
                  (ground arith)),
          )
          | inr (raised, failed) ↦ absurd (ground arith)
        ]
