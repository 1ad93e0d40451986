-- ===== src/Scripts/Otp/Coherence.antt =====
-- The working parameters that choose the steps of the script for one-time codes.
use community_edition_setup.Prelude.{
  ℕ, String, ◌≡◌, ◌⊎◌, inl, inr, refl, List, [], ◌∷◌, Option, none, some, Bool, true, false,
  if◌then◌else◌, ◌==◌, ok, err, Bool-cases,
}
use community_edition_setup.Scripts.Otp.Calls.{Services, Value, Works}
use community_edition_setup.Scripts.Otp.{
  Settings, State, holds_text, say, set_working, set_request_scoped_parameters, set_given,
}
use community_edition_setup.Scripts.Otp.Codes.{
  Part, ended, authenticate_code, process_code, process_given, process_otp_authentication,
}

module _ (s : Services) (k : Settings) where
  -- The number of steps is the default or 3, and it is 3 while a key is enrolled.
  pub record IsCoherent (i : s.Identity) : Type 0 where
    pub counted :
        (s.get_working_parameter i "otp_count_login_steps" ≡ none)
        ⊎ (s.get_working_parameter i "otp_count_login_steps" ≡ some (Value.number 3))
    pub enrolling :
        holds_text (s.get_working_parameter i "otp_auth_method") "enroll" ≡ true
        → s.get_working_parameter i "otp_count_login_steps" ≡ some (Value.number 3)

  -- A branch is coherent if both sides are.
  pub either-IsCoherent :
      {X : Type 0} (b : Bool) (p q : State s × X)
      → IsCoherent p.0.identity
      → IsCoherent q.0.identity
      → IsCoherent (if b then p else q).0.identity
  either-IsCoherent true p q c d = c
  either-IsCoherent false p q c d = d

  -- Checking a code leaves the working parameters alone.
  identity-ended : (st : State s) (p : Part s k) → (ended s k st p).0.identity ≡ st.identity
  unfolding ended say
  identity-ended st (w, err raised) = refl
  identity-ended st (w, ok (some b)) = refl
  identity-ended st (w, ok none) = refl

  identity-authenticate_code :
      (now : ℕ) (st : State s) (user code : String) (es : List String)
      → (authenticate_code s k now st user code es).0.identity ≡ st.identity
  unfolding authenticate_code say
  identity-authenticate_code now st user code [] = refl
  identity-authenticate_code now st user code (x ∷ es) = identity-ended st _

  identity-process_code :
      (now : ℕ) (st : State s) (user code method : String)
      → (process_code s k now st user code method).0.identity ≡ st.identity
  unfolding process_code say
  identity-process_code now st user code method = elim (Bool-cases (method == "enroll")) [
    | inl enrolls ↦ rw enrolls (identity-ended st _)
    | inr other ↦ elim (Bool-cases (method == "authenticate")) [
      | inl logs_in ↦ rw (other, logs_in) (identity-authenticate_code now st user code _)
      | inr neither ↦ rw (other, neither) refl
    ]
  ]

  identity-process_given :
      (now : ℕ) (st : State s) (user method : String) (given : Option String)
      → (process_given s k now st user method given).0.identity ≡ st.identity
  unfolding process_given say
  identity-process_given now st user method none = refl
  identity-process_given now st user method (some code) = elim (Bool-cases (code == "")) [
    | inl blank ↦ rw blank refl
    | inr filled ↦ rw filled (identity-process_code now st user code method)
  ]

  pub identity-process :
      (now : ℕ) (request : String → Option String) (st : State s) (user method : String)
      → (process_otp_authentication s k now request st user method).0.identity ≡ st.identity
  unfolding process_otp_authentication
  identity-process now request st user method =
      identity-process_given now st user method (request "loginForm:otpCode")

  module _ (works : Works s) where
    pub set-IsCoherent :
        (i : s.Identity) (name : String) (v : Value)
        → (name == "otp_count_login_steps") ≡ false
        → (name == "otp_auth_method") ≡ false
        → IsCoherent i
        → IsCoherent (s.set_working_parameter i name v)
    set-IsCoherent i name v e f c = record {
      counted = rw (works i name "otp_count_login_steps" v, e) c.counted;
      enrolling =
          rw (works i name "otp_count_login_steps" v, works i name "otp_auth_method" v, e, f)
            c.enrolling;
    }

    -- `setRequestScopedParameters` sets other parameters only.
    pub request_scoped-IsCoherent :
        (st : State s)
        → IsCoherent st.identity
        → IsCoherent (set_request_scoped_parameters s k st).identity
    unfolding set_request_scoped_parameters set_working
    request_scoped-IsCoherent st c =
        set-IsCoherent _ "qr_options" _ refl refl (given k.custom_label k.registration_uri)
      where
        given :
            (label uri : Option String)
            → IsCoherent
                (set_given s "qr_label" label
                  (set_given s "external_registration_uri" uri st)).identity
        given none none = c
        given none (some u) = set-IsCoherent _ "external_registration_uri" _ refl refl c
        given (some l) none = set-IsCoherent _ "qr_label" _ refl refl c
        given (some l) (some u) =
            set-IsCoherent _ "qr_label" _ refl refl
              (set-IsCoherent _ "external_registration_uri" _ refl refl c)
