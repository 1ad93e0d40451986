-- ===== src/Scripts/Otp/Checks.antt =====
-- What a step of the script for one-time codes has checked where it is accepted.
use community_edition_setup.Prelude.{
  ℕ, String, ◌≡◌, ◌⊎◌, inl, inr, refl, sym, ◌∙◌, ap, Option, none, some, Bool, true, false, ◌==◌,
  arith, Result, ok, Bool-cases, subst,
}
use community_edition_setup.Scripts.Otp.Calls.{Services, Value, Works}
use community_edition_setup.Scripts.Otp.{
  Settings, State, working, holds_text, set_working, set_request_scoped_parameters, set_given,
  validate_session_id,
}
use community_edition_setup.Scripts.Otp.Codes.{find_enrollments}
use community_edition_setup.Scripts.Otp.Steps.{
  authenticate, step_2_as, step_3_as, step_2_for, step_3_for, page_answer,
}
use community_edition_setup.Scripts.Otp.Accepting.{IsChecked, IsOwn, IsEnrolled}
use community_edition_setup.Scripts.Otp.Processing.{
  IsChecked-mono, process_otp_authentication-IsChecked,
}
use community_edition_setup.Scripts.Otp.Coherence.{IsCoherent, set-IsCoherent}

module _ (s : Services) (k : Settings) where
  -- What a page sends: the credentials, the parameters of the request, and the time.
  pub record Request : Type 0 where
    pub name : String
    pub password : String
    pub parameter : String → Option String
    pub now : ℕ

  abbrev pub asked : Request → ℕ → State s → State s × Result Bool
  asked r step st = authenticate s k r.now r.name r.password r.parameter step st

  module _ (works : Works s) where
    -- A code of the request that fits a key of the session or of the user of the first step.
    abbrev pub Checked : Request → State s → Type 0
    Checked r st =
        (user : String) × (s.authenticated_user st.world ≡ some user)
        × (code : String) × (r.parameter "loginForm:otpCode" ≡ some code)
        × IsChecked s k r.now (IsOwn s k r.now st user) code

    abbrev pub CheckedFor : Request → State s → String → Type 0
    CheckedFor r st user =
        (code : String) × (r.parameter "loginForm:otpCode" ≡ some code)
        × IsChecked s k r.now (IsOwn s k r.now st user) code

    -- Two states with the same users and the same key of an enrollment have the same keys.
    own-same :
        (r : Request) (st st' : State s) (user : String)
        → st'.world ≡ st.world
        → working s st' "otp_secret_key" ≡ working s st "otp_secret_key"
        → CheckedFor r st' user
        → CheckedFor r st user
    own-same r st st' user same key (code, given, checked) =
        (code, given, IsChecked-mono s k r.now own code checked)
      where
        own :
            (encoded : String) → IsOwn s k r.now st' user encoded → IsOwn s k r.now st user encoded
        own encoded (inl session) = inl (sym key ∙ session)
        own encoded (inr enrolled) = inr (
            subst (λ w. IsEnrolled s k r.now (find_enrollments s k w user true) encoded) same
              enrolled)

    world-request_scoped : (st : State s) → (set_request_scoped_parameters s k st).world ≡ st.world
    unfolding set_request_scoped_parameters set_working
    world-request_scoped st = given k.custom_label k.registration_uri
      where
        given :
            (label uri : Option String)
            → (set_given s "qr_label" label (set_given s "external_registration_uri" uri st)).world
              ≡ st.world
        given none none = refl
        given none (some u) = refl
        given (some l) none = refl
        given (some l) (some u) = refl

    key-request_scoped :
        (st : State s)
        → working s (set_request_scoped_parameters s k st) "otp_secret_key"
          ≡ working s st "otp_secret_key"
    unfolding set_request_scoped_parameters set_working
    key-request_scoped st =
        works _ "qr_options" "otp_secret_key" _ ∙ given k.custom_label k.registration_uri
      where
        given :
            (label uri : Option String)
            → working s
                (set_given s "qr_label" label (set_given s "external_registration_uri" uri st))
                "otp_secret_key"
              ≡ working s st "otp_secret_key"
        given none none = refl
        given none (some u) = works _ "external_registration_uri" "otp_secret_key" _
        given (some l) none = works _ "qr_label" "otp_secret_key" _
        given (some l) (some u) =
            works _ "qr_label" "otp_secret_key" _
            ∙ works _ "external_registration_uri" "otp_secret_key" _

    abbrev pub Three : State s → Type 0
    Three st = working s st "otp_count_login_steps" ≡ some (Value.number 3)

    page_answer-Three :
        (answer : Option String) (st : State s) → Three st → Three (page_answer s k answer st).0
    unfolding page_answer set_working
    page_answer-Three none st three = three
    page_answer-Three (some answer) st three = elim (Bool-cases (answer == "")) [
      | inl blank ↦ rw blank three
      | inr filled ↦ elim (Bool-cases (answer == "timeout")) [
        | inl late ↦
            rw
              (
                filled,
                late,
                works st.identity "retry_current_step" "otp_count_login_steps" (Value.flag true),
              )
              three
        | inr other ↦ rw (filled, other) three
      ]
    ]

    step_2_as-Checked :
        (r : Request) (user : String) (st : State s)
        → IsCoherent s k st.identity
        → (step_2_as s k r.now r.parameter user st).1 ≡ ok true
        → CheckedFor r st user ⊎ Three (step_2_as s k r.now r.parameter user st).0
    unfolding step_2_as
    step_2_as-Checked r user st c e =
        elim (Bool-cases (holds_text (working s st "otp_auth_method") "enroll")) [
          | inl enrolls ↦
              inr (
                rw enrolls (page_answer-Three (r.parameter "auth_result") st (c.enrolling enrolls)))
          | inr other ↦
              inl (
                process_otp_authentication-IsChecked s k r.now r.parameter st user _
                  (rw other at e))
        ]

    pub step_2_for-Checked :
        (r : Request) (st : State s) (user : Option String)
        → IsCoherent s k st.identity
        → (step_2_for s k r.now r.parameter st user).1 ≡ ok true
        → ((name : String) × (user ≡ some name) × CheckedFor r st name)
          ⊎ Three (step_2_for s k r.now r.parameter st user).0
    unfolding step_2_for set_working
    step_2_for-Checked r st none c e = cc
    step_2_for-Checked r st (some user) c e = elim (Bool-cases (validate_session_id s st)) [
      | inl valid ↦
          rw valid
            (elim (step_2_as-Checked r user
              (set_working s "retry_current_step" (Value.flag false) st)
              (set-IsCoherent s k works st.identity "retry_current_step" (Value.flag false) refl
                refl c)
              (rw valid at e)) [
                | inl checked ↦ inl (
                  user,
                  refl,
                  own-same r st (set_working s "retry_current_step" (Value.flag false) st) user refl
                      (works st.identity "retry_current_step" "otp_secret_key" (Value.flag false))
                      checked,
                )
                | inr three ↦ inr three
              ])
      | inr invalid ↦ absurd (ground arith)
    ]

    pub step_3_for-Checked :
        (r : Request) (st : State s) (user : Option String)
        → (step_3_for s k r.now r.parameter st user).1 ≡ ok true
        → (name : String) × (user ≡ some name) × CheckedFor r st name
    unfolding step_3_for step_3_as
    step_3_for-Checked r st none e = cc
    step_3_for-Checked r st (some user) e = elim (Bool-cases (validate_session_id s st)) [
      | inl valid ↦ elim (Bool-cases (holds_text (working s st "otp_auth_method") "enroll")) [
        | inl enrolls ↦ (
          user,
          refl,
          process_otp_authentication-IsChecked s k r.now r.parameter st user _
              (rw (valid, enrolls) at e),
        )
        | inr other ↦ absurd (ground arith)
      ]
      | inr invalid ↦ absurd (ground arith)
    ]

    -- What holds after `setRequestScopedParameters` holds before.
    pub Checked-request_scoped :
        (r : Request) (st : State s)
        → (name : String) × (s.authenticated_user (set_request_scoped_parameters s k st).world
            ≡ some name)
          × CheckedFor r (set_request_scoped_parameters s k st) name
        → Checked r st
    Checked-request_scoped r st (name, found, checked) =
        let c =
          own-same r st (set_request_scoped_parameters s k st) name (world-request_scoped st)
            (key-request_scoped st) checked in
        (name, sym (ap s.authenticated_user (world-request_scoped st)) ∙ found, c.0, c.1, c.2)
