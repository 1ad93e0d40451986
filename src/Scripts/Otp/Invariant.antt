-- ===== src/Scripts/Otp/Invariant.antt =====
-- The steps of the script for one-time codes keep its working parameters coherent.
use community_edition_setup.Prelude.{
  ℕ, String, ◌≡◌, inl, inr, refl, sym, List, [], ◌∷◌, Option, none, some, true, false, ◌==◌, ◌=ℕ◌,
  Result, ok, err, Bool-cases, subst,
}
use community_edition_setup.Scripts.Otp.Calls.{Services, Value, Works}
use community_edition_setup.Scripts.Otp.{
  Settings, State, working, holds_text, set_working, set_request_scoped_parameters,
  validate_session_id,
}
use community_edition_setup.Scripts.Otp.Codes.{process_otp_authentication}
use community_edition_setup.Scripts.Otp.Steps.{
  authenticate, step_1, step_2, step_3, step_2_for, step_3_for, step_2_as, step_3_as, page_answer,
  choose_method, method_for, authenticated,
}
use community_edition_setup.Scripts.Otp.Preparing.{
  prepare_for_step, prepare_started, prepare_for, prepare_enrollment, with_request,
  generate_hotp_secret_key_uri, generate_secret_hotp_key, generate_totp_secret_key_uri,
  generate_secret_totp_key,
}
use community_edition_setup.Scripts.Otp.Coherence.{
  IsCoherent, either-IsCoherent, identity-process, set-IsCoherent, request_scoped-IsCoherent,
}

module _ (s : Services) (k : Settings) where
  module _ (works : Works s) where
    -- The first step chooses the method, and 3 steps where a key has to be enrolled.
    method_for-IsCoherent :
        (st : State s) (es : List String)
        → IsCoherent s k st.identity
        → IsCoherent s k (method_for s k st es).identity
    unfolding method_for set_working
    method_for-IsCoherent st [] c = record { counted = inr three; enrolling = λ _. three }
      where
        three :
            s.get_working_parameter (method_for s k st []).identity "otp_count_login_steps"
            ≡ some (Value.number 3)
        three =
            rw
              (
                works (s.set_working_parameter st.identity "otp_count_login_steps" (Value.number 3))
                    "otp_auth_method" "otp_count_login_steps" (Value.text "enroll"),
                works st.identity "otp_count_login_steps" "otp_count_login_steps" (Value.number 3),
              )
              refl
    method_for-IsCoherent st (e ∷ es) c = record {
      counted =
          rw
            (works st.identity "otp_auth_method" "otp_count_login_steps"
              (Value.text "authenticate"))
            c.counted;
      enrolling =
          rw (works st.identity "otp_auth_method" "otp_auth_method" (Value.text "authenticate"))
            (λ h. cc h);
    }

    authenticated-IsCoherent :
        (st : State s) (r : s.World × Result (Option String))
        → IsCoherent s k st.identity
        → IsCoherent s k (authenticated s k st r).0.identity
    unfolding authenticated choose_method
    authenticated-IsCoherent st (w, err raised) c = c
    authenticated-IsCoherent st (w, ok none) c = c
    authenticated-IsCoherent st (w, ok (some user)) c =
        method_for-IsCoherent (record st { world = w }) _ c

    page_answer-IsCoherent :
        (answer : Option String) (st : State s)
        → IsCoherent s k st.identity
        → IsCoherent s k (page_answer s k answer st).0.identity
    unfolding page_answer set_working
    page_answer-IsCoherent none st c = c
    page_answer-IsCoherent (some answer) st c = either-IsCoherent s k (answer == "") _ _ c (
        either-IsCoherent s k (answer == "timeout") _ _
          (set-IsCoherent s k works st.identity "retry_current_step" (Value.flag true) refl refl c)
          c)

    process-IsCoherent :
        (now : ℕ) (request : String → Option String) (st : State s) (user method : String)
        → IsCoherent s k st.identity
        → IsCoherent s k (process_otp_authentication s k now request st user method).0.identity
    process-IsCoherent now request st user method c =
        subst (IsCoherent s k) (sym (identity-process s k now request st user method)) c

    step_2_as-IsCoherent :
        (now : ℕ) (request : String → Option String) (user : String) (st : State s)
        → IsCoherent s k st.identity
        → IsCoherent s k (step_2_as s k now request user st).0.identity
    unfolding step_2_as
    step_2_as-IsCoherent now request user st c =
        either-IsCoherent s k (holds_text (working s st "otp_auth_method") "enroll") _ _
          (page_answer-IsCoherent (request "auth_result") st c)
          (process-IsCoherent now request st user _ c)

    step_3_as-IsCoherent :
        (now : ℕ) (request : String → Option String) (user : String) (st : State s)
        → IsCoherent s k st.identity
        → IsCoherent s k (step_3_as s k now request user st).0.identity
    unfolding step_3_as
    step_3_as-IsCoherent now request user st c =
        either-IsCoherent s k (holds_text (working s st "otp_auth_method") "enroll") _ _
          (process-IsCoherent now request st user _ c) c

    -- The steps that need a user.
    step_2_for-IsCoherent :
        (now : ℕ) (request : String → Option String) (st : State s) (user : Option String)
        → IsCoherent s k st.identity
        → IsCoherent s k (step_2_for s k now request st user).0.identity
    unfolding step_2_for set_working
    step_2_for-IsCoherent now request st none c = c
    step_2_for-IsCoherent now request st (some user) c =
        either-IsCoherent s k (validate_session_id s st) _ _
          (step_2_as-IsCoherent now request user _ (
            set-IsCoherent s k works st.identity "retry_current_step" (Value.flag false) refl refl
              c))
          c

    step_3_for-IsCoherent :
        (now : ℕ) (request : String → Option String) (st : State s) (user : Option String)
        → IsCoherent s k st.identity
        → IsCoherent s k (step_3_for s k now request st user).0.identity
    unfolding step_3_for
    step_3_for-IsCoherent now request st none c = c
    step_3_for-IsCoherent now request st (some user) c =
        either-IsCoherent s k (validate_session_id s st) _ _
          (step_3_as-IsCoherent now request user st c) c

    -- Every step keeps the number of steps and the method together.
    pub authenticate-IsCoherent :
        (now : ℕ) (name password : String) (request : String → Option String) (step : ℕ)
        (st : State s)
        → IsCoherent s k st.identity
        → IsCoherent s k (authenticate s k now name password request step st).0.identity
    unfolding authenticate step_1 step_2 step_3
    authenticate-IsCoherent now name password request step st c =
        let c' = request_scoped-IsCoherent s k works st c in
        let st' : State s = set_request_scoped_parameters s k st in
        either-IsCoherent s k (step =ℕ 1) _ _ (authenticated-IsCoherent st' _ c') (
          either-IsCoherent s k (step =ℕ 2) _ _ (step_2_for-IsCoherent now request st' _ c')
            (either-IsCoherent s k (step =ℕ 3) _ _ (step_3_for-IsCoherent now request st' _ c') c'))

    with_request-IsCoherent :
        (uri : s.Key → String → String) (st : State s) (made : s.World × s.Key)
        → IsCoherent s k st.identity
        → IsCoherent s k (with_request s k uri st made).identity
    unfolding set_working
    with_request-IsCoherent uri st (w, key) c =
        set-IsCoherent s k works _ "otp_enrollment_request" _ refl refl
          (set-IsCoherent s k works _ "otp_secret_key" _ refl refl c)

    prepare_for-IsCoherent :
        (st : State s) (user : Option String)
        → IsCoherent s k st.identity
        → IsCoherent s k (prepare_for s k st user).0.identity
    unfolding prepare_for
    prepare_for-IsCoherent st none c = c
    prepare_for-IsCoherent st (some user) c =
        let hotp =
          with_request-IsCoherent (generate_hotp_secret_key_uri s k) st
            (generate_secret_hotp_key s k st.world) c in
        let totp =
          with_request-IsCoherent (generate_totp_secret_key_uri s k) st
            (generate_secret_totp_key s k st.world) c in
        elim (Bool-cases (k.otp_type == "hotp")) [
          | inl is_hotp ↦ rw is_hotp hotp
          | inr other ↦ elim (Bool-cases (k.otp_type == "totp")) [
            | inl is_totp ↦ rw (other, is_totp) totp
            | inr neither ↦ rw (other, neither) c
          ]
        ]

    -- And so does preparing a step.
    pub prepare_for_step-IsCoherent :
        (step : ℕ) (st : State s)
        → IsCoherent s k st.identity
        → IsCoherent s k (prepare_for_step s k step st).0.identity
    unfolding prepare_for_step prepare_started prepare_enrollment
    prepare_for_step-IsCoherent step st c =
        let c' = request_scoped-IsCoherent s k works st c in
        let st' : State s = set_request_scoped_parameters s k st in
        either-IsCoherent s k (step =ℕ 1) _ _ c' (
          either-IsCoherent s k (step =ℕ 2) _ _
            (either-IsCoherent s k (validate_session_id s st') _ _
              (either-IsCoherent s k (holds_text (working s st' "otp_auth_method") "enroll") _ _
                (prepare_for-IsCoherent st' _ c') c')
              c')
            (either-IsCoherent s k (step =ℕ 3) _ _ c' c'))
