-- ===== src/Scripts/Otp/Steps.antt =====
-- OtpExternalAuthenticator.py: `authenticate`, and what the server asks between the steps.
use community_edition_setup.Prelude.{
  ℕ, String, List, [], ◌∷◌, Option, none, some, Bool, true, false, not, ◌&&◌, if◌then◌else◌, ◌==◌,
  ◌=ℕ◌, Result, ok, err,
}
use community_edition_setup.Scripts.Otp.Calls.{Services, Value}
use community_edition_setup.Scripts.Otp.{
  Settings, State, set_working, working, set_request_scoped_parameters, validate_session_id,
  holds_text,
}
use community_edition_setup.Scripts.Otp.Codes.{find_enrollments, process_otp_authentication}

-- `bool(v)` of a working parameter.
abbrev pub truth : Option Value → Bool
truth none = false
truth (some (Value.flag b)) = b
truth (some (Value.number n)) = not (n =ℕ 0)
truth (some (Value.text t)) = not (t == "")
truth (some Value.empty) = false

module _ (s : Services) (k : Settings) where
  -- `processBasicAuthentication`: the server, and the id of the user that it found.
  abbrev pub found : s.World × Result Bool → s.World × Result (Option String)
  found (w, err raised) = (w, err raised)
  found (w, ok false) = (w, ok none)
  found (w, ok true) = (w, ok (s.authenticated_user w))

  unfoldable pub process_basic_authentication :
      s.World → String → String → s.World × Result (Option String)
  process_basic_authentication w name password =
      if not (name == "") && not (password == "")
      then found (s.authenticate w name password)
      else (w, ok none)

  -- Lines 126 to 145
  unfoldable pub method_for : State s → List String → State s
  unfolding set_working
  method_for st [] =
      set_working s "otp_auth_method" (Value.text "enroll")
        (set_working s "otp_count_login_steps" (Value.number 3) st)
  method_for st (enrollment ∷ more) = set_working s "otp_auth_method" (Value.text "authenticate") st

  unfoldable pub choose_method : State s → String → State s
  choose_method st user = method_for st (find_enrollments s k st.world user true)

  unfoldable pub authenticated : State s → s.World × Result (Option String) → State s × Result Bool
  authenticated st (w, err raised) = (record st { world = w }, err raised)
  authenticated st (w, ok none) = (record st { world = w }, ok false)
  authenticated st (w, ok (some user)) = (choose_method (record st { world = w }) user, ok true)

  unfoldable pub step_1 : String → String → State s → State s × Result Bool
  step_1 name password st = authenticated st (process_basic_authentication st.world name password)

  -- Lines 163 to 175, where the page for the enrollment answers.
  unfoldable pub page_answer : Option String → State s → State s × Result Bool
  page_answer none st = (st, ok true)
  page_answer (some answer) st =
      if answer == ""
      then (st, ok true)
      else if answer == "timeout"
      then (set_working s "retry_current_step" (Value.flag true) st, ok true)
      else (st, ok false)

  -- `otp_auth_method` is one of two texts here, by `validateSessionId`.
  abbrev pub text_of : Option Value → String
  text_of (some (Value.text t)) = t
  text_of _ = ""

  unfoldable pub step_2_as : ℕ → (String → Option String) → String → State s → State s × Result Bool
  unfolding page_answer
  step_2_as now request user st =
      if holds_text (working s st "otp_auth_method") "enroll"
      then page_answer (request "auth_result") st
      else process_otp_authentication s k now request st user
          (text_of (working s st "otp_auth_method"))

  unfoldable pub step_3_as : ℕ → (String → Option String) → String → State s → State s × Result Bool
  step_3_as now request user st =
      if holds_text (working s st "otp_auth_method") "enroll"
      then process_otp_authentication s k now request st user
          (text_of (working s st "otp_auth_method"))
      else (st, ok false)

  -- The steps 2 and 3 need the user of step 1 and a session.
  unfoldable pub step_2_for :
      ℕ → (String → Option String) → State s → Option String → State s × Result Bool
  step_2_for now request st none = (st, ok false)
  step_2_for now request st (some user) =
      if validate_session_id s st
      then step_2_as now request user (set_working s "retry_current_step" (Value.flag false) st)
      else (st, ok false)

  unfoldable pub step_2 : ℕ → (String → Option String) → State s → State s × Result Bool
  step_2 now request st = step_2_for now request st (s.authenticated_user st.world)

  unfoldable pub step_3_for :
      ℕ → (String → Option String) → State s → Option String → State s × Result Bool
  step_3_for now request st none = (st, ok false)
  step_3_for now request st (some user) =
      if validate_session_id s st then step_3_as now request user st else (st, ok false)

  unfoldable pub step_3 : ℕ → (String → Option String) → State s → State s × Result Bool
  step_3 now request st = step_3_for now request st (s.authenticated_user st.world)

  -- `authenticate`, with the credentials that the page filled in and the request's parameters.
  unfoldable pub authenticate :
      ℕ → String → String → (String → Option String) → ℕ → State s → State s × Result Bool
  authenticate now name password request step st =
      let started = set_request_scoped_parameters s k st in
      if step =ℕ 1
      then step_1 name password started
      else if step =ℕ 2
      then step_2 now request started
      else if step =ℕ 3
      then step_3 now request started
      else (started, ok false)

  -- `getNextStep`: the step to go back to, or `none` for -1.
  unfoldable pub get_next_step : ℕ → State s → Option ℕ
  get_next_step step st = if truth (working s st "retry_current_step") then some step else none

  -- `getCountAuthenticationSteps`. The script sets a number; a text is read by `StringHelper`.
  unfoldable pub get_count_authentication_steps : State s → Option ℕ
  get_count_authentication_steps st = elim (working s st "otp_count_login_steps") [
    | none ↦ some 2
    | some (Value.number n) ↦ some n
    | some (Value.text t) ↦ s.to_integer t
    | some _ ↦ none
  ]

  -- `getPageForStep`
  unfoldable pub get_page_for_step : ℕ → State s → String
  get_page_for_step step st =
      if step =ℕ 2
      then if holds_text (working s st "otp_auth_method") "enroll"
        then "/auth/otp/enroll.xhtml"
        else "/auth/otp/otplogin.xhtml"
      else if step =ℕ 3
      then "/auth/otp/otplogin.xhtml"
      else ""
