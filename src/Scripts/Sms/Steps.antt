-- ===== src/Scripts/Sms/Steps.antt =====
-- smpp2FA.py: `authenticate`, `prepareForStep` and the questions of the server between the steps.
use community_edition_setup.Prelude.{
  ℕ, String, List, [], ◌∷◌, ◌++◌, Option, none, some, Bool, true, false, not, ◌&&◌, ◌||◌,
  if◌then◌else◌, ◌==◌, ◌=ℕ◌, Result, ok, err, name_error,
}
use community_edition_setup.Prelude.Text.{length as text_length, starts_with, drop}
use community_edition_setup.Prelude.Decimal.{decimal}
use community_edition_setup.Scripts.Sms.{Settings, SmppValue, constant, type_of_number}

-- `number[1:]` of an international number with a plus in front.
abbrev is_international : SmppValue → Bool
is_international (constant type_of_number name) = name == "INTERNATIONAL"
is_international _ = false

unfoldable pub number_to_call : Settings → String → String
number_to_call k phone =
    if is_international k.dst_addr_ton && starts_with phone "+" then drop 1 phone else phone

-- The server: `authenticate` and `getAuthenticatedUser` of its service, each of which may raise, the
-- attributes of a user, the working parameter and the session attribute that the script sets, and
-- the call that submits a message to a number, which answers whether it was sent.
pub record Services : Type 1 where
  pub World : Type 0
  pub User : Type 0
  pub authenticate : World → String → String → World × Result Bool
  pub authenticated_user : World → Result (Option User)
  pub get_attribute : User → String → Option String
  pub set_code : World → ℕ → World
  pub set_mobile_number : World → String → World
  pub submit : Settings → World → String → String → World × Bool

-- A text that is not empty.
abbrev pub given_text : Option String → Option String
given_text none = none
given_text (some s) = if s == "" then none else some s

abbrev pub first_given : Option String → Option String → Option String
first_given none other = other
first_given (some s) other = some s

module _ (s : Services) (k : Settings) where
  pub record State : Type 0 where
    pub world : s.World
    pub messages : List String

  unfoldable pub say : String → State → State
  say message st = record st { messages = st.messages ++ message ∷ [] }

  abbrev verified : s.User → Option String → Option String
  verified user none = none
  verified user (some v) = given_text (s.get_attribute user "employeeNumber")

  -- Lines 272 to 282: a verified number first.
  unfoldable pub find_mobile_number : s.User → Option String
  find_mobile_number user =
      first_given (verified user (given_text (s.get_attribute user "phoneNumberVerified"))) (
        first_given (given_text (s.get_attribute user "mobile"))
          (given_text (s.get_attribute user "telephoneNumber")))

  -- `sendMessage`, as far as the number that is called.
  unfoldable pub send_message : s.World → String → String → s.World × Bool
  unfolding number_to_call
  send_message w phone code = s.submit k w (number_to_call k phone) code

  abbrev pub sent : List String → s.World × Bool → State × Result Bool
  sent messages (w, true) = (record { world = w; messages = messages }, ok true)
  sent messages (w, false) = (
    record { world = w; messages = messages ++ "Failed to send message to mobile phone" ∷ [] },
    ok false,
  )

  -- Lines 288 to 300, with the random code.
  unfoldable pub send_code : ℕ → State → Option String → State × Result Bool
  unfolding send_message
  send_code code st none = (say "Failed to determine mobile phone number" st, ok false)
  send_code code st (some phone) =
      sent st.messages
        (send_message (s.set_mobile_number (s.set_code st.world code) phone) phone (decimal code))

  -- Lines 263 to 286: a user that is `None` has no attributes, and ends like one without a number.
  unfoldable pub send_to_user : ℕ → State → Result (Option s.User) → State × Result Bool
  send_to_user code st (err raised) = (st, ok false)
  send_to_user code st (ok none) = (say "Failed to determine mobile phone number" st, ok false)
  send_to_user code st (ok (some user)) = send_code code st (find_mobile_number user)

  unfoldable pub logged_in : ℕ → State → s.World × Result Bool → State × Result Bool
  logged_in code st (w, err raised) = (record st { world = w }, err raised)
  logged_in code st (w, ok false) = (record st { world = w }, ok false)
  logged_in code st (w, ok true) =
      send_to_user code (record st { world = w }) (s.authenticated_user w)

  unfoldable pub log_in_and_send : String → String → ℕ → State → State × Result Bool
  log_in_and_send name password code st =
      if not (name == "") && not (password == "")
      then logged_in code st (s.authenticate st.world name password)
      else (st, ok false)

-- Lines 304 to 325: the code of the session and the passcode of the form. The message for a wrong
-- code names `facesMessage`, which is not defined.
unfoldable pub check_passcode : Option String → Option String → Result Bool
check_passcode none form_passcode = ok false
check_passcode (some code) none = ok false
check_passcode (some code) (some form_passcode) =
    if text_length form_passcode =ℕ 6
    then if form_passcode == code then ok true else err name_error
    else ok false

module _ (s : Services) (k : Settings) where
  -- `authenticate`, with what the page and the session hold.
  unfoldable pub authenticate :
      String → String → ℕ → Option String → Option String → ℕ → State s k → State s k × Result Bool
  authenticate name password code session_code form_passcode step st =
      if step =ℕ 1
      then log_in_and_send s k name password code st
      else if step =ℕ 2
      then (st, check_passcode session_code form_passcode)
      else (st, ok false)

-- `prepareForStep`, `getExtraParametersForStep` and `getPageForStep`.
unfoldable pub prepare_for_step : ℕ → Bool
prepare_for_step step = step =ℕ 1 || step =ℕ 2

unfoldable pub get_extra_parameters_for_step : ℕ → Option (List String)
get_extra_parameters_for_step step = if step =ℕ 2 then some ("code" ∷ []) else none

unfoldable pub get_page_for_step : ℕ → String
get_page_for_step step = if step =ℕ 2 then "/auth/otp_sms/otp_sms.xhtml" else ""
