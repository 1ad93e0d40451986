-- ===== src/Scripts/Otp/Codes.antt =====
-- OtpExternalAuthenticator.py: checking codes, the enrollments of a user, and
-- `processOtpAuthentication`.
use community_edition_setup.Prelude.{
  ℕ, String, ◌<>◌, List, [], ◌∷◌, Option, none, some, Bool, true, false, not, ◌&&◌, if◌then◌else◌,
  ◌==◌, Result, ok, err, Exception, get_elem?,
}
use community_edition_setup.Prelude.Text.{is_infix, drop, split, length as text_length}
use community_edition_setup.Prelude.Decimal.{decimal}
use community_edition_setup.Scripts.Otp.Calls.{Services, Value}
use community_edition_setup.Scripts.Otp.{Settings, State, say, working}

-- `StringHelper.equals` of a text and one that may be missing.
abbrev pub equals : String → Option String → Bool
equals s none = false
equals s (some t) = s == t

abbrev pub is_empty : Option String → Bool
is_empty none = true
is_empty (some t) = t == ""

-- `"%s" % n` where `n` may be `None`.
abbrev pub show : Option ℕ → String
show none = "None"
show (some n) = decimal n

-- "hotp:%s;%s" and "totp:%s"
abbrev pub hotp_uid : String → Option ℕ → String
hotp_uid key factor = "hotp:" <> (key <> (";" <> show factor))

abbrev pub totp_uid : String → String
totp_uid key = "totp:" <> key

-- `findEnrollments`, lines 383 to 396, on the values of the attribute.
unfoldable pub enrollments_in : String → Bool → List String → List String
enrollments_in otp_type skip [] = []
enrollments_in otp_type skip (uid ∷ uids) =
    let rest = enrollments_in otp_type skip uids in
    if is_infix (otp_type <> ":") uid
    then (if skip then drop (text_length (otp_type <> ":")) uid else uid) ∷ rest
    else rest

module _ (s : Services) (k : Settings) where
  unfoldable pub find_enrollments : s.World → String → Bool → List String
  unfolding enrollments_in
  find_enrollments w user skip = elim (s.get_user w user) [
    | none ↦ []
    | some u ↦ elim (s.get_values u "oxExternalUid") [
      | none ↦ []
      | some uids ↦ enrollments_in k.otp_type skip uids
    ]
  ]

  -- `validateHotpKey`: the new moving factor of a valid code.
  unfoldable pub validate_hotp_key : s.Key → Option ℕ → String → Option ℕ
  validate_hotp_key key factor code =
      s.hotp_validate k.hotp_configuration.look_ahead_window k.hotp_configuration.digits key factor
        code

  -- `getCachedOTP`
  unfoldable pub get_cached_otp : s.World → String → Option String
  get_cached_otp w user = elim (s.get_user w user) [
    | none ↦ none
    | some u ↦ elim (s.get_value u "oxOTPCache") [ none ↦ none | some v ↦ v ]
  ]

  -- `validateTotpKey`, with the time of `generateTotpKey`.
  unfoldable pub store_otp : s.World → String → Option String → String → s.World × Bool
  store_otp w user none code = s.add_user_attribute w user "oxOTPCache" code
  store_otp w user (some cached) code = s.replace_user_attribute w user "oxOTPCache" cached code

  unfoldable pub validate_totp_key : ℕ → s.World → s.Key → String → String → s.World × Bool
  unfolding get_cached_otp
  validate_totp_key now w key code user =
      let value = s.totp_value k.totp_configuration key now in
      let cached = get_cached_otp w user in
      if value == code && not (equals value cached)
      then ((store_otp w user cached value).0, true)
      else (w, false)

  -- What a part of `processOtpAuthentication` gives: it returns, or it goes on to the end.
  abbrev pub Part : Type 0
  Part = s.World × Result (Option Bool)

  abbrev pub stored : s.World × Bool → Part
  stored (w, true) = (w, ok (some true))
  stored (w, false) = (w, ok none)

  -- Lines 424 to 459: the key of the session, which the code has to fit.
  unfoldable pub enroll_hotp : s.World → String → String → String → s.Key → Part
  unfolding validate_hotp_key
  enroll_hotp w user code encoded key = elim (validate_hotp_key key (some 1) code) [
    | none ↦ (w, ok none)
    | some factor ↦
        stored (s.add_user_attribute w user "oxExternalUid" (hotp_uid encoded (some factor)))
  ]

  abbrev pub enrolled_totp : String → String → s.World × Bool → Part
  enrolled_totp user encoded (w, true) =
      stored (s.add_user_attribute w user "oxExternalUid" (totp_uid encoded))
  enrolled_totp user encoded (w, false) = (w, ok none)

  unfoldable pub enroll_key : ℕ → s.World → String → String → String → s.Key → Part
  unfolding enroll_hotp validate_totp_key
  enroll_key now w user code encoded key =
      if k.otp_type == "hotp"
      then enroll_hotp w user code encoded key
      else if k.otp_type == "totp"
      then enrolled_totp user encoded (validate_totp_key now w key code user)
      else (w, ok none)

  unfoldable pub enroll : ℕ → s.World → String → String → Option Value → Part
  unfolding enroll_key
  enroll now w user code (some (Value.text encoded)) = elim (s.from_base64_url encoded) [
    | err raised ↦ (w, err raised)
    | ok key ↦ enroll_key now w user code encoded key
  ]
  enroll now w user code none = (w, ok (some false))
  enroll now w user code (some _) = (w, err Exception.type_error)

  -- Lines 468 to 489, for one enrollment and for all.
  unfoldable pub replaced : s.World → String → String → Option ℕ → Option ℕ → Part
  replaced w user encoded factor none = (w, ok none)
  replaced w user encoded factor (some new) = stored (
      s.replace_user_attribute w user "oxExternalUid" (hotp_uid encoded factor)
        (hotp_uid encoded (some new)))

  unfoldable pub try_hotp_parts : s.World → String → String → Option String → Option String → Part
  unfolding replaced validate_hotp_key
  try_hotp_parts w user code (some encoded) (some factor) = elim (s.from_base64_url encoded) [
    | err raised ↦ (w, err raised)
    | ok key ↦
        replaced w user encoded (s.to_integer factor)
          (validate_hotp_key key (s.to_integer factor) code)
  ]
  try_hotp_parts w user code _ _ = (w, err Exception.index_error)

  unfoldable pub try_hotp : s.World → String → String → String → Part
  unfolding try_hotp_parts
  try_hotp w user code enrollment =
      let parts = split b';' enrollment in
      try_hotp_parts w user code (get_elem? parts 0) (get_elem? parts 1)

  unfoldable pub try_totp : ℕ → s.World → String → String → String → Part
  unfolding validate_totp_key
  try_totp now w user code enrollment = elim (s.from_base64_url enrollment) [
    | err raised ↦ (w, err raised)
    | ok key ↦
        let r = validate_totp_key now w key code user in (r.0, ok (if r.1 then some true else none))
  ]

  -- A loop that ends with the first enrollment that returns or raises.
  abbrev pub and_then : Part → (s.World → Part) → Part
  and_then (w, err raised) next = (w, err raised)
  and_then (w, ok (some b)) next = (w, ok (some b))
  and_then (w, ok none) next = next w

  unfoldable pub try_all : (s.World → String → Part) → s.World → List String → Part
  try_all one w [] = (w, ok none)
  try_all one w (enrollment ∷ more) = and_then (one w enrollment) (λ w'. try_all one w' more)

  -- `processOtpAuthentication`, lines 424 to 503.
  abbrev no_enrollments : State s → State s × Result Bool
  no_enrollments st = (say s "There is no valid OTP user enrollments" st, ok false)

  unfoldable pub ended : State s → Part → State s × Result Bool
  ended st (w, err raised) = (record st { world = w }, err raised)
  ended st (w, ok (some b)) = (record st { world = w }, ok b)
  ended st (w, ok none) =
      (say s "Failed to authenticate. OTP code is invalid" (record st { world = w }), ok false)

  unfoldable pub check_code : ℕ → s.World → String → String → List String → Part
  unfolding try_all try_hotp try_totp
  check_code now w user code enrollments =
      if k.otp_type == "hotp"
      then try_all (λ w' e. try_hotp w' user code e) w enrollments
      else if k.otp_type == "totp"
      then try_all (λ w' e. try_totp now w' user code e) w enrollments
      else (w, ok none)

  unfoldable pub authenticate_code :
      ℕ → State s → String → String → List String → State s × Result Bool
  authenticate_code now st user code [] = no_enrollments st
  authenticate_code now st user code (e ∷ es) =
      ended st (check_code now st.world user code (e ∷ es))

  unfoldable pub process_code : ℕ → State s → String → String → String → State s × Result Bool
  process_code now st user code method =
      if method == "enroll"
      then ended st (enroll now st.world user code (working s st "otp_secret_key"))
      else if method == "authenticate"
      then authenticate_code now st user code (find_enrollments st.world user true)
      else (say s "Failed to authenticate. OTP code is invalid" st, ok false)

  unfoldable pub process_given :
      ℕ → State s → String → String → Option String → State s × Result Bool
  process_given now st user method none =
      (say s "Failed to authenticate. OTP code is empty" st, ok false)
  process_given now st user method (some code) =
      if code == ""
      then (say s "Failed to authenticate. OTP code is empty" st, ok false)
      else process_code now st user code method

  unfoldable pub process_otp_authentication :
      ℕ → (String → Option String) → State s → String → String → State s × Result Bool
  process_otp_authentication now request st user method =
      process_given now st user method (request "loginForm:otpCode")
