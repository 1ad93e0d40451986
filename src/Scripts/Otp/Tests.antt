-- ===== src/Scripts/Otp/Tests.antt =====
-- The script for one-time codes, run with services in memory.
use community_edition_setup.Prelude.{
  String, ◌≡◌, inl, inr, refl, List, [], ◌∷◌, map, Option, none, some, Bool, true, false,
  if◌then◌else◌, ◌==◌, ok, eq_refl, Bool-cases, subst, ap,
}
use community_edition_setup.Prelude.Text.{has_code, split, is_infix, drop, length as text_length}
use community_edition_setup.Prelude.Decimal.{decimal}
use community_edition_setup.Scripts.Otp.Calls.{Services, Value, Works, Algorithm}
use community_edition_setup.Scripts.Otp.{
  Settings, State, set_request_scoped_parameters, validate_session_id, set_working, say,
}
use community_edition_setup.Scripts.Otp.Codes.{
  store_otp, validate_totp_key, enrollments_in, find_enrollments, process_otp_authentication,
  process_given, process_code, authenticate_code, check_code, try_all, try_totp, ended,
}
use community_edition_setup.Scripts.Otp.Steps.{
  authenticate, step_1, step_2, step_2_for, step_2_as, process_basic_authentication, authenticated,
  choose_method, method_for, get_next_step, get_count_authentication_steps,
}
use community_edition_setup.Scripts.Otp.Replay.{IsStore, read, validate_totp_key-replay}
use community_edition_setup.Scripts.Otp.Enrollments.{Counted, written, enrollments_in-hotp}
use community_edition_setup.Scripts.Otp.Coherence.{IsCoherent}
use community_edition_setup.Scripts.Otp.Checks.{Request, asked, Checked}
use community_edition_setup.Scripts.Otp.Login.{Reaches, login-Checked}

-- One user, "ann", whose keys are the codes that fit them.
record Memory : Type 0 where
  authenticated_name : Option String
  uids : List String
  attributes : String → Option String

abbrev set_attribute : Memory → String → String → Memory
set_attribute m a v = record m { attributes = λ b. if a == b then some v else m.attributes b }

abbrev memory : Services
memory = record {
  World = Memory;
  User = Memory;
  Identity = String → Option Value;
  Key = String;
  get_working_parameter = λ i name. i name;
  set_working_parameter = λ i name v other. if name == other then some v else i other;
  has_session = λ w. true;
  authenticate = λ w name password.
      if password == "s3cret"
      then (record w { authenticated_name = some name }, ok true)
      else (w, ok false);
  authenticated_user = λ w. w.authenticated_name;
  display_name = λ w. "Ann";
  get_user = λ w name. if name == "ann" then some w else none;
  get_values = λ u attribute. some u.uids;
  get_value = λ u attribute. some (u.attributes attribute);
  add_user_attribute =
      λ w name a v. if name == "ann" then (set_attribute w a v, true) else (w, false);
  replace_user_attribute =
      λ w name a old v. if name == "ann" then (set_attribute w a v, true) else (w, false);
  hotp_validate = λ window digits key factor code. if key == code then some 2 else none;
  totp_value = λ k key now. key;
  next_bytes = λ w n. (w, "654321");
  to_base32 = λ key. key;
  to_base64_url = λ key. key;
  from_base64_url = λ text. ok text;
  hotp_uri = λ key label issuer digits. key;
  totp_uri = λ key label issuer digits step. key;
  to_integer = λ text. some 1;
}

memory-Works : Works memory
memory-Works i j k v = refl

false-ne-true : ◌≡◌ {A = Bool} false true → ⊥
false-ne-true e = cc

wrote :
    (w w' : Memory) (user a v : String)
    → memory.add_user_attribute w user a v ≡ (w', true)
    → read memory w' user a ≡ some v
wrote w w' user a v done = elim (Bool-cases (user == "ann")) [
  | inl known ↦
      subst (λ (m : Memory). read memory m user a ≡ some v)
        (ap (λ (r : Memory × Bool). r.0) (rw known at done)) (rw (known, eq_refl a) refl)
  | inr unknown ↦ absurd (false-ne-true (ap (λ (r : Memory × Bool). r.1) (rw unknown at done)))
]

memory-IsStore : IsStore memory
memory-IsStore = record {
  read-add = λ w w' user a v absent done. wrote w w' user a v done;
  read-replace = λ w w' user a old v present done. wrote w w' user a v done;
}

abbrev settings : Settings
settings = record {
  otp_type = "totp";
  otp_issuer = "Gluu";
  custom_label = none;
  custom_qr_options = none;
  registration_uri = none;
  hotp_configuration = record { key_length = 20; digits = 6; look_ahead_window = 1 };
  totp_configuration = record {
    key_length = 20;
    digits = 6;
    time_step = 30;
    hmac_sha_algorithm_type = some Algorithm.hmac_sha_1;
  };
}

abbrev ann : Memory
ann = record { authenticated_name = some "ann"; uids = "totp:123456" ∷ []; attributes = λ a. none }

abbrev ann_after : Memory
ann_after = set_attribute ann "oxOTPCache" "123456"

-- The same code, half a minute later.
validate_totp_key-replay_example :
    validate_totp_key memory settings 40 ann_after "123456" "123456" "ann" ≡ (ann_after, false)
unfolding validate_totp_key store_otp
validate_totp_key-replay_example =
    validate_totp_key-replay memory memory-IsStore settings 10 40 ann ann_after "123456" "123456"
      "ann" "123456" refl refl

abbrev two_keys : List Counted
two_keys = ("QUJD", some 12) ∷ ("REVG", none) ∷ []

enrollments_in-hotp_example :
    map (split b';') (enrollments_in "hotp" true (map written two_keys))
    ≡ ("QUJD" ∷ "12" ∷ []) ∷ ("REVG" ∷ "None" ∷ []) ∷ []
unfolding has_code decimal
enrollments_in-hotp_example = enrollments_in-hotp two_keys (refl, (refl, tt))

abbrev start : State memory
start = record {
  world = record ann { authenticated_name = none };
  identity = λ name. none;
  messages = [];
}

abbrev first_request : Request memory settings
first_request = record { name = "ann"; password = "s3cret"; parameter = λ name. none; now = 10 }

abbrev second_request : Request memory settings
second_request = record { name = ""; password = ""; parameter = λ name. some "123456"; now = 20 }

start-IsCoherent : IsCoherent memory settings start.identity
start-IsCoherent = record { counted = inl refl; enrolling = λ e. cc e }

abbrev at_2 : State memory
at_2 = (asked memory settings first_request 1 start).0

-- A code that fits no key is refused, and the second step is repeated.
abbrev wrong_request : Request memory settings
wrong_request = record { name = ""; password = ""; parameter = λ name. some "654321"; now = 15 }

abbrev at_2_again : State memory
at_2_again = (asked memory settings wrong_request 2 at_2).0

at_2-Reaches : Reaches memory settings start 2 at_2_again
unfolding authenticate step_1 step_2 step_2_for step_2_as set_request_scoped_parameters
    process_basic_authentication authenticated choose_method method_for find_enrollments
    enrollments_in get_next_step set_working is_infix validate_session_id process_otp_authentication
    process_given process_code authenticate_code check_code try_all try_totp ended
    get_count_authentication_steps store_otp validate_totp_key drop text_length say
at_2-Reaches =
    Reaches.refused wrong_request (Reaches.passed first_request Reaches.here refl refl) (λ e. cc e)
      refl

login-Checked_example : Checked memory settings memory-Works second_request at_2_again
unfolding authenticate step_1 step_2 step_2_for step_2_as set_request_scoped_parameters
    process_basic_authentication authenticated choose_method method_for find_enrollments
    enrollments_in get_next_step set_working is_infix validate_session_id process_otp_authentication
    process_given process_code authenticate_code check_code try_all try_totp ended
    get_count_authentication_steps store_otp validate_totp_key drop text_length say
login-Checked_example =
    login-Checked memory settings memory-Works second_request start-IsCoherent at_2-Reaches refl
      refl
