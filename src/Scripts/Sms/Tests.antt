-- ===== src/Scripts/Sms/Tests.antt =====
-- Runs of smpp2FA.py.
use community_edition_setup.Prelude.{
  ℕ, String, ◌≡◌, refl, ◌↔◌, ◌≢◌, Option, none, some, List, [], ◌∷◌, Bool, true, false, ◌==◌,
  if◌then◌else◌, Result, ok, err, value_error, name_error, arith,
}
use community_edition_setup.Prelude.Int.{pos, parse_int}
use community_edition_setup.Prelude.Text.{
  length as text_length, starts_with, drop, rstrip, lstrip, is_space,
}
use community_edition_setup.Prelude.Decimal.{decimal}
use community_edition_setup.Scripts.Sms.{
  Settings, SmppValue, EnumType, text, number, constant, type_of_number, init,
}
use community_edition_setup.Scripts.Sms.Steps
use community_edition_setup.Scripts.Sms.Sending.{Sends, authenticate-Sends}

-- The enumeration that these runs use.
abbrev has_constant : EnumType → String → Bool
has_constant type_of_number name = name == "NATIONAL"
has_constant _ name = false

abbrev configuration : String → Option String
configuration key =
    if key == "smpp_server"
    then some "smpp.example.org"
    else if key == "smpp_port"
    then some "2775"
    else if key == "dest_addr_ton"
    then some "NATIONAL"
    else none

abbrev port_of : Result (Option Settings) → Option SmppValue
port_of (ok (some k)) = some k.smpp_port
port_of _ = none

abbrev kind_of_number : Result (Option Settings) → Option SmppValue
kind_of_number (ok (some k)) = some k.dst_addr_ton
kind_of_number _ = none

init-port : port_of (init has_constant configuration) ≡ some (number (pos 2775))
unfolding init parse_int rstrip lstrip is_space
init-port = refl

init-national :
    kind_of_number (init has_constant configuration) ≡ some (constant type_of_number "NATIONAL")
unfolding init parse_int rstrip lstrip is_space
init-national = refl

-- Without a server the script is not enabled.
init-missing : init has_constant (λ key. none) ≡ ok none
unfolding init
init-missing = refl

-- A port in hexadecimal digits raises, although `int(value, 16)` is meant to read it.
init-hexadecimal :
    init has_constant (λ key. if key == "smpp_server" then some "a" else some "0xad7")
    ≡ err value_error
unfolding init parse_int rstrip lstrip is_space
init-hexadecimal = refl

record MemoryWorld : Type 0 where
  code : Option ℕ
  mobile_number : Option String
  submitted : List (String × String)

-- Every name has the password "s3cret" and one mobile number.
abbrev memory : Steps.Services
memory = record {
  World = MemoryWorld;
  User = String;
  authenticate = λ w name password. (w, ok (password == "s3cret"));
  authenticated_user = λ w. ok (some "sam");
  get_attribute = λ user a. if a == "mobile" then some "+3612345" else none;
  set_code = λ w code. record w { code = some code };
  set_mobile_number = λ w phone. record w { mobile_number = some phone };
  submit = λ k w phone code. (record w { submitted = (phone, code) ∷ w.submitted }, true);
}

abbrev settings : Settings
settings = record {
  smpp_server = text "smpp.example.org";
  smpp_port = number (pos 2775);
  system_id = none;
  password = none;
  src_addr_ton = constant type_of_number "ALPHANUMERIC";
  src_addr_npi = text "";
  src_addr = text "Gluu OTP";
  dst_addr_ton = constant type_of_number "INTERNATIONAL";
  dst_addr_npi = text "";
  priority_flag = number (pos 3);
  data_coding_alphabet = text "";
  data_coding_message_class = text "";
}

abbrev start : Steps.State memory settings
start = record {
  world = record { code = none; mobile_number = none; submitted = [] };
  messages = [];
}

abbrev after_login : Steps.State memory settings
after_login = record {
  world = record {
    code = some 123456;
    mobile_number = some "+3612345";
    submitted = ("3612345", "123456") ∷ [];
  };
  messages = [];
}

authenticate-login :
    Steps.authenticate memory settings "sam" "s3cret" 123456 none none 1 start
    ≡ (after_login, ok true)
unfolding Steps.authenticate Steps.log_in_and_send Steps.logged_in Steps.send_to_user
    Steps.send_code Steps.find_mobile_number starts_with decimal drop
authenticate-login = refl

authenticate-Sends_example :
    Sends memory settings "sam" "s3cret" 123456 start.world after_login.world
    × ((Steps.authenticate memory settings "sam" "s3cret" 123456
            (some (decimal 123456))
            (some "123457")
            2
            after_login
          ≡ (after_login, ok true))
        ↔ ("123457" ≡ decimal 123456))
    × ((Steps.authenticate memory settings "sam" "s3cret" 123456
            (some (decimal 123456))
            (some "123457")
            2
            after_login
          ≡ (after_login, err name_error))
        ↔ ((text_length "123457" ≡ 6) × ("123457" ≢ decimal 123456)))
authenticate-Sends_example =
    authenticate-Sends memory settings "sam" "s3cret" 123456 none none start after_login after_login
      (omega arith) (omega arith) authenticate-login "123457"
