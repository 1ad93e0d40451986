-- ===== src/Scripts/Sms.antt =====
-- static/extension/person_authentication/smpp2FA.py: a password, and a code that is sent by SMS.
pub mod Steps
pub mod Passcodes
pub mod Sending
mod Tests
use community_edition_setup.Prelude.{
  ℕ, String, ◌≡◌, Option, none, some, Bool, true, false, if◌then◌else◌, Result, ok, err, Exception,
  value_error, ◌>>=◌,
}
use community_edition_setup.Prelude.Int.{ℤ, pos, parse_int}

-- The Java enumerations whose constants the configuration names.
pub data EnumType : Type 0 where
  type_of_number numbering_plan_indicator alphabet message_class : EnumType

-- A value of the configuration: a text, a number, or the constant of an enumeration.
pub data SmppValue : Type 0 where
  text : String → SmppValue
  number : ℤ → SmppValue
  constant : EnumType → String → SmppValue

-- The arguments `_type` and `convert` of `get_and_parse_smpp_config`.
pub data Kind : Type 0 where
  plain : Kind
  convert : Kind
  as_enum : EnumType → Kind

-- How that call ends: with a value, an `SmppAttributeError`, or another exception.
pub data Parsed : Type 0 where
  value : SmppValue → Parsed
  smpp_attribute_error : Parsed
  raised : Exception → Parsed

-- What `init` keeps. Without a system id or a password the server is asked without credentials.
pub record Settings : Type 0 where
  pub smpp_server : SmppValue
  pub smpp_port : SmppValue
  pub system_id : Option SmppValue
  pub password : Option SmppValue
  pub src_addr_ton : SmppValue
  pub src_addr_npi : SmppValue
  pub src_addr : SmppValue
  pub dst_addr_ton : SmppValue
  pub dst_addr_npi : SmppValue
  pub priority_flag : SmppValue
  pub data_coding_alphabet : SmppValue
  pub data_coding_message_class : SmppValue

-- `int(value)` raises `ValueError` where the text is no number, which the handlers of
-- `AttributeError` do not catch.
abbrev converted : Option ℤ → Parsed
converted none = raised value_error
converted (some n) = value (number n)

-- `has_constant` says which names an enumeration has.
module _ (has_constant : EnumType → String → Bool) where
  unfoldable pub parse_value : Kind → String → Parsed
  parse_value plain s = value (text s)
  parse_value convert s = converted (parse_int s)
  parse_value (as_enum e) s =
      if has_constant e s then value (constant e s) else smpp_attribute_error

  -- `get_and_parse_smpp_config`, on the attributes of the configuration.
  unfoldable pub get_and_parse_smpp_config : (String → Option String) → String → Kind → Parsed
  unfolding parse_value
  get_and_parse_smpp_config conf attribute kind = elim (conf attribute) [
    | none ↦ smpp_attribute_error
    | some s ↦ parse_value kind s
  ]

-- `try: … except SmppAttributeError: print(e)`, where the attribute keeps its default.
abbrev pub or_keep {ℓ} : {A : Type ℓ} → (SmppValue → A) → A → Parsed → Result A
or_keep f default (value v) = ok (f v)
or_keep f default smpp_attribute_error = ok default
or_keep f default (raised e) = err e

abbrev present : SmppValue → Option SmppValue
present v = some v

module _ (has_constant : EnumType → String → Bool) where
  abbrev optional : (String → Option String) → String → Kind → SmppValue → Result SmppValue
  optional conf attribute kind default =
      or_keep (λ v. v) default (get_and_parse_smpp_config has_constant conf attribute kind)

  abbrev may_miss : (String → Option String) → String → Kind → Result (Option SmppValue)
  may_miss conf attribute kind =
      or_keep present none (get_and_parse_smpp_config has_constant conf attribute kind)

  -- Lines 113 to 217
  unfoldable pub init_optional :
      (String → Option String) → SmppValue → SmppValue → Result (Option Settings)
  unfolding get_and_parse_smpp_config
  init_optional conf server port = do
    system_id ← may_miss conf "system_id" plain
    password ← may_miss conf "password" plain
    src_ton ←
        optional conf "source_addr_ton" (as_enum type_of_number)
          (constant type_of_number "ALPHANUMERIC")
    src_npi ←
        optional conf "source_addr_npi" (as_enum numbering_plan_indicator)
          (constant numbering_plan_indicator "ISDN")
    src ← optional conf "source_addr" plain (text "Gluu OTP")
    dst_ton ←
        optional conf "dest_addr_ton" (as_enum type_of_number)
          (constant type_of_number "INTERNATIONAL")
    dst_npi ←
        optional conf "dest_addr_npi" (as_enum numbering_plan_indicator)
          (constant numbering_plan_indicator "ISDN")
    priority ← optional conf "priority_flag" convert (number (pos 3))
    coding ←
        optional conf "data_coding_alphabet" (as_enum alphabet) (constant alphabet "ALPHA_DEFAULT")
    class ←
        optional conf "data_coding_alphabet" (as_enum message_class)
          (constant message_class "CLASS1")
    ok (
        some (record {
          smpp_server = server;
          smpp_port = port;
          system_id = system_id;
          password = password;
          src_addr_ton = src_ton;
          src_addr_npi = src_npi;
          src_addr = src;
          dst_addr_ton = dst_ton;
          dst_addr_npi = dst_npi;
          priority_flag = priority;
          data_coding_alphabet = coding;
          data_coding_message_class = class;
        }))

  abbrev with_server :
      (String → Option String) → Option SmppValue → Option SmppValue → Result (Option Settings)
  with_server conf (some server) (some port) = init_optional conf server port
  with_server conf (some server) none = ok none
  with_server conf none port = ok none

  -- `init`: `none` where it returns `False`.
  unfoldable pub init : (String → Option String) → Result (Option Settings)
  unfolding init_optional
  init conf = do
    server ← may_miss conf "smpp_server" plain
    port ← may_miss conf "smpp_port" convert
    with_server conf server port
