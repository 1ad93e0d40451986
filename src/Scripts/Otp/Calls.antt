-- ===== src/Scripts/Otp/Calls.antt =====
-- What the script for one-time codes calls and the repository does not hold: the server's services,
-- the libraries for HOTP and TOTP, Base64 and random keys.
use community_edition_setup.Prelude.{
  ℕ, String, ◌≡◌, Option, some, Bool, if◌then◌else◌, ◌==◌, Result, List,
}

-- The values of working parameters.
pub data Value : Type 0 where
  flag : Bool → Value
  number : ℕ → Value
  text : String → Value
  empty : Value

pub data Algorithm : Type 0 where
  hmac_sha_1 hmac_sha_256 hmac_sha_512 : Algorithm

pub record HotpConfiguration : Type 0 where
  pub key_length : ℕ
  pub digits : ℕ
  pub look_ahead_window : ℕ

pub record TotpConfiguration : Type 0 where
  pub key_length : ℕ
  pub digits : ℕ
  pub time_step : ℕ
  pub hmac_sha_algorithm_type : Option Algorithm

-- `authenticate`, which may raise, and `authenticated_user`, the id of the user that it found, are
-- `AuthenticationService`'s. `get_user` and the operations on attributes are `UserService`'s: the
-- two that change a user answer whether they found one. `hotp_validate` gives the new moving factor
-- of a valid code; `totp_value` takes the time of the call.
pub record Services : Type 1 where
  pub World : Type 0
  pub User : Type 0
  pub Identity : Type 0
  pub Key : Type 0
  pub get_working_parameter : Identity → String → Option Value
  pub set_working_parameter : Identity → String → Value → Identity
  pub has_session : World → Bool
  pub authenticate : World → String → String → World × Result Bool
  pub authenticated_user : World → Option String
  pub display_name : World → String
  pub get_user : World → String → Option User
  pub get_values : User → String → Option (List String)
  pub get_value : User → String → Option (Option String)
  pub add_user_attribute : World → String → String → String → World × Bool
  pub replace_user_attribute : World → String → String → String → String → World × Bool
  pub hotp_validate : ℕ → ℕ → Key → Option ℕ → String → Option ℕ
  pub totp_value : TotpConfiguration → Key → ℕ → String
  pub next_bytes : World → ℕ → World × Key
  pub to_base32 : Key → String
  pub to_base64_url : Key → String
  pub from_base64_url : String → Result Key
  pub hotp_uri : String → String → String → ℕ → String
  pub totp_uri : String → String → String → ℕ → ℕ → String
  pub to_integer : String → Option ℕ

-- A working parameter reads back as it was set.
abbrev pub Works : Services → Type 0
Works s =
    (i : s.Identity) (j k : String) (v : Value)
    → s.get_working_parameter (s.set_working_parameter i j v) k
      ≡ (if j == k then some v else s.get_working_parameter i k)
