-- ===== src/Scripts/Otp/Preparing.antt =====
-- OtpExternalAuthenticator.py: `prepareForStep`, which makes the key of an enrollment.
use community_edition_setup.Prelude.{
  ℕ, ◌*◌, String, ◌<>◌, Option, none, some, Bool, true, false, if◌then◌else◌, ◌==◌, ◌=ℕ◌, ◌&&◌,
}
use community_edition_setup.Scripts.Otp.Calls.{Services, Value}
use community_edition_setup.Scripts.Otp.{
  Settings, State, set_working, working, set_request_scoped_parameters, validate_session_id,
  holds_text,
}

module _ (s : Services) (k : Settings) where
  -- `generateHotpSecretKeyUri` and `generateTotpSecretKeyUri`
  unfoldable pub generate_hotp_secret_key_uri : s.Key → String → String
  generate_hotp_secret_key_uri key name =
      s.hotp_uri (s.to_base32 key) (k.otp_issuer <> (" " <> name)) k.otp_issuer
        k.hotp_configuration.digits

  unfoldable pub generate_totp_secret_key_uri : s.Key → String → String
  generate_totp_secret_key_uri key name =
      s.totp_uri (s.to_base32 key) (k.otp_issuer <> (" " <> name)) k.otp_issuer
        k.totp_configuration.digits (k.totp_configuration.time_step * 1000)

  -- `generateSecretHotpKey` and `generateSecretTotpKey`
  unfoldable pub generate_secret_hotp_key : s.World → s.World × s.Key
  generate_secret_hotp_key w = s.next_bytes w k.hotp_configuration.key_length

  unfoldable pub generate_secret_totp_key : s.World → s.World × s.Key
  generate_secret_totp_key w = s.next_bytes w k.totp_configuration.key_length

  abbrev pub with_request : (s.Key → String → String) → State s → s.World × s.Key → State s
  with_request uri st (w, key) =
      set_working s "otp_enrollment_request" (Value.text (uri key (s.display_name st.world))) (
        set_working s "otp_secret_key" (Value.text (s.to_base64_url key)) (record st { world = w }))

  -- Lines 226 to 247
  unfoldable pub prepare_for : State s → Option String → State s × Bool
  prepare_for st none = (st, false)
  prepare_for st (some user) =
      if k.otp_type == "hotp"
      then (with_request generate_hotp_secret_key_uri st (generate_secret_hotp_key st.world), true)
      else if k.otp_type == "totp"
      then (with_request generate_totp_secret_key_uri st (generate_secret_totp_key st.world), true)
      else (st, false)

  unfoldable pub prepare_enrollment : State s → State s × Bool
  prepare_enrollment st = prepare_for st (s.authenticated_user st.world)

  unfoldable pub prepare_started : ℕ → State s → State s × Bool
  prepare_started step st =
      if step =ℕ 1
      then (st, true)
      else if step =ℕ 2
      then if validate_session_id s st
        then if holds_text (working s st "otp_auth_method") "enroll"
          then prepare_enrollment st
          else (st, true)
        else (st, false)
      else if step =ℕ 3
      then (st, validate_session_id s st && holds_text (working s st "otp_auth_method") "enroll")
      else (st, false)

  unfoldable pub prepare_for_step : ℕ → State s → State s × Bool
  prepare_for_step step st = prepare_started step (set_request_scoped_parameters s k st)
