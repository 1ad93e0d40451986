-- ===== src/Scripts/Otp/Replay.antt =====
-- A timed code is taken once.
use community_edition_setup.Prelude.{
  ℕ, String, ◌≡◌, sym, ◌∙◌, ap, Option, none, some, true, false, arith, eq_iff,
}
use community_edition_setup.Scripts.Otp.Calls.{Services}
use community_edition_setup.Scripts.Otp.{Settings}
use community_edition_setup.Scripts.Otp.Codes.{get_cached_otp, store_otp, validate_totp_key}

module _ (s : Services) where
  -- The value of an attribute that the server has for a user.
  abbrev value_of : Option (Option String) → Option String
  value_of none = none
  value_of (some v) = v

  abbrev read_user : String → Option s.User → Option String
  read_user attribute none = none
  read_user attribute (some u) = value_of (s.get_value u attribute)

  abbrev pub read : s.World → String → String → Option String
  read w user attribute = read_user attribute (s.get_user w user)

  -- What `UserService` documents of the two changes, where they find the user.
  pub record IsStore : Type 0 where
    pub read-add :
        (w w' : s.World) (user attribute v : String)
        → read w user attribute ≡ none
        → s.add_user_attribute w user attribute v ≡ (w', true)
        → read w' user attribute ≡ some v
    pub read-replace :
        (w w' : s.World) (user attribute old v : String)
        → read w user attribute ≡ some old
        → s.replace_user_attribute w user attribute old v ≡ (w', true)
        → read w' user attribute ≡ some v

  module _ (h : IsStore) (k : Settings) where
    get_cached_otp-read :
        (w : s.World) (user : String) → get_cached_otp s k w user ≡ read w user "oxOTPCache"
    unfolding get_cached_otp
    get_cached_otp-read w user = ground arith

    read-store :
        (w w' : s.World) (user code : String) (cached : Option String)
        → read w user "oxOTPCache" ≡ cached
        → store_otp s k w user cached code ≡ (w', true)
        → read w' user "oxOTPCache" ≡ some code
    unfolding store_otp
    read-store w w' user code none e done = h.read-add w w' user "oxOTPCache" code e done
    read-store w w' user code (some old) e done =
        h.read-replace w w' user "oxOTPCache" old code e done

    -- A code that the user's cache holds is refused, with each key and at each time.
    refuses-cached :
        (now : ℕ) (w : s.World) (key : s.Key) (user code : String)
        → get_cached_otp s k w user ≡ some code
        → validate_totp_key s k now w key code user ≡ (w, false)
    unfolding validate_totp_key
    refuses-cached now w key user code e = rw e (ground arith)

    accepted-value :
        (now : ℕ) (w w' : s.World) (key : s.Key) (user code : String)
        → validate_totp_key s k now w key code user ≡ (w', true)
        → (s.totp_value k.totp_configuration key now ≡ code)
          × ((store_otp s k w user
                (get_cached_otp s k w user)
                (s.totp_value k.totp_configuration key now)).0
              ≡ w')
    unfolding validate_totp_key
    accepted-value now w w' key user code e =
        ground (arith, eq_iff (s.totp_value k.totp_configuration key now) code)

    -- Where a timed code was taken, and the server could store it as the user's last one, the world
    -- that this leaves has the code refused, at each time and with each key.
    pub validate_totp_key-replay :
        (now later : ℕ) (w w' : s.World) (key other : s.Key) (user code : String)
        → validate_totp_key s k now w key code user ≡ (w', true)
        → (store_otp s k w user (get_cached_otp s k w user) code).1 ≡ true
        → validate_totp_key s k later w' other code user ≡ (w', false)
    validate_totp_key-replay now later w w' key other user code e done =
        let a = accepted-value now w w' key user code e in
        let wrote : (store_otp s k w user (get_cached_otp s k w user) code).0 ≡ w' =
          ap (λ v. (store_otp s k w user (get_cached_otp s k w user) v).0) (sym a.0) ∙ a.1 in
        refuses-cached later w' other user code (
          get_cached_otp-read w' user
          ∙ read-store w w' user code (get_cached_otp s k w user) (sym (get_cached_otp-read w user))
              (λ i. (wrote i, done i)))
