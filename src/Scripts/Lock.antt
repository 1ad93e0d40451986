-- ===== src/Scripts/Lock.antt =====
-- static/extension/person_authentication/BasicLockAccountExternalAuthenticator.py: a password with
-- a count of the invalid attempts, which locks the account for a while when they are too many.
pub mod Attributes
pub mod Account
pub mod Attempts
pub mod Locking
pub mod Series
mod Tests
use community_edition_setup.Prelude.{
  ℕ, zero, suc, ◌+◌, ◌-◌, String, ◌<>◌, ◌≡◌, List, [], ◌∷◌, ◌++◌, Option, none, some, Bool, true,
  false, not, ◌&&◌, ◌||◌, if◌then◌else◌, ltb, leb, ◌=ℕ◌, ◌==◌, Result, ok, err,
}
use community_edition_setup.Scripts.Server.{Server, LockDetails, value_of}

-- What `init` keeps. Limits are natural numbers: a negative one acts as 0.
pub record Settings : Type 0 where
  pub invalid_login_count_attribute : String
  pub maximum_invalid_login_attemps : ℕ
  pub lock_expiration_time : ℕ

-- `or` of a value that may be missing.
abbrev pub or_else {ℓ} : {A : Type ℓ} → Option A → A → A
or_else none y = y
or_else (some x) y = x

-- `value == text`, where the value may be `None`.
abbrev pub is_text : Option String → String → Bool
is_text none t = false
is_text (some s) t = s == t

abbrev pub is_none {ℓ} : {A : Type ℓ} → Option A → Bool
is_none none = true
is_none (some x) = false

abbrev pub is_empty : String → Bool
is_empty s = s == ""

-- Lines 121 to 140: has the lock of an inactive user ended?
unfoldable pub lock_ended : Settings → ℕ → Option LockDetails → Bool
lock_ended k now none = true
lock_ended k now (some d) = d.locked && leb k.lock_expiration_time (now - d.created)

module _ (s : Server) where
  -- A number that the server cannot read is `None`, which Python 2 takes to be below every number:
  -- no count is below it, and it acts as 0.
  abbrev number : Option String → ℕ → ℕ
  number none n = n
  number (some text) n = or_else (s.to_integer text) 0

  -- `init`, on the configuration's attributes.
  unfoldable pub init : (String → Option String) → Settings
  init conf = record {
    invalid_login_count_attribute =
        or_else (conf "invalid_login_count_attribute") "oxCountInvalidLogin";
    maximum_invalid_login_attemps = number (conf "maximum_invalid_login_attemps") 3;
    lock_expiration_time = number (conf "lock_expiration_time") 180;
  }

  -- The stored users, the cache, and the messages for the page.
  pub record State : Type 0 where
    pub users : s.Users
    pub cache : s.Cache
    pub messages : List String

  -- `getUserAttributeValue` and `setUserAttributeValue`. A missing user name is the empty text.
  unfoldable pub get_user_attribute_value : s.Users → String → String → Option String
  get_user_attribute_value users name attribute =
      if is_empty name then none else elim (s.get_user users name) [
        | none ↦ none
        | some user ↦ value_of (s.get_custom_attribute user attribute)
      ]

  unfoldable pub set_user_attribute_value : s.Users → String → String → Option String → s.Users
  set_user_attribute_value users name attribute value =
      if is_empty name then users else elim (s.get_user users name) [
        | none ↦ users
        | some user ↦ s.update_user users (s.set_custom_attribute user attribute value)
      ]

  unfoldable pub say : String → State → State
  say text st = record st { messages = st.messages ++ text ∷ [] }

  unfoldable pub set_count : Settings → String → ℕ → State → State
  unfolding set_user_attribute_value
  set_count k name n st = record st {
    users =
        set_user_attribute_value st.users name k.invalid_login_count_attribute (some (s.to_text n));
  }

  -- `lockUser`, with the time of `LocalDateTime.now()`.
  inactive_user : s.User → s.User
  inactive_user user =
      s.set_custom_attribute (s.set_custom_attribute user "gluuStatus" (some "inactive"))
        "oxTrustActive" (some "false")

  unfoldable pub lock_found : Settings → ℕ → String → s.User → State → State
  unfolding inactive_user say
  lock_found k now name user st =
      if is_text (value_of (s.get_custom_attribute user "gluuStatus")) "inactive"
      then st
      else say
          ("Your account is locked. Please try again after "
            <> (s.to_text k.lock_expiration_time <> " secs"))
          (record st {
            users = s.update_user st.users (inactive_user user);
            cache =
                s.cache_put st.cache now k.lock_expiration_time ("lock_user_" <> name)
                  (record { locked = true; created = now });
          })

  unfoldable pub lock_user : Settings → ℕ → String → State → State
  unfolding lock_found
  lock_user k now name st =
      if is_empty name
      then st
      else elim (s.get_user st.users name) [ none ↦ st | some user ↦ lock_found k now name user st ]

  -- `unLockUser`
  active_user : Settings → s.User → s.User
  active_user k user =
      s.set_custom_attribute
        (s.set_custom_attribute (s.set_custom_attribute user "gluuStatus" (some "active"))
          "oxTrustActive" (some "true"))
        k.invalid_login_count_attribute none

  unfoldable pub unlock_found : Settings → ℕ → String → s.User → State → State
  unfolding active_user
  unlock_found k now name user st = record st {
    users = s.update_user st.users (active_user k user);
    cache =
        s.cache_put st.cache now k.lock_expiration_time ("lock_user_" <> name)
          (record { locked = false; created = now });
  }

  unfoldable pub unlock_user : Settings → ℕ → String → State → State
  unfolding unlock_found
  unlock_user k now name st = if is_empty name then st else elim (s.get_user st.users name) [
    | none ↦ st
    | some user ↦ unlock_found k now name user st
  ]

  -- Lines 87 to 92: the password, where a refusal by exception is caught.
  abbrev caught : Result Bool → Bool
  caught (err raised) = false
  caught (ok b) = b

  unfoldable pub logs_in : s.Users → String → String → Bool
  logs_in users name password =
      not (is_empty name) && not (is_empty password) && caught (s.authenticate users name password)

  -- Lines 142 to 155, once the lock has ended: the second call's exceptions are not caught.
  unfoldable pub answered : Settings → ℕ → String → State → Result Bool → State × Result Bool
  answered k now name st (err raised) = (st, err raised)
  answered k now name st (ok true) = (st, ok true)
  answered k now name st (ok false) =
      let counted = set_count k name 1 st in
      if k.maximum_invalid_login_attemps =ℕ 1
      then (lock_user k now name counted, ok false)
      else (counted, ok false)

  unfoldable pub unlock_and_authenticate :
      Settings → ℕ → String → String → State → State × Result Bool
  unlock_and_authenticate k now name password st =
      let unlocked = set_count k name 0 (unlock_user k now name st) in
      answered k now name unlocked (s.authenticate unlocked.users name password)

  -- Lines 101 to 111: the count after this attempt, and the state with it. The first is
  -- `StringHelper.toInteger(value, 0)`.
  abbrev pub read_count : Option String → ℕ
  read_count none = 0
  read_count (some text) = or_else (s.to_integer text) 0

  unfoldable pub count_of : Settings → State → String → ℕ
  count_of k st name =
      read_count (get_user_attribute_value st.users name k.invalid_login_count_attribute)

  unfoldable pub warn : Option String → ℕ → State → State
  unfolding say
  warn status remaining st =
      if ltb 0 remaining && is_text status "active"
      then say (s.to_text remaining <> " more attempt(s) before account is LOCKED!") st
      else st

  unfoldable pub count_attempt : Settings → String → Option String → ℕ → State → State × ℕ
  count_attempt k name status n st =
      if ltb n k.maximum_invalid_login_attemps
      then (
        warn status (k.maximum_invalid_login_attemps - (n + 1)) (set_count k name (n + 1) st),
        n + 1,
      )
      else (st, n)

  -- Lines 113 to 155
  unfoldable pub decide_locking :
      Settings → ℕ → String → String → Option String → State × ℕ → State × Result Bool
  decide_locking k now name password status (st, n) =
      if leb k.maximum_invalid_login_attemps n && (is_none status || is_text status "active")
      then (lock_user k now name st, ok false)
      else if leb k.maximum_invalid_login_attemps n
          && is_text status "inactive"
          && lock_ended k now (s.cache_get st.cache now ("lock_user_" <> name))
      then unlock_and_authenticate k now name password st
      else (st, ok false)

  unfoldable pub refuse : Settings → ℕ → String → String → State → State × Result Bool
  refuse k now name password st =
      let status = get_user_attribute_value st.users name "gluuStatus" in
      decide_locking k now name password status
        (count_attempt k name status (count_of k st name) st)

  -- `authenticate`
  unfoldable pub authenticate : Settings → ℕ → String → String → ℕ → State → State × Result Bool
  authenticate k now name password step st =
      if step =ℕ 1
      then if logs_in st.users name password
        then (set_count k name 0 st, ok true)
        else refuse k now name password st
      else (st, ok false)

  unfoldable pub prepare_for_step : ℕ → Bool
  prepare_for_step step = step =ℕ 1
