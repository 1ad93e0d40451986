-- ===== src/Scripts/Lock/Attempts.antt =====
-- Attempts to log in at the script that locks accounts.
use community_edition_setup.Prelude.{
  ℕ, ◌≤◌, String, ◌<>◌, ◌≡◌, ◌≢◌, ◌⊎◌, inl, inr, refl, List, [], ◌∷◌, Option, Bool, true, false,
  arith, Bool-cases, Result, ok, err, subst,
}
use community_edition_setup.Scripts.Server.{Server}
use community_edition_setup.Scripts.Lock.{
  Settings, State, is_text, logs_in, count_of, set_count, unlock_user, warn, say, count_attempt,
  decide_locking, refuse, authenticate, lock_ended, answered, unlock_and_authenticate,
  get_user_attribute_value,
}

module _ (s : Server) (k : Settings) where
  pub users-warn :
      (status : Option String) (n : ℕ) (st : State s) → (warn s status n st).users ≡ st.users
  unfolding warn say
  users-warn status n st = ground arith

  pub cache-count_attempt :
      (name : String) (status : Option String) (n : ℕ) (st : State s)
      → (count_attempt s k name status n st).0.cache ≡ st.cache
  unfolding count_attempt set_count warn say
  cache-count_attempt name status n st = ground arith

  pub logs_in-Accepted :
      (us : s.Users) (name password : String)
      → logs_in s us name password ≡ true
      → s.authenticate us name password ≡ ok true
  unfolding logs_in
  logs_in-Accepted us name password e = ground arith

  answered-Accepted :
      (now : ℕ) (name : String) (st st' : State s) (r : Result Bool)
      → answered s k now name st r ≡ (st', ok true)
      → r ≡ ok true
  unfolding answered
  answered-Accepted now name st st' (err raised) e = cc
  answered-Accepted now name st st' (ok true) e = refl
  answered-Accepted now name st st' (ok false) e = ground arith

  -- What unlocking leaves for the second call of the server.
  abbrev pub unlocked : ℕ → String → State s → State s
  unlocked now name st = set_count s k name 0 (unlock_user s k now name st)

  decide_locking-Accepted :
      (now : ℕ) (name password : String) (status : Option String) (st st' : State s) (n : ℕ)
      → decide_locking s k now name password status (st, n) ≡ (st', ok true)
      → (is_text status "inactive" ≡ true)
        × (k.maximum_invalid_login_attemps ≤ n)
        × (lock_ended k now (s.cache_get st.cache now ("lock_user_" <> name)) ≡ true)
        × (s.authenticate (unlocked now name st).users name password ≡ ok true)
  unfolding decide_locking unlock_and_authenticate
  decide_locking-Accepted now name password status st st' n e = ground (
    arith,
    answered-Accepted now name (unlocked now name st) st'
        (s.authenticate (unlocked now name st).users name password),
  )

  -- The state with the count of this attempt.
  abbrev pub counted : String → State s → State s × ℕ
  counted name st =
      count_attempt s k name (get_user_attribute_value s st.users name "gluuStatus")
        (count_of s k st name) st

  -- An attempt is accepted only where the server accepts the name and the password: of the users
  -- as they stand, or of the users with this one unlocked, and then the user was inactive, the
  -- count had reached its limit, and the lock had ended by the cache.
  pub authenticate-Accepted :
      (now : ℕ) (name password : String) (step : ℕ) (st st' : State s)
      → authenticate s k now name password step st ≡ (st', ok true)
      → (s.authenticate st.users name password ≡ ok true)
        ⊎ ((is_text (get_user_attribute_value s st.users name "gluuStatus") "inactive" ≡ true)
            × (k.maximum_invalid_login_attemps ≤ (counted name st).1)
            × (lock_ended k now (s.cache_get st.cache now ("lock_user_" <> name)) ≡ true)
            × (s.authenticate (unlocked now name (counted name st).0).users name password
                ≡ ok true))
  unfolding authenticate refuse
  authenticate-Accepted now name password step st st' e =
      elim (Bool-cases (logs_in s st.users name password)) [
        | inl yes' ↦ inl (logs_in-Accepted st.users name password yes')
        | inr no' ↦
            let status : Option String = get_user_attribute_value s st.users name "gluuStatus" in
            let d =
              decide_locking-Accepted now name password status (counted name st).0 st'
                (counted name st).1 (ground arith) in
            inr (
              d.0,
              d.1,
              subst (λ c. lock_ended k now (s.cache_get c now ("lock_user_" <> name)) ≡ true)
                  (cache-count_attempt name status (count_of s k st name) st) d.2,
              d.3,
            )
      ]

  -- A password that the server does not take, whatever it keeps.
  abbrev pub IsWrong : String → ℕ × String → Type 0
  IsWrong name (now, password) = (us : s.Users) → s.authenticate us name password ≢ ok true

  -- Attempts for a user one after the other, each with its time.
  abbrev pub attempts : String → List (ℕ × String) → State s → State s
  attempts name [] st = st
  attempts name ((now, password) ∷ more) st =
      attempts name more (authenticate s k now name password 1 st).0
