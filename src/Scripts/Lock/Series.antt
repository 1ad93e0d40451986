-- ===== src/Scripts/Lock/Series.antt =====
-- A series of refused attempts at the script that locks accounts, and the time of the lock.
use community_edition_setup.Prelude.{
  ℕ, suc, ◌+◌, ◌-◌, ◌≤◌, ◌<◌, String, ◌<>◌, ◌≡◌, ◌≢◌, ◌⊎◌, none, inl, inr, refl, sym, ◌∙◌, List, [],
  ◌∷◌, some, Bool, true, false, ltb, leb, ◌==◌, ap, arith, length, All, Bool-cases, Result, ok,
  subst,
}
use community_edition_setup.Scripts.Server.{Server, IsServer, Remembers, Expires}
use community_edition_setup.Scripts.Lock.{
  Settings, State, logs_in, count_attempt, decide_locking, refuse, authenticate, lock_ended,
  answered, unlock_and_authenticate, get_user_attribute_value,
}
use community_edition_setup.Scripts.Lock.Account.{
  IsAccount, count_of-IsAccount, status-IsAccount, unlock_user-IsAccount,
}
use community_edition_setup.Scripts.Lock.Attempts.{logs_in-Accepted, unlocked, attempts, IsWrong}
use community_edition_setup.Scripts.Lock.Locking.{authenticate-below, authenticate-last}

module _ (s : Server) (h : IsServer s) (k : Settings)
    (own : (k.invalid_login_count_attribute == "gluuStatus") ≡ false)
    (owned : ("gluuStatus" == k.invalid_login_count_attribute) ≡ false)
    (trusted : ("oxTrustActive" == k.invalid_login_count_attribute) ≡ false) (name : String) where
  logs_in-refused :
      (us : s.Users) (password : String)
      → s.authenticate us name password ≢ ok true
      → logs_in s us name password ≡ false
  logs_in-refused us password wrong = elim (Bool-cases (logs_in s us name password)) [
    | inl e ↦ absurd (wrong (logs_in-Accepted s k us name password e))
    | inr e ↦ e
  ]

  attempts-below :
      (tries : List (ℕ × String)) (n : ℕ) (st : State s)
      → All (IsWrong s k name) tries
      → n + length tries < k.maximum_invalid_login_attemps
      → IsAccount s h k st.users name "active" n
      → IsAccount s h k (attempts s k name tries st).users name "active" (n + length tries)
  attempts-below [] n st _ below a =
      let e : n ≡ n + 0 = omega arith in subst (λ m. IsAccount s h k st.users name "active" m) e a
  attempts-below ((now, password) ∷ more) n st (wrong, wrongs) below a =
      let e : n + 1 + length more ≡ n + suc (length more) = omega arith in
      subst
        (λ m.
          IsAccount s h k (attempts s k name more (authenticate s k now name password 1 st).0).users
            name "active" m)
        e
        (attempts-below more (n + 1) (authenticate s k now name password 1 st).0 wrongs
          (omega arith)
          (authenticate-below s h k own owned trusted name now n password st
            (logs_in-refused st.users password (wrong st.users)) (omega arith) a (omega arith)))

  -- While the lock lasts, an attempt at an inactive account is refused and changes nothing.
  authenticate-locked :
      (now n created : ℕ) (password : String) (st : State s)
      → s.authenticate st.users name password ≢ ok true
      → IsAccount s h k st.users name "inactive" n
      → n ≡ k.maximum_invalid_login_attemps
      → s.cache_get st.cache now ("lock_user_" <> name)
        ≡ some (record { locked = true; created = created })
      → created ≤ now
      → now < created + k.lock_expiration_time
      → authenticate s k now name password 1 st ≡ (st, ok false)
  unfolding authenticate refuse count_attempt decide_locking lock_ended
  authenticate-locked now n created password st wrong a full cached late early =
      let reached : ltb n k.maximum_invalid_login_attemps ≡ false = ground arith in
      let lasts : leb k.lock_expiration_time (now - created) ≡ false = ground arith in
      rw
        (
          logs_in-refused st.users password wrong,
          status-IsAccount s h k st.users name "inactive" n a,
          count_of-IsAccount s h k st name "inactive" n a,
          reached,
          cached,
          lasts,
        )
        (ground arith)

  -- The state that the last of the allowed attempts leaves.
  locked_at :
      (tries : List (ℕ × String)) (at : ℕ) (last : String) (st : State s)
      → IsAccount s h k st.users name "active" 0
      → All (IsWrong s k name) tries
      → IsWrong s k name (at, last)
      → length tries + 1 ≡ k.maximum_invalid_login_attemps
      → IsAccount s h k
          (authenticate s k at name last 1 (attempts s k name tries st)).0.users
          name
          "inactive"
          (0 + length tries + 1)
        × ((authenticate s k at name last 1 (attempts s k name tries st)).0.cache
            ≡ s.cache_put
                (attempts s k name tries st).cache
                at
                k.lock_expiration_time
                ("lock_user_" <> name)
                (record { locked = true; created = at }))
  locked_at tries at last st a wrongs wrong full =
      let active = attempts-below tries 0 st wrongs (omega arith) a in
      authenticate-last s h k own owned trusted name at (0 + length tries) last
        (attempts s k name tries st)
        (logs_in-refused (attempts s k name tries st).users last
          (wrong (attempts s k name tries st).users))
        (omega arith) active (omega arith)

  -- After as many refused attempts as are allowed, the last of them at the time `at`, no password
  -- of the user is taken as long as the lock lasts, and such an attempt changes nothing.
  pub attempts-IsLocked :
      (tries : List (ℕ × String)) (at now : ℕ) (last password : String) (st : State s)
      → IsAccount s h k st.users name "active" 0
      → All (IsWrong s k name) tries
      → IsWrong s k name (at, last)
      → length tries + 1 ≡ k.maximum_invalid_login_attemps
      → Remembers s
      → ((us : s.Users)
          → get_user_attribute_value s us name "gluuStatus" ≡ some "inactive"
          → s.authenticate us name password ≢ ok true)
      → at ≤ now
      → now < at + k.lock_expiration_time
      → authenticate s k now name password 1
          (authenticate s k at name last 1 (attempts s k name tries st)).0
        ≡ ((authenticate s k at name last 1 (attempts s k name tries st)).0, ok false)
  attempts-IsLocked tries at now last password st a wrongs wrong full remembers inactive late
        early =
      let locked = locked_at tries at last st a wrongs wrong full in
      let st' : State s = (authenticate s k at name last 1 (attempts s k name tries st)).0 in
      authenticate-locked now (0 + length tries + 1) at password st'
        (inactive st'.users
          (status-IsAccount s h k st'.users name "inactive" (0 + length tries + 1) locked.0))
        locked.0 (omega arith)
        (ap (λ c. s.cache_get c now ("lock_user_" <> name)) locked.1
          ∙ remembers (attempts s k name tries st).cache at now k.lock_expiration_time
              ("lock_user_" <> name) (record { locked = true; created = at }) early)
        late early

  answered_taken : (now : ℕ) (st : State s) → answered s k now name st (ok true) ≡ (st, ok true)
  unfolding answered
  answered_taken now st = refl

  unlock_and_authenticate-right :
      (now : ℕ) (password : String) (st : State s)
      → s.authenticate (unlocked s k now name st).users name password ≡ ok true
      → unlock_and_authenticate s k now name password st ≡ (unlocked s k now name st, ok true)
  unfolding unlock_and_authenticate
  unlock_and_authenticate-right now password st taken =
      ap (answered s k now name (unlocked s k now name st)) taken
      ∙ answered_taken now (unlocked s k now name st)

  -- What the cache has at the end of the lock: nothing, or the lock itself.
  IsOver : State s → ℕ → ℕ → Type 0
  IsOver st now created =
      (s.cache_get st.cache now ("lock_user_" <> name) ≡ none)
      ⊎ (s.cache_get st.cache now ("lock_user_" <> name)
          ≡ some (record { locked = true; created = created }))

  over :
      (now created : ℕ) (st : State s)
      → IsOver st now created
      → created + k.lock_expiration_time ≤ now
      → lock_ended k now (s.cache_get st.cache now ("lock_user_" <> name)) ≡ true
  unfolding lock_ended IsOver
  over now created st (inl gone) late = rw gone refl
  over now created st (inr there) late = rw there (ground arith)

  authenticate-late :
      (now n created : ℕ) (password : String) (st : State s)
      → logs_in s st.users name password ≡ false
      → IsAccount s h k st.users name "inactive" n
      → n ≡ k.maximum_invalid_login_attemps
      → IsOver st now created
      → created + k.lock_expiration_time ≤ now
      → authenticate s k now name password 1 st ≡ unlock_and_authenticate s k now name password st
  unfolding authenticate refuse count_attempt decide_locking
  authenticate-late now n created password st refused a full cached late =
      let reached : ltb n k.maximum_invalid_login_attemps ≡ false = ground arith in
      let full' : leb k.maximum_invalid_login_attemps n ≡ true = ground arith in
      rw
        (
          refused,
          status-IsAccount s h k st.users name "inactive" n a,
          count_of-IsAccount s h k st name "inactive" n a,
          reached,
          over now created st cached late,
          full',
        )
        refl

  authenticate-unlocks :
      (now n created : ℕ) (password : String) (st : State s)
      → logs_in s st.users name password ≡ false
      → IsAccount s h k st.users name "inactive" n
      → n ≡ k.maximum_invalid_login_attemps
      → IsOver st now created
      → created + k.lock_expiration_time ≤ now
      → ((us : s.Users)
          → get_user_attribute_value s us name "gluuStatus" ≡ some "active"
          → s.authenticate us name password ≡ ok true)
      → ((authenticate s k now name password 1 st).1 ≡ ok true)
        × IsAccount s h k (authenticate s k now name password 1 st).0.users name "active" 0
  authenticate-unlocks now n created password st refused a full cached late right =
      let u = unlock_user-IsAccount s h k own owned trusted st now name "inactive" n 0 a in
      let st' : State s = unlocked s k now name st in
      let taken = right st'.users (status-IsAccount s h k st'.users name "active" 0 u) in
      let e =
        authenticate-late now n created password st refused a full cached late
        ∙ unlock_and_authenticate-right now password st taken in
      (
        ap (λ (r : State s × Result Bool). r.1) e,
        subst (λ (r : State s × Result Bool). IsAccount s h k r.0.users name "active" 0) (sym e) u,
      )

  -- After as many refused attempts as are allowed, the last of them at the time `at`, the right
  -- password is taken again from the end of the lock on, and leaves an active account with a count of
  -- 0, whether or not the cache still has the lock.
  pub attempts-unlocks :
      (tries : List (ℕ × String)) (at now : ℕ) (last password : String) (st : State s)
      → IsAccount s h k st.users name "active" 0
      → All (IsWrong s k name) tries
      → IsWrong s k name (at, last)
      → length tries + 1 ≡ k.maximum_invalid_login_attemps
      → Expires s
      → ((us : s.Users)
          → get_user_attribute_value s us name "gluuStatus" ≡ some "inactive"
          → s.authenticate us name password ≢ ok true)
      → ((us : s.Users)
          → get_user_attribute_value s us name "gluuStatus" ≡ some "active"
          → s.authenticate us name password ≡ ok true)
      → at + k.lock_expiration_time ≤ now
      → ((authenticate s k now name password 1
            (authenticate s k at name last 1 (attempts s k name tries st)).0).1
          ≡ ok true)
        × IsAccount s h k
            (authenticate s k now name password 1
              (authenticate s k at name last 1 (attempts s k name tries st)).0).0.users
            name
            "active"
            0
  unfolding IsOver
  attempts-unlocks tries at now last password st a wrongs wrong full expires inactive right late =
      let tried : State s = attempts s k name tries st in
      let n = 0 + length tries + 1 in
      let locked = locked_at tries at last st a wrongs wrong full in
      let st' : State s = (authenticate s k at name last 1 tried).0 in
      let shut = inactive st'.users (status-IsAccount s h k st'.users name "inactive" n locked.0) in
      let cached : IsOver st' now at =
        subst
          (λ c.
            (s.cache_get c now ("lock_user_" <> name) ≡ none)
            ⊎ (s.cache_get c now ("lock_user_" <> name)
                ≡ some (record { locked = true; created = at })))
          (sym locked.1)
          (expires tried.cache at now k.lock_expiration_time ("lock_user_" <> name)
            (record { locked = true; created = at }) late) in
      authenticate-unlocks now n at password st' (logs_in-refused st'.users password shut) locked.0
        (omega arith) cached late right
