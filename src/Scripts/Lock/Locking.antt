-- ===== src/Scripts/Lock/Locking.antt =====
-- A series of refused attempts at the script that locks accounts, and the time of the lock.
use community_edition_setup.Prelude.{
  ℕ, ◌+◌, ◌-◌, ◌≤◌, ◌<◌, String, ◌<>◌, ◌≡◌, refl, sym, ◌∙◌, some, Bool, true, false, ltb, leb, ◌==◌,
  ap, arith, Result, ok, subst,
}
use community_edition_setup.Scripts.Server.{Server, IsServer}
use community_edition_setup.Scripts.Lock.{
  Settings, State, logs_in, set_count, lock_user, count_attempt, decide_locking, refuse,
  authenticate,
}
use community_edition_setup.Scripts.Lock.Account.{
  IsAccount, count_of-IsAccount, status-IsAccount, set_count-IsAccount, lock_user-IsAccount,
  cache-lock_user,
}
use community_edition_setup.Scripts.Lock.Attempts.{users-warn, cache-count_attempt}

module _ (s : Server) (h : IsServer s) (k : Settings)
    (own : (k.invalid_login_count_attribute == "gluuStatus") ≡ false)
    (owned : ("gluuStatus" == k.invalid_login_count_attribute) ≡ false)
    (trusted : ("oxTrustActive" == k.invalid_login_count_attribute) ≡ false) (name : String) where
  -- Both decisions for an active user, by whether this attempt is the last one allowed.
  counted_below :
      (now n : ℕ) (password : String) (st : State s)
      → n < k.maximum_invalid_login_attemps
      → IsAccount s h k st.users name "active" n
      → IsAccount s h k (count_attempt s k name (some "active") n st).0.users name "active" (n + 1)
        × ((count_attempt s k name (some "active") n st).1 ≡ n + 1)
  unfolding count_attempt
  counted_below now n password st below a =
      let test : ltb n k.maximum_invalid_login_attemps ≡ true = ground arith in
      (
        rw test (
            subst (λ us. IsAccount s h k us name "active" (n + 1))
              (sym (
                users-warn s k (some "active") (k.maximum_invalid_login_attemps - (n + 1))
                  (set_count s k name (n + 1) st)))
              (set_count-IsAccount s h k own owned trusted st name "active" n (n + 1) a)),
        rw test refl,
      )

  abbrev pub after : ℕ → String → State s → State s
  after now password st = (authenticate s k now name password 1 st).0

  -- Lines 113 to 155 after a count below the limit, and at it.
  decide_locking-below :
      (now m : ℕ) (password : String) (c : State s × ℕ)
      → c.1 ≡ m
      → m < k.maximum_invalid_login_attemps
      → decide_locking s k now name password (some "active") c ≡ (c.0, ok false)
  unfolding decide_locking
  decide_locking-below now m password (st, n) e below = ground arith

  decide_locking-last :
      (now m : ℕ) (password : String) (c : State s × ℕ)
      → c.1 ≡ m
      → k.maximum_invalid_login_attemps ≤ m
      → decide_locking s k now name password (some "active") c
        ≡ (lock_user s k now name c.0, ok false)
  unfolding decide_locking
  decide_locking-last now m password (st, n) e last =
      let test : leb k.maximum_invalid_login_attemps n ≡ true = ground arith in rw test refl

  module _ (now n : ℕ) (password : String) (st : State s)
      (refused : logs_in s st.users name password ≡ false)
      (below : n < k.maximum_invalid_login_attemps)
      (a : IsAccount s h k st.users name "active" n) where
    counted_state : State s × ℕ
    counted_state = count_attempt s k name (some "active") n st

    authenticate-refused :
        authenticate s k now name password 1 st
        ≡ decide_locking s k now name password (some "active") counted_state
    unfolding authenticate refuse counted_state
    authenticate-refused =
        rw
          (
            refused,
            status-IsAccount s h k st.users name "active" n a,
            count_of-IsAccount s h k st name "active" n a,
          )
          refl

    -- A refused attempt is counted, and the account stays active below the limit.
    pub authenticate-below :
        n + 1 < k.maximum_invalid_login_attemps
        → IsAccount s h k (after now password st).users name "active" (n + 1)
    unfolding counted_state
    authenticate-below more =
        let c = counted_below now n password st below a in
        let e =
          authenticate-refused ∙ decide_locking-below now (n + 1) password counted_state c.1 more in
        subst (λ (r : State s × Result Bool). IsAccount s h k r.0.users name "active" (n + 1))
          (sym e) c.0

    -- The last attempt allowed locks the account from now on.
    pub authenticate-last :
        n + 1 ≡ k.maximum_invalid_login_attemps
        → IsAccount s h k (after now password st).users name "inactive" (n + 1)
          × ((after now password st).cache
              ≡ s.cache_put st.cache now k.lock_expiration_time
                  ("lock_user_" <> name)
                  (record { locked = true; created = now }))
    unfolding counted_state
    authenticate-last last =
        let c = counted_below now n password st below a in
        let e =
          authenticate-refused
          ∙ decide_locking-last now (n + 1) password counted_state c.1 (omega arith) in
        (
          subst (λ (r : State s × Result Bool). IsAccount s h k r.0.users name "inactive" (n + 1))
              (sym e)
              (lock_user-IsAccount s h k own owned trusted counted_state.0 now name "active" (n + 1)
                refl c.0),
          ap (λ (r : State s × Result Bool). r.0.cache) e
              ∙ (cache-lock_user s h k counted_state.0 now name "active" (n + 1) refl c.0
                  ∙ ap
                      (λ cc'.
                        s.cache_put cc' now k.lock_expiration_time ("lock_user_" <> name)
                          (record { locked = true; created = now }))
                      (cache-count_attempt s k name (some "active") n st)),
        )
