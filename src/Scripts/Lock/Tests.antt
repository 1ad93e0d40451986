-- ===== src/Scripts/Lock/Tests.antt =====
-- The script that locks accounts, run on a server in memory.
use community_edition_setup.Prelude.{
  ℕ, String, ◌≡◌, refl, ◌⊎◌, inl, eq_refl, [], ◌∷◌, Option, none, some, true, false, if◌then◌else◌,
  ◌==◌, arith, ok, ◌≤◌,
}
use community_edition_setup.Scripts.Server.{LockDetails, Expires}
use community_edition_setup.Scripts.Sample.{
  MemoryUsers, memory, memory-IsServer, memory-Remembers, memory-wrong, memory-inactive,
  memory-active, status_of,
}
use community_edition_setup.Scripts.Lock.{
  Settings, State, init, authenticate, is_text, get_user_attribute_value, lock_ended, logs_in,
  refuse, count_of, count_attempt, decide_locking,
}
use community_edition_setup.Scripts.Lock.Account.{IsAccount}
use community_edition_setup.Scripts.Lock.Attempts.{
  authenticate-Accepted, counted, unlocked, attempts,
}
use community_edition_setup.Scripts.Lock.Series.{attempts-IsLocked, attempts-unlocks}

abbrev limits : Settings
limits = record {
  invalid_login_count_attribute = "oxCountInvalidLogin";
  maximum_invalid_login_attemps = 3;
  lock_expiration_time = 180;
}

init_default : init memory (λ key. none) ≡ limits
unfolding init
init_default = refl

abbrev attributes : String → String → String → Option String
attributes status n a =
    if a == "gluuStatus" then some status else if a == "oxCountInvalidLogin" then some n else none

abbrev ann : String → String → MemoryUsers
ann status n name =
    if name == "ann" then some (record { uid = "ann"; attributes = attributes status n }) else none

abbrev one_user : String → String → (ℕ → String → Option LockDetails) → State memory
one_user status n cache = record { users = ann status n; cache = cache; messages = [] }

abbrev fresh : State memory
fresh = one_user "active" "" (λ now key. none)

abbrev long_locked : State memory
long_locked = one_user "inactive" "111" (λ now key. some (record { locked = true; created = 10 }))

right_password : (authenticate memory limits 5 "ann" "s3cret" 1 fresh).1 ≡ ok true
unfolding authenticate logs_in
right_password = refl

wrong_password : (authenticate memory limits 5 "ann" "guess" 1 fresh).1 ≡ ok false
unfolding authenticate logs_in refuse get_user_attribute_value count_of count_attempt decide_locking
wrong_password = refl

authenticate-Accepted_example :
    (memory.authenticate fresh.users "ann" "s3cret" ≡ ok true)
    ⊎ ((is_text (get_user_attribute_value memory fresh.users "ann" "gluuStatus") "inactive" ≡ true)
        × (3 ≤ (counted memory limits "ann" fresh).1)
        × (lock_ended limits 5 none ≡ true)
        × (memory.authenticate
              (unlocked memory limits 5 "ann" (counted memory limits "ann" fresh).0).users
              "ann"
              "s3cret"
            ≡ ok true))
unfolding authenticate logs_in
authenticate-Accepted_example =
    authenticate-Accepted memory limits 5 "ann" "s3cret" 1 fresh
      (authenticate memory limits 5 "ann" "s3cret" 1 fresh).0 refl

fresh-IsAccount : IsAccount memory memory-IsServer limits fresh.users "ann" "active" 0
fresh-IsAccount = record {
  user = record { uid = "ann"; attributes = attributes "active" "" };
  found = (refl, refl);
  has_status = refl;
  counted = refl;
}

locked-IsAccount : IsAccount memory memory-IsServer limits long_locked.users "ann" "inactive" 3
locked-IsAccount = record {
  user = record { uid = "ann"; attributes = attributes "inactive" "111" };
  found = (refl, refl);
  has_status = refl;
  counted = refl;
}

-- The accessor reads the status that the server in memory looks at.
status-get :
    (us : MemoryUsers) (status : String)
    → get_user_attribute_value memory us "ann" "gluuStatus" ≡ some status
    → status_of (memory.get_user us "ann") ≡ some status
unfolding get_user_attribute_value
status-get us status h = h

attempts-IsLocked_example :
    authenticate memory limits 100 "ann" "s3cret" 1
      (authenticate memory limits 9 "ann" "guess" 1
        (attempts memory limits "ann" ((5, "guess") ∷ (7, "guess") ∷ []) fresh)).0
    ≡ (
      (authenticate memory limits 9 "ann" "guess" 1
          (attempts memory limits "ann" ((5, "guess") ∷ (7, "guess") ∷ []) fresh)).0,
      ok false,
    )
attempts-IsLocked_example =
    attempts-IsLocked memory memory-IsServer limits refl refl refl "ann"
      ((5, "guess") ∷ (7, "guess") ∷ []) 9 100 "guess" "s3cret" fresh fresh-IsAccount
      ((λ us. memory-wrong us "ann" "guess" refl), ((λ us. memory-wrong us "ann" "guess" refl), tt))
      (λ us. memory-wrong us "ann" "guess" refl) refl memory-Remembers
      (λ us h. memory-inactive us "ann" "s3cret" (status-get us "inactive" h)) (omega arith)
      (omega arith)

memory-Expires : Expires memory
memory-Expires c t now live k d late = inl (rw (eq_refl k) (ground arith))

-- The lock is gone from the cache 180 seconds after the last attempt.
attempts-unlocks_example :
    ((authenticate memory limits 200 "ann" "s3cret" 1
        (authenticate memory limits 9 "ann" "guess" 1
          (attempts memory limits "ann" ((5, "guess") ∷ (7, "guess") ∷ []) fresh)).0).1
      ≡ ok true)
    × IsAccount memory memory-IsServer limits
        (authenticate memory limits 200 "ann" "s3cret" 1
          (authenticate memory limits 9 "ann" "guess" 1
            (attempts memory limits "ann" ((5, "guess") ∷ (7, "guess") ∷ []) fresh)).0).0.users
        "ann"
        "active"
        0
attempts-unlocks_example =
    attempts-unlocks memory memory-IsServer limits refl refl refl "ann"
      ((5, "guess") ∷ (7, "guess") ∷ []) 9 200 "guess" "s3cret" fresh fresh-IsAccount
      ((λ us. memory-wrong us "ann" "guess" refl), ((λ us. memory-wrong us "ann" "guess" refl), tt))
      (λ us. memory-wrong us "ann" "guess" refl) refl memory-Expires
      (λ us h. memory-inactive us "ann" "s3cret" (status-get us "inactive" h))
      (λ us h. memory-active us "ann" (status-get us "active" h)) (omega arith)
