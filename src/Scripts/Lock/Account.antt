-- ===== src/Scripts/Lock/Account.antt =====
-- What locking, unlocking and counting do to the user that a name finds.
use community_edition_setup.Prelude.{
  ℕ, String, ◌<>◌, ◌≡◌, refl, ◌∙◌, none, some, true, false, ◌==◌, eq_refl,
}
use community_edition_setup.Scripts.Server.{Server, IsServer}
use community_edition_setup.Scripts.Lock.{
  Settings, State, count_of, set_count, lock_user, unlock_user, lock_found, unlock_found,
  inactive_user, active_user, say, get_user_attribute_value,
}
use community_edition_setup.Scripts.Lock.Attributes.{
  IsUser, value, get-IsUser, set-IsUser, value-set,
}

module _ (s : Server) (h : IsServer s) (k : Settings) where
  -- A user with a status and a count of invalid attempts, if the count has an attribute of its own.
  pub record IsAccount (us : s.Users) (name : String) (status : String) (n : ℕ) : Type 0 where
    pub user : s.User
    pub found : IsUser s us name user
    pub has_status : value s user "gluuStatus" ≡ some status
    pub counted : value s user k.invalid_login_count_attribute ≡ some (s.to_text n)

  pub count_of-IsAccount :
      (st : State s) (name status : String) (n : ℕ)
      → IsAccount st.users name status n
      → count_of s k st name ≡ n
  unfolding count_of
  count_of-IsAccount st name status n a = rw (
    get-IsUser s st.users name a.user k.invalid_login_count_attribute a.found,
    a.counted,
    h.integer-text n,
  )

  pub status-IsAccount :
      (us : s.Users) (name status : String) (n : ℕ)
      → IsAccount us name status n
      → get_user_attribute_value s us name "gluuStatus" ≡ some status
  status-IsAccount us name status n a =
      get-IsUser s us name a.user "gluuStatus" a.found ∙ a.has_status

  module _ (own : (k.invalid_login_count_attribute == "gluuStatus") ≡ false)
      (owned : ("gluuStatus" == k.invalid_login_count_attribute) ≡ false)
      (trusted : ("oxTrustActive" == k.invalid_login_count_attribute) ≡ false) where
    pub set_count-IsAccount :
        (st : State s) (name status : String) (n m : ℕ)
        → IsAccount st.users name status n
        → IsAccount (set_count s k name m st).users name status m
    unfolding set_count
    set_count-IsAccount st name status n m a = record {
      user = s.set_custom_attribute a.user k.invalid_login_count_attribute (some (s.to_text m));
      found = set-IsUser s h st.users name a.user _ _ a.found;
      has_status =
          rw
            (
              value-set s h a.user k.invalid_login_count_attribute "gluuStatus"
                  (some (s.to_text m)),
              own,
            )
            a.has_status;
      counted =
          rw
            (
              value-set s h a.user k.invalid_login_count_attribute k.invalid_login_count_attribute
                  (some (s.to_text m)),
              eq_refl k.invalid_login_count_attribute,
            )
            refl;
    }

    -- A user of another status is locked, and keeps the count.
    pub lock_user-IsAccount :
        (st : State s) (now : ℕ) (name status : String) (n : ℕ)
        → (status == "inactive") ≡ false
        → IsAccount st.users name status n
        → IsAccount (lock_user s k now name st).users name "inactive" n
    unfolding lock_user lock_found inactive_user say
    lock_user-IsAccount st now name status n other a = record {
      user = inactive_user s a.user;
      found = (
        a.found.0,
        rw (a.found.0, a.found.1, a.has_status, other)
            (h.get-update st.users name a.user _ a.found.1 (h.uid-set _ _ _ ∙ h.uid-set _ _ _)),
      );
      has_status =
          value-set s h _ "oxTrustActive" "gluuStatus" (some "false")
          ∙ value-set s h _ "gluuStatus" "gluuStatus" (some "inactive");
      counted =
          value-set s h _ "oxTrustActive" k.invalid_login_count_attribute (some "false")
          ∙ (rw trusted (
              value-set s h _ "gluuStatus" k.invalid_login_count_attribute (some "inactive")
              ∙ rw owned a.counted));
    }

    -- Unlocking and then counting from 0, as the script does.
    pub unlock_user-IsAccount :
        (st : State s) (now : ℕ) (name status : String) (n m : ℕ)
        → IsAccount st.users name status n
        → IsAccount (set_count s k name m (unlock_user s k now name st)).users name "active" m
    unfolding set_count unlock_user unlock_found active_user
    unlock_user-IsAccount st now name status n m a = record {
      user =
          s.set_custom_attribute (active_user s k a.user) k.invalid_login_count_attribute
            (some (s.to_text m));
      found = set-IsUser s h _ name (active_user s k a.user) _ _ unlocked;
      has_status =
          value-set s h _ k.invalid_login_count_attribute "gluuStatus" (some (s.to_text m))
          ∙ (rw own (
              value-set s h _ k.invalid_login_count_attribute "gluuStatus" none
              ∙ (rw own (
                  value-set s h _ "oxTrustActive" "gluuStatus" (some "true")
                  ∙ value-set s h _ "gluuStatus" "gluuStatus" (some "active")))));
      counted =
          value-set s h _ k.invalid_login_count_attribute k.invalid_login_count_attribute
            (some (s.to_text m))
          ∙ (rw (eq_refl k.invalid_login_count_attribute) refl);
    }
      where
        unlocked : IsUser s (unlock_user s k now name st).users name (active_user s k a.user)
        unlocked = (
          a.found.0,
          rw (a.found.0, a.found.1)
              (h.get-update st.users name a.user _ a.found.1
                (h.uid-set _ _ _ ∙ (h.uid-set _ _ _ ∙ h.uid-set _ _ _))),
        )

  -- The cache of a user that was locked just now.
  pub cache-lock_user :
      (st : State s) (now : ℕ) (name status : String) (n : ℕ)
      → (status == "inactive") ≡ false
      → IsAccount st.users name status n
      → (lock_user s k now name st).cache
        ≡ s.cache_put st.cache now k.lock_expiration_time
            ("lock_user_" <> name)
            (record { locked = true; created = now })
  unfolding lock_user lock_found say
  cache-lock_user st now name status n other a = rw (a.found.0, a.found.1, a.has_status, other) refl
