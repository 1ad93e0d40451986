-- ===== src/Scripts/Server.antt =====
-- The services of the authentication server that a script calls. They are no part of the
-- repository, so that they are parameters; `IsServer` is what is documented of them.
use community_edition_setup.Prelude.{
  ℕ, ◌+◌, ◌≤◌, ◌<◌, ◌⊎◌, String, ◌≡◌, Option, none, some, Bool, if◌then◌else◌, ◌==◌, Result,
}

-- What `lockUser` and `unLockUser` keep in the cache as a JSON text.
pub record LockDetails : Type 0 where
  pub locked : Bool
  pub created : ℕ

-- `authenticate` is `AuthenticationService`'s, with the user's name and password, and raises or
-- answers; the user's operations are `UserService`'s; `cache_get` and `cache_put` are
-- `CacheService`'s and take the time of the call in seconds, and `cache_put` the time to live;
-- `to_integer` and `to_text` are `StringHelper`'s.
pub record Server : Type 1 where
  pub Users : Type 0
  pub User : Type 0
  pub Cache : Type 0
  pub authenticate : Users → String → String → Result Bool
  pub get_user : Users → String → Option User
  pub get_custom_attribute : User → String → Option (Option String)
  pub set_custom_attribute : User → String → Option String → User
  pub update_user : Users → User → Users
  pub cache_get : Cache → ℕ → String → Option LockDetails
  pub cache_put : Cache → ℕ → ℕ → String → LockDetails → Cache
  pub to_integer : String → Option ℕ
  pub to_text : ℕ → String

-- `attribute.getValue()`, where there is an attribute.
abbrev pub value_of : Option (Option String) → Option String
value_of none = none
value_of (some v) = v

-- The documented behaviour: a changed user is found again under each name that found it, an
-- attribute reads back as it was set, and a number as it was written.
pub record IsServer (s : Server) : Type 0 where
  pub uid : s.User → String
  pub uid-set :
      (u : s.User) (a : String) (v : Option String) → uid (s.set_custom_attribute u a v) ≡ uid u
  pub get-update :
      (us : s.Users) (n : String) (u v : s.User)
      → s.get_user us n ≡ some u
      → uid v ≡ uid u
      → s.get_user (s.update_user us v) n ≡ some v
  pub get-set :
      (u : s.User) (a b : String) (v : Option String)
      → value_of (s.get_custom_attribute (s.set_custom_attribute u a v) b)
        ≡ (if a == b then v else value_of (s.get_custom_attribute u b))
  pub integer-text : (n : ℕ) → s.to_integer (s.to_text n) ≡ some n

-- The cache gives back what was put, as long as it lives.
abbrev pub Remembers : Server → Type 0
Remembers s =
    (c : s.Cache) (t now live : ℕ) (k : String) (d : LockDetails)
    → now < t + live
    → s.cache_get (s.cache_put c t live k d) now k ≡ some d

-- Once it no longer lives, what was put is gone, or the cache has not removed it yet.
abbrev pub Expires : Server → Type 0
Expires s =
    (c : s.Cache) (t now live : ℕ) (k : String) (d : LockDetails)
    → t + live ≤ now
    → (s.cache_get (s.cache_put c t live k d) now k ≡ none)
      ⊎ (s.cache_get (s.cache_put c t live k d) now k ≡ some d)
