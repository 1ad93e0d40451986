-- ===== src/Scripts/Sample.antt =====
-- A server in memory, which shows that what is assumed of the server can be met.
use Prim.Native.String.{[], ◌∷◌}
use Prim.Native.Char.{Char}
use community_edition_setup.Prelude.{
  ℕ, zero, suc, ◌+◌, String, ◌≡◌, refl, ap, Option, none, some, Bool, true, false, ◌&&◌,
  if◌then◌else◌, ltb, ◌==◌, arith, eq_refl, ◌≢◌, Result, ok,
}
use community_edition_setup.Scripts.Server.{Server, IsServer, Remembers, LockDetails}

pub record MemoryUser : Type 0 where
  pub uid : String
  pub attributes : String → Option String

abbrev pub equal_text : Option String → String → Bool
equal_text none t = false
equal_text (some s) t = s == t

abbrev pub MemoryUsers : Type 0
MemoryUsers = String → Option MemoryUser

abbrev checked : String → Option MemoryUser → Option MemoryUser
checked name none = none
checked name (some u) = if name == u.uid then some u else none

abbrev accepts : String → Option MemoryUser → Result Bool
accepts password none = ok false
accepts password (some u) =
    ok (password == "s3cret" && equal_text (u.attributes "gluuStatus") "active")

abbrev marks : ℕ → String
marks zero = []
marks (suc n) = let one : Char = "1" in one ∷ marks n

abbrev count : String → ℕ
count [] = 0
count (c ∷ s) = suc (count s)

count-marks : (n : ℕ) → count (marks n) ≡ n
count-marks zero = refl
count-marks (suc n) = ap suc (count-marks n)

-- Every password is "s3cret", and inactive users are refused.
abbrev pub memory : Server
memory = record {
  Users = MemoryUsers;
  User = MemoryUser;
  Cache = ℕ → String → Option LockDetails;
  authenticate = λ users name password. accepts password (checked name (users name));
  get_user = λ users name. checked name (users name);
  get_custom_attribute = λ user a. some (user.attributes a);
  set_custom_attribute =
      λ user a v. record user { attributes = λ b. if a == b then v else user.attributes b };
  update_user = λ users user name. if name == user.uid then some user else users name;
  cache_get = λ cache now key. cache now key;
  cache_put = λ cache t live key d now j.
      if key == j then if ltb now (t + live) then some d else none else cache now j;
  to_integer = λ text. some (count text);
  to_text = marks;
}

uid-checked :
    (n : String) (m : Option MemoryUser) (u : MemoryUser)
    → checked n m ≡ some u
    → (n == u.uid) ≡ true
uid-checked n none u found = cc
uid-checked n (some w) u found = ground arith

update-memory :
    (us : MemoryUsers) (n : String) (u v : MemoryUser)
    → checked n (us n) ≡ some u
    → v.uid ≡ u.uid
    → checked n (if n == v.uid then some v else us n) ≡ some v
update-memory us n u v found same =
    let e : (n == v.uid) ≡ true = rw same (uid-checked n (us n) u found) in rw (e, e) refl

pub memory-IsServer : IsServer memory
memory-IsServer = record {
  uid = λ u. u.uid;
  uid-set = λ u a v. refl;
  get-update = update-memory;
  get-set = λ u a b v. refl;
  integer-text = λ n. ap some (count-marks n);
}

pub memory-Remembers : Remembers memory
memory-Remembers c t now live k d early =
    let e : ltb now (t + live) ≡ true = ground arith in rw (eq_refl k, e) refl

accepts-wrong :
    (password : String) (m : Option MemoryUser)
    → (password == "s3cret") ≡ false
    → accepts password m ≢ ok true
accepts-wrong password none wrong e = cc
accepts-wrong password (some u) wrong e = ground arith

-- Another password than the stored one is refused.
pub memory-wrong :
    (us : MemoryUsers) (name password : String)
    → (password == "s3cret") ≡ false
    → memory.authenticate us name password ≢ ok true
memory-wrong us name password = accepts-wrong password (checked name (us name))

abbrev pub status_of : Option MemoryUser → Option String
status_of none = none
status_of (some u) = u.attributes "gluuStatus"

accepts-inactive :
    (password : String) (m : Option MemoryUser)
    → status_of m ≡ some "inactive"
    → accepts password m ≢ ok true
accepts-inactive password none h e = cc
accepts-inactive password (some u) h e =
    let closed : equal_text (u.attributes "gluuStatus") "active" ≡ false =
      ap (λ (a : Option String). equal_text a "active") h in
    ground arith

accepts-active :
    (m : Option MemoryUser) → status_of m ≡ some "active" → accepts "s3cret" m ≡ ok true
accepts-active none h = cc
accepts-active (some u) h = ap (λ (a : Option String). ok (equal_text a "active")) h

pub memory-inactive :
    (us : MemoryUsers) (name password : String)
    → status_of (memory.get_user us name) ≡ some "inactive"
    → memory.authenticate us name password ≢ ok true
memory-inactive us name password = accepts-inactive password (checked name (us name))

pub memory-active :
    (us : MemoryUsers) (name : String)
    → status_of (memory.get_user us name) ≡ some "active"
    → memory.authenticate us name "s3cret" ≡ ok true
memory-active us name = accepts-active (checked name (us name))
