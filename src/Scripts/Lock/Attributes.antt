-- ===== src/Scripts/Lock/Attributes.antt =====
-- The attributes of a stored user under the two accessors of the script that locks accounts.
use community_edition_setup.Prelude.{String, ◌≡◌, Option, some, false, if◌then◌else◌, ◌==◌}
use community_edition_setup.Scripts.Server.{Server, IsServer, value_of}
use community_edition_setup.Scripts.Lock.{
  is_empty, get_user_attribute_value, set_user_attribute_value,
}

module _ (s : Server) where
  -- The user that a name, which is not empty, finds.
  abbrev pub IsUser : s.Users → String → s.User → Type 0
  IsUser us n u = (is_empty n ≡ false) × (s.get_user us n ≡ some u)

  abbrev pub value : s.User → String → Option String
  value u a = value_of (s.get_custom_attribute u a)

  pub get-IsUser :
      (us : s.Users) (n : String) (u : s.User) (a : String)
      → IsUser us n u
      → get_user_attribute_value s us n a ≡ value u a
  unfolding get_user_attribute_value
  get-IsUser us n u a (named, found) = rw (named, found)

  module _ (h : IsServer s) where
    pub update-IsUser :
        (us : s.Users) (n : String) (u v : s.User)
        → IsUser us n u
        → h.uid v ≡ h.uid u
        → IsUser (s.update_user us v) n v
    update-IsUser us n u v (named, found) same = (named, h.get-update us n u v found same)

    pub set-IsUser :
        (us : s.Users) (n : String) (u : s.User) (a : String) (v : Option String)
        → IsUser us n u
        → IsUser (set_user_attribute_value s us n a v) n (s.set_custom_attribute u a v)
    unfolding set_user_attribute_value
    set-IsUser us n u a v (named, found) =
        (named, rw (named, found) (h.get-update us n u _ found (h.uid-set u a v)))

    pub value-set :
        (u : s.User) (a b : String) (v : Option String)
        → value (s.set_custom_attribute u a v) b ≡ (if a == b then v else value u b)
    value-set = h.get-set
