-- ===== src/Loading/Ldap/Keeping.antt =====
-- What every change of an entry in LDAP keeps is kept by loading an entry.
use community_edition_setup.Prelude.{
  String, ◌≡◌, subst, Bool, true, false, List, [], ◌∷◌, if◌then◌else◌, Result, ok, key_error,
  or_raise, >>=-eq-ok,
}
use community_edition_setup.Prelude.Dict
use community_edition_setup.Prelude.Dict.{Dict, contains}
use community_edition_setup.Loading.{Entry}
use community_edition_setup.Loading.Sql.{head_of}
use community_edition_setup.Loading.Ldap.{
  Directory, Modification, ldap_modify_add, ldap_modify_replace, ldap_add, ldap_entry,
}

-- A test of the code has one of its two outcomes.
either_returned :
    {A : Type 0} (P : A → Type 0) (test : Bool) (x y : Result A) (out : A)
    → (x ≡ ok out → P out)
    → (y ≡ ok out → P out)
    → (if test then x else y) ≡ ok out
    → P out
either_returned P true x y out h k e = h e
either_returned P false x y out h k e = k e

either_of_two :
    {A : Type 0} (P : A → Type 0) (test : Bool) (x y : A) → P x → P y → P (if test then x else y)
either_of_two P true x y h k = h
either_of_two P false x y h k = k

returned : {A : Type 0} (P : A → Type 0) (x y : A) → ok x ≡ ok y → P x → P y
returned P x y e h = let same : x ≡ y = cc in subst P same h

module _ {S : Type 0} (directory : Directory S) (Holds : S → Type 0) where
  -- The property is kept by the two changes.
  pub record IsKept : Type 0 where
    pub modified :
        (s : S) (dn attr : String) (how : Modification) (vs : List String)
        → Holds s
        → Holds (directory.modify s dn attr how vs)
    pub added : (s : S) (dn : String) (entry : Entry) → Holds s → Holds (directory.add s dn entry)

  modify_add-keeps :
      (k : IsKept) (dn : String) (entry : Entry) (s t : S)
      → Holds s
      → ldap_modify_add directory dn entry s ≡ ok t
      → Holds t
  unfolding ldap_modify_add
  modify_add-keeps k dn entry s t h e =
      let (names, _, e1) = >>=-eq-ok (or_raise key_error (Dict.get entry "add")) _ e in
      let (attr, _, e2) = >>=-eq-ok (head_of names) _ e1 in
      let (vs, _, e3) = >>=-eq-ok (or_raise key_error (Dict.get entry attr)) _ e2 in
      returned Holds _ t e3 (k.modified s dn attr _ vs h)

  modify_replace-keeps :
      (k : IsKept) (dn : String) (entry : Entry) (s t : S)
      → Holds s
      → ldap_modify_replace directory dn entry s ≡ ok t
      → Holds t
  unfolding ldap_modify_replace
  modify_replace-keeps k dn entry s t h e =
      let (names, _, e1) = >>=-eq-ok (or_raise key_error (Dict.get entry "replace")) _ e in
      let (attr, _, e2) = >>=-eq-ok (head_of names) _ e1 in
      let (vs, _, e3) = >>=-eq-ok (or_raise key_error (Dict.get entry attr)) _ e2 in
      let (v, _, e4) = >>=-eq-ok (head_of vs) _ e3 in
      returned Holds _ t e4 (k.modified s dn attr _ (v ∷ []) h)

  module _ (dn_exists : String → S → Result (S × Bool)) where
    add-keeps :
        (k : IsKept) (dn : String) (entry : Entry) (s t : S)
        → ((s' : S) (b : Bool) → dn_exists dn s ≡ ok (s', b) → Holds s')
        → ldap_add directory dn_exists dn entry s ≡ ok t
        → Holds t
    unfolding ldap_add
    add-keeps k dn entry s t asked e =
        let (found, e0, e1) = >>=-eq-ok (dn_exists dn s) _ e in
        let held = asked found.0 found.1 e0 in
        returned Holds _ t e1 (either_of_two Holds found.1 _ _ held (k.added _ dn entry held))

    -- Whatever the changes of the directory and the test for the name keep, loading an entry keeps.
    pub ldap_entry-keeps :
        (k : IsKept) (dn : String) (entry : Entry) (s t : S)
        → Holds s
        → ((s' : S) (b : Bool) → dn_exists dn s ≡ ok (s', b) → Holds s')
        → ldap_entry directory dn_exists dn entry s ≡ ok t
        → Holds t
    unfolding ldap_entry
    ldap_entry-keeps k dn entry s t h asked =
        either_returned Holds _ _ _ t (modify_add-keeps k dn entry s t h) (
          either_returned Holds _ _ _ t (modify_replace-keeps k dn entry s t h)
            (add-keeps k dn entry s t asked))
