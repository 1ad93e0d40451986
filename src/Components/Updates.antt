-- ===== src/Components/Updates.antt =====
-- What the questions for components may do to a configuration: on an instance that is already
-- installed nothing is deselected, and what is selected anew is queued for its services.
use community_edition_setup.Prelude.{
  String, ◌≡◌, refl, ◌∙◌, inl, inr, Bool, true, false, List, [], ◌∷◌, ◌++◌, if◌then◌else◌, arith,
  eq_refl, Bool-cases,
}
use community_edition_setup.Prelude.Dict.{contains}
use community_edition_setup.Config.{Config, Component}
use community_edition_setup.Session.{
  Session, Console, Ended, returned, raised, exited, continue, pure, gets, ◌>>=◌,
}
use community_edition_setup.Components.{flag}

pub contains-append_left :
    (xs ys : List String) (k : String) → contains xs k ≡ true → contains (xs ++ ys) k ≡ true
contains-append_left [] ys k h = cc
contains-append_left (x ∷ xs) ys k h = ground (arith, contains-append_left xs ys k)

pub contains-concat : (xs : List String) (k : String) → contains (xs ++ k ∷ []) k ≡ true
contains-concat [] k = ground (arith, eq_refl k)
contains-concat (x ∷ xs) k = ground (arith, contains-concat xs k)

-- How the questions may change a configuration.
pub record Updates (before after : Config) : Type 0 where
  pub instance_stays : after.installed_instance ≡ before.installed_instance
  pub kept :
      (c : Component)
      → before.installed_instance ≡ true
      → before.selected c ≡ true
      → after.selected c ≡ true
  pub queued :
      (c : Component)
      → before.installed_instance ≡ true
      → before.selected c ≡ false
      → after.selected c ≡ true
      → contains after.add_post_setup_service (flag c) ≡ true
  pub still_queued :
      (name : String)
      → contains before.add_post_setup_service name ≡ true
      → contains after.add_post_setup_service name ≡ true
  pub fresh :
      before.installed_instance ≡ false
      → after.add_post_setup_service ≡ before.add_post_setup_service

pub Updates-refl : (a : Config) → Updates a a
Updates-refl a = record {
  instance_stays = refl;
  kept = λ c i s. s;
  queued = λ c i s t. cc;
  still_queued = λ n h. h;
  fresh = λ i. refl;
}

pub Updates-trans : (a b c : Config) → Updates a b → Updates b c → Updates a c
Updates-trans a b c u v = record {
  instance_stays = v.instance_stays ∙ u.instance_stays;
  kept = λ k i s. v.kept k (u.instance_stays ∙ i) (u.kept k i s);
  queued = λ k i s t. elim (Bool-cases (b.selected k)) [
    | inl e ↦ v.still_queued (flag k) (u.queued k i s e)
    | inr e ↦ v.queued k (u.instance_stays ∙ i) e t
  ];
  still_queued = λ n h. v.still_queued n (u.still_queued n h);
  fresh = λ i. v.fresh (u.instance_stays ∙ i) ∙ u.fresh i;
}

abbrev pub OnReturn : {A : Type 0} → Config → Ended A → Config → Type 0
OnReturn before (returned a) after = Updates before after
OnReturn before (raised e) after = Unit
OnReturn before exited after = Unit

-- A question that updates the configuration so whenever it returns.
pub record Careful {A : Type 0} (m : Session A) : Type 0 where
  pub at : (s : Console) → OnReturn s.cfg (m s).0 (m s).1.cfg

module _ {A : Type 0} where
  of_Updates :
      (before after : Config) (r : Ended A) → Updates before after → OnReturn before r after
  of_Updates before after (returned a) u = u
  of_Updates before after (raised e) u = tt
  of_Updates before after exited u = tt

  after_Updates : (a b c : Config) (r : Ended A) → Updates a b → OnReturn b r c → OnReturn a r c
  after_Updates a b c (returned x) u v = Updates-trans a b c u v
  after_Updates a b c (raised e) u v = tt
  after_Updates a b c exited u v = tt

  pub Careful-pure : (a : A) → Careful (pure a)
  Careful-pure a = record { at = λ s. Updates-refl s.cfg }

  pub Careful-gets : (f : Config → A) → Careful (gets f)
  Careful-gets f = record { at = λ s. Updates-refl s.cfg }

  pub Careful-if :
      (b : Bool) (m n : Session A) → Careful m → Careful n → Careful (if b then m else n)
  Careful-if true m n h k = h
  Careful-if false m n h k = k

module _ {A B : Type 0} where
  continue-OnReturn :
      (r : Ended A) (f : A → Session B) (before : Config) (s : Console)
      → OnReturn before r s.cfg
      → ((a : A) → Careful (f a))
      → OnReturn before (continue r f s).0 (continue r f s).1.cfg
  continue-OnReturn (returned a) f before s u h = after_Updates before s.cfg _ _ u ((h a).at s)
  continue-OnReturn (raised e) f before s u h = tt
  continue-OnReturn exited f before s u h = tt

  pub Careful-bind :
      (m : Session A) (f : A → Session B)
      → Careful m
      → ((a : A) → Careful (f a))
      → Careful (m >>= f)
  Careful-bind m f h k = record { at = λ s. continue-OnReturn (m s).0 f s.cfg (m s).1 (h.at s) k }
