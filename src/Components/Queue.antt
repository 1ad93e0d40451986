-- ===== src/Components/Queue.antt =====
-- The questions for components, one after the other.
use community_edition_setup.Prelude.{
  String, ◌≡◌, subst, sym, inl, inr, Bool, true, false, Option, none, some, Bool-cases,
}
use community_edition_setup.Config.{Config, Component, httpd, saml, oxd}
use community_edition_setup.Session.{
  Session, Console, Ended, returned, raised, exited, continue, modify, get_default_option, ask_yes,
  ◌>>=◌,
}
use community_edition_setup.Components.{
  select, queue, installed, prompt_for, default_httpd, prompt_for_httpd, set_up_saml,
  prompt_for_shib_idp, ask_storage, prompt_for_oxd, unless, prompt_for_components,
}
use community_edition_setup.Components.Updates.{
  Updates, OnReturn, Careful, Careful-pure, Careful-gets, Careful-bind, Updates-refl,
}
use community_edition_setup.Components.Choices.{
  after_answer, cfg-ask_yes, Chooses, Chooses-Updates, Chooses-select,
}

-- The four questions of the common form.
Careful-prompt_for : (c : Component) → Careful (prompt_for c)
unfolding prompt_for select
Careful-prompt_for c = record {
  at = λ s. elim (Bool-cases (installed c s.cfg)) [
    | inl e ↦ rw e (Updates-refl s.cfg)
    | inr e ↦ rw e (
        after_answer _ _ s
          (λ b t k. Chooses-Updates c s.cfg _ (Chooses-select c b s.cfg t.cfg k e)))
  ];
}

Careful-prompt_for_httpd : Careful prompt_for_httpd
unfolding prompt_for_httpd select default_httpd
Careful-prompt_for_httpd = record {
  at = λ s. elim (Bool-cases (installed httpd s.cfg)) [
    | inl e ↦ rw e (Updates-refl s.cfg)
    | inr e ↦ rw e (asked s e s.cfg.install_httpd_option)
  ];
}
  where
    asked :
        (s : Console)
        → installed httpd s.cfg ≡ false
        → (o : Option Bool)
        → let m : Session (Unit {0}) = default_httpd o >>= λ default. ask_yes default >>= λ answer.
            modify (select httpd answer) >>= λ _. modify (queue httpd) in
          OnReturn s.cfg (m s).0 (m s).1.cfg
    asked s e none = tt
    asked s e (some b) =
        after_answer _ _ s
          (λ b t k. Chooses-Updates httpd s.cfg _ (Chooses-select httpd b s.cfg t.cfg k e))

Chooses-set_up_saml :
    (password : String) (b : Bool) (before cfg : Config)
    → cfg ≡ before
    → installed saml before ≡ false
    → Chooses saml before (set_up_saml password b cfg)
unfolding set_up_saml
Chooses-set_up_saml password false before cfg e n = Chooses-select saml false before cfg e n
Chooses-set_up_saml password true before cfg e n =
    let c = Chooses-select saml true before cfg e n in
    record {
      not_there = n;
      same_instance = c.same_instance;
      same_queue = c.same_queue;
      others = c.others;
    }

Careful-prompt_for_shib_idp : (password : String) → Careful (prompt_for_shib_idp password)
unfolding prompt_for_shib_idp
Careful-prompt_for_shib_idp password = record {
  at = λ s. elim (Bool-cases (installed saml s.cfg)) [
    | inl e ↦ rw e (Updates-refl s.cfg)
    | inr e ↦ rw e (
        after_answer _ _ s
          (λ b t k. Chooses-Updates saml s.cfg _ (Chooses-set_up_saml password b s.cfg t.cfg k e)))
  ];
}

-- The second question of `promptForOxd` sets its own flag alone.
with_storage : Bool → Config → Config
with_storage b cfg = record cfg { oxd_use_gluu_storage = b }

Chooses-with_storage :
    (c : Component) (b : Bool) (before chosen : Config)
    → Chooses c before chosen
    → Chooses c before (with_storage b chosen)
unfolding with_storage
Chooses-with_storage c b before chosen h = record {
  not_there = h.not_there;
  same_instance = h.same_instance;
  same_queue = h.same_queue;
  others = h.others;
}

storage_then_queue :
    (b : Bool) (before : Config) (s : Console)
    → Chooses oxd before s.cfg
    → let m = ask_storage b >>= λ _. modify (queue oxd) in OnReturn before (m s).0 (m s).1.cfg
unfolding ask_storage
storage_then_queue false before s h = Chooses-Updates oxd before s.cfg h
storage_then_queue true before s h =
    stored (ask_yes (get_default_option s.cfg.oxd_use_gluu_storage) s).0
      (ask_yes (get_default_option s.cfg.oxd_use_gluu_storage) s).1
      (subst (Chooses oxd before) (sym (cfg-ask_yes _ s)) h)
  where
    stored :
        (r : Ended Bool) (t : Console)
        → Chooses oxd before t.cfg
        → let m = λ (u : Console).
          continue
            (continue r
              (λ answer. modify (λ cfg. record cfg { oxd_use_gluu_storage = answer }))
              u).0
            (λ _. modify (queue oxd))
            (continue r
              (λ answer. modify (λ cfg. record cfg { oxd_use_gluu_storage = answer }))
              u).1 in
          OnReturn before (m t).0 (m t).1.cfg
    stored (returned b) t k =
        Chooses-Updates oxd before _
          (unfold with_storage in Chooses-with_storage oxd b before t.cfg k)
    stored (raised e) t k = tt
    stored exited t k = tt

Careful-prompt_for_oxd : Careful prompt_for_oxd
unfolding prompt_for_oxd select
Careful-prompt_for_oxd = record {
  at = λ s. elim (Bool-cases (installed oxd s.cfg)) [
    | inl e ↦ rw e (Updates-refl s.cfg)
    | inr e ↦ rw e (
        after_answer _ _ s (λ b t k.
          storage_then_queue b s.cfg (record t { cfg = select oxd b t.cfg })
            (Chooses-select oxd b s.cfg t.cfg k e)))
  ];
}

Careful-unless : (b : Bool) (m : Session (Unit {0})) → Careful m → Careful (unless b m)
unfolding unless
Careful-unless true m h = Careful-pure tt
Careful-unless false m h = h

ruleset careful_rules = (
  Careful-pure, Careful-gets, Careful-bind, Careful-unless, Careful-prompt_for,
  Careful-prompt_for_httpd, Careful-prompt_for_shib_idp, Careful-prompt_for_oxd,
)

Careful-prompt_for_components :
    (password : String) (oxd_package : Bool) → Careful (prompt_for_components password oxd_package)
unfolding prompt_for_components
Careful-prompt_for_components password oxd_package = search careful_rules depth 20

OnReturn-of_returned :
    {A : Type 0} (before after : Config) (r : Ended A) (a : A)
    → r ≡ returned a
    → OnReturn before r after
    → Updates before after
OnReturn-of_returned before after r a e h = subst (λ x. OnReturn before x after) e h

-- When the questions for components return, on an instance that was already installed every component
-- that was there is still selected, every one that was selected anew is queued under its flag, and the
-- queue still has what it had; on a fresh instance the queue is as it was.
pub prompt_for_components-Updates :
    (password : String) (oxd_package : Bool) (s : Console)
    → (prompt_for_components password oxd_package s).0 ≡ returned tt
    → Updates s.cfg (prompt_for_components password oxd_package s).1.cfg
prompt_for_components-Updates password oxd_package s e =
    OnReturn-of_returned _ _ _ tt e ((Careful-prompt_for_components password oxd_package).at s)
