-- ===== src/Components/Choices.antt =====
-- The steps of one question: an answer is asked for, stored in the flag, and the flag queued.
use mathlib.Core.Bool.{false≢true}
use mathlib.Core.Logic.{if_pos, if_neg}
use community_edition_setup.Prelude.{
  String, ◌≡◌, refl, sym, ◌∙◌, ◌≢◌, Bool, true, false, Option, some, [], ◌∷◌, arith, Result, ok,
  err,
}
use community_edition_setup.Prelude.Dict.{contains}
use community_edition_setup.Config.{Config, Component, Component-discrete}
use community_edition_setup.Session.{
  Session, Console, Ended, returned, raised, exited, continue, lift, get_prompt, is_yes, ask_yes,
  Answer, text, ◌>>=◌,
}
use community_edition_setup.Session.Prompting.{get_prompt-Answers}
use community_edition_setup.Components.{flag, select, queue, installed}
use community_edition_setup.Components.Updates.{
  Updates, OnReturn, contains-append_left, contains-concat,
}

-- A yes-or-no question changes nothing of the configuration.
cfg-lift : (r : Result Bool) (s : Console) → (lift r s).1.cfg ≡ s.cfg
cfg-lift (ok b) s = refl
cfg-lift (err e) s = refl

cfg-continue :
    (r : Ended (Option Answer)) (s : Console) → (continue r (λ a. lift (is_yes a)) s).1.cfg ≡ s.cfg
cfg-continue (returned a) s = cfg-lift (is_yes a) s
cfg-continue (raised e) s = refl
cfg-continue exited s = refl

pub cfg-ask_yes : (default : String) (s : Console) → (ask_yes default s).1.cfg ≡ s.cfg
unfolding ask_yes
cfg-ask_yes default s =
    cfg-continue (get_prompt (some (text default)) false s).0
      (get_prompt (some (text default)) false s).1
    ∙ (get_prompt-Answers (some (text default)) false s).1

answered :
    (r : Ended Bool) (f : Bool → Session (Unit {0})) (before : Config) (s : Console)
    → s.cfg ≡ before
    → ((b : Bool) (t : Console) → t.cfg ≡ before → OnReturn before (f b t).0 (f b t).1.cfg)
    → OnReturn before (continue r f s).0 (continue r f s).1.cfg
answered (returned b) f before s e h = h b s e
answered (raised x) f before s e h = tt
answered exited f before s e h = tt

-- What is done with an answer starts from the configuration before the question.
pub after_answer :
    (default : String) (f : Bool → Session (Unit {0})) (s : Console)
    → ((b : Bool) (t : Console) → t.cfg ≡ s.cfg → OnReturn s.cfg (f b t).0 (f b t).1.cfg)
    → OnReturn s.cfg ((ask_yes default >>= f) s).0 ((ask_yes default >>= f) s).1.cfg
after_answer default f s h =
    answered (ask_yes default s).0 f s.cfg (ask_yes default s).1 (cfg-ask_yes default s) h

-- What `select` and `queue` change.
select_self : (c : Component) (b : Bool) (cfg : Config) → (select c b cfg).selected c ≡ b
unfolding select
select_self c b cfg = if_pos (Component-discrete c c) refl _ _

select_ne :
    (c d : Component) (b : Bool) (cfg : Config)
    → d ≢ c
    → (select c b cfg).selected d ≡ cfg.selected d
unfolding select
select_ne c d b cfg h = if_neg (Component-discrete d c) h _ _

selected-queue : (c d : Component) (cfg : Config) → (queue c cfg).selected d ≡ cfg.selected d
unfolding queue
selected-queue c d cfg = ground arith

instance-queue :
    (c : Component) (cfg : Config) → (queue c cfg).installed_instance ≡ cfg.installed_instance
unfolding queue
instance-queue c cfg = ground arith

queue_adds :
    (c : Component) (cfg : Config)
    → cfg.installed_instance ≡ true
    → cfg.selected c ≡ true
    → contains (queue c cfg).add_post_setup_service (flag c) ≡ true
unfolding queue
queue_adds c cfg i s = ground (arith, contains-concat cfg.add_post_setup_service (flag c))

queue_keeps :
    (c : Component) (cfg : Config) (name : String)
    → contains cfg.add_post_setup_service name ≡ true
    → contains (queue c cfg).add_post_setup_service name ≡ true
unfolding queue
queue_keeps c cfg name h =
    ground (arith, contains-append_left cfg.add_post_setup_service (flag c ∷ []) name h)

queue_fresh :
    (c : Component) (cfg : Config)
    → cfg.installed_instance ≡ false
    → (queue c cfg).add_post_setup_service ≡ cfg.add_post_setup_service
unfolding queue
queue_fresh c cfg h = ground arith

-- The answer for one component is stored in `chosen`; the other fields that matter here stay.
pub record Chooses (c : Component) (before chosen : Config) : Type 0 where
  pub not_there : installed c before ≡ false
  pub same_instance : chosen.installed_instance ≡ before.installed_instance
  pub same_queue : chosen.add_post_setup_service ≡ before.add_post_setup_service
  pub others : (d : Component) → d ≢ c → chosen.selected d ≡ before.selected d

pub Chooses-Updates :
    (c : Component) (before chosen : Config)
    → Chooses c before chosen
    → Updates before (queue c chosen)
unfolding installed
Chooses-Updates c before chosen h = record {
  instance_stays = instance-queue c chosen ∙ h.same_instance;
  kept = λ d i s. elim (Component-discrete d c) [
    | yes e ↦ absurd (false≢true (sym h.not_there ∙ rw i (rw (← e) s)))
    | no n ↦ selected-queue c d chosen ∙ h.others d n ∙ s
  ];
  queued = λ d i s t. elim (Component-discrete d c) [
    | yes e ↦
        rw e (
          queue_adds c chosen (h.same_instance ∙ i)
            (rw (← e) (sym (selected-queue c d chosen) ∙ t)))
    | no n ↦ absurd (false≢true (sym s ∙ sym (h.others d n) ∙ sym (selected-queue c d chosen) ∙ t))
  ];
  still_queued = λ name k. queue_keeps c chosen name (rw h.same_queue k);
  fresh = λ i. queue_fresh c chosen (h.same_instance ∙ i) ∙ h.same_queue;
}

pub Chooses-select :
    (c : Component) (b : Bool) (before cfg : Config)
    → cfg ≡ before
    → installed c before ≡ false
    → Chooses c before (select c b cfg)
unfolding select
Chooses-select c b before cfg e n = rw e (unchanged)
  where
    unchanged : Chooses c before (select c b before)
    unchanged = record {
      not_there = n;
      same_instance = refl;
      same_queue = refl;
      others = λ d h. select_ne c d b before h;
    }
