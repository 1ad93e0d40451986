-- ===== src/Dialogue.antt =====
-- The first questions of the setup: `promptForProperties` of setup_app/utils/properties_utils.py up
-- to the question for the databases, and those for Java and the two web applications behind it,
-- with `get_ip` and `detect_hostname` of setup_utils.py. The loops that ask again run on fuel.
pub mod Questions
pub mod Terminating
pub mod Ending
pub mod Validating
pub mod Answers
pub mod Checking
pub mod Filled
pub mod Complete
pub mod Checked
mod Tests
use mathlib.Core.Option
use community_edition_setup.Prelude.{
  ℕ, zero, suc, ◌+◌, String, ◌<>◌, Bool, true, false, not, ◌&&◌, ◌||◌, Option, none, some, List, [],
  ◌∷◌, ◌⊎◌, inl, inr, ◌==◌, ◌=ℕ◌, ltb, if◌then◌else◌, length, Exception, type_error, Result, ok,
  err,
}
use community_edition_setup.Prelude.Decimal.{decimal}
use community_edition_setup.Prelude.Text.{is_infix, length as text_length}
use community_edition_setup.Config.{Config, Component, httpd, Profile, ce, disa_stig}
use community_edition_setup.Session.{
  Event, Answer, text, number, Console, Ended, returned, raised, exited, Session, get_prompt,
  get_default_option, is_yes,
}

-- `application_max_ram`: a number, or the text that was entered for it.
pub data Ram : Type 0 where
  megabytes : ℕ → Ram
  entered : String → Ram

-- `str(Config.application_max_ram)`
unfoldable pub show_ram : Option Ram → String
show_ram none = "None"
show_ram (some (megabytes n)) = decimal n
show_ram (some (entered s)) = s

-- The attributes of `Config` that only these questions use, and one of the object itself; `None`
-- and an attribute that is not set are `none`.
pub record Site : Type 0 where
  pub no_prompt : Bool
  pub ip : Option String
  pub hostname : Option String
  pub oxd_server_https : String
  pub city : Option String
  pub state : Option String
  pub country_code : Option String
  pub org_name : Option String
  pub admin_email : Option String
  pub application_max_ram : Option Ram
  pub oxtrust_admin_password : Option String
  pub allow_pre_released_features : Bool
  pub java_type : String
  pub install_oxauth : Bool
  pub install_oxtrust : Bool
  -- `self.installOxAuth`, which is not the attribute of `Config`
  pub self_install_oxauth : Option Bool
  pub ldap_pass : Option String
  pub cb_password : Option String
  pub opendj_truststore_pass : Option String
  pub encode_salt : Option String
  pub ldaps_port : String
  pub ldap_admin_port : String
  pub install_node_app : Bool
  -- `oxd_hostname` and `oxd_port` of `Config.templateRenderingDict`
  pub oxd_hostname : Option String
  pub oxd_port : Option ℕ

pub record Talk : Type 0 where
  pub console : Console
  pub site : Site

-- What the program asks the system: its addresses and name, whether a text is an address or a mail
-- address, a random password, whether a port is in use, and the host and the port of an URL.
pub record Host : Type 0 where
  pub detect_ip : Option String
  pub name_of : Option String → Option String
  pub is_ip : String → Bool
  pub check_email : String → Bool
  pub get_pw : String
  pub port_used : String → Bool
  pub parse_url : String → Option String × Option ℕ

-- A part of the dialogue; `none` if a loop runs out of fuel.
abbrev pub Dialogue : Type 0 → Type 0
Dialogue A = Talk → Option (Ended A × Talk)

module _ {A B : Type 0} where
  abbrev pub continue : Option (Ended A × Talk) → (A → Dialogue B) → Option (Ended B × Talk)
  continue none f = none
  continue (some (returned a, t)) f = f a t
  continue (some (raised e, t)) f = some (raised e, t)
  continue (some (exited, t)) f = some (exited, t)

  infixl 5 ◌>>=◌ ◌>>◌
  abbrev pub ◌>>=◌ : Dialogue A → (A → Dialogue B) → Dialogue B
  ◌>>=◌ m f t = continue (m t) f

  abbrev pub ◌>>◌ : Dialogue A → Dialogue B → Dialogue B
  m >> n = m >>= λ _. n

  -- `while True`: the body goes on with a new state of the loop, or ends it.
  abbrev pub after_round :
      (A → Dialogue B) → Option (Ended (A ⊎ B) × Talk) → Option (Ended B × Talk)
  after_round more none = none
  after_round more (some (returned (inl x), t)) = more x t
  after_round more (some (returned (inr y), t)) = some (returned y, t)
  after_round more (some (raised e, t)) = some (raised e, t)
  after_round more (some (exited, t)) = some (exited, t)

  unfoldable pub repeat : ℕ → (A → Dialogue (A ⊎ B)) → A → Dialogue B
  repeat zero body x t = none
  repeat (suc fuel) body x t = after_round (repeat fuel body) (body x t)

  -- The coming events are fuel enough.
  unfoldable pub loop : (A → Dialogue (A ⊎ B)) → A → Dialogue B
  loop body x t = repeat (suc (length t.console.input)) body x t

module _ {A : Type 0} where
  abbrev pub pure : A → Dialogue A
  pure a t = some (returned a, t)

  abbrev pub raise : Exception → Dialogue A
  raise e t = some (raised e, t)

  abbrev pub exit : Dialogue A
  exit t = some (exited, t)

  abbrev pub lift : Result A → Dialogue A
  lift (ok a) = pure a
  lift (err e) = raise e

  abbrev pub gets : (Site → A) → Dialogue A
  gets f t = some (returned (f t.site), t)

abbrev pub modify : (Site → Site) → Dialogue (Unit {0})
modify f t = some (returned tt, record t { site = f t.site })

-- A text that counts as false is none.
abbrev pub given : Option String → Option String
given none = none
given (some s) = if s == "" then none else some s

abbrev pub or_text : Option String → Option String → Option String
or_text none d = d
or_text (some s) d = some s

-- `self.getPrompt(question, default)`, whose answers are texts.
abbrev pub as_text : Option Answer → Option String
as_text (some (text s)) = some s
as_text _ = none

abbrev pub text_ended : Ended (Option Answer) → Ended (Option String)
text_ended (returned a) = returned (as_text a)
text_ended (raised e) = raised e
text_ended exited = exited

unfoldable pub prompt : Option String → Dialogue (Option String)
prompt default t =
    let r = get_prompt (Option.map text default) false t.console in
    some (text_ended r.0, record t { console = r.1 })

-- `[0].lower() == 'y'`
unfoldable pub ask_yes : String → Dialogue Bool
ask_yes default = do answer ← prompt (some default); lift (is_yes (Option.map text answer))

-- `"%s" % value` of a value that may be `None`.
abbrev pub show : Option String → String
show none = "None"
show (some s) = s

-- An answer ends the loop if it passes a test; without one the test raises.
abbrev pub checked :
    {A : Type 0} → (String → Bool) → (String → A) → Option String → Dialogue (A ⊎ String)
checked test next none = raise type_error
checked test next (some s) = pure (if test s then inr s else inl (next s))
