-- ===== src/Dialogue/Questions.antt =====
-- The questions of `promptForProperties`, with `get_ip` and `detect_hostname`.
use mathlib.Core.Option
use community_edition_setup.Prelude.{
  String, ◌<>◌, Bool, true, false, not, ◌&&◌, Option, none, some, ◌⊎◌, inl, inr, ◌==◌, ◌=ℕ◌, ltb,
  if◌then◌else◌,
}
use community_edition_setup.Prelude.Text.{is_infix, length as text_length}
use community_edition_setup.Config.{httpd, Profile, ce, disa_stig}
use community_edition_setup.Session.{get_default_option}
use community_edition_setup.Dialogue.{
  Host, Dialogue, ◌>>=◌, ◌>>◌, loop, pure, exit, gets, modify, given, or_text, checked, prompt,
  ask_yes, show, show_ram, entered,
}

module _ (host : Host) where
  -- `get_ip`
  unfoldable pub ip_round : Option String → Dialogue (Option String ⊎ String)
  ip_round detected = do
    test_ip ← prompt detected
    checked (λ s. host.is_ip s && not (s == "")) (λ s. detected) test_ip

  unfoldable pub ask_ip : Bool → Option String → Dialogue (Option String)
  ask_ip no_prompt none = do s ← loop ip_round none; pure (some s)
  ask_ip true (some detected) = pure (some detected)
  ask_ip false (some detected) = do s ← loop ip_round (some detected); pure (some s)

  unfoldable pub get_ip : Bool → Dialogue (Option String)
  get_ip installed_instance t =
      if installed_instance
      then pure t.site.ip t
      else ask_ip t.site.no_prompt (given (or_text (given t.site.ip) host.detect_ip)) t

  -- `detect_hostname`, which sets the address first.
  unfoldable pub detect_hostname : Dialogue (Option String)
  detect_hostname = do
    modify (λ s. record s { ip = or_text (given s.ip) host.detect_ip })
    ip ← gets (λ s. s.ip)
    pure (host.name_of ip)

  abbrev pub known_hostname : Option String → Dialogue (Option String)
  known_hostname (some s) = pure (some s)
  known_hostname none = detect_hostname

  abbrev pub not_local : Option String → Option String
  not_local none = none
  not_local (some s) = if s == "localhost" then none else some s

  -- Lines 924 to 932
  unfoldable pub hostname_round : Option String → Dialogue (Option String ⊎ Option String)
  hostname_round detected = do
    name ← prompt detected
    modify (λ s. record s { hostname = name })
    pure (if show name == "localhost" then inl detected else inr name)

  unfoldable pub ask_hostname : Dialogue (Unit {0})
  ask_hostname = do
    set ← gets (λ s. given s.hostname)
    detected ← known_hostname set
    name ← loop hostname_round (given (not_local detected))
    modify (λ s. record s { oxd_server_https = "https://" <> (show name <> ":8443") })

  unfoldable pub ask_place : Dialogue (Unit {0})
  ask_place = do
    old_city ← gets (λ s. given s.city)
    city ← prompt old_city
    modify (λ s. record s { city = city })
    old_state ← gets (λ s. given s.state)
    state ← prompt old_state
    modify (λ s. record s { state = state })

  -- Lines 942 to 949
  unfoldable pub country_round : Option String → Dialogue (Option String ⊎ String)
  country_round default = do
    code ← prompt default
    checked (λ s. text_length s =ℕ 2) (λ s. default) code

  unfoldable pub ask_country : Dialogue (Unit {0})
  ask_country = do
    default ← gets (λ s. given s.country_code)
    code ← loop country_round default
    modify (λ s. record s { country_code = some code })

  unfoldable pub ask_organization : Dialogue (Unit {0})
  ask_organization = do
    default ← gets (λ s. given s.org_name)
    name ← prompt default
    modify (λ s. record s { org_name = name })

  -- Lines 953 to 958, where a wrong answer is the default of the next round.
  unfoldable pub email_round : Option String → Dialogue (Option String ⊎ String)
  email_round default = do
    email ← prompt default
    modify (λ s. record s { admin_email = email })
    checked host.check_email (λ s. given (some s)) email

  unfoldable pub ask_email : Dialogue String
  ask_email = do default ← gets (λ s. given s.admin_email); loop email_round default

  unfoldable pub ask_ram : Dialogue (Unit {0})
  ask_ram = do
    default ← gets (λ s. given (some (show_ram s.application_max_ram)))
    ram ← prompt default
    modify (λ s. record s { application_max_ram = Option.map (λ r. entered r) ram })

  -- Lines 964 to 971, where a short password is the default of the next round too.
  unfoldable pub password_round : Option String → Dialogue (Option String ⊎ String)
  password_round default = do
    password ← prompt default
    checked (λ s. ltb 5 (text_length s)) (λ s. given (some s)) password

  unfoldable pub ask_password : Dialogue (Unit {0})
  ask_password = do
    default ← gets (λ s. given (or_text (given s.oxtrust_admin_password) (some host.get_pw)))
    password ← loop password_round default
    modify (λ s. record s { oxtrust_admin_password = some password })

  -- The licence, and the address where httpd is installed.
  unfoldable pub ask_license : Dialogue (Unit {0})
  ask_license = do agreed ← ask_yes "N|y"; if agreed then pure tt else exit

  unfoldable pub ask_address : Dialogue (Unit {0})
  ask_address t =
      if t.console.cfg.selected httpd
      then (do ip ← get_ip t.console.cfg.installed_instance; modify (λ s. record s { ip = ip })) t
      else pure tt t

  -- Lines 911 to 971 on a fresh instance.
  unfoldable pub prompt_for_site : Dialogue (Unit {0})
  prompt_for_site = do
    ask_license
    ask_address
    ask_hostname
    ask_place
    ask_country
    ask_organization
    email ← ask_email
    ask_ram
    ask_password

  -- Lines 975 to 989: the type of Java, `none` for the number 1 that stands for no answer. The path of
  -- the trust store is left out.
  abbrev pub java_answer : Option String → Dialogue (Unit {0} ⊎ Option String)
  java_answer none = pure (inr none)
  java_answer (some s) = pure (if is_infix s "12" then inr (some s) else inl tt)

  unfoldable pub java_round : Unit {0} → Dialogue (Unit {0} ⊎ Option String)
  java_round u = do java_type ← prompt (some "1"); java_answer (given java_type)

  unfoldable pub prompt_for_java : Profile → Dialogue (Unit {0})
  prompt_for_java disa_stig = pure tt
  prompt_for_java ce = do
    allowed ← gets (λ s. s.allow_pre_released_features)
    if allowed
        then (do
          java_type ← loop java_round tt
          modify (λ s. record s { java_type = if show java_type == "1" then "jre" else "jdk" }))
        else pure tt

  -- Lines 992 to 1000
  unfoldable pub prompt_for_applications : Dialogue (Unit {0})
  prompt_for_applications = do
    oxauth ← gets (λ s. s.install_oxauth)
    wants_oxauth ← ask_yes (get_default_option oxauth)
    modify (λ s. record s { self_install_oxauth = some wants_oxauth })
    oxtrust ← gets (λ s. s.install_oxtrust)
    wants_oxtrust ← ask_yes (get_default_option oxtrust)
    modify (λ s. record s { install_oxtrust = wants_oxtrust })
