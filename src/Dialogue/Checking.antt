-- ===== src/Dialogue/Checking.antt =====
-- `check_properties` of setup_app/utils/properties_utils.py, which asks for what the properties leave
-- open, with `check_oxd_server_https`.
use community_edition_setup.Prelude.{
  ℕ, String, ◌<>◌, Bool, true, false, not, ◌&&◌, Option, none, some, List, [], ◌∷◌, ◌++◌, ◌⊎◌, inl,
  inr, ◌==◌, ◌=ℕ◌, leb, length, if◌then◌else◌, end_of_file, keyboard_interrupt,
}
use community_edition_setup.Prelude.Text.{strip, is_space, split, length as text_length}
use community_edition_setup.Config.{
  Config, InstallType, local, absent, remote, truth, Profile, ce, disa_stig,
}
use community_edition_setup.Session.{Event, line, interrupt, returned, raised}
use community_edition_setup.Persistence.{map_without_ldap, set_persistence_type}
use community_edition_setup.Dialogue.{
  Site, Host, Dialogue, ◌>>=◌, ◌>>◌, loop, pure, exit, gets, modify, given, or_text, show, Ram,
  megabytes, entered,
}
use community_edition_setup.Dialogue.Questions.{get_ip}

-- `input(question)`
abbrev pub input_of : List Event → Dialogue String
input_of [] t = some (raised end_of_file, t)
input_of (interrupt ∷ es) t =
    some (raised keyboard_interrupt, record t { console = record t.console { input = es } })
input_of (line l ∷ es) t = some (returned l, record t { console = record t.console { input = es } })

unfoldable pub input_line : Dialogue String
input_line t = input_of t.console.input t

-- A round of `while not Config.…: … = input(…).strip()`, which ends with an answer that is accepted.
unfoldable pub input_round : (String → Bool) → Unit {0} → Dialogue (Unit {0} ⊎ String)
input_round accept u = do
  s ← input_line
  pure (if accept (strip is_space s) then inr (strip is_space s) else inl tt)

-- The loop is left out where the attribute is set.
abbrev pub unless_set : (String → Bool) → Option String → Dialogue String
unless_set accept none = loop (input_round accept) tt
unless_set accept (some s) = pure s

abbrev pub has_three_parts : String → Bool
has_three_parts s = leb 3 (length (split b'.' s))

abbrev pub is_nonempty : String → Bool
is_nonempty s = not (s == "")

abbrev pub has_two_characters : String → Bool
has_two_characters s = text_length s =ℕ 2

-- The passwords that `getPW` draws, and the memory that is computed from that of the machine.
pub record Draws : Type 0 where
  pub admin_password : String
  pub truststore_password : String
  pub salt_start : String
  pub salt_end : String
  pub max_ram : ℕ

unfoldable pub check_hostname : Dialogue (Unit {0})
check_hostname = do
  set ← gets (λ s. given s.hostname)
  name ← unless_set has_three_parts set
  modify (λ s. record s { hostname = some name })

unfoldable pub check_organization : Dialogue (Unit {0})
check_organization = do
  set ← gets (λ s. given s.org_name)
  name ← unless_set is_nonempty set
  modify (λ s. record s { org_name = some name })

unfoldable pub check_country : Dialogue (Unit {0})
check_country = do
  set ← gets (λ s. given s.country_code)
  code ← unless_set has_two_characters set
  modify (λ s. record s { country_code = some code })

unfoldable pub check_city : Dialogue (Unit {0})
check_city = do
  set ← gets (λ s. given s.city)
  city ← unless_set is_nonempty set
  modify (λ s. record s { city = some city })

unfoldable pub check_state : Dialogue (Unit {0})
check_state = do
  set ← gets (λ s. given s.state)
  state ← unless_set is_nonempty set
  modify (λ s. record s { state = some state })

-- `self.hostname` is no attribute, so that the handler takes `Config.hostname` for the domain.
abbrev pub set_admin_email : Site → Site
set_admin_email s = record s {
  admin_email = or_text (given s.admin_email) (some ("support@" <> show s.hostname));
}

abbrev pub set_admin_password : Draws → Site → Site
set_admin_password d s = record s {
  oxtrust_admin_password =
      or_text (given s.oxtrust_admin_password)
        (or_text (given s.ldap_pass) (some d.admin_password));
}

abbrev pub set_ldap_pass : Site → Site
set_ldap_pass s = record s { ldap_pass = or_text (given s.ldap_pass) s.oxtrust_admin_password }

abbrev pub set_cb_password : Bool → Site → Site
set_cb_password false s = s
set_cb_password true s = record s {
  cb_password = or_text (given s.cb_password) s.oxtrust_admin_password;
}

-- `if not Config.application_max_ram`: 0 counts as false, and so does an empty text.
abbrev pub ram_or : Option Ram → ℕ → Option Ram
ram_or none n = some (megabytes n)
ram_or (some (megabytes m)) n = if m =ℕ 0 then some (megabytes n) else some (megabytes m)
ram_or (some (entered s)) n = if s == "" then some (megabytes n) else some (entered s)

abbrev pub set_keys : Draws → Site → Site
set_keys d s = record s {
  opendj_truststore_pass = or_text (given s.opendj_truststore_pass) (some d.truststore_password);
  encode_salt = or_text (given s.encode_salt) (some (d.salt_start <> d.salt_end));
  application_max_ram = ram_or s.application_max_ram d.max_ram;
}

abbrev pub set_node : Profile → Site → Site
set_node ce s = s
set_node disa_stig s = record s { install_node_app = false }

abbrev pub is_local : InstallType → Bool
is_local local = true
is_local absent = false
is_local remote = false

-- `Config` of the installer.
abbrev pub modify_config : (Config → Config) → Dialogue (Unit {0})
modify_config f t =
    some (returned tt, record t { console = record t.console { cfg = f t.console.cfg } })

abbrev pub with_config : {A : Type 0} → (Config → Dialogue A) → Dialogue A
with_config f t = f t.console.cfg t

abbrev pub again_unless_set : Option String → Unit {0} ⊎ String
again_unless_set none = inl tt
again_unless_set (some s) = inr s

abbrev pub port_or_default : Option ℕ → ℕ
port_or_default none = 8443
port_or_default (some port) = if port =ℕ 0 then 8443 else port

module _ (host : Host) where
  -- `while not Config.ip: Config.ip = self.get_ip()`
  unfoldable pub address_round : Bool → Unit {0} → Dialogue (Unit {0} ⊎ String)
  address_round installed_instance u = do
    ip ← get_ip host installed_instance
    modify (λ s. record s { ip = ip })
    pure (again_unless_set (given ip))

  abbrev pub unless_address : Bool → Option String → Dialogue String
  unless_address installed_instance none = loop (address_round installed_instance) tt
  unless_address installed_instance (some ip) = pure ip

  unfoldable pub check_address : Bool → Dialogue (Unit {0})
  check_address installed_instance = do
    set ← gets (λ s. given s.ip)
    ip ← unless_address installed_instance set
    modify (λ s. record s { ip = some ip })

  -- `opendj_used_ports`
  abbrev pub used : String → List String
  used port = if host.port_used port then port ∷ [] else []

  unfoldable pub opendj_used_ports : Site → List String
  opendj_used_ports s = used s.ldaps_port ++ used s.ldap_admin_port

  abbrev pub exit_if_used : List String → Dialogue (Unit {0})
  exit_if_used [] = pure tt
  exit_if_used (port ∷ ports) = exit

  abbrev pub ports_in_use : Config → Site → List String
  ports_in_use cfg s =
      if is_local cfg.ldap_install && not cfg.installed_instance then opendj_used_ports s else []

  unfoldable pub check_ports : Dialogue (Unit {0})
  check_ports = do ports ← with_config (λ cfg. gets (ports_in_use cfg)); exit_if_used ports

  -- `check_oxd_server_https`
  abbrev pub set_oxd_server : Site → Site
  set_oxd_server s =
      if s.oxd_server_https == ""
      then record s {
        oxd_hostname = s.hostname;
        oxd_server_https = "https://" <> (show s.hostname <> ":8443");
      }
      else record s {
        oxd_hostname = (host.parse_url s.oxd_server_https).0;
        oxd_port = some (port_or_default (host.parse_url s.oxd_server_https).1);
      }

  -- Lines 98 to 116
  unfoldable pub check_passwords : Draws → Dialogue (Unit {0})
  check_passwords d = do
    modify set_admin_email
    modify (set_admin_password d)
    modify set_ldap_pass
    with_config (λ cfg. modify (set_cb_password (truth cfg.cb_install)))

  -- Lines 118 to 145
  unfoldable pub check_storage : Draws → Dialogue (Unit {0})
  check_storage d = do
    modify_config map_without_ldap
    check_ports
    modify_config set_persistence_type
    modify (set_keys d)
    modify set_oxd_server
    with_config (λ cfg. modify (set_node cfg.profile))

  unfoldable pub check_all : Draws → Bool → Dialogue (Unit {0})
  check_all d installed_instance = do
    check_hostname
    check_address installed_instance
    check_organization
    check_country
    check_city
    check_state
    check_passwords d
    check_storage d

  unfoldable pub check_properties : Draws → Dialogue (Unit {0})
  check_properties d = with_config (λ cfg. check_all d cfg.installed_instance)
