-- ===== src/Dialogue/Tests.antt =====
-- The first questions, with a user who gets some answers wrong.
use community_edition_setup.Prelude.{
  Option, ◌≡◌, refl, true, false, none, some, List, [], ◌∷◌, ◌==◌,
}
use community_edition_setup.Prelude.Decimal.{decimal, decimal_digits, digit}
use community_edition_setup.Prelude.Text.{
  split, strip, lstrip, rstrip, is_space, length as text_length,
}
use community_edition_setup.Config.{ce, remote}
use community_edition_setup.Config.Samples.{hybrid}
use community_edition_setup.Session.{
  Event, line, interrupt, get_prompt, ask, reply, or_none, check_input_type, truthy, is_yes,
  returned, exited, Ended,
}
use community_edition_setup.Dialogue.{
  Site, Talk, Host, prompt, loop, repeat, ask_yes, megabytes, entered, show_ram,
}
use community_edition_setup.Dialogue.Questions.{
  get_ip, ask_ip, ip_round, ask_address, ask_country, ask_email, ask_hostname, ask_license,
  ask_organization, ask_password, ask_place, ask_ram, country_round, detect_hostname, email_round,
  hostname_round, password_round, prompt_for_applications, prompt_for_java, prompt_for_site,
}
use community_edition_setup.Dialogue.Terminating.{Bounded}
use community_edition_setup.Dialogue.Ending.{prompts-end}
use community_edition_setup.Persistence.{all_to, map_without_ldap, set_persistence_type}
use community_edition_setup.Dialogue.Checking.{
  Draws, check_all, check_hostname, input_round, input_line, check_address, address_round,
  check_city, check_country, check_organization, check_passwords, check_ports, check_state,
  check_storage, check_properties, exit_if_used, opendj_used_ports,
}
use community_edition_setup.Dialogue.Validating.{Post}
use community_edition_setup.Dialogue.Answers.{IsValid, prompt_for_site-IsValid}

abbrev office : Host
office = record {
  detect_ip = some "10.0.0.7";
  name_of = λ ip. some "gluu.example.org";
  is_ip = λ s. s == "10.0.0.7";
  check_email = λ s. s == "help@example.org";
  get_pw = "Secret.Word1";
  port_used = λ port. port == "1636";
  parse_url = λ url. (some "oxd.example.org", none);
}

abbrev blank : Site
blank = record {
  no_prompt = false;
  ip = none;
  hostname = none;
  oxd_server_https = "";
  city = none;
  state = none;
  country_code = none;
  org_name = none;
  admin_email = none;
  application_max_ram = some (megabytes 3072);
  oxtrust_admin_password = none;
  allow_pre_released_features = false;
  java_type = "jre";
  install_oxauth = true;
  install_oxtrust = true;
  self_install_oxauth = none;
  ldap_pass = none;
  cb_password = none;
  opendj_truststore_pass = none;
  encode_salt = none;
  ldaps_port = "1636";
  ldap_admin_port = "4444";
  install_node_app = true;
  oxd_hostname = none;
  oxd_port = none;
}

abbrev talk_of : List Event → Talk
talk_of events = record {
  console = record {
    cfg = record hybrid { installed_instance = false; selected = λ c. false };
    input = events;
  };
  site = blank;
}

-- The host name is first `localhost`, the country too long, and the mail address is asked twice.
abbrev answers : List Event
answers =
    line "y"
    ∷ line "localhost"
    ∷ line ""
    ∷ line "Austin"
    ∷ line "TX"
    ∷ line "USA"
    ∷ line "US"
    ∷ line "Example"
    ∷ line "help"
    ∷ line "help@example.org"
    ∷ line ""
    ∷ line ""
    ∷ []

abbrev filled : Site
filled = record blank {
  ip = some "10.0.0.7";
  hostname = some "gluu.example.org";
  oxd_server_https = "https://gluu.example.org:8443";
  city = some "Austin";
  state = some "TX";
  country_code = some "US";
  org_name = some "Example";
  admin_email = some "help@example.org";
  application_max_ram = some (entered "3072");
  oxtrust_admin_password = some "Secret.Word1";
}

asks_for_site :
    prompt_for_site office (talk_of answers)
    ≡ some (returned tt, record (talk_of []) { site = filled })
unfolding prompt_for_site ask_license ask_address ask_hostname ask_place ask_country
    ask_organization ask_email ask_ram ask_password ask_yes prompt loop repeat detect_hostname
    hostname_round country_round email_round password_round get_prompt ask reply or_none
    check_input_type truthy is_yes strip text_length rstrip lstrip is_space show_ram decimal
    decimal_digits digit
asks_for_site = refl

-- Ctrl-C leaves the program.
leaves : prompt_for_site office (talk_of (interrupt ∷ [])) ≡ some (exited, talk_of [])
unfolding prompt_for_site ask_license ask_yes prompt get_prompt ask
leaves = refl

prompts-end_example :
    Bounded 2 (prompt_for_site office (talk_of (line "y" ∷ line "" ∷ [])))
    × Bounded 2 (prompt_for_java office ce (talk_of (line "y" ∷ line "" ∷ [])))
    × Bounded 2 (prompt_for_applications office (talk_of (line "y" ∷ line "" ∷ [])))
prompts-end_example = prompts-end office (talk_of (line "y" ∷ line "" ∷ [])) ce

prompt_for_site-IsValid_example :
    Post (λ u. IsValid office) (prompt_for_site office (talk_of answers))
prompt_for_site-IsValid_example = prompt_for_site-IsValid office (talk_of answers)

abbrev drawn : Draws
drawn = record {
  admin_password = "Admin1";
  truststore_password = "Store1";
  salt_start = "Salt1";
  salt_end = "Salt2";
  max_ram = 6640;
}

-- The host name has too few parts at first.
abbrev typed : List Event
typed =
    line "gluu"
    ∷ line "gluu.example.org"
    ∷ line ""
    ∷ line "Example"
    ∷ line "US"
    ∷ line "Austin"
    ∷ line "TX"
    ∷ []

abbrev completed : Site
completed = record blank {
  ip = some "10.0.0.7";
  hostname = some "gluu.example.org";
  oxd_server_https = "https://gluu.example.org:8443";
  city = some "Austin";
  state = some "TX";
  country_code = some "US";
  org_name = some "Example";
  admin_email = some "support@gluu.example.org";
  oxtrust_admin_password = some "Admin1";
  ldap_pass = some "Admin1";
  cb_password = some "Admin1";
  opendj_truststore_pass = some "Store1";
  encode_salt = some "Salt1Salt2";
  oxd_hostname = some "gluu.example.org";
}

abbrev site_of : Option (Ended (Unit {0}) × Talk) → Option Site
site_of (some (returned u, t)) = some t.site
site_of _ = none

abbrev remote_talk : Talk
remote_talk =
    let t = talk_of typed in
    record t { console = record t.console { cfg = record t.console.cfg { ldap_install = remote } } }

completes_site : site_of (check_properties office drawn remote_talk) ≡ some completed
unfolding check_properties check_all check_hostname loop repeat input_round input_line split strip
    rstrip lstrip is_space check_address address_round get_ip ask_ip ip_round prompt check_city
    check_country check_organization check_passwords check_ports check_state check_storage
    opendj_used_ports all_to map_without_ldap set_persistence_type text_length ask check_input_type
    get_prompt or_none reply truthy
completes_site = refl

-- A port of OpenDJ is in use, so that the program is left.
leaves_used_port :
    exit_if_used office (opendj_used_ports office blank) remote_talk ≡ some (exited, remote_talk)
unfolding opendj_used_ports
leaves_used_port = refl
