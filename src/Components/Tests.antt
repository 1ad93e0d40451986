-- ===== src/Components/Tests.antt =====
-- The questions for components on an instance that is already installed.
use community_edition_setup.Prelude.{◌≡◌, refl, [], ◌∷◌, true}
use community_edition_setup.Prelude.Text.{strip, lstrip, rstrip, is_space}
use community_edition_setup.Config.{Component-discrete}
use community_edition_setup.Config.Samples.{hybrid}
use community_edition_setup.Session.{
  Console, line, returned, get_prompt, ask, reply, or_none, check_input_type, truthy, is_yes,
  ask_yes,
}
use community_edition_setup.Components.{
  select, queue, installed, default_httpd, prompt_for, prompt_for_httpd, set_up_saml,
  prompt_for_shib_idp, ask_storage, prompt_for_oxd, unless, is_stig, prompt_for_components,
}
use community_edition_setup.Components.Updates.{Updates}
use community_edition_setup.Components.Queue.{prompt_for_components-Updates}

-- HTTPD and SCIM are chosen; Passport is there already, and is not asked for.
abbrev console : Console
console = record {
  cfg = hybrid;
  input = line "y" ∷ line "n" ∷ line "Yes" ∷ line "" ∷ line "n" ∷ line "n" ∷ [];
}

returns : (prompt_for_components "secret" true console).0 ≡ returned tt
unfolding prompt_for_components prompt_for prompt_for_httpd prompt_for_shib_idp prompt_for_oxd
    ask_storage default_httpd select queue installed set_up_saml unless is_stig ask_yes get_prompt
    ask reply or_none Component-discrete check_input_type truthy is_yes strip lstrip rstrip is_space
returns = refl

prompt_for_components-Updates_example :
    Updates console.cfg (prompt_for_components "secret" true console).1.cfg
prompt_for_components-Updates_example = prompt_for_components-Updates "secret" true console returns
