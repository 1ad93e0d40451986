-- ===== src/Dialogue/Ending.antt =====
-- Each part of the first questions ends on every input.
use community_edition_setup.Prelude.{
  String, Bool, true, false, Option, none, some, inl, inr, if◌then◌else◌, arith, Bool-cases, Result,
  ok, err,
}
use community_edition_setup.Config.{httpd, Profile, ce, disa_stig}
use community_edition_setup.Session.{get_default_option}
use community_edition_setup.Dialogue.{
  Talk, Host, Dialogue, loop, pure, exit, lift, prompt, ask_yes, given, or_text, show_ram,
}
use community_edition_setup.Dialogue.Questions.{
  ip_round, ask_ip, get_ip, detect_hostname, hostname_round, ask_hostname, ask_place, country_round,
  ask_country, ask_organization, email_round, ask_email, ask_ram, password_round, ask_password,
  ask_license, ask_address, prompt_for_site, java_answer, java_round, prompt_for_java,
  prompt_for_applications, known_hostname, not_local,
}
use community_edition_setup.Dialogue.Terminating.{
  coming, Bounded, Ends, Rounds, Ends->>=, Ends-loop, Ends-prompt, Used-prompt,
}

Ends-lift : {A : Type 0} → (r : Result A) → Ends (lift r)
Ends-lift (ok a) t = omega arith
Ends-lift (err e) t = omega arith

Ends-ask_yes : (default : String) → Ends (ask_yes default)
unfolding ask_yes
Ends-ask_yes default =
    Ends->>= (prompt (some default)) _ (Ends-prompt (some default)) (λ a. Ends-lift _)

Ends-either :
    {A : Type 0} → (b : Bool) (m n : Dialogue A) → Ends m → Ends n → Ends (if b then m else n)
Ends-either true m n h k = h
Ends-either false m n h k = k

module _ (host : Host) where
  ip_round-Rounds : Rounds (ip_round host)
  unfolding ip_round
  ip_round-Rounds d = Used-prompt d _ (λ t. omega arith) (λ s t. omega arith)

  hostname_round-Rounds : Rounds (hostname_round host)
  unfolding hostname_round
  hostname_round-Rounds d = Used-prompt d _ (λ t. omega arith) (λ s t. omega arith)

  country_round-Rounds : Rounds (country_round host)
  unfolding country_round
  country_round-Rounds d = Used-prompt d _ (λ t. omega arith) (λ s t. omega arith)

  email_round-Rounds : Rounds (email_round host)
  unfolding email_round
  email_round-Rounds d = Used-prompt d _ (λ t. omega arith) (λ s t. omega arith)

  password_round-Rounds : Rounds (password_round host)
  unfolding password_round
  password_round-Rounds d = Used-prompt d _ (λ t. omega arith) (λ s t. omega arith)

  Ends-java_answer : (answer : Option String) → Ends (java_answer host answer)
  Ends-java_answer none t = omega arith
  Ends-java_answer (some s) t = omega arith

  java_round-Rounds : Rounds (java_round host)
  unfolding java_round
  java_round-Rounds u =
      Used-prompt (some "1") _ (λ t. omega arith) (λ s. Ends-java_answer (given (some s)))

  Ends-ask_ip :
      (no_prompt : Bool) (detected : Option String) → Ends (ask_ip host no_prompt detected)
  unfolding ask_ip
  Ends-ask_ip b none t =
      Ends->>= (loop (ip_round host) none) _ (Ends-loop (ip_round host) ip_round-Rounds none)
        (λ s t'. omega arith) t
  Ends-ask_ip true (some d) t = omega arith
  Ends-ask_ip false (some d) t =
      Ends->>= (loop (ip_round host) (some d)) _
        (Ends-loop (ip_round host) ip_round-Rounds (some d)) (λ s t'. omega arith) t

  pub Ends-get_ip : (installed : Bool) → Ends (get_ip host installed)
  unfolding get_ip
  Ends-get_ip true t = omega arith
  Ends-get_ip false t =
      Ends-ask_ip t.site.no_prompt (given (or_text (given t.site.ip) host.detect_ip)) t

  Ends-ask_address : Ends (ask_address host)
  unfolding ask_address
  Ends-ask_address t = elim (Bool-cases (t.console.cfg.selected httpd)) [
    | inl installs ↦ rw installs (
        Ends->>= (get_ip host t.console.cfg.installed_instance) _
          (Ends-get_ip t.console.cfg.installed_instance) (λ ip t'. omega arith) t)
    | inr other ↦ rw other (omega arith)
  ]

  Ends-known_hostname : (set : Option String) → Ends (known_hostname host set)
  unfolding detect_hostname
  Ends-known_hostname none t = omega arith
  Ends-known_hostname (some s) t = omega arith

  Ends-ask_hostname : Ends (ask_hostname host)
  unfolding ask_hostname
  Ends-ask_hostname t =
      Ends->>= (known_hostname host (given t.site.hostname)) _
        (Ends-known_hostname (given t.site.hostname))
        (λ d.
          Ends->>= (loop (hostname_round host) (given (not_local host d))) _
            (Ends-loop (hostname_round host) hostname_round-Rounds (given (not_local host d)))
            (λ name t'. omega arith))
        t

  Ends-ask_place : Ends (ask_place host)
  unfolding ask_place
  Ends-ask_place t =
      Ends->>= (prompt (given t.site.city)) _ (Ends-prompt (given t.site.city))
        (λ city t'.
          Ends->>= (prompt (given t'.site.state)) _ (Ends-prompt (given t'.site.state))
            (λ st t''. omega arith) (record t' { site = record t'.site { city = city } }))
        t

  Ends-ask_country : Ends (ask_country host)
  unfolding ask_country
  Ends-ask_country t =
      Ends->>= (loop (country_round host) (given t.site.country_code)) _
        (Ends-loop (country_round host) country_round-Rounds (given t.site.country_code))
        (λ c t'. omega arith) t

  Ends-ask_organization : Ends (ask_organization host)
  unfolding ask_organization
  Ends-ask_organization t =
      Ends->>= (prompt (given t.site.org_name)) _ (Ends-prompt (given t.site.org_name))
        (λ c t'. omega arith) t

  Ends-ask_email : Ends (ask_email host)
  unfolding ask_email
  Ends-ask_email t = Ends-loop (email_round host) email_round-Rounds (given t.site.admin_email) t

  Ends-ask_ram : Ends (ask_ram host)
  unfolding ask_ram
  Ends-ask_ram t =
      Ends->>= (prompt (given (some (show_ram t.site.application_max_ram)))) _
        (Ends-prompt (given (some (show_ram t.site.application_max_ram)))) (λ c t'. omega arith) t

  Ends-ask_password : Ends (ask_password host)
  unfolding ask_password
  Ends-ask_password t =
      let d : Option String =
        given (or_text (given t.site.oxtrust_admin_password) (some host.get_pw)) in
      Ends->>= (loop (password_round host) d) _
        (Ends-loop (password_round host) password_round-Rounds d) (λ c t'. omega arith) t

  Ends-ask_license : Ends (ask_license host)
  unfolding ask_license
  Ends-ask_license =
      Ends->>= (ask_yes "N|y") _ (Ends-ask_yes "N|y")
        (λ b. Ends-either b (pure tt) exit (λ t. omega arith) (λ t. omega arith))

  pub Ends-prompt_for_site : Ends (prompt_for_site host)
  unfolding prompt_for_site
  Ends-prompt_for_site = Ends->>= (ask_license host) _ Ends-ask_license λ _.
      Ends->>= (ask_address host) _ Ends-ask_address λ _.
        Ends->>= (ask_hostname host) _ Ends-ask_hostname λ _.
          Ends->>= (ask_place host) _ Ends-ask_place λ _.
            Ends->>= (ask_country host) _ Ends-ask_country λ _.
              Ends->>= (ask_organization host) _ Ends-ask_organization λ _.
                Ends->>= (ask_email host) _ Ends-ask_email
                  λ _. Ends->>= (ask_ram host) _ Ends-ask_ram λ _. Ends-ask_password

  Ends-prompt_for_java : (profile : Profile) → Ends (prompt_for_java host profile)
  unfolding prompt_for_java
  Ends-prompt_for_java disa_stig t = omega arith
  Ends-prompt_for_java ce t =
      Ends-either t.site.allow_pre_released_features _ (pure tt)
        (Ends->>= (loop (java_round host) tt) _ (Ends-loop (java_round host) java_round-Rounds tt)
          (λ j t'. omega arith))
        (λ t'. omega arith) t

  Ends-prompt_for_applications : Ends (prompt_for_applications host)
  unfolding prompt_for_applications
  Ends-prompt_for_applications t =
      Ends->>= (ask_yes (get_default_option t.site.install_oxauth)) _
        (Ends-ask_yes (get_default_option t.site.install_oxauth))
        (λ a t'.
          Ends->>= (ask_yes (get_default_option t'.site.install_oxtrust)) _
            (Ends-ask_yes (get_default_option t'.site.install_oxtrust)) (λ b t''. omega arith)
            (record t' { site = record t'.site { self_install_oxauth = some a } }))
        t

  -- The questions of `promptForProperties` end on every input, each with no more events to come than
  -- before: those before the databases, the type of Java, and the two applications. The fuel of the
  -- loops is enough.
  pub prompts-end :
      (t : Talk) (profile : Profile)
      → Bounded (coming t) (prompt_for_site host t)
        × Bounded (coming t) (prompt_for_java host profile t)
        × Bounded (coming t) (prompt_for_applications host t)
  prompts-end t profile =
      (Ends-prompt_for_site t, Ends-prompt_for_java profile t, Ends-prompt_for_applications t)
