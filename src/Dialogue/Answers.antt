-- ===== src/Dialogue/Answers.antt =====
-- Each of the first questions accepts only answers that pass its check, and keeps the ones before.
use community_edition_setup.Prelude.{
  String, ◌≡◌, refl, true, false, Option, none, some, ◌==◌, ◌=ℕ◌, ltb,
}
use community_edition_setup.Prelude.Text.{length as text_length}
use community_edition_setup.Dialogue.{
  Site, Talk, Host, loop, checked, prompt, given, or_text, show, show_ram,
}
use community_edition_setup.Dialogue.Questions.{
  hostname_round, ask_hostname, ask_place, country_round, ask_country, ask_organization,
  email_round, ask_email, ask_ram, password_round, ask_password, ask_license, ask_address,
  prompt_for_site, known_hostname, not_local,
}
use community_edition_setup.Dialogue.Validating.{
  OrAgain, OrAgain-accept, Post, Ensures, Ensures->>=, Ensures-loop, Ensures-prompt, Ensures-Any,
  OrAgain-either, Ensures-checked, Any, HasHostname, HasCountry, HasEmail, HasPassword,
}

module _ (host : Host) where
  abbrev P1 : Site → Type 0
  P1 s = HasHostname s

  abbrev P2 : Site → Type 0
  P2 s = HasHostname s × HasCountry s

  abbrev P3 : Site → Type 0
  P3 s = HasHostname s × HasCountry s × HasEmail host s

  -- All of them.
  abbrev pub IsValid : Site → Type 0
  IsValid s = HasHostname s × HasCountry s × HasEmail host s × HasPassword s

  Ensures-ask_hostname : Ensures Any (ask_hostname host) (λ u. P1)
  unfolding ask_hostname hostname_round
  Ensures-ask_hostname t =
      Ensures->>= Any (λ d. Any) (λ u. P1) (known_hostname host (given t.site.hostname)) _
        (Ensures-Any (known_hostname host (given t.site.hostname)))
        (λ d.
          Ensures->>= Any (λ name s. (s.hostname ≡ name) × ((show name == "localhost") ≡ false))
            (λ u. P1) (loop (hostname_round host) (given (not_local host d))) _
            (Ensures-loop Any _ (hostname_round host)
              (λ x.
                Ensures->>= Any (λ name. Any) _ (prompt x) _ (Ensures-prompt Any x)
                  (λ name t' p'.
                    OrAgain-either Any _ (show name == "localhost") x name
                      (record t'.site { hostname = name }) (λ e. tt) (λ e. (refl, e))))
              (given (not_local host d)))
            (λ name t' q. rw q.0 q.1))
        t

  Ensures-ask_place : Ensures P1 (ask_place host) (λ u. P1)
  unfolding ask_place
  Ensures-ask_place t =
      Ensures->>= P1 (λ city. P1) (λ u. P1) (prompt (given t.site.city)) _
        (Ensures-prompt P1 (given t.site.city))
        (λ city t'.
          Ensures->>= P1 (λ st. P1) (λ u. P1) (prompt (given t'.site.state)) _
            (Ensures-prompt P1 (given t'.site.state)) (λ st t'' q. q)
            (record t' { site = record t'.site { city = city } }))
        t

  abbrev Country : String → Site → Type 0
  Country code s = HasHostname s × ((text_length code =ℕ 2) ≡ true)

  Ensures-ask_country : Ensures P1 (ask_country host) (λ u. P2)
  unfolding ask_country country_round
  Ensures-ask_country t =
      Ensures->>= P1 Country (λ u. P2) (loop (country_round host) (given t.site.country_code)) _
        (Ensures-loop P1 Country (country_round host)
          (λ x.
            Ensures->>= P1 (λ answer. P1) (OrAgain P1 Country) (prompt x) _ (Ensures-prompt P1 x)
              (Ensures-checked P1 Country (λ c. text_length c =ℕ 2) (λ c. x) (λ c s p e. (p, e))))
          (given t.site.country_code))
        (λ code t' q. (q.0, (code, refl, q.1))) t

  Ensures-ask_organization : Ensures P2 (ask_organization host) (λ u. P2)
  unfolding ask_organization
  Ensures-ask_organization t =
      Ensures->>= P2 (λ a. P2) (λ u. P2) (prompt (given t.site.org_name)) _
        (Ensures-prompt P2 (given t.site.org_name)) (λ a t' p. p) t

  abbrev Email : String → Site → Type 0
  Email email s = P3 s

  Post-checked :
      (answer : Option String) (t : Talk)
      → P2 t.site
      → t.site.admin_email ≡ answer
      → Post (OrAgain P2 Email) (checked host.check_email (λ s. given (some s)) answer t)
  Post-checked none t p stored = tt
  Post-checked (some email) t p stored =
      OrAgain-accept P2 Email (host.check_email email) (given (some email)) email t.site p
        (λ e. (p.0, p.1, (email, stored, e)))

  Ensures-ask_email : Ensures P2 (ask_email host) (λ email. P3)
  unfolding ask_email email_round
  Ensures-ask_email t =
      Ensures-loop P2 Email (email_round host)
        (λ x.
          Ensures->>= P2 (λ answer. P2) (OrAgain P2 Email) (prompt x) _ (Ensures-prompt P2 x)
            (λ answer t' p.
              Post-checked answer (record t' { site = record t'.site { admin_email = answer } }) p
                refl))
        (given t.site.admin_email) t

  Ensures-ask_ram : Ensures P3 (ask_ram host) (λ u. P3)
  unfolding ask_ram
  Ensures-ask_ram t =
      Ensures->>= P3 (λ a. P3) (λ u. P3)
        (prompt (given (some (show_ram t.site.application_max_ram)))) _
        (Ensures-prompt P3 (given (some (show_ram t.site.application_max_ram)))) (λ a t' p. p) t

  abbrev Password : String → Site → Type 0
  Password password s = P3 s × (ltb 5 (text_length password) ≡ true)

  Ensures-ask_password : Ensures P3 (ask_password host) (λ u. IsValid)
  unfolding ask_password password_round
  Ensures-ask_password t =
      let d : Option String =
        given (or_text (given t.site.oxtrust_admin_password) (some host.get_pw)) in
      Ensures->>= P3 Password (λ u. IsValid) (loop (password_round host) d) _
        (Ensures-loop P3 Password (password_round host)
          (λ x.
            Ensures->>= P3 (λ answer. P3) (OrAgain P3 Password) (prompt x) _ (Ensures-prompt P3 x)
              (Ensures-checked P3 Password (λ c. ltb 5 (text_length c)) (λ c. given (some c))
                (λ c s p e. (p, e))))
          d)
        (λ password t' q. (q.0.0, q.0.1, q.0.2, (password, refl, q.1))) t

  -- If the questions before the databases return, the host name is not `localhost`, the country
  -- code has two characters, the mail address passes `check_email`, and the password has more than
  -- five characters.
  pub prompt_for_site-IsValid : (t : Talk) → Post (λ u. IsValid) (prompt_for_site host t)
  unfolding prompt_for_site
  prompt_for_site-IsValid t =
      Ensures->>= Any (λ u. Any) (λ u. IsValid) (ask_license host) _
        (Ensures-Any (ask_license host))
        (λ _.
          Ensures->>= Any (λ u. Any) (λ u. IsValid) (ask_address host) _
            (Ensures-Any (ask_address host))
            (λ _.
              Ensures->>= Any (λ u. P1) (λ u. IsValid) (ask_hostname host) _ Ensures-ask_hostname
                (λ _.
                  Ensures->>= P1 (λ u. P1) (λ u. IsValid) (ask_place host) _ Ensures-ask_place
                    (λ _.
                      Ensures->>= P1 (λ u. P2) (λ u. IsValid) (ask_country host) _
                        Ensures-ask_country
                        (λ _.
                          Ensures->>= P2 (λ u. P2) (λ u. IsValid) (ask_organization host) _
                            Ensures-ask_organization
                            (λ _.
                              Ensures->>= P2 (λ u. P3) (λ u. IsValid) (ask_email host) _
                                Ensures-ask_email
                                (λ _.
                                  Ensures->>= P3 (λ u. P3) (λ u. IsValid) (ask_ram host) _
                                    Ensures-ask_ram (λ _. Ensures-ask_password))))))))
        t tt
