-- ===== src/Dialogue/Complete.antt =====
-- What `check_properties` leaves in the configuration is there: each attribute that it asks for is a
-- text that is not empty.
use community_edition_setup.Prelude.{
  String, ◌<>◌, refl, Bool, true, false, some, List, [], ◌∷◌, ◌==◌, if◌then◌else◌, ℕ, ◌<◌, ◌=ℕ◌,
  arith, Bool-cases, inl, inr, none, Option,
}
use community_edition_setup.Config.{Profile, ce, disa_stig, truth}
use community_edition_setup.Persistence.{map_without_ldap, set_persistence_type}
use community_edition_setup.Dialogue.{Site, Host, show, Ram, megabytes, entered}
use community_edition_setup.Dialogue.Checking.{
  has_three_parts, is_nonempty, has_two_characters, Draws, check_hostname, check_organization,
  check_country, check_city, check_state, set_admin_email, set_admin_password, set_ldap_pass,
  set_cb_password, set_keys, set_node, check_address, exit_if_used, ports_in_use, check_ports,
  set_oxd_server, check_passwords, check_storage, check_all, check_properties, ram_or,
}
use community_edition_setup.Dialogue.Validating.{Ensures, Ensures->>=, Any}
use community_edition_setup.Dialogue.Filled.{
  IsFilled, IsSetTo, or_text-IsSetTo, append-IsFilled, is_nonempty-IsFilled,
  has_two_characters-IsFilled, has_three_parts-IsFilled, Ensures-ask, Ensures-check_address,
}

-- What `getPW` draws is not empty, and the computed memory is not 0.
pub record IsDrawn (d : Draws) : Type 0 where
  pub admin_password : IsFilled d.admin_password
  pub truststore_password : IsFilled d.truststore_password
  pub salt : IsFilled d.salt_start
  pub max_ram : 0 < d.max_ram

-- A number that is not 0, or a text that is not empty.
abbrev pub IsRam : Option Ram → Type 0
IsRam none = ⊥
IsRam (some (megabytes n)) = 0 < n
IsRam (some (entered s)) = IsFilled s

ram_or-IsRam : (o : Option Ram) (n : ℕ) → 0 < n → IsRam (ram_or o n)
ram_or-IsRam none n h = h
ram_or-IsRam (some (megabytes m)) n h = elim (Bool-cases (m =ℕ 0)) [
  | inl e ↦ rw e h
  | inr e ↦ rw e (ground arith)
]
ram_or-IsRam (some (entered s)) n h = elim (Bool-cases (s == "")) [
  | inl e ↦ rw e h
  | inr e ↦ rw e e
]

abbrev Asked1 : Site → Type 0
Asked1 s = IsSetTo s.hostname

abbrev Asked2 : Site → Type 0
Asked2 s = Asked1 s × IsSetTo s.ip

abbrev Asked3 : Site → Type 0
Asked3 s = Asked2 s × IsSetTo s.org_name

abbrev Asked4 : Site → Type 0
Asked4 s = Asked3 s × IsSetTo s.country_code

abbrev Asked5 : Site → Type 0
Asked5 s = Asked4 s × IsSetTo s.city

-- What was asked for.
abbrev pub IsAsked : Site → Type 0
IsAsked s = Asked5 s × IsSetTo s.state

-- What was made of it, and all.
abbrev pub HasPasswords : Site → Type 0
HasPasswords s = IsSetTo s.admin_email × IsSetTo s.oxtrust_admin_password × IsSetTo s.ldap_pass

abbrev Made : Site → Type 0
Made s = IsAsked s × HasPasswords s

abbrev pub HasKeys : Site → Type 0
HasKeys s = IsSetTo s.opendj_truststore_pass × IsSetTo s.encode_salt × IsRam s.application_max_ram

abbrev pub IsComplete : Site → Type 0
IsComplete s = IsAsked s × HasPasswords s × HasKeys s

Ensures-check_hostname : Ensures Any check_hostname (λ u. Asked1)
unfolding check_hostname
Ensures-check_hostname =
    Ensures-ask Any has_three_parts has_three_parts-IsFilled (λ s. s.hostname)
      (λ x s. record s { hostname = some x }) Asked1 (λ x s p e. (x, refl, e))

Ensures-check_organization : Ensures Asked2 check_organization (λ u. Asked3)
unfolding check_organization
Ensures-check_organization =
    Ensures-ask Asked2 is_nonempty is_nonempty-IsFilled (λ s. s.org_name)
      (λ x s. record s { org_name = some x }) Asked3 (λ x s p e. (p, (x, refl, e)))

Ensures-check_country : Ensures Asked3 check_country (λ u. Asked4)
unfolding check_country
Ensures-check_country =
    Ensures-ask Asked3 has_two_characters has_two_characters-IsFilled (λ s. s.country_code)
      (λ x s. record s { country_code = some x }) Asked4 (λ x s p e. (p, (x, refl, e)))

Ensures-check_city : Ensures Asked4 check_city (λ u. Asked5)
unfolding check_city
Ensures-check_city =
    Ensures-ask Asked4 is_nonempty is_nonempty-IsFilled (λ s. s.city)
      (λ x s. record s { city = some x }) Asked5 (λ x s p e. (p, (x, refl, e)))

Ensures-check_state : Ensures Asked5 check_state (λ u. IsAsked)
unfolding check_state
Ensures-check_state =
    Ensures-ask Asked5 is_nonempty is_nonempty-IsFilled (λ s. s.state)
      (λ x s. record s { state = some x }) IsAsked (λ x s p e. (p, (x, refl, e)))

abbrev WithEmail : Site → Type 0
WithEmail s = IsAsked s × IsSetTo s.admin_email

abbrev WithAdmin : Site → Type 0
WithAdmin s = IsAsked s × IsSetTo s.admin_email × IsSetTo s.oxtrust_admin_password

module _ (host : Host) (d : Draws) (drawn : IsDrawn d) where
  set_cb_password-Made : (b : Bool) (s : Site) → Made s → Made (set_cb_password b s)
  set_cb_password-Made true s p = p
  set_cb_password-Made false s p = p

  set_node-IsComplete : (f : Profile) (s : Site) → IsComplete s → IsComplete (set_node f s)
  set_node-IsComplete ce s p = p
  set_node-IsComplete disa_stig s p = p

  set_admin_email-WithEmail : (s : Site) → IsAsked s → WithEmail (set_admin_email s)
  set_admin_email-WithEmail s p = (
    p,
    or_text-IsSetTo s.admin_email _
        ("support@" <> show s.hostname, refl, append-IsFilled "support@" (show s.hostname) refl),
  )

  set_admin_password-WithAdmin : (s : Site) → WithEmail s → WithAdmin (set_admin_password d s)
  set_admin_password-WithAdmin s p = (
    p.0,
    p.1,
    or_text-IsSetTo s.oxtrust_admin_password _
        (or_text-IsSetTo s.ldap_pass _ (d.admin_password, refl, drawn.admin_password)),
  )

  set_ldap_pass-Made : (s : Site) → WithAdmin s → Made (set_ldap_pass s)
  set_ldap_pass-Made s p = (p.0, (p.1, p.2, or_text-IsSetTo s.ldap_pass _ p.2))

  set_keys-IsComplete : (s : Site) → Made s → IsComplete (set_keys d s)
  set_keys-IsComplete s p = (
    p.0,
    p.1,
    (
      or_text-IsSetTo s.opendj_truststore_pass _
          (d.truststore_password, refl, drawn.truststore_password),
      or_text-IsSetTo s.encode_salt _
          (d.salt_start <> d.salt_end, refl, append-IsFilled d.salt_start d.salt_end drawn.salt),
      ram_or-IsRam s.application_max_ram d.max_ram drawn.max_ram,
    ),
  )

  Ensures-check_passwords : Ensures IsAsked (check_passwords host d) (λ u. Made)
  unfolding check_passwords
  Ensures-check_passwords t p =
      let mailed = set_admin_email t.site in
      let administrated = set_admin_password d mailed in
      set_cb_password-Made (truth t.console.cfg.cb_install) (set_ldap_pass administrated) (
        set_ldap_pass-Made administrated
          (set_admin_password-WithAdmin mailed (set_admin_email-WithEmail t.site p)))

  Ensures-exit_if_used : (ports : List String) → Ensures Made (exit_if_used host ports) (λ u. Made)
  Ensures-exit_if_used [] t p = p
  Ensures-exit_if_used (port ∷ ports) t p = tt

  Ensures-check_ports : Ensures Made (check_ports host) (λ u. Made)
  unfolding check_ports
  Ensures-check_ports t p = Ensures-exit_if_used (ports_in_use host t.console.cfg t.site) t p

  set_oxd_server-IsComplete : (s : Site) → IsComplete s → IsComplete (set_oxd_server host s)
  set_oxd_server-IsComplete s p = either (s.oxd_server_https == "") _ _ p p
    where
      either :
          (b : Bool) (x y : Site) → IsComplete x → IsComplete y → IsComplete (if b then x else y)
      either true x y h k = h
      either false x y h k = k

  Ensures-check_storage : Ensures Made (check_storage host d) (λ u. IsComplete)
  unfolding check_storage
  Ensures-check_storage t =
      Ensures->>= Made (λ u. Made) (λ u. IsComplete) (check_ports host) _ Ensures-check_ports
        (λ u t' p.
          set_node-IsComplete (set_persistence_type t'.console.cfg).profile
            (set_oxd_server host (set_keys d t'.site))
            (set_oxd_server-IsComplete (set_keys d t'.site) (set_keys-IsComplete t'.site p)))
        (record t { console = record t.console { cfg = map_without_ldap t.console.cfg } })

  Ensures-check_all :
      (installed : Bool) → Ensures Any (check_all host d installed) (λ u. IsComplete)
  unfolding check_all
  Ensures-check_all installed =
      Ensures->>= Any (λ u. Asked1) (λ u. IsComplete) check_hostname _ Ensures-check_hostname
        (λ _.
          Ensures->>= Asked1 (λ u. Asked2) (λ u. IsComplete) (check_address host installed) _
            (Ensures-check_address host Asked1 (λ s ip p. p) installed)
            (λ _.
              Ensures->>= Asked2 (λ u. Asked3) (λ u. IsComplete) check_organization _
                Ensures-check_organization
                (λ _.
                  Ensures->>= Asked3 (λ u. Asked4) (λ u. IsComplete) check_country _
                    Ensures-check_country
                    (λ _.
                      Ensures->>= Asked4 (λ u. Asked5) (λ u. IsComplete) check_city _
                        Ensures-check_city
                        (λ _.
                          Ensures->>= Asked5 (λ u. IsAsked) (λ u. IsComplete) check_state _
                            Ensures-check_state
                            (λ _.
                              Ensures->>= IsAsked (λ u. Made) (λ u. IsComplete)
                                (check_passwords host d) _ Ensures-check_passwords
                                (λ _. Ensures-check_storage)))))))

  pub check_properties-Ensures : Ensures Any (check_properties host d) (λ u. IsComplete)
  unfolding check_properties
  check_properties-Ensures t p = Ensures-check_all t.console.cfg.installed_instance t p
