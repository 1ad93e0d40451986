-- ===== src/Loading/Import/Local.antt =====
-- Which store an import changes.
use community_edition_setup.Prelude.{
  String, ◌≡◌, refl, sym, ◌∙◌, subst, Bool, true, false, false, Option, none, some, List, [], ◌∷◌,
  Result, ok, err, map_ok, >>=-eq-ok, All,
}
use community_edition_setup.Prelude.Text.{has_code}
use community_edition_setup.Config.{Config, BackendType, ldap, couchbase, mysql, pgsql, spanner}
use community_edition_setup.Dn.{Rdn, is_root}
use community_edition_setup.Rdbm.Types.{Schema}
use community_edition_setup.Routing.{get_backend_location_for_dn}
use community_edition_setup.Routing.Units.{StandsBelow, location-unit}
use community_edition_setup.Loading.{Entry}
use community_edition_setup.Loading.Attributes.{AttribDataTypes}
use community_edition_setup.Loading.Ldap.Keeping.{ldap_entry-keeps}
use community_edition_setup.Loading.Import.{
  Services, Stores, whole_directory, exists_in, dn_exists, to_sql, to_spanner, to_couchbase,
  import_to, location_of, import_entry, import_entries, import_files, import_ldif,
}

module _ {D C P : Type 0} where
  -- The stores other than the one of the backend are the same.
  unfoldable pub SameElsewhere : Option BackendType → Stores D C P → Stores D C P → Type 0
  SameElsewhere (some ldap) s t =
      (t.in_cluster ≡ s.in_cluster) × (t.in_sql ≡ s.in_sql) × (t.in_spanner ≡ s.in_spanner)
  SameElsewhere (some mysql) s t =
      (t.in_ldap ≡ s.in_ldap) × (t.in_cluster ≡ s.in_cluster) × (t.in_spanner ≡ s.in_spanner)
  SameElsewhere (some pgsql) s t =
      (t.in_ldap ≡ s.in_ldap) × (t.in_cluster ≡ s.in_cluster) × (t.in_spanner ≡ s.in_spanner)
  SameElsewhere (some spanner) s t =
      (t.in_ldap ≡ s.in_ldap) × (t.in_cluster ≡ s.in_cluster) × (t.in_sql ≡ s.in_sql)
  SameElsewhere (some couchbase) s t =
      (t.in_ldap ≡ s.in_ldap) × (t.in_sql ≡ s.in_sql) × (t.in_spanner ≡ s.in_spanner)
  SameElsewhere none s t = t ≡ s

  SameElsewhere-refl : (b : Option BackendType) (s : Stores D C P) → SameElsewhere b s s
  unfolding SameElsewhere
  SameElsewhere-refl (some ldap) s = (refl, refl, refl)
  SameElsewhere-refl (some mysql) s = (refl, refl, refl)
  SameElsewhere-refl (some pgsql) s = (refl, refl, refl)
  SameElsewhere-refl (some spanner) s = (refl, refl, refl)
  SameElsewhere-refl (some couchbase) s = (refl, refl, refl)
  SameElsewhere-refl none s = refl

  SameElsewhere-trans :
      (b : Option BackendType) (s t u : Stores D C P)
      → SameElsewhere b s t
      → SameElsewhere b t u
      → SameElsewhere b s u
  unfolding SameElsewhere
  SameElsewhere-trans (some ldap) s t u (h1, h2, h3) (k1, k2, k3) = (k1 ∙ h1, k2 ∙ h2, k3 ∙ h3)
  SameElsewhere-trans (some mysql) s t u (h1, h2, h3) (k1, k2, k3) = (k1 ∙ h1, k2 ∙ h2, k3 ∙ h3)
  SameElsewhere-trans (some pgsql) s t u (h1, h2, h3) (k1, k2, k3) = (k1 ∙ h1, k2 ∙ h2, k3 ∙ h3)
  SameElsewhere-trans (some spanner) s t u (h1, h2, h3) (k1, k2, k3) = (k1 ∙ h1, k2 ∙ h2, k3 ∙ h3)
  SameElsewhere-trans (some couchbase) s t u (h1, h2, h3) (k1, k2, k3) = (k1 ∙ h1, k2 ∙ h2, k3 ∙ h3)
  SameElsewhere-trans none s t u h k = k ∙ h

-- What every value of a call's outcome has, its outcome has.
after_call :
    {A B : Type 0} (Holds : B → Type 0) (f : A → B) (r : Result A) (t : B)
    → ((x : A) → Holds (f x))
    → map_ok f r ≡ ok t
    → Holds t
after_call Holds f (err e) t h returned = cc
after_call Holds f (ok x) t h returned = let same : f x ≡ t = cc in subst Holds same (h x)

module _ {D C P : Type 0} (cfg : Config) (schema : Schema) (types : AttribDataTypes)
    (sv : Services D C P) where
  asked_ldap :
      (dn : String) (s : Stores D C P)
      → get_backend_location_for_dn cfg sv.parse_dn dn ≡ ok (some ldap)
      → (t : Stores D C P) (b : Bool) → dn_exists cfg schema types sv dn s ≡ ok (t, b)
      → SameElsewhere (some ldap) s t
  unfolding dn_exists exists_in SameElsewhere
  asked_ldap dn s routed t b e =
      after_call (λ found. SameElsewhere (some ldap) s found.0) _ _ (t, b)
        (λ found. (refl, refl, refl)) (rw routed at e)

  import_to-SameElsewhere :
      (b : Option BackendType) (bucket : Option String) (dn : String) (entry : Entry)
      (s t : Stores D C P)
      → get_backend_location_for_dn cfg sv.parse_dn dn ≡ ok b
      → import_to cfg schema types sv b bucket dn entry s ≡ ok t
      → SameElsewhere b s t
  unfolding import_to SameElsewhere to_sql to_spanner to_couchbase
  import_to-SameElsewhere none bucket dn entry s t routed e = let same : s ≡ t = cc in sym same
  import_to-SameElsewhere (some ldap) bucket dn entry s t routed e =
      ldap_entry-keeps (whole_directory cfg schema types sv) (SameElsewhere (some ldap) s)
        (dn_exists cfg schema types sv)
        (record { modified = λ s' dn' attr how vs h. h; added = λ s' dn' entry' h. h }) dn entry s t
        (refl, refl, refl) (asked_ldap dn s routed) e
  import_to-SameElsewhere (some mysql) bucket dn entry s t routed e =
      after_call (SameElsewhere (some mysql) s) _ _ t (λ db. (refl, refl, refl)) e
  import_to-SameElsewhere (some pgsql) bucket dn entry s t routed e =
      after_call (SameElsewhere (some pgsql) s) _ _ t (λ db. (refl, refl, refl)) e
  import_to-SameElsewhere (some spanner) bucket dn entry s t routed e =
      after_call (SameElsewhere (some spanner) s) _ _ t (λ ws. (refl, refl, refl)) e
  import_to-SameElsewhere (some couchbase) bucket dn entry s t routed e =
      after_call (SameElsewhere (some couchbase) s) _ _ t (λ c. (refl, refl, refl)) e

  import_entry-SameElsewhere :
      (b : Option BackendType) (bucket : Option String) (dn : String) (entry : Entry)
      (s t : Stores D C P)
      → get_backend_location_for_dn cfg sv.parse_dn dn ≡ ok b
      → import_entry cfg schema types sv bucket none dn entry s ≡ ok t
      → SameElsewhere b s t
  unfolding import_entry location_of
  import_entry-SameElsewhere b bucket dn entry s t routed e =
      import_to-SameElsewhere b bucket dn entry s t routed (rw routed at e)

  -- All entries are routed to one backend.
  abbrev pub AreRouted : Option BackendType → List (String × Entry) → Type 0
  AreRouted b = All (λ e. get_backend_location_for_dn cfg sv.parse_dn e.0 ≡ ok b)

  import_entries-SameElsewhere :
      (b : Option BackendType) (bucket : Option String) (entries : List (String × Entry))
      (s t : Stores D C P)
      → AreRouted b entries
      → import_entries cfg schema types sv bucket none entries s ≡ ok t
      → SameElsewhere b s t
  unfolding import_entries
  import_entries-SameElsewhere b bucket [] s t routed e =
      let same : s ≡ t = cc in subst (SameElsewhere b s) same (SameElsewhere-refl b s)
  import_entries-SameElsewhere b bucket ((dn, entry) ∷ entries) s t (routed, all_routed) e =
      let (next, e0, e1) =
        >>=-eq-ok (import_entry cfg schema types sv bucket none dn entry s) _ e in
      SameElsewhere-trans b s next t (import_entry-SameElsewhere b bucket dn entry s next routed e0)
        (import_entries-SameElsewhere b bucket entries next t all_routed e1)

  module _ (unit : Rdn) (not_root : is_root unit ≡ false)
      (plain : has_code b'_' unit.value ≡ false) where
    routed_alike :
        (b : Option BackendType) (dn : String) (entries : List (String × Entry))
        → StandsBelow sv.parse_dn unit not_root plain dn
        → get_backend_location_for_dn cfg sv.parse_dn dn ≡ ok b
        → All (λ e. StandsBelow sv.parse_dn unit not_root plain e.0) entries
        → AreRouted b entries
    routed_alike b dn [] below routed all_below = tt
    routed_alike b dn ((dn', entry) ∷ entries) below routed (here, all_below) = (
      sym (location-unit sv.parse_dn unit not_root plain cfg dn dn' below here).0 ∙ routed,
      routed_alike b dn entries below routed all_below,
    )

    -- The entries of a file stand below the unit.
    abbrev pub StandBelow : String → Type 0
    StandBelow file =
        (entries : List (String × Entry))
        → sv.parse_ldif file ≡ ok entries
        → All (λ e. StandsBelow sv.parse_dn unit not_root plain e.0) entries

    import_files-unit :
        (b : Option BackendType) (bucket : Option String) (dn : String) (files : List String)
        (s t : Stores D C P)
        → StandsBelow sv.parse_dn unit not_root plain dn
        → get_backend_location_for_dn cfg sv.parse_dn dn ≡ ok b
        → All StandBelow files
        → import_files cfg schema types sv bucket none files s ≡ ok t
        → SameElsewhere b s t
    unfolding import_files
    import_files-unit b bucket dn [] s t below routed all_below e =
        let same : s ≡ t = cc in subst (SameElsewhere b s) same (SameElsewhere-refl b s)
    import_files-unit b bucket dn (file ∷ files) s t below routed (here, all_below) e =
        let (entries, parsed, e0) = >>=-eq-ok (sv.parse_ldif file) _ e in
        let (next, e1, e2) =
          >>=-eq-ok (import_entries cfg schema types sv bucket none entries s) _ e0 in
        SameElsewhere-trans b s next t
          (import_entries-SameElsewhere b bucket entries s next
            (routed_alike b dn entries below routed (here entries parsed)) e1)
          (import_files-unit b bucket dn files next t below routed all_below e2)

    -- Without `force`, importing files whose entries all stand below one organizational unit, whose
    -- value has no `_`, changes one store at most: that of the backend to which any name below the
    -- unit is routed.
    pub import_ldif-unit :
        (b : Option BackendType) (load_data : Bool) (bucket : Option String) (dn : String)
        (files : List String) (s t : Stores D C P)
        → StandsBelow sv.parse_dn unit not_root plain dn
        → get_backend_location_for_dn cfg sv.parse_dn dn ≡ ok b
        → All StandBelow files
        → import_ldif cfg schema types sv load_data files bucket none s ≡ ok t
        → SameElsewhere b s t
    unfolding import_ldif
    import_ldif-unit b false bucket dn files s t below routed all_below e =
        let same : s ≡ t = cc in subst (SameElsewhere b s) same (SameElsewhere-refl b s)
    import_ldif-unit b true bucket dn files s t below routed all_below e =
        import_files-unit b bucket dn files s t below routed all_below e
