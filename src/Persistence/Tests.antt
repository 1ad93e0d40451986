-- ===== src/Persistence/Tests.antt =====
-- Kinds of persistence and routing tables of concrete installations.
use mathlib.Core.Option
use community_edition_setup.Prelude.{
  ◌⊎◌, if◌then◌else◌, ◌≡◌, refl, ok, err, value_error, true, some, String, List, [], ◌∷◌,
}
use community_edition_setup.Prelude.Text.{differs}
use community_edition_setup.Prelude.Dict
use community_edition_setup.Prelude.Dict.{contains}
use community_edition_setup.Config.{Config, truth}
use community_edition_setup.Config.Samples.{hybrid, sql_only}
use community_edition_setup.Persistence.{
  set_all, set_persistence_type, map_without_ldap, assign_mappings, leave_out, remove, is_choice,
  all_within,
}
use community_edition_setup.Persistence.Kinds.{kind, set_persistence_type-kind}
use community_edition_setup.Persistence.Choosing.{Distinct, chosen, assign_mappings_lem}
use community_edition_setup.Persistence.Repeated.{assign_mappings-Distinct}
use community_edition_setup.Persistence.Mappings.{map_without_ldap-IsRouted}
use community_edition_setup.Routing.Stores.{IsRouted}

digits_accepted : is_choice 6 "31" ≡ true
unfolding is_choice all_within
digits_accepted = refl

-- A digit that is typed twice is accepted, and then removed twice.
repeated_accepted : is_choice 6 "33" ≡ true
unfolding is_choice all_within
repeated_accepted = refl

repeated_raises : assign_mappings hybrid "33" ≡ err value_error
unfolding assign_mappings leave_out remove
repeated_raises = refl

persistence_of_hybrid : set_persistence_type hybrid ≡ record hybrid {
  persistence_type =
      Option.get_or
        (kind (truth hybrid.ldap_install) (truth hybrid.cb_install) hybrid.rdbm_install)
        hybrid.persistence_type;
}
persistence_of_hybrid = set_persistence_type-kind hybrid (differs "mysql" "spanner" refl)

map_without_ldap-IsRouted_example : IsRouted (map_without_ldap sql_only)
map_without_ldap-IsRouted_example = map_without_ldap-IsRouted sql_only refl refl (λ r. refl) refl

abbrev bucket_list : List String
bucket_list = "default" ∷ "user" ∷ "site" ∷ "cache" ∷ "token" ∷ "session" ∷ []

-- Of the six groups the first and the third are left out.
abbrev assigned : Config
assigned = record hybrid {
  mapping_locations =
      ("default", "ldap")
      ∷ ("user", "couchbase")
      ∷ ("site", "ldap")
      ∷ ("cache", "couchbase")
      ∷ ("token", "couchbase")
      ∷ ("session", "couchbase")
      ∷ [];
}

assigns : assign_mappings hybrid "31" ≡ ok assigned
unfolding assign_mappings leave_out remove set_all Dict.set
assigns = refl

different_groups : Dict.NodupKeys hybrid.bucket_dict
different_groups = (refl, (refl, (refl, (refl, (refl, (refl, tt))))))

site_assigned : Dict.get assigned.mapping_locations "site" ≡ (
    if contains (chosen bucket_list "31") "site"
    then Dict.get hybrid.mapping_locations "site"
    else some "couchbase")
site_assigned = assign_mappings_lem hybrid assigned "31" "site" different_groups assigns refl

assign_mappings-Distinct_example :
    (Distinct (chosen bucket_list "33")
      × ((after : Config) × (assign_mappings hybrid "33" ≡ ok after)))
    ⊎ ((Distinct (chosen bucket_list "33") → ⊥) × (assign_mappings hybrid "33" ≡ err value_error))
assign_mappings-Distinct_example =
    assign_mappings-Distinct hybrid "33" different_groups repeated_accepted
