-- ===== src/Routing/Tests.antt =====
-- Routing of concrete entries with the default groups.
use community_edition_setup.Prelude.{
  String, ◌≡◌, refl, ◌↔◌, Option, none, some, List, [], ◌∷◌, ◌==◌, if◌then◌else◌, ok, true, false,
}
use community_edition_setup.Prelude.Dict
use community_edition_setup.Prelude.Dict.{Dict, contains}
use community_edition_setup.Prelude.Text.{has_code, differs}
use community_edition_setup.Config.{BackendType, couchbase, spanner}
use community_edition_setup.Config.Samples.{hybrid, sql_only, user, before_user, after_user}
use community_edition_setup.Dn.{Rdn, is_root, key_parts}
use community_edition_setup.Routing.{
  prefix_from, get_key_prefix, group_of, get_group_for_key, get_bucket_for_key, get_bucket_for_dn,
  location_of_store, location_for_key, get_backend_location_for_dn, get_mapping_type,
}
use community_edition_setup.Routing.Groups.{get_group_for_key-first, get_bucket_for_key-eq_iff}
use community_edition_setup.Routing.Stores.{location_for_key-total, location_for_key-couchbase}
use community_edition_setup.Persistence.{map_without_ldap}
use community_edition_setup.Persistence.Mappings.{map_without_ldap-IsRouted}
use community_edition_setup.Routing.Units.{StandsBelow, location-unit}

user_group : get_group_for_key hybrid "people_60B7" ≡ "user"
unfolding get_group_for_key group_of get_key_prefix prefix_from
user_group = refl

user_bucket : get_bucket_for_key hybrid "people_60B7" ≡ "gluu_user"
unfolding get_bucket_for_key get_group_for_key group_of get_key_prefix prefix_from
user_bucket = refl

user_location : location_for_key hybrid "people_60B7" ≡ ok (some couchbase)
unfolding location_for_key location_of_store get_group_for_key group_of get_key_prefix prefix_from
    Dict.get
user_location = refl

spanner_location : location_of_store (record hybrid { rdbm_type = "spanner" }) "rdbm" ≡ some spanner
unfolding location_of_store
spanner_location = refl

-- Every key of an installation on MySQL alone has a backend.
location_for_key-total_example :
    (b : BackendType) × (location_for_key (map_without_ldap sql_only) "people_60B7" ≡ ok (some b))
location_for_key-total_example =
    location_for_key-total (map_without_ldap sql_only) "people_60B7"
      (map_without_ldap-IsRouted sql_only refl refl (λ r. refl) refl)

user_group_first : get_group_for_key hybrid "people_60B7" ≡ "user"
unfolding get_key_prefix prefix_from
user_group_first =
    get_group_for_key-first hybrid "people_60B7" before_user "user" user after_user refl refl refl

location_for_key-couchbase_example :
    (location_for_key hybrid "people_60B7" ≡ ok (some couchbase)) ↔ (
      contains (get_mapping_type hybrid "couchbase") (get_group_for_key hybrid "people_60B7")
      ≡ true)
unfolding get_group_for_key group_of get_key_prefix prefix_from
location_for_key-couchbase_example =
    location_for_key-couchbase hybrid "people_60B7"
      (refl, (refl, (refl, (refl, (refl, (refl, tt)))))) (differs "user" "default" refl)

get_bucket_for_key-eq_iff_example :
    (get_bucket_for_key hybrid "people_60B7" ≡ get_bucket_for_key hybrid "groups_60B7")
    ↔ (get_group_for_key hybrid "people_60B7" ≡ get_group_for_key hybrid "groups_60B7")
get_bucket_for_key-eq_iff_example = get_bucket_for_key-eq_iff hybrid "people_60B7" "groups_60B7"

abbrev people : Rdn
people = record { attr = "ou"; value = "people" }

abbrev inum : String → Rdn
inum value = record { attr = "inum"; value = value }

abbrev gluu : List Rdn
gluu = record { attr = "o"; value = "gluu" } ∷ []

abbrev parse : String → Option (List Rdn)
parse dn =
    if dn == "inum=60B7,ou=people,o=gluu"
    then some (inum "60B7" ∷ people ∷ gluu)
    else if dn == "inum=1,inum=60B7,ou=people,o=gluu"
    then some (inum "1" ∷ inum "60B7" ∷ people ∷ gluu)
    else if dn == "ou=people,o=gluu"
    then some (people ∷ gluu)
    else none

not_root : is_root people ≡ false
unfolding is_root
not_root = refl

plain : has_code b'_' people.value ≡ false
unfolding has_code
plain = refl

user_stands : StandsBelow parse people not_root plain "inum=60B7,ou=people,o=gluu"
unfolding is_root key_parts
user_stands = record {
  below = inum "60B7" ∷ [];
  rest = gluu;
  parsed = refl;
  to_root = refl;
  deep = λ e. cc e;
}

device_stands : StandsBelow parse people not_root plain "inum=1,inum=60B7,ou=people,o=gluu"
unfolding is_root key_parts
device_stands = record {
  below = inum "1" ∷ inum "60B7" ∷ [];
  rest = gluu;
  parsed = refl;
  to_root = refl;
  deep = λ e. cc e;
}

location-unit_example :
    (get_backend_location_for_dn hybrid parse "inum=60B7,ou=people,o=gluu"
      ≡ get_backend_location_for_dn hybrid parse "inum=1,inum=60B7,ou=people,o=gluu")
    × (get_bucket_for_dn hybrid parse "inum=60B7,ou=people,o=gluu"
        ≡ get_bucket_for_dn hybrid parse "inum=1,inum=60B7,ou=people,o=gluu")
location-unit_example =
    location-unit parse people not_root plain hybrid "inum=60B7,ou=people,o=gluu"
      "inum=1,inum=60B7,ou=people,o=gluu" user_stands device_stands
