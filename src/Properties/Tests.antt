-- ===== src/Properties/Tests.antt =====
-- A properties file of an installation whose groups are all in Couchbase.
use community_edition_setup.Prelude.{String, ◌≡◌, refl, true, false, none, some, [], ◌∷◌}
use community_edition_setup.Prelude.Dict
use community_edition_setup.Prelude.Dict.{Dict}
use community_edition_setup.Properties.{is_on, load_installs, asks_for_couchbase}
use community_edition_setup.Properties.Databases.{load_installs-ldap, load_installs-couchbase}

abbrev file : Dict String
file =
    ("hostname", "c1.gluu.org")
    ∷ ("ldap_install", "1")
    ∷ ("cb_install", "0")
    ∷ ("persistence_type", "couchbase")
    ∷ []

abbrev all_in_couchbase : Dict String
all_in_couchbase = ("default", "couchbase") ∷ ("user", "couchbase") ∷ []

no_ldap_installed : (load_installs file false (some all_in_couchbase) (some "1") none).0 ≡ none
no_ldap_installed =
    load_installs-ldap file false all_in_couchbase (some "1") none "couchbase" refl refl

installs_mapped_couchbase :
    is_on (load_installs file false (some all_in_couchbase) (some "1") none).1 ≡ true
unfolding asks_for_couchbase Dict.get
installs_mapped_couchbase =
    load_installs-couchbase file false all_in_couchbase (some "1") none refl refl
