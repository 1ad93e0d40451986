-- ===== src/Loading/Import/Tests.antt =====
-- Imports of one user.
use mathlib.Core.Option
use community_edition_setup.Prelude.{
  String, ◌≡◌, refl, subst, All, true, false, none, some, List, [], ◌∷◌, ok, ◌==◌,
}
use community_edition_setup.Prelude.Text.{has_code}
use community_edition_setup.Prelude.Dict
use community_edition_setup.Prelude.Dict.{Dict}
use community_edition_setup.Config.{couchbase}
use community_edition_setup.Config.Samples.{hybrid}
use community_edition_setup.Dn.{Rdn, is_root, key_parts}
use community_edition_setup.Rdbm.Types.{Schema}
use community_edition_setup.Routing.{
  get_backend_location_for_dn, get_bucket_for_dn, get_bucket_for_key, location_for_key,
  location_of_store, get_group_for_key, group_of, get_key_prefix, prefix_from,
}
use community_edition_setup.Routing.Units.{StandsBelow}
use community_edition_setup.Loading.{Entry}
use community_edition_setup.Loading.Document.Samples.{
  parsers, types, parse, user_dn, user, document, user_made, user_key,
}
use community_edition_setup.Loading.Couchbase.{upsert}
use community_edition_setup.Loading.Couchbase.Finding.{IsNew, new_entry}
use community_edition_setup.Loading.Import.{
  Services, Stores, import_to, to_couchbase, location_of, import_entry, import_entries,
  import_files, import_ldif,
}
use community_edition_setup.Loading.Import.Local.{SameElsewhere, StandBelow, import_ldif-unit}

abbrev schema : Schema
schema = record {
  gluu_attributes = [];
  ldap_sql_data_type_mapping = [];
  sql_data_types = [];
  opendj_attributes_syntax = [];
  sub_tables = [];
}

-- A directory and a Spanner that keep nothing new, and a Couchbase that keeps the queries.
abbrev services : Services (Dict Entry) (List String) Unit
services = record {
  directory = record {
    search = λ s dn. Option.map (λ entry. (dn, entry)) (Dict.get s dn);
    modify = λ s dn attr how vs. s;
    add = λ s dn entry. Dict.set s dn entry;
  };
  cluster = record { exec_query = λ q s. (q ∷ s, record { good = true; results = [] }) };
  spanner_client = record {
    tables = λ s. [];
    has = λ s t dn. false;
    select = λ s t a d. [];
    write_data = λ w s. s;
  };
  parsers = parsers;
  dumps = λ j. "{}";
  digest = λ s. s;
  parse_dn = parse;
  like_end = λ s t. s == t;
  accepts = λ t r. true;
  parse_ldif = λ file. ok ((user_dn, user) ∷ []);
}

abbrev empty : Stores (Dict Entry) (List String) Unit
empty = record { in_ldap = []; in_cluster = []; in_sql = []; in_spanner = tt }

abbrev rdn : String → String → Rdn
rdn attr value = record { attr = attr; value = value }

abbrev people : Rdn
people = rdn "ou" "people"

not_root : is_root people ≡ false
unfolding is_root
not_root = refl

plain : has_code b'_' people.value ≡ false
unfolding has_code
plain = refl

user_stands : StandsBelow parse people not_root plain user_dn
unfolding is_root key_parts
user_stands = record {
  below = rdn "inum" "60B7" ∷ [];
  rest = rdn "o" "gluu" ∷ [];
  parsed = refl;
  to_root = refl;
  deep = λ e. cc e;
}

user_routed : get_backend_location_for_dn hybrid parse user_dn ≡ ok (some couchbase)
unfolding get_backend_location_for_dn location_for_key location_of_store get_group_for_key group_of
    get_key_prefix prefix_from Dict.get
user_routed = rw user_key refl

abbrev loaded : Stores (Dict Entry) (List String) Unit
loaded = record empty {
  in_cluster =
      upsert hybrid parsers (λ j. "{}") types parse services.cluster "gluu_user" "people_60B7"
        document [];
}

user-IsNew :
    IsNew hybrid parsers
      (λ j. "{}")
      types
      parse
      services.cluster
      user_dn
      user
      "gluu_user"
      "people_60B7"
      document
unfolding get_bucket_for_dn get_bucket_for_key get_group_for_key group_of get_key_prefix prefix_from
user-IsNew = record {
  long = refl;
  plain = refl;
  made = user_made;
  keyed = user_key;
  placed = rw user_key refl;
}

user_loaded :
    import_entries hybrid schema types services none none ((user_dn, user) ∷ []) empty ≡ ok loaded
unfolding import_entries import_entry import_to location_of to_couchbase
user_loaded =
    rw
      (
        user_routed,
        new_entry hybrid parsers (λ j. "{}") types parse services.cluster user_dn user "gluu_user"
            "people_60B7" document [] user-IsNew,
      )
      refl

user_file_loaded :
    import_ldif hybrid schema types services true ("people.ldif" ∷ []) none none empty ≡ ok loaded
unfolding import_ldif import_files
user_file_loaded = rw user_loaded refl

people_file : StandBelow hybrid schema types services people not_root plain "people.ldif"
people_file entries parsed =
    let same : (user_dn, user) ∷ [] ≡ entries = cc in
    subst (λ es. All (λ e. StandsBelow parse people not_root plain e.0) es) same (user_stands, tt)

import_ldif-unit_example : SameElsewhere (some couchbase) empty loaded
import_ldif-unit_example =
    import_ldif-unit hybrid schema types services people not_root plain (some couchbase) true none
      user_dn ("people.ldif" ∷ []) empty loaded user_stands user_routed (people_file, tt)
      user_file_loaded
