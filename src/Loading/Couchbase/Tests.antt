-- ===== src/Loading/Couchbase/Tests.antt =====
-- A user that is stored in Couchbase.
use community_edition_setup.Prelude.{
  String, ◌≡◌, refl, Bool, true, false, none, some, List, [], ◌∷◌, ◌==◌, if◌then◌else◌, ok, map_ok,
  ◌>>=◌,
}
use community_edition_setup.Prelude.Dict.{Dict}
use community_edition_setup.Config.Samples.{hybrid}
use community_edition_setup.Routing.{
  get_bucket_for_dn, get_bucket_for_key, get_group_for_key, group_of, get_key_prefix, prefix_from,
}
use community_edition_setup.Loading.Attributes.{Json}
use community_edition_setup.Loading.Document.Samples.{
  parsers, types, parse, user_dn, user, document, user_made, user_key,
}
use community_edition_setup.Loading.Couchbase.{
  Reply, Cluster, upsert_query, select_query, stored, couchbase_entry, couchbase_dn_exists,
}
use community_edition_setup.Loading.Couchbase.Finding.{
  Selects, IsNew, couchbase_dn_exists-couchbase_entry,
}

-- Every document is written alike, since the server below keeps one.
abbrev dumps : Json → String
dumps j = "{}"

abbrev written : String
written = "UPSERT INTO `gluu_user` (KEY, VALUE) VALUES (\"people_60B7\", {})"

abbrev reply : List (Dict Json) → Reply
reply rows = record { good = true; results = rows }

-- A server that notes whether it has been sent that query, and answers any other with one row.
abbrev server : Json → Cluster Bool
server j = record {
  exec_query = λ q s.
      if q == written
      then (true, reply [])
      else (s, reply (if s then (("gluu_user", j) ∷ []) ∷ [] else []));
}

abbrev j : Json
j = stored parsers document

user-IsNew :
    IsNew hybrid parsers dumps types parse
      (server j)
      user_dn
      user
      "gluu_user"
      "people_60B7"
      document
unfolding get_bucket_for_dn get_bucket_for_key get_group_for_key group_of get_key_prefix prefix_from
user-IsNew = record {
  long = refl;
  plain = refl;
  made = user_made;
  keyed = user_key;
  placed = rw user_key refl;
}

server-Selects : Selects hybrid parsers dumps types parse (server j) "gluu_user" "people_60B7" j
unfolding upsert_query select_query
server-Selects = record { selected = λ s. refl }

couchbase_dn_exists-couchbase_entry_example :
    map_ok
      (λ found. found.1)
      (couchbase_entry hybrid parsers dumps types parse (server j) none user_dn user false
        >>= couchbase_dn_exists hybrid parsers dumps types parse (server j) user_dn)
    ≡ ok (some j)
couchbase_dn_exists-couchbase_entry_example =
    couchbase_dn_exists-couchbase_entry hybrid parsers dumps types parse (server j) user_dn user
      "gluu_user" "people_60B7" document false user-IsNew server-Selects
