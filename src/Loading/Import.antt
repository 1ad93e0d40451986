-- ===== src/Loading/Import.antt =====
-- `import_ldif` of setup_app/utils/db_utils.py, and the truth of its `dn_exists`: each entry goes to the
-- backend of its name, or to the one that `force` names. `force` is MySQL or PostgreSQL only where the
-- installation has no Spanner, and a forced name is one that can be routed, since `dn_exists_rdbm` asks
-- for its backend again. The parser of LDIF files is a parameter, and so are the servers.
pub mod Local
mod Tests
use community_edition_setup.Prelude.{
  ℕ, String, ◌<>◌, Bool, true, false, ◌&&◌, ◌||◌, ◌==◌, Option, none, some, List, [], ◌∷◌,
  if◌then◌else◌, any, Result, ok, err, or_raise, map_ok, ◌>>=◌,
}
use community_edition_setup.Prelude.Dict
use community_edition_setup.Prelude.Dict.{Dict, contains}
use community_edition_setup.Config.{Config, BackendType, ldap, couchbase, mysql, pgsql, spanner}
use community_edition_setup.Dn.{Rdn}
use community_edition_setup.Rdbm.Types.{Schema}
use community_edition_setup.Routing.{get_backend_location_for_dn}
use community_edition_setup.Loading.{Entry, Row, Table, Database}
use community_edition_setup.Loading.Writes.{Write, Current, find_table}
use community_edition_setup.Loading.Attributes.{Json, Parsers, AttribDataTypes}
use community_edition_setup.Loading.Sql.{dn_is, sql_entry}
use community_edition_setup.Loading.Spanner.{spanner_entry}
use community_edition_setup.Loading.Couchbase.{
  Cluster, is_true, couchbase_entry, couchbase_dn_exists,
}
use community_edition_setup.Loading.Ldap.{Directory, is_found, ldap_entry, ldap_dn_exists}

-- `spanner_client`: the tables, whether a table has a row of a name, the row of a document with one
-- column, and a write.
pub record SpannerServer (P : Type 0) : Type 0 where
  pub tables : P → List String
  pub has : P → String → String → Bool
  pub select : P → String → String → String → List (Dict Current)
  pub write_data : Write → P → P

-- What the code takes from elsewhere: the servers and the libraries.
pub record Services (D C P : Type 0) : Type 0 where
  pub directory : Directory D
  pub cluster : Cluster C
  pub spanner_client : SpannerServer P
  pub parsers : Parsers
  pub dumps : Json → String
  pub digest : String → String
  pub parse_dn : String → Option (List Rdn)
  pub like_end : String → String → Bool
  pub accepts : Table → Row → Bool
  pub parse_ldif : String → Result (List (String × Entry))

-- What each server holds.
pub record Stores (D C P : Type 0) : Type 0 where
  pub in_ldap : D
  pub in_cluster : C
  pub in_sql : Database
  pub in_spanner : P

module _ {D C P : Type 0} (cfg : Config) (schema : Schema) (types : AttribDataTypes)
    (sv : Services D C P) where
  -- The directory as a part of all stores.
  abbrev pub whole_directory : Directory (Stores D C P)
  whole_directory = record {
    search = λ st dn. sv.directory.search st.in_ldap dn;
    modify =
        λ st dn attr how vs. record st { in_ldap = sv.directory.modify st.in_ldap dn attr how vs };
    add = λ st dn entry. record st { in_ldap = sv.directory.add st.in_ldap dn entry };
  }

  pub sql_has : (String → Bool) → Database → Bool
  sql_has test [] = false
  sql_has test ((name, table) ∷ db) = any (dn_is test) table.rows || sql_has test db

  pub sql_dn_exists : String → Database → Bool
  unfolding sql_has
  sql_dn_exists dn db = sql_has (λ t. t == dn) db || sql_has (λ t. sv.like_end t dn) db

  -- The row is looked for in the table `None` where no table has the name.
  spanner_dn_exists : String → P → Bool
  unfolding find_table
  spanner_dn_exists dn s =
      let has : String → Bool = λ t. sv.spanner_client.has s t dn in
      elim (find_table has (sv.spanner_client.tables s)) [ some t ↦ has t | none ↦ has "None" ]

  json_exists : Option Json → Bool
  unfolding is_true
  json_exists none = false
  json_exists (some j) = is_true j

  exists_in : Option BackendType → String → Stores D C P → Result (Stores D C P × Bool)
  unfolding sql_dn_exists spanner_dn_exists json_exists ldap_dn_exists couchbase_dn_exists
  exists_in (some mysql) dn st = ok (st, sql_dn_exists dn st.in_sql)
  exists_in (some pgsql) dn st = ok (st, sql_dn_exists dn st.in_sql)
  exists_in (some spanner) dn st = ok (st, spanner_dn_exists dn st.in_spanner)
  exists_in (some ldap) dn st =
      map_ok (λ found. (st, is_found found))
        (ldap_dn_exists whole_directory sv.parsers types sv.parse_dn dn st)
  exists_in _ dn st = do
    found ←
        couchbase_dn_exists cfg sv.parsers sv.dumps types sv.parse_dn sv.cluster dn st.in_cluster
    ok (record st { in_cluster = found.0 }, json_exists found.1)

  unfoldable pub dn_exists : String → Stores D C P → Result (Stores D C P × Bool)
  unfolding exists_in
  dn_exists dn st = do
    location ← get_backend_location_for_dn cfg sv.parse_dn dn
    exists_in location dn st

  write_all : List Write → P → P
  write_all [] s = s
  write_all (w ∷ ws) s = write_all ws (sv.spanner_client.write_data w s)

  to_sql : String → Entry → Stores D C P → Result (Stores D C P)
  to_sql dn entry st =
      map_ok (λ db. record st { in_sql = db })
        (sql_entry schema cfg.rdbm_type sv.parse_dn sv.like_end sv.accepts dn entry st.in_sql)

  to_spanner : String → Entry → Stores D C P → Result (Stores D C P)
  unfolding write_all
  to_spanner dn entry st =
      let client = sv.spanner_client in
      let s = st.in_spanner in
      map_ok (λ ws. record st { in_spanner = write_all ws s })
        (spanner_entry schema cfg.rdbm_type sv.digest sv.parse_dn (client.tables s) (client.has s)
          (client.select s) dn entry)

  to_couchbase : Option String → String → Entry → Stores D C P → Result (Stores D C P)
  unfolding couchbase_entry
  to_couchbase bucket dn entry st =
      map_ok (λ s. record st { in_cluster = s })
        (couchbase_entry cfg sv.parsers sv.dumps types sv.parse_dn sv.cluster bucket dn entry
          st.in_cluster)

  -- The branches of the loop; a name without a backend is passed over.
  unfoldable pub import_to :
      Option BackendType → Option String → String → Entry → Stores D C P → Result (Stores D C P)
  unfolding dn_exists to_sql to_spanner to_couchbase ldap_entry
  import_to (some ldap) bucket dn entry st = ldap_entry whole_directory dn_exists dn entry st
  import_to (some mysql) bucket dn entry st = to_sql dn entry st
  import_to (some pgsql) bucket dn entry st = to_sql dn entry st
  import_to (some spanner) bucket dn entry st = to_spanner dn entry st
  import_to (some couchbase) bucket dn entry st = to_couchbase bucket dn entry st
  import_to none bucket dn entry st = ok st

  -- `force if force else self.get_backend_location_for_dn(dn)`
  unfoldable pub location_of : Option BackendType → String → Result (Option BackendType)
  location_of (some force) dn = ok (some force)
  location_of none dn = get_backend_location_for_dn cfg sv.parse_dn dn

  unfoldable pub import_entry :
      Option String → Option BackendType → String → Entry → Stores D C P → Result (Stores D C P)
  unfolding import_to location_of
  import_entry bucket force dn entry st = do
    location ← location_of force dn
    import_to location bucket dn entry st

  unfoldable pub import_entries :
      Option String
      → Option BackendType
      → List (String × Entry)
      → Stores D C P
      → Result (Stores D C P)
  unfolding import_entry
  import_entries bucket force [] st = ok st
  import_entries bucket force ((dn, entry) ∷ entries) st = do
    next ← import_entry bucket force dn entry st
    import_entries bucket force entries next

  unfoldable pub import_files :
      Option String → Option BackendType → List String → Stores D C P → Result (Stores D C P)
  unfolding import_entries
  import_files bucket force [] st = ok st
  import_files bucket force (file ∷ files) st = do
    entries ← sv.parse_ldif file
    next ← import_entries bucket force entries st
    import_files bucket force files next

  -- Nothing is loaded without `Config.loadData`.
  unfoldable pub import_ldif :
      Bool → List String → Option String → Option BackendType → Stores D C P → Result (Stores D C P)
  unfolding import_files
  import_ldif load_data files bucket force st =
      let loaded = import_files bucket force files st in if load_data then loaded else ok st
