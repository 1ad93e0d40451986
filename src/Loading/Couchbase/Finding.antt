-- ===== src/Loading/Couchbase/Finding.antt =====
-- A loaded entry is found again.
use community_edition_setup.Prelude.{
  String, ◌≡◌, refl, ◌∙◌, true, false, Option, none, some, List, [], ◌∷◌, ltb, length, ok, map_ok,
  ◌>>=◌, arith, eq_refl,
}
use community_edition_setup.Prelude.Dict
use community_edition_setup.Prelude.Dict.{Dict, contains}
use community_edition_setup.Config.{Config}
use community_edition_setup.Dn.{Rdn, get_key_from}
use community_edition_setup.Routing.{get_bucket_for_dn}
use community_edition_setup.Loading.{Entry}
use community_edition_setup.Loading.Attributes.{Json, Parsers, AttribDataTypes}
use community_edition_setup.Loading.Document.{Document, contents, with_dn, get_document_from_entry}
use community_edition_setup.Loading.Document.Kept.{contains-contents}
use community_edition_setup.Loading.Couchbase.{
  Cluster, upsert_query, select_query, stored, upsert, write_change, write_document, write_found,
  cur_bucket, couchbase_entry, row_value, couchbase_dn_exists,
}

module _ (cfg : Config) (p : Parsers) (dumps : Json → String) (types : AttribDataTypes)
    (parse_dn : String → Option (List Rdn)) {S : Type 0} (cluster : Cluster S) where
  -- After the document has been stored under the key, selecting the key gives it, in one row.
  pub record Selects (bucket key : String) (j : Json) : Type 0 where
    pub selected :
        (s : S)
        → (cluster.exec_query
            (select_query bucket key)
            (cluster.exec_query (upsert_query bucket key (dumps j)) s).0).1
          ≡ record { good = true; results = ((bucket, j) ∷ []) ∷ [] }

  write_new :
      (bucket key : String) (doc : Document) (s : S)
      → Dict.get doc "changetype" ≡ none
      → write_document cfg p dumps types parse_dn cluster bucket key doc s
        ≡ ok (upsert cfg p dumps types parse_dn cluster bucket key doc s)
  unfolding write_document write_change
  write_new bucket key doc s new = rw new refl

  row_of_bucket :
      (bucket : String) (j : Json)
      → row_value bucket (record { good = true; results = ((bucket, j) ∷ []) ∷ [] }) ≡ ok (some j)
  unfolding row_value Dict.get
  row_of_bucket bucket j = rw (eq_refl bucket) refl

  -- A document for a new entry, and where it goes.
  pub record IsNew (dn : String) (entry : Entry) (bucket key : String) (doc : Document)
      : Type 0 where
    pub long : ltb (length entry) 3 ≡ false
    pub plain : contains (Dict.keys entry) "changetype" ≡ false
    pub made : contents p types (with_dn p types dn entry) ≡ ok doc
    pub keyed : get_key_from parse_dn dn ≡ ok key
    pub placed : get_bucket_for_dn cfg parse_dn dn ≡ ok bucket

  document_of :
      (dn : String) (entry : Entry) (bucket key : String) (doc : Document)
      → IsNew dn entry bucket key doc
      → get_document_from_entry p types parse_dn dn entry ≡ ok (some (key, doc))
  unfolding get_document_from_entry
  document_of dn entry bucket key doc n = rw (n.keyed, n.made) (ground (arith, n.long))

  pub new_entry :
      (dn : String) (entry : Entry) (bucket key : String) (doc : Document) (s : S)
      → IsNew dn entry bucket key doc
      → couchbase_entry cfg p dumps types parse_dn cluster none dn entry s
        ≡ ok (upsert cfg p dumps types parse_dn cluster bucket key doc s)
  unfolding couchbase_entry write_found cur_bucket
  new_entry dn entry bucket key doc s n =
      rw (n.long, document_of dn entry bucket key doc n, n.placed)
        (write_new bucket key doc s (
          Dict.get_of_not_contains doc "changetype"
            (contains-contents p types dn entry doc "changetype" n.made refl ∙ n.plain)))

  -- An entry of three attributes or more, without a `changetype`, is stored under its key in the
  -- bucket of its name, where `dn_exists` finds the document, if the server gives back what it has
  -- stored.
  pub couchbase_dn_exists-couchbase_entry :
      (dn : String) (entry : Entry) (bucket key : String) (doc : Document) (s : S)
      → IsNew dn entry bucket key doc
      → Selects bucket key (stored p doc)
      → map_ok
          (λ found. found.1)
          (couchbase_entry cfg p dumps types parse_dn cluster none dn entry s
            >>= couchbase_dn_exists cfg p dumps types parse_dn cluster dn)
        ≡ ok (some (stored p doc))
  unfolding couchbase_dn_exists upsert
  couchbase_dn_exists-couchbase_entry dn entry bucket key doc s n law =
      rw
        (
          new_entry dn entry bucket key doc s n,
          n.placed,
          n.keyed,
          law.selected s,
          row_of_bucket bucket (stored p doc),
        )
        refl
