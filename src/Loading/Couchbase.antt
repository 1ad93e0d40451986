-- ===== src/Loading/Couchbase.antt =====
-- Loading the entries of an LDIF file into Couchbase: the branch of `import_ldif` of
-- setup_app/utils/db_utils.py for it, with `check_attribute_exists`, and the branch of `dn_exists`. The
-- server and `json.dumps` are parameters; the queries are the texts that the server is sent.
pub mod Finding
mod Tests
use Prim.Native.Char.{code}
use Prim.Native.String
use community_edition_setup.Prelude.{
  ℕ, suc, ◌=ℕ◌, String, ◌<>◌, Bool, true, false, not, ◌&&◌, ◌||◌, Option, none, some, List, [], ◌∷◌,
  ◌==◌, ltb, length, if◌then◌else◌, Result, ok, err, key_error, type_error, or_raise, map_ok, ◌>>=◌,
}
use community_edition_setup.Prelude.Decimal.{decimal}
use community_edition_setup.Prelude.Int.{ℤ, pos, negsuc}
use community_edition_setup.Prelude.Dict
use community_edition_setup.Prelude.Dict.{Dict, contains}
use community_edition_setup.Config.{Config}
use community_edition_setup.Dn.{Rdn, get_key_from}
use community_edition_setup.Routing.{get_bucket_for_key, get_bucket_for_dn}
use community_edition_setup.Loading.{Entry}
use community_edition_setup.Loading.Attributes.{
  Json, null, bool, literal, string, array, object, Items, nil, cons, Fields, end, field, Value,
  text, number, flag, loaded, Parsers, AttribDataTypes,
}
use community_edition_setup.Loading.Document.{
  Content, single, several, Document, get_document_from_entry,
}

-- A document as `json.dumps` is given it.
unfoldable pub value_json : Value → Json
value_json (text s) = string s
value_json (number (pos n)) = literal (decimal n)
value_json (number (negsuc n)) = literal ("-" <> decimal (suc n))
value_json (flag b) = bool b
value_json (loaded j) = j

unfoldable pub items_json : List Value → Items
unfolding value_json
items_json [] = nil
items_json (v ∷ vs) = cons (value_json v) (items_json vs)

unfoldable pub content_json : Content → Json
unfolding value_json items_json
content_json (single v) = value_json v
content_json (several vs) = array (items_json vs)

unfoldable pub fields_json : Document → Fields
unfolding content_json
fields_json [] = end
fields_json ((k, c) ∷ doc) = field k (content_json c) (fields_json doc)

-- What counts as true. A number does if a digit in front of its exponent is not 0.
unfoldable pub is_zero : String → Bool
is_zero String.[] = true
is_zero (String.◌∷◌ c s) =
    let rest = is_zero s in
    if code c =ℕ b'e' || code c =ℕ b'E'
    then true
    else (code c =ℕ b'0' || code c =ℕ b'.' || code c =ℕ b'-') && rest

unfoldable pub is_true : Json → Bool
unfolding is_zero
is_true null = false
is_true (bool b) = b
is_true (literal s) = not (is_zero s)
is_true (string s) = not (s == "")
is_true (array nil) = false
is_true (array (cons j items)) = true
is_true (object end) = false
is_true (object (field k j fields)) = true

-- The answer to a query: `result.ok`, and the rows under `results`, which are none where it is
-- missing.
pub record Reply : Type 0 where
  pub good : Bool
  pub results : List (Dict Json)

-- The server: `cbm.exec_query`, on a state of its own.
pub record Cluster (S : Type 0) : Type 0 where
  pub exec_query : String → S → S × Reply

update_query : String → String → String → String → String
update_query bucket key attribute given =
    "UPDATE `"
    <> (bucket <> ("` USE KEYS \"" <> (key <> ("\" SET `" <> (attribute <> ("`=" <> given))))))

append_query : String → String → String → String → String
unfolding update_query
append_query bucket key attribute given =
    update_query bucket key attribute ("ARRAY_APPEND(`" <> (attribute <> ("`, " <> (given <> ")"))))

unfoldable pub upsert_query : String → String → String → String
upsert_query bucket key given =
    "UPSERT INTO `"
    <> (bucket <> ("` (KEY, VALUE) VALUES (\"" <> (key <> ("\", " <> (given <> ")")))))

unfoldable pub select_query : String → String → String
select_query bucket key = "SELECT * FROM `" <> (bucket <> ("` USE KEYS \"" <> (key <> "\"")))

attribute_query : String → String → String → String
attribute_query attribute bucket key =
    "SELECT `" <> (attribute <> ("` FROM `" <> (bucket <> ("` USE KEYS \"" <> (key <> "\"")))))

-- The text under `replace` or `add`: a list is no key of a dict, and another value is in none.
unfoldable pub attribute_of : Content → Result String
attribute_of (single (text s)) = ok s
attribute_of (single (loaded (string s))) = ok s
attribute_of (single (loaded (array items))) = err type_error
attribute_of (single (loaded (object fields))) = err type_error
attribute_of (single v) = err key_error
attribute_of (several vs) = err type_error

-- `json.loads(document[k])` where it gives a dict.
unfoldable pub expanded : (String → Option Json) → String → Value → Value
expanded loads s v = elim (loads s) [ some (object fields) ↦ loaded (object fields) | _ ↦ v ]

unfoldable pub expand : (String → Option Json) → Content → Content
unfolding expanded
expand loads (single (text s)) = single (expanded loads s (text s))
expand loads (single (loaded (string s))) = single (expanded loads s (loaded (string s)))
expand loads c = c

unfoldable pub expand_all : (String → Option Json) → Document → Document
unfolding expand
expand_all loads [] = []
expand_all loads ((k, c) ∷ doc) = (k, expand loads c) ∷ expand_all loads doc

-- `if attribute in attribDataTypes.listAttributes and not isinstance(data, list)`
as_list : Bool → Content → Content
as_list true (single v) = several (v ∷ [])
as_list _ c = c

-- `r and r[0].get(attribute)`
unfoldable pub has_value : String → List (Dict Json) → Bool
unfolding is_true
has_value attribute [] = false
has_value attribute (r ∷ rows) = elim (Dict.get r attribute) [ some j ↦ is_true j | none ↦ false ]

module _ (dumps : Json → String) where
  pub append_queries : String → String → String → Content → List String
  unfolding append_query
  append_queries bucket key attribute (single v) =
      append_query bucket key attribute (dumps (value_json v)) ∷ []
  append_queries bucket key attribute (several []) = []
  append_queries bucket key attribute (several (v ∷ vs)) =
      append_query bucket key attribute (dumps (value_json v))
      ∷ append_queries bucket key attribute (several vs)

-- What is stored for a document.
unfoldable pub stored : Parsers → Document → Json
stored p doc = object (fields_json (expand_all p.loads doc))

-- `dn_exists`: the first row's value under the name of the bucket.
unfoldable pub row_value : String → Reply → Result (Option Json)
row_value bucket reply = elim reply.results [
  | [] ↦ ok none
  | row ∷ rows ↦
      if reply.good then map_ok some (or_raise key_error (Dict.get row bucket)) else ok none
]

module _ (cfg : Config) (p : Parsers) (dumps : Json → String) (types : AttribDataTypes)
    (parse_dn : String → Option (List Rdn)) {S : Type 0} (cluster : Cluster S) where
  unfoldable pub exec_all : List String → S → S
  exec_all [] s = s
  exec_all (q ∷ qs) s = exec_all qs (cluster.exec_query q s).0

  -- Whether the attribute has a value that counts as true. The bucket is the key's own.
  pub check_attribute_exists : String → String → S → S × Bool
  unfolding attribute_query
  check_attribute_exists key attribute s =
      let answer =
        cluster.exec_query (attribute_query attribute (get_bucket_for_key cfg key) key) s in
      (answer.0, answer.1.good && has_value attribute answer.1.results)

  replace_in : String → String → Document → Content → S → Result S
  unfolding update_query
  replace_in bucket key doc name s = do
    attribute ← attribute_of name
    given ← or_raise key_error (Dict.get doc attribute)
    ok (cluster.exec_query (update_query bucket key attribute (dumps (content_json given))) s).0

  add_in : String → String → Document → Content → S → Result S
  unfolding check_attribute_exists append_queries update_query as_list
  add_in bucket key doc name s = do
    attribute ← attribute_of name
    let there = check_attribute_exists key attribute s
    given ← or_raise key_error (Dict.get doc attribute)
    let new = content_json (as_list (contains types.list_attributes attribute) given)
    ok (
        if there.1
        then exec_all (append_queries dumps bucket key attribute given) there.0
        else (cluster.exec_query (update_query bucket key attribute (dumps new)) there.0).0)

  unfoldable pub upsert : String → String → Document → S → S
  upsert bucket key doc s =
      (cluster.exec_query (upsert_query bucket key (dumps (stored p doc))) s).0

  -- By what stands under `changetype`, `replace` and `add`.
  unfoldable pub write_change :
      String → String → Document → Option Content → Option Content → Option Content → S → Result S
  unfolding upsert replace_in add_in
  write_change bucket key doc none replace add s = ok (upsert bucket key doc s)
  write_change bucket key doc (some changetype) (some name) add s = replace_in bucket key doc name s
  write_change bucket key doc (some changetype) none (some name) s = add_in bucket key doc name s
  write_change bucket key doc (some changetype) none none s = ok s

  unfoldable pub write_document : String → String → Document → S → Result S
  unfolding write_change
  write_document bucket key doc s =
      write_change bucket key doc (Dict.get doc "changetype") (Dict.get doc "replace")
        (Dict.get doc "add") s

  -- `bucket if bucket else self.get_bucket_for_dn(dn)`
  unfoldable pub cur_bucket : Option String → String → Result String
  cur_bucket none dn = get_bucket_for_dn cfg parse_dn dn
  cur_bucket (some b) dn = if b == "" then get_bucket_for_dn cfg parse_dn dn else ok b

  unfoldable pub write_found : Option String → String → Option (String × Document) → S → Result S
  unfolding write_document
  write_found bucket dn none s = err type_error
  write_found bucket dn (some (key, doc)) s = do
    b ← cur_bucket bucket dn
    write_document b key doc s

  -- An entry of fewer than three attributes is passed over.
  unfoldable pub couchbase_entry : Option String → String → Entry → S → Result S
  unfolding write_found
  couchbase_entry bucket dn entry s =
      let written =
        (get_document_from_entry p types parse_dn dn entry >>= λ found.
        write_found bucket dn found s) in
      if ltb (length entry) 3 then ok s else written

  unfoldable pub couchbase_dn_exists : String → S → Result (S × Option Json)
  unfolding row_value
  couchbase_dn_exists dn s = do
    bucket ← get_bucket_for_dn cfg parse_dn dn
    key ← get_key_from parse_dn dn
    let answer = cluster.exec_query (select_query bucket key) s
    found ← row_value bucket answer.1
    ok (answer.0, found)
