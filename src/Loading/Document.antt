-- ===== src/Loading/Document.antt =====
-- The document of an entry for Couchbase: `get_document_from_entry` of setup_app/utils/ldif_utils.py.
pub mod Classes
pub mod Kept
pub mod Samples
mod Tests
use community_edition_setup.Prelude.{
  ℕ, String, Bool, true, false, not, ◌&&◌, ◌||◌, Option, none, some, List, [], ◌∷◌, ◌==◌, ◌=ℕ◌, ltb,
  length, if◌then◌else◌, Result, ok, err, value_error, index_error, type_error, attribute_error,
  map_ok, ◌>>=◌,
}
use community_edition_setup.Prelude.Text.{lower, codes, same_codes, is_infix}
use community_edition_setup.Prelude.Dict
use community_edition_setup.Prelude.Dict.{Dict, contains}
use community_edition_setup.Dn.{Rdn, get_key_from}
use community_edition_setup.Rdbm.Values.{Val, one, many}
use community_edition_setup.Loading.{Entry}
use community_edition_setup.Loading.Attributes.{
  Json, null, bool, literal, string, array, object, Value, text, number, flag, loaded, Parsers,
  AttribDataTypes, get_attrib_data_type, get_typed_value,
}

-- A value of a document: one, or a list.
pub data Content : Type 0 where
  single : Value → Content
  several : List Value → Content

abbrev pub Document : Type 0
Document = Dict Content

-- A list of one value becomes the value, unless its attribute is one of the lists. `dn` is a text.
abbrev pub unwrap_val : Bool → List String → Val
unwrap_val false (v ∷ []) = one v
unwrap_val false vs = many vs
unwrap_val true vs = many vs

-- The first character of a `dn` of one character is the same text.
unfoldable pub unwrap : AttribDataTypes → Entry → Dict Val
unwrap t [] = []
unwrap t ((k, vs) ∷ entry) = (k, unwrap_val (contains t.list_attributes k) vs) ∷ unwrap t entry

-- `== 'true'` and `== 'false'`, which hold for a text of JSON too.
abbrev pub is_word : String → Value → Bool
is_word w (text s) = s == w
is_word w (loaded (string s)) = s == w
is_word w v = false

abbrev pub truth_value : Value → Value
truth_value v = if is_word "true" v then flag true else if is_word "false" v then flag false else v

unfoldable pub typed_items : Parsers → String → List String → Result (List Value)
typed_items p dtype [] = ok []
typed_items p dtype (v ∷ vs) = do
  t ← get_typed_value p dtype v
  rest ← typed_items p dtype vs
  ok (truth_value t ∷ rest)

abbrev pub texts : List String → List Value
texts [] = []
texts (v ∷ vs) = text v ∷ texts vs

abbrev pub plain : Val → Content
plain (one s) = single (text s)
plain (many vs) = several (texts vs)

abbrev pub typed : Parsers → String → Val → Result Content
typed p dtype (one s) = map_ok single (get_typed_value p dtype s)
typed p dtype (many vs) = map_ok several (typed_items p dtype vs)

unfoldable pub typed_content : Parsers → String → Val → Result Content
unfolding typed_items
typed_content p dtype v = if dtype == "string" then ok (plain v) else typed p dtype v

-- `list.remove` of a text.
unfoldable pub remove_word : String → List Value → Result (List Value)
remove_word w [] = err value_error
remove_word w (v ∷ vs) =
    let rest = map_ok (λ r. v ∷ r) (remove_word w vs) in if is_word w v then ok vs else rest

-- `oc.lower()` needs a text; `'Custom' in oc` needs a text or a container.
abbrev pub word_of : Value → Result String
word_of (text s) = ok s
word_of (loaded (string s)) = ok s
word_of (loaded (array items)) = err attribute_error
word_of (loaded (object fields)) = err attribute_error
word_of v = err type_error

abbrev pub remove_if : Bool → String → List Value → Result (List Value)
remove_if test w vs = if test && ltb 1 (length vs) then remove_word w vs else ok vs

unfoldable pub starts_codes : List ℕ → List ℕ → Bool
starts_codes s [] = true
starts_codes [] (c ∷ p) = false
starts_codes (d ∷ s) (c ∷ p) = d =ℕ c && starts_codes s p

-- `p in s` by the numbers of the characters.
unfoldable pub infix_codes : List ℕ → List ℕ → Bool
unfolding starts_codes
infix_codes p [] = starts_codes [] p
infix_codes p (d ∷ s) = starts_codes (d ∷ s) p || infix_codes p s

-- `'gluu' in oc.lower()`
unfoldable pub has_gluu : String → Bool
unfolding infix_codes lower
has_gluu oc = infix_codes (codes "gluu") (lower oc)

-- One round of the loop over a copy of the classes.
unfoldable pub thin_out : String → List Value → Result (List Value)
unfolding remove_word
thin_out oc vs = do
  left ← remove_if (is_infix "Custom" oc) oc vs
  remove_if (not (has_gluu oc)) oc left

unfoldable pub thin_out_all : List Value → List Value → Result (List Value)
unfolding thin_out
thin_out_all [] left = ok left
thin_out_all (v ∷ copy) left = do oc ← word_of v; next ← thin_out oc left; thin_out_all copy next

abbrev pub first_value : List Value → Result Value
first_value [] = err index_error
first_value (v ∷ vs) = ok v

-- Lines 73 to 83: a single class has become a text, which has no `remove`.
unfoldable pub object_class : Content → Result Content
unfolding thin_out_all
object_class (single v) = err attribute_error
object_class (several vs) = do
  classes ← remove_word "top" vs
  left ← thin_out_all classes classes
  map_ok single (first_value left)

module _ (p : Parsers) (t : AttribDataTypes) where
  unfoldable pub content_of : String → Val → Result Content
  unfolding typed_content object_class
  content_of k v = do
    c ← typed_content p (get_attrib_data_type t k) v
    if k == "objectClass" then object_class c else ok c

  unfoldable pub contents : Dict Val → Result Document
  unfolding content_of
  contents [] = ok []
  contents ((k, v) ∷ entry) = do c ← content_of k v; rest ← contents entry; ok ((k, c) ∷ rest)

  -- The name is kept under `dn`, as a text.
  unfoldable pub with_dn : String → Entry → Dict Val
  unfolding unwrap
  with_dn dn entry = Dict.set (unwrap t entry) "dn" (one dn)

  module _ (parse_dn : String → Option (List Rdn)) where
    -- `none` where there are two attributes at most.
    unfoldable pub get_document_from_entry : String → Entry → Result (Option (String × Document))
    unfolding contents with_dn
    get_document_from_entry dn entry =
        let document = (do
          key ← get_key_from parse_dn dn
          found ← contents (with_dn dn entry)
          ok (some (key, found))) in
        if ltb 2 (length entry) then document else ok none
