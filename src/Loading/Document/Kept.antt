-- ===== src/Loading/Document/Kept.antt =====
-- What a document keeps of its entry: the names of the attributes, and the values of texts.
use mathlib.Core.Option
use community_edition_setup.Prelude.{
  String, ◌≡◌, refl, sym, ap, ◌∙◌, inl, inr, false, Option, none, some, [], ◌∷◌, ◌==◌, ok,
  >>=-eq-ok, arith, eq_iff, Bool-cases, map, length, not, ◌||◌, ◌=ℕ◌, List, Bool, true,
}
use community_edition_setup.Prelude.Dict
use community_edition_setup.Prelude.Dict.{Dict, contains}
use community_edition_setup.Rdbm.Values.{Val, one}
use community_edition_setup.Loading.{Entry}
use community_edition_setup.Loading.Attributes.{
  Value, text, Parsers, AttribDataTypes, get_attrib_data_type,
}
use community_edition_setup.Loading.Document.{
  Content, Document, unwrap, unwrap_val, plain, typed_content, content_of, contents, with_dn,
  single, several, texts,
}

keys-unwrap : (t : AttribDataTypes) (entry : Entry) → Dict.keys (unwrap t entry) ≡ Dict.keys entry
unfolding unwrap
keys-unwrap t [] = refl
keys-unwrap t ((k, vs) ∷ entry) = ap (λ ks. k ∷ ks) (keys-unwrap t entry)

contains-set :
    {V : Type 0} (d : Dict V) (k j : String) (v : V)
    → (k == j) ≡ false
    → contains (Dict.keys (Dict.set d k v)) j ≡ contains (Dict.keys d) j
unfolding Dict.set
contains-set [] k j v h = ground (arith, eq_iff j k, eq_iff k j)
contains-set ((i, w) ∷ d) k j v h = ground (arith, contains-set d k j v h, eq_iff i k)

returned : {A : Type 0} {x y : A} → ok x ≡ ok y → x ≡ y
returned h = cc

either_name :
    (j k : String) (val : Val) (c : Content) (v : Dict Val) (doc : Document)
    → (j ≡ k → c ≡ plain val)
    → Dict.get doc k ≡ Option.map plain (Dict.get v k)
    → Dict.get ((j, c) ∷ doc) k ≡ Option.map plain (Dict.get ((j, val) ∷ v) k)
unfolding Dict.get
either_name j k val c v doc here later = elim (Bool-cases (j == k)) [
  | inl same ↦ rw (same) (ap some (here ((eq_iff j k).0 same)))
  | inr differs ↦ rw (differs) later
]

-- The values of a content, and whether they stand in a list.
abbrev pub values : Content → List Value
values (single v) = v ∷ []
values (several vs) = vs

abbrev pub is_list : Content → Bool
is_list (single v) = false
is_list (several vs) = true

texts-map : (vs : List String) → texts vs ≡ map text vs
texts-map [] = refl
texts-map (v ∷ vs) = ap (λ ws. text v ∷ ws) (texts-map vs)

values_kept :
    (listed : Bool) (vs : List String) → values (plain (unwrap_val listed vs)) ≡ map text vs
values_kept true vs = texts-map vs
values_kept false [] = refl
values_kept false (v ∷ []) = refl
values_kept false (v ∷ w ∷ vs) = texts-map (v ∷ w ∷ vs)

is_list_kept :
    (listed : Bool) (vs : List String)
    → is_list (plain (unwrap_val listed vs)) ≡ (listed || not (length vs =ℕ 1))
is_list_kept true vs = refl
is_list_kept false [] = refl
is_list_kept false (v ∷ []) = refl
is_list_kept false (v ∷ w ∷ vs) = ground arith

map-same :
    {A B : Type 0} (f g : A → B)
    → ((x : A) → f x ≡ g x)
    → (o : Option A) → Option.map f o ≡ Option.map g o
map-same f g h none = refl
map-same f g h (some x) = ap some (h x)

map-twice :
    {A B C : Type 0} (f : A → B) (g : B → C) (o : Option A)
    → Option.map g (Option.map f o) ≡ Option.map (λ x. g (f x)) o
map-twice f g none = refl
map-twice f g (some x) = refl

get-unwrap :
    (t : AttribDataTypes) (entry : Entry) (k : String)
    → Dict.get (unwrap t entry) k
      ≡ Option.map (unwrap_val (contains t.list_attributes k)) (Dict.get entry k)
unfolding unwrap Dict.get
get-unwrap t [] k = refl
get-unwrap t ((j, vs) ∷ entry) k = ground (arith, get-unwrap t entry k, eq_iff j k)

module _ (p : Parsers) (t : AttribDataTypes) where
  keys-contents :
      (v : Dict Val) (doc : Document) → contents p t v ≡ ok doc → Dict.keys doc ≡ Dict.keys v
  unfolding contents
  keys-contents [] doc h = cc
  keys-contents ((k, val) ∷ v) doc h =
      let (c, read, rest) = >>=-eq-ok (content_of p t k val) _ h in
      let (doc', later, made) = >>=-eq-ok (contents p t v) _ rest in
      sym (ap Dict.keys (returned made)) ∙ ap (λ ks. k ∷ ks) (keys-contents v doc' later)

  -- An attribute that the entry does not have, other than `dn`, is not in its document.
  pub contains-contents :
      (dn : String) (entry : Entry) (doc : Document) (k : String)
      → contents p t (with_dn p t dn entry) ≡ ok doc
      → ("dn" == k) ≡ false
      → contains (Dict.keys doc) k ≡ contains (Dict.keys entry) k
  unfolding with_dn
  contains-contents dn entry doc k h other =
      ap (λ ks. contains ks k) (keys-contents _ doc h)
      ∙ contains-set (unwrap t entry) "dn" k (one dn) other
      ∙ ap (λ ks. contains ks k) (keys-unwrap t entry)

  content_of_plain :
      (k : String) (val : Val)
      → get_attrib_data_type t k ≡ "string"
      → (k == "objectClass") ≡ false
      → content_of p t k val ≡ ok (plain val)
  unfolding content_of typed_content
  content_of_plain k val str other = rw (str, other) refl

  get-contents :
      (v : Dict Val) (doc : Document) (k : String)
      → contents p t v ≡ ok doc
      → get_attrib_data_type t k ≡ "string"
      → (k == "objectClass") ≡ false
      → Dict.get doc k ≡ Option.map plain (Dict.get v k)
  unfolding contents Dict.get
  get-contents [] doc k h str other = sym (ap (λ d. Dict.get d k) (returned h))
  get-contents ((j, val) ∷ v) doc k h str other =
      let (c, read, rest) = >>=-eq-ok (content_of p t j val) _ h in
      let (doc', later, made) = >>=-eq-ok (contents p t v) _ rest in
      sym (ap (λ d. Dict.get d k) (returned made))
      ∙ either_name j k val c v doc'
          (λ same. returned (sym read ∙ content_of_plain j val (rw same str) (rw same other)))
          (get-contents v doc' k later str other)

  texts_of_entry :
      (dn : String) (entry : Entry) (k : String)
      → ("dn" == k) ≡ false
      → Dict.get (with_dn p t dn entry) k
        ≡ Option.map (unwrap_val (contains t.list_attributes k)) (Dict.get entry k)
  unfolding with_dn
  texts_of_entry dn entry k differs =
      Dict.get-set (unwrap t entry) "dn" k (one dn) ∙ rw (differs) (get-unwrap t entry k)

  document_content :
      (dn : String) (entry : Entry) (doc : Document) (k : String)
      → contents p t (with_dn p t dn entry) ≡ ok doc
      → ("dn" == k) ≡ false
      → get_attrib_data_type t k ≡ "string"
      → (k == "objectClass") ≡ false
      → Dict.get doc k
        ≡ Option.map (λ vs. plain (unwrap_val (contains t.list_attributes k) vs)) (Dict.get entry k)
  document_content dn entry doc k h differs str other =
      get-contents _ doc k h str other
      ∙ ap (Option.map plain) (texts_of_entry dn entry k differs)
      ∙ map-twice _ _ (Dict.get entry k)

  -- An attribute of texts, other than `dn` and the object class, is in a document exactly where the
  -- entry has it. Its values there are those of the entry, all of them and in their order; they
  -- stand in a list, but for an attribute with one value that is none of the list attributes, whose
  -- value stands alone.
  pub document-texts :
      (dn : String) (entry : Entry) (doc : Document) (k : String)
      → contents p t (with_dn p t dn entry) ≡ ok doc
      → ("dn" == k) ≡ false
      → get_attrib_data_type t k ≡ "string"
      → (k == "objectClass") ≡ false
      → (contains (Dict.keys doc) k ≡ contains (Dict.keys entry) k)
        × (Option.map values (Dict.get doc k) ≡ Option.map (map text) (Dict.get entry k))
        × (Option.map is_list (Dict.get doc k)
            ≡ Option.map
                (λ vs. contains t.list_attributes k || not (length vs =ℕ 1))
                (Dict.get entry k))
  document-texts dn entry doc k h differs str other =
      let e = document_content dn entry doc k h differs str other in
      (
        contains-contents dn entry doc k h differs,
        ap (Option.map values) e
            ∙ map-twice _ values (Dict.get entry k)
            ∙ map-same _ _ (values_kept (contains t.list_attributes k)) (Dict.get entry k),
        ap (Option.map is_list) e
            ∙ map-twice _ is_list (Dict.get entry k)
            ∙ map-same _ _ (is_list_kept (contains t.list_attributes k)) (Dict.get entry k),
      )
