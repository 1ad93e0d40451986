-- ===== src/Loading/Attributes.antt =====
-- The types of attributes that Couchbase keeps: setup_app/utils/attributes.py. The contents of the two
-- JSON files are arguments, and so are the parser of JSON and `strptime` with `strftime`.
use Prim.Native.Char.{code}
use community_edition_setup.Prelude.{
  ◌||◌, ◌=ℕ◌, String, ◌<>◌, Bool, false, Option, none, some, List, [], ◌∷◌, ◌++◌, ◌==◌,
  if◌then◌else◌, any, Result, ok, key_error, value_error, or_raise, map_ok, ◌>>=◌,
}
use community_edition_setup.Prelude.Text.{lower, codes, same_codes, is_infix}
use community_edition_setup.Prelude.Int.{ℤ, parse_int}
use community_edition_setup.Prelude.Dict
use community_edition_setup.Prelude.Dict.{Dict, contains}
use community_edition_setup.Rdbm.Types.{GluuAttribute}

-- What `json.loads` makes of a text; a number is kept as it is written.
mutual
  pub data Json : Type 0 where
    null : Json
    bool : Bool → Json
    literal : String → Json
    string : String → Json
    array : Items → Json
    object : Fields → Json

  pub data Items : Type 0 where
    nil : Items
    cons : Json → Items → Items

  pub data Fields : Type 0 where
    end : Fields
    field : String → Json → Fields → Fields

-- A typed value of a document.
pub data Value : Type 0 where
  text : String → Value
  number : ℤ → Value
  flag : Bool → Value
  loaded : Json → Value

-- `loads` is `json.loads`, `none` where it raises. `reformat` reads a time, with a fraction or without
-- one, and writes it in the form of ISO 8601; it is `none` where `strptime` raises.
pub record Parsers : Type 0 where
  pub loads : String → Option Json
  pub reformat : Bool → String → Option String

-- `listAttributes` and `attribTypes`.
pub record AttribDataTypes : Type 0 where
  pub list_attributes : List String
  pub attrib_types : Dict (List String)

-- `gluu_schema.json`, of which an object class can be `multivalued` too.
pub record GluuSchema : Type 0 where
  pub object_classes : List GluuAttribute
  pub attribute_types : List GluuAttribute

abbrev pub syntax_type : Dict String
syntax_type =
    ("1.3.6.1.4.1.1466.115.121.1.7", "boolean")
    ∷ ("1.3.6.1.4.1.1466.115.121.1.27", "integer")
    ∷ ("1.3.6.1.4.1.1466.115.121.1.24", "datetime")
    ∷ []

abbrev type_of_syntax : Option String → String
type_of_syntax none = "string"
type_of_syntax (some t) = t

unfoldable pub type_of : GluuAttribute → String
type_of a = if a.multivalued then "json" else type_of_syntax (Dict.get syntax_type a.syntax)

-- `self.attribTypes[atype].append(name)` for each name.
unfoldable pub add_names : String → List String → Dict (List String) → Result (Dict (List String))
add_names atype [] types = ok types
add_names atype (name ∷ names) types = do
  old ← or_raise key_error (Dict.get types atype)
  add_names atype names (Dict.set types atype (old ++ name ∷ []))

unfoldable pub add_attributes :
    List GluuAttribute → Dict (List String) → Result (Dict (List String))
unfolding type_of add_names
add_attributes [] types = ok types
add_attributes (a ∷ attributes) types = do
  next ← add_names (type_of a) a.names types
  add_attributes attributes next

abbrev pub append_new : List String → List String → List String
append_new [] names = names
append_new (n ∷ ns) names = append_new ns (if contains names n then names else names ++ n ∷ [])

unfoldable pub list_names : List GluuAttribute → List String → List String
list_names [] names = names
list_names (a ∷ attributes) names =
    list_names attributes (if a.multivalued then append_new a.names names else names)

abbrev with_type : String → Dict (List String) → Dict (List String)
with_type t types = if contains (Dict.keys types) t then types else Dict.set types t []

-- `AttribDataTypes()`, from the types of OpenDJ and the schema.
unfoldable pub attrib_data_types : Dict (List String) → GluuSchema → Result AttribDataTypes
unfolding add_attributes list_names
attrib_data_types opendj_types schema = do
  let known = with_type "datetime" (with_type "integer" (with_type "boolean" opendj_types))
  types ← add_attributes schema.attribute_types (with_type "json" known)
  ok (record {
    list_attributes =
        list_names schema.attribute_types (list_names schema.object_classes ("member" ∷ []));
    attrib_types = types;
  })

-- `getAttribDataType`: the first type that lists the attribute.
unfoldable pub type_in : Dict (List String) → String → String
type_in [] attrib = "string"
type_in ((atype, names) ∷ types) attrib =
    if contains names attrib then atype else type_in types attrib

unfoldable pub get_attrib_data_type : AttribDataTypes → String → String
unfolding type_in
get_attrib_data_type t attrib = type_in t.attrib_types attrib

abbrev yes_words : List String
yes_words = "true" ∷ "yes" ∷ "1" ∷ "on" ∷ []

abbrev number_or : String → Option ℤ → Value
number_or s none = text s
number_or s (some n) = number n

unfoldable pub ends_with_z : String → Bool
ends_with_z String.[] = false
ends_with_z (String.◌∷◌ c String.[]) = code c =ℕ b'z' || code c =ℕ b'Z'
ends_with_z (String.◌∷◌ c (String.◌∷◌ d s)) = ends_with_z (String.◌∷◌ d s)

-- `val += 'Z'` unless it ends with one of either case.
abbrev with_zone : String → String
with_zone s = if ends_with_z s then s else s <> "Z"

-- `getTypedValue` of a text. The module does not import `json`, so that `json.loads` raises there, which
-- is ignored: a text of the type `json` stays a text.
unfoldable pub get_typed_value : Parsers → String → String → Result Value
get_typed_value p dtype s =
    if dtype == "integer"
    then ok (number_or s (parse_int s))
    else if dtype == "datetime"
    then map_ok text (or_raise value_error (p.reformat (is_infix "." s) (with_zone s)))
    else if dtype == "boolean"
    then ok (flag (any (λ w. same_codes (lower s) (codes w)) yes_words))
    else ok (text s)
