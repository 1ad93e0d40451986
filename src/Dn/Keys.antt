-- ===== src/Dn/Keys.antt =====
-- Keys of entries: the suffix `o=gluu` leaves no trace, and a child's key extends its parent's.
use mathlib.Core.List.{reverse-cons}
use text.Mathlib.TextLemmas.{append-eq-nil_iff}
use community_edition_setup.Prelude.{
  String, ◌<>◌, ◌≡◌, refl, sym, ◌∙◌, ap, ◌≢◌, true, false, Option, some, List, [], ◌∷◌, ◌++◌,
  reverse, arith, eq_iff, ok,
}
use community_edition_setup.Prelude.Text.{join}
use community_edition_setup.Prelude.Joins.{join-concat_of_ne_nil}
use community_edition_setup.Dn.{Rdn, is_root, key_parts, key_of, get_key_from}

pub key_parts-append : (xs ys : List Rdn) → key_parts (xs ++ ys) ≡ key_parts xs ++ key_parts ys
unfolding key_parts
key_parts-append [] ys = refl
key_parts-append (x ∷ xs) ys = ground (arith, key_parts-append xs ys)

key_parts-append_root :
    (xs : List Rdn) (r : Rdn) (ys : List Rdn)
    → is_root r ≡ true
    → key_parts (xs ++ r ∷ ys) ≡ key_parts (xs ++ ys)
key_parts-append_root xs r ys h =
    rw (key_parts-append xs (r ∷ ys), key_parts-append xs ys) (unfold key_parts in rw h)

pub get_key_from_lem :
    (parse_dn : String → Option (List Rdn)) (dn : String) (rds : List Rdn)
    → parse_dn dn ≡ some rds
    → get_key_from parse_dn dn ≡ ok (key_of rds)
unfolding get_key_from
get_key_from_lem parse_dn dn rds h = rw h

-- If two names differ only by a component `o=gluu`, wherever it stands, the entries have one key.
pub get_key_from-root :
    (parse_dn : String → Option (List Rdn)) (dn dn' : String) (xs : List Rdn) (r : Rdn)
    (ys : List Rdn)
    → parse_dn dn ≡ some (xs ++ r ∷ ys)
    → parse_dn dn' ≡ some (xs ++ ys)
    → is_root r ≡ true
    → get_key_from parse_dn dn ≡ get_key_from parse_dn dn'
get_key_from-root parse_dn dn dn' xs r ys p q h =
    rw (get_key_from_lem parse_dn dn _ p, get_key_from_lem parse_dn dn' _ q)
      (unfold key_of in rw (key_parts-append_root xs r ys h))

joined : List Rdn → String
joined rds = join "_" (reverse (key_parts rds))

joined-ne-nil : (rds : List Rdn) → key_of rds ≢ "_" → joined rds ≢ ""
unfolding key_of joined
joined-ne-nil rds h e = h (rw e)

key_of-joined : (rds : List Rdn) → joined rds ≢ "" → key_of rds ≡ joined rds
unfolding key_of joined
key_of-joined rds h = ground (arith, eq_iff (join "_" (reverse (key_parts rds))) "")

reverse-ne-nil : (rds : List Rdn) → joined rds ≢ "" → reverse (key_parts rds) ≢ []
unfolding joined join
reverse-ne-nil rds h e = h (rw e)

joined-cons :
    (rd : Rdn) (rds : List Rdn)
    → is_root rd ≡ false
    → joined rds ≢ ""
    → joined (rd ∷ rds) ≡ joined rds <> ("_" <> rd.value)
unfolding joined key_parts
joined-cons rd rds root h =
    rw (root, reverse-cons)
      (join-concat_of_ne_nil "_" (reverse (key_parts rds)) rd.value (reverse-ne-nil rds h))

joined-cons-ne-nil :
    (rd : Rdn) (rds : List Rdn) → is_root rd ≡ false → joined rds ≢ "" → joined (rd ∷ rds) ≢ ""
joined-cons-ne-nil rd rds root h e =
    h ((append-eq-nil_iff.0 (rw (joined-cons rd rds root h) at e)).0)

key_of-cons :
    (rd : Rdn) (rds : List Rdn)
    → is_root rd ≡ false
    → key_of rds ≢ "_"
    → key_of (rd ∷ rds) ≡ key_of rds <> ("_" <> rd.value)
key_of-cons rd rds root h =
    let own = joined-ne-nil rds h in
    key_of-joined (rd ∷ rds) (joined-cons-ne-nil rd rds root own)
    ∙ joined-cons rd rds root own
    ∙ ap (λ t. t <> ("_" <> rd.value)) (sym (key_of-joined rds own))

-- Below a parent that has a key of its own, the key of a child is the parent's, `_`, and the value
-- of the child's first component.
pub get_key_from-child :
    (parse_dn : String → Option (List Rdn)) (child parent : String) (rd : Rdn) (rds : List Rdn)
    {key : String}
    → parse_dn child ≡ some (rd ∷ rds)
    → parse_dn parent ≡ some rds
    → is_root rd ≡ false
    → get_key_from parse_dn parent ≡ ok key
    → key ≢ "_"
    → get_key_from parse_dn child ≡ ok (key <> ("_" <> rd.value))
get_key_from-child parse_dn child parent rd rds {key} p q root k h =
    rw (get_key_from_lem parse_dn child _ p)
      (rw (key_of-cons rd rds root (rw (← same) at h)) (rw same))
  where
    same : key_of rds ≡ key
    same = cc (k, get_key_from_lem parse_dn parent _ q)
