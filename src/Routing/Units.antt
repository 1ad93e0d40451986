-- ===== src/Routing/Units.antt =====
-- Entries by the organizational unit that they stand below.
use mathlib.Core.List.{reverse-append, reverse-reverse}
use text.Mathlib.TextLemmas.{nil-append, cons-append}
use community_edition_setup.Prelude.{
  String, ◌<>◌, ◌≡◌, refl, ◌∙◌, ◌≢◌, Bool, true, false, List, [], ◌∷◌, ◌++◌, arith, eq_iff, sym, ap,
  all, reverse, some, none, Option, ok,
}
use community_edition_setup.Prelude.Text.{has_code, join}
use community_edition_setup.Prelude.Dict
use community_edition_setup.Config.{Config}
use community_edition_setup.Dn.{Rdn, is_root, key_parts, key_of, get_key_from}
use community_edition_setup.Dn.Keys.{key_parts-append, get_key_from_lem}
use community_edition_setup.Routing.{prefix_from, group_of, get_key_prefix, get_group_for_key}
use community_edition_setup.Routing.{
  get_bucket_for_key, get_bucket_for_dn, get_backend_location_for_dn, location_for_key,
  location_of_store,
}
use community_edition_setup.Routing.Groups.{skips, get_group_for_key-default}
use community_edition_setup.Prelude.{map_ok, or_raise, key_error}

prefix_from_of_plain : (v : String) → has_code b'_' v ≡ false → prefix_from v ≡ none
unfolding prefix_from has_code
prefix_from_of_plain String.[] h = refl
prefix_from_of_plain (String.◌∷◌ c v) h = ground (arith, prefix_from_of_plain v)

prefix_from-append :
    (v rest : String) → has_code b'_' v ≡ false → prefix_from (v <> ("_" <> rest)) ≡ some (v <> "_")
unfolding prefix_from has_code
prefix_from-append String.[] rest h = rw (nil-append ("_" <> rest), cons-append, nil-append)
prefix_from-append (String.◌∷◌ c v) rest h =
    simp cons-append (ground (arith, prefix_from-append v rest))

-- A component that `get_key_from` leaves out, at every place of a list.
abbrev pub roots : List Rdn → Bool
roots = all is_root

key_parts_of_roots : (rs : List Rdn) → roots rs ≡ true → key_parts rs ≡ []
unfolding key_parts
key_parts_of_roots [] h = refl
key_parts_of_roots (r ∷ rs) h = ground (arith, key_parts_of_roots rs)

unit_alone :
    (unit : Rdn) (rs : List Rdn)
    → is_root unit ≡ false
    → roots rs ≡ true
    → key_parts (unit ∷ rs) ≡ unit.value ∷ []
unfolding key_parts
unit_alone unit rs u h = rw (u, key_parts_of_roots rs h)

-- The value of the unit comes first in the key of whatever stands below it.
unit_parts :
    (below : List Rdn) (unit : Rdn) (rs : List Rdn)
    → is_root unit ≡ false
    → roots rs ≡ true
    → reverse (key_parts (below ++ unit ∷ rs)) ≡ unit.value ∷ reverse (key_parts below)
unit_parts below unit rs u h =
    ap reverse
      (key_parts-append below (unit ∷ rs) ∙ ap (λ t. key_parts below ++ t) (unit_alone unit rs u h))
    ∙ reverse-append (key_parts below) (unit.value ∷ [])

-- `_` stands in the joined text of two parts at least.
join_two :
    (v : String) (ps : List String)
    → ps ≢ []
    → (rest : String) × (join "_" (v ∷ ps) ≡ v <> ("_" <> rest))
unfolding join
join_two v [] h = absurd (h refl)
join_two v (p ∷ ps) h = (join "_" (p ∷ ps), refl)

prefix_of_joined :
    (v : String) (ps : List String)
    → has_code b'_' v ≡ false
    → ps ≢ []
    → prefix_from (join "_" (v ∷ ps)) ≡ some (v <> "_")
prefix_of_joined v ps plain h =
    let (rest, e) = join_two v ps h in rw e (prefix_from-append v rest plain)

prefix_from-ne-nil : (s p : String) → prefix_from s ≡ some p → s ≢ ""
unfolding prefix_from
prefix_from-ne-nil s p h e = cc (rw e at h)

reverse-ne-nil {ℓ} : {A : Type ℓ} (xs : List A) → xs ≢ [] → reverse xs ≢ []
reverse-ne-nil xs h e = h (sym (reverse-reverse xs) ∙ ap reverse e)

-- Every entry below a unit, at whatever depth, has the unit's value and `_` for its key's prefix.
get_key_prefix-key_of :
    (below : List Rdn) (unit : Rdn) (rs : List Rdn)
    → is_root unit ≡ false
    → roots rs ≡ true
    → has_code b'_' unit.value ≡ false
    → key_parts below ≢ []
    → get_key_prefix (key_of (below ++ unit ∷ rs)) ≡ unit.value <> "_"
unfolding get_key_prefix key_of
get_key_prefix-key_of below unit rs u h plain deep =
    let ps = reverse (key_parts below) in
    let start = prefix_of_joined unit.value ps plain (reverse-ne-nil (key_parts below) deep) in
    rw (unit_parts below unit rs u h)
      (ground (arith, start, prefix_from-ne-nil _ _ start, eq_iff (join "_" (unit.value ∷ ps)) ""))

module _ (parse_dn : String → Option (List Rdn)) (unit : Rdn) (not_root : is_root unit ≡ false)
    (plain : has_code b'_' unit.value ≡ false) where
  -- An entry below the unit: its name has components, not all `o=gluu`, in front of the unit's.
  pub record StandsBelow (dn : String) : Type 0 where
    pub below : List Rdn
    pub rest : List Rdn
    pub parsed : parse_dn dn ≡ some (below ++ unit ∷ rest)
    pub to_root : roots rest ≡ true
    pub deep : key_parts below ≢ []

  unit_key :
      (dn : String) (b : StandsBelow dn)
      → get_key_from parse_dn dn ≡ ok (key_of (b.below ++ unit ∷ b.rest))
  unit_key dn b = get_key_from_lem parse_dn dn _ b.parsed

  same_group :
      (cfg : Config) (dn dn' : String) (b : StandsBelow dn) (b' : StandsBelow dn')
      → get_group_for_key cfg (key_of (b.below ++ unit ∷ b.rest))
        ≡ get_group_for_key cfg (key_of (b'.below ++ unit ∷ b'.rest))
  unfolding get_group_for_key
  same_group cfg dn dn' b b' =
      ap (λ p. group_of p cfg.bucket_dict)
        (get_key_prefix-key_of b.below unit b.rest not_root b.to_root plain b.deep
          ∙ sym (get_key_prefix-key_of b'.below unit b'.rest not_root b'.to_root plain b'.deep))

  -- All entries below one organizational unit, at whatever depth, lie in one backend and in one
  -- bucket, if the unit's value has no `_` in it.
  pub location-unit :
      (cfg : Config) (dn dn' : String)
      → StandsBelow dn
      → StandsBelow dn'
      → (get_backend_location_for_dn cfg parse_dn dn ≡ get_backend_location_for_dn cfg parse_dn dn')
        × (get_bucket_for_dn cfg parse_dn dn ≡ get_bucket_for_dn cfg parse_dn dn')
  unfolding get_backend_location_for_dn get_bucket_for_dn location_for_key get_bucket_for_key
  location-unit cfg dn dn' b b' = (
    rw (unit_key dn b, unit_key dn' b') (rw (same_group cfg dn dn' b b')),
    rw (unit_key dn b, unit_key dn' b') (rw (same_group cfg dn dn' b b')),
  )

key_of_unit :
    (unit : Rdn) (rs : List Rdn)
    → is_root unit ≡ false
    → roots rs ≡ true
    → unit.value ≢ ""
    → key_of (unit ∷ rs) ≡ unit.value
unfolding key_of join
key_of_unit unit rs u h ne = rw (unit_alone unit rs u h) (ground (arith, eq_iff unit.value ""))

group_of_plain :
    (cfg : Config) (key : String)
    → has_code b'_' key ≡ false
    → all (skips "") cfg.bucket_dict ≡ true
    → get_group_for_key cfg key ≡ "default"
unfolding get_key_prefix
group_of_plain cfg key plain d =
    get_group_for_key-default cfg key (rw (prefix_from_of_plain key plain) d)

-- The own entry of a unit whose value has no `_` and is not empty goes where the default group goes, if no group
-- lists the empty prefix.
pub location-unit_itself :
    (cfg : Config) (parse_dn : String → Option (List Rdn)) (dn : String) (unit : Rdn)
    (rs : List Rdn)
    → parse_dn dn ≡ some (unit ∷ rs)
    → is_root unit ≡ false
    → roots rs ≡ true
    → has_code b'_' unit.value ≡ false
    → unit.value ≢ ""
    → all (skips "") cfg.bucket_dict ≡ true
    → (get_bucket_for_dn cfg parse_dn dn ≡ ok cfg.couchbase_bucket_prefix)
      × (get_backend_location_for_dn cfg parse_dn dn
          ≡ map_ok
              (location_of_store cfg)
              (or_raise key_error (Dict.get cfg.mapping_locations "default")))
unfolding get_backend_location_for_dn get_bucket_for_dn location_for_key get_bucket_for_key
location-unit_itself cfg parse_dn dn unit rs p u h plain ne d =
    let key = get_key_from_lem parse_dn dn _ p ∙ ap ok (key_of_unit unit rs u h ne) in
    let group = group_of_plain cfg unit.value plain d in (rw key (rw group), rw key (rw group))
