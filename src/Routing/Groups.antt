-- ===== src/Routing/Groups.antt =====
-- Which group a key belongs to: the first that lists the key's prefix, or `default`; and the bucket.
use community_edition_setup.Prelude.{
  String, ◌<>◌, ◌≡◌, refl, ◌∙◌, Bool, true, [], ◌∷◌, ◌++◌, arith, ◌==◌, eq_iff, sym, if◌then◌else◌,
  not, all,
}
use text.Mathlib.TextLemmas.{append_cancel_left}
use community_edition_setup.Prelude.{Bool-cases, inl, inr, ◌↔◌}
use community_edition_setup.Prelude.Joins.{append-ne_self}
use community_edition_setup.Prelude.Dict.{Dict, contains}
use community_edition_setup.Config.{Config, Bucket}
use community_edition_setup.Routing.{
  group_of, get_key_prefix, get_group_for_key, get_bucket_for_key,
}

-- A group of the table does not list the prefix.
abbrev pub skips : String → String × Bucket → Bool
skips prefix (_, b) = not (contains b.document_key_prefix prefix)

group_of-first :
    (prefix : String) (before : Dict Bucket) (group : String) (b : Bucket) (after : Dict Bucket)
    → all (skips prefix) before ≡ true
    → contains b.document_key_prefix prefix ≡ true
    → group_of prefix (before ++ (group, b) ∷ after) ≡ group
unfolding group_of
group_of-first prefix [] group b after h k = rw k
group_of-first prefix ((g, c) ∷ before) group b after h k =
    ground (arith, group_of-first prefix before group b after)

group_of-default :
    (prefix : String) (groups : Dict Bucket)
    → all (skips prefix) groups ≡ true
    → group_of prefix groups ≡ "default"
unfolding group_of
group_of-default prefix [] h = refl
group_of-default prefix ((g, c) ∷ groups) h = ground (arith, group_of-default prefix groups)

-- The group of a key is the first one of the bucket table that lists the key's prefix.
pub get_group_for_key-first :
    (cfg : Config) (key : String) (before : Dict Bucket) (group : String) (b : Bucket)
    (after : Dict Bucket)
    → cfg.bucket_dict ≡ before ++ (group, b) ∷ after
    → all (skips (get_key_prefix key)) before ≡ true
    → contains b.document_key_prefix (get_key_prefix key) ≡ true
    → get_group_for_key cfg key ≡ group
unfolding get_group_for_key
get_group_for_key-first cfg key before group b after e h k =
    rw e (group_of-first (get_key_prefix key) before group b after h k)

pub get_group_for_key-default :
    (cfg : Config) (key : String)
    → all (skips (get_key_prefix key)) cfg.bucket_dict ≡ true
    → get_group_for_key cfg key ≡ "default"
unfolding get_group_for_key
get_group_for_key-default cfg key h = group_of-default (get_key_prefix key) cfg.bucket_dict h

bucket_of : String → String → String
bucket_of start group = if group == "default" then start else start <> ("_" <> group)

bucket_of-inj : (start g h : String) → bucket_of start g ≡ bucket_of start h → g ≡ h
unfolding bucket_of
bucket_of-inj start g h e = elim (Bool-cases (g == "default")) [
  | inl p ↦ elim (Bool-cases (h == "default")) [
    | inl q ↦ (eq_iff g "default").0 p ∙ sym ((eq_iff h "default").0 q)
    | inr q ↦ absurd (append-ne_self start _ "" h (sym (rw (p, q) at e)))
  ]
  | inr p ↦ elim (Bool-cases (h == "default")) [
    | inl q ↦ absurd (append-ne_self start _ "" g (rw (p, q) at e))
    | inr q ↦
        append_cancel_left "_" g h (append_cancel_left start ("_" <> g) ("_" <> h) (rw (p, q) at e))
  ]
]

-- Two keys are stored in one Couchbase bucket exactly when they belong to one group.
pub get_bucket_for_key-eq_iff :
    (cfg : Config) (j k : String)
    → (get_bucket_for_key cfg j ≡ get_bucket_for_key cfg k)
      ↔ (get_group_for_key cfg j ≡ get_group_for_key cfg k)
unfolding get_bucket_for_key bucket_of
get_bucket_for_key-eq_iff cfg j k = (bucket_of-inj cfg.couchbase_bucket_prefix _ _, λ e. rw e)
