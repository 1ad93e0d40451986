-- ===== src/Fapolicyd/Tests.antt =====
-- One rule in a short file.
use community_edition_setup.Prelude.{
  String, ◌≡◌, refl, ◌⊎◌, ◌||◌, true, false, none, some, List, [], ◌∷◌, map, all, ◌==◌,
}
use community_edition_setup.Prelude.Text.{strip, lstrip, rstrip, is_space, starts_with}
use community_edition_setup.Prelude.Dict.{contains}
use community_edition_setup.Fapolicyd.{apply_fapolicyd_rules}
use community_edition_setup.Fapolicyd.Adding.{apply_fapolicyd_rules_lem}

abbrev file : List String
file = "%languages=python\n" ∷ "deny all\n" ∷ []

rule_is_added :
    apply_fapolicyd_rules ("allow uid=1" ∷ []) file
    ≡ some ("%languages=python" ∷ "\n" ∷ "allow uid=1" ∷ "deny all" ∷ [])
unfolding apply_fapolicyd_rules strip lstrip rstrip is_space starts_with
rule_is_added = refl

apply_fapolicyd_rules_lem_example :
    ((all (contains (map (strip is_space) file)) ("allow uid=1" ∷ []) ≡ true)
      × (apply_fapolicyd_rules ("allow uid=1" ∷ []) file ≡ none))
    ⊎ ((all (contains (map (strip is_space) file)) ("allow uid=1" ∷ []) ≡ false)
        × ((out : List String) × (apply_fapolicyd_rules ("allow uid=1" ∷ []) file ≡ some out)
            × ((k : String)
                → contains out k ≡ (
                    "\n" == k
                    || (contains ("allow uid=1" ∷ []) k
                        || contains (map (strip is_space) file) k)))))
apply_fapolicyd_rules_lem_example = apply_fapolicyd_rules_lem ("allow uid=1" ∷ []) file
