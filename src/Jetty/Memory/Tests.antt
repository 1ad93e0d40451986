-- ===== src/Jetty/Memory/Tests.antt =====
-- Memory of two applications and OpenDJ.
use community_edition_setup.Prelude.{
  ◌+◌, ◌*◌, ◌≤◌, ◌<◌, String, ◌≡◌, refl, List, [], ◌∷◌, ok, true, length, arith,
}
use community_edition_setup.Prelude.Int.{pos, negsuc, round_div, round_div_ℤ}
use community_edition_setup.Prelude.Dict
use community_edition_setup.Prelude.Dict.{Dict}
use community_edition_setup.Jetty.Memory.{
  Settings, Weight, MemoryConfig, Split, Share, split_ram, shares, share_of, scale, total_weight,
  sum_weights, choose_split,
}
use community_edition_setup.Jetty.Memory.Rounds.{sum_max}
use community_edition_setup.Jetty.Memory.Bounds.{memory-within}
use community_edition_setup.Jetty.Memory.Overdrawn.{memory-overdrawn}

abbrev weights : Dict Weight
weights =
    ("opendj", record { weigth = 75; min = 512 })
    ∷ ("oxauth", record { weigth = 50; min = 128 })
    ∷ ("identity", record { weigth = 75; min = 128 })
    ∷ []

abbrev local_ldap : MemoryConfig
local_ldap = record { weights = weights; opendj_ram = 1280; local_ldap = true }

abbrev apps : List String
apps = "oxauth" ∷ "identity" ∷ []

abbrev large : Split
large = record { opendj_max = 1875; ram = pos 5000; total = 200 }

abbrev large_shares : List Share
large_shares =
    record { app = "oxauth"; max_mem = pos 1250; min_mem = 128 }
    ∷ record { app = "identity"; max_mem = pos 1875; min_mem = 128 }
    ∷ []

split_large : split_ram local_ldap 5000 apps ≡ ok large
unfolding split_ram total_weight sum_weights share_of scale choose_split round_div_ℤ round_div
    Dict.get
split_large = refl

shares_large : shares weights apps (pos 5000) 200 ≡ ok large_shares
unfolding shares share_of scale round_div_ℤ round_div Dict.get
shares_large = refl

memory-within_example :
    (1280 ≤ 1875) × (2 * (1875 + sum_max large_shares) ≤ 2 * 5000 + length apps + 1)
memory-within_example =
    memory-within local_ldap 5000 apps large large_shares refl (omega arith) split_large
      shares_large

abbrev small : Split
small = record { opendj_max = 1280; ram = negsuc 279; total = 125 }

abbrev small_shares : List Share
small_shares =
    record { app = "oxauth"; max_mem = negsuc 111; min_mem = 128 }
    ∷ record { app = "identity"; max_mem = negsuc 167; min_mem = 128 }
    ∷ []

split_small : split_ram local_ldap 1000 apps ≡ ok small
unfolding split_ram total_weight sum_weights share_of scale choose_split round_div_ℤ round_div
    Dict.get
split_small = refl

shares_small : shares weights apps (negsuc 279) 125 ≡ ok small_shares
unfolding shares share_of scale round_div_ℤ round_div Dict.get
shares_small = refl

memory-overdrawn_example : (1000 < 1280) × (sum_max small_shares ≡ 0)
memory-overdrawn_example =
    memory-overdrawn local_ldap 1000 apps small small_shares refl (omega arith) split_small
      shares_small

abbrev nothing_set : Settings
nothing_set = record { rendering = []; environ = [] }
