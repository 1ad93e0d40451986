-- ===== src/Jetty/Memory/Overdrawn.antt =====
-- A limit that is too small for OpenDJ.
use community_edition_setup.Prelude.{
  ℕ, zero, suc, ◌+◌, ◌*◌, ◌≤◌, ◌<◌, ◌-◌, String, ◌≡◌, refl, ◌∙◌, ap, subst, true, List, [], ◌∷◌,
  ltb, arith, ok,
}
use community_edition_setup.Prelude.Int.{
  ℤ, pos, negsuc, negate, sub_ℕ, pos_part, round_div, round_div_ℤ,
}
use community_edition_setup.Prelude.Rounding.{round_div_upper}
use community_edition_setup.Prelude.Dict.{Dict}
use community_edition_setup.Jetty.Memory.{
  Weight, MemoryConfig, scale, share_of, Share, shares, Split, choose_split, split_ram,
}
use community_edition_setup.Jetty.Memory.Rounds.{
  sum_max, share_of_upper, shares-cons, shares-nil, cancel, split_ram-Parts, total_weight-opendj,
}

-- A limit below `opendj_ram` leaves less than nothing.
negate-pos_part : (n : ℕ) → pos_part (negate n) ≡ 0
negate-pos_part zero = refl
negate-pos_part (suc n) = refl

round_div-zero : (b : ℕ) → 0 < b → round_div 0 b ≡ 0
round_div-zero b h = cancel_zero b (round_div 0 b) h (round_div_upper 0 b h)
  where
    cancel_zero : (b q : ℕ) → 0 < b → b * q + b * q ≤ 0 + 0 + b → q ≡ 0
    cancel_zero b q h le = let two = cancel b q 1 h (omega arith) in omega arith

round_div_ℤ-pos_part : (z : ℤ) (b : ℕ) → 0 < b → pos_part z ≡ 0 → pos_part (round_div_ℤ z b) ≡ 0
unfolding round_div_ℤ
round_div_ℤ-pos_part (pos n) b h e = rw e (round_div-zero b h)
round_div_ℤ-pos_part (negsuc n) b h e = negate-pos_part (round_div (suc n) b)

scale_negative : (w n : ℕ) → pos_part (scale w (negsuc n)) ≡ 0
unfolding scale
scale_negative w n = ground arith

share_of_negative : (w n total : ℕ) (m : ℤ) → share_of w (negsuc n) total ≡ ok m → pos_part m ≡ 0
unfolding share_of
share_of_negative w n total m h =
    ground (arith, round_div_ℤ-pos_part (scale w (negsuc n)) total, scale_negative w n)

shares_negative :
    (weights : Dict Weight) (apps : List String) (n total : ℕ) (ss : List Share)
    → shares weights apps (negsuc n) total ≡ ok ss
    → sum_max ss ≡ 0
shares_negative weights [] n total ss h = rw (shares-nil weights (negsuc n) total ss h)
shares_negative weights (app ∷ apps) n total ss h =
    let a = shares-cons weights app apps (negsuc n) total ss h in
    let e : ss ≡ record { app = app; max_mem = a.m; min_mem = a.w.min } ∷ a.rest = cc a.all in
    rw e (
      omega (
        arith,
        share_of_negative a.w.weigth n total a.m a.share,
        shares_negative weights apps n total a.rest a.others,
      ))

share-le :
    (w r ram total : ℕ) (m : ℤ)
    → total ≡ w + r
    → share_of w (pos ram) total ≡ ok m
    → pos_part m ≤ ram
share-le w r ram total m t h =
    let (positive, own) = share_of_upper w ram total m h in
    let twice =
      cancel total (pos_part m) (ram + ram + 1) positive
        (omega (arith, ap (λ (x : ℕ). x * ram) t)) in
    omega arith

-- Where OpenDJ runs on this machine and the limit is below `opendj_ram`, OpenDJ gets more than the
-- limit and no application gets a size above 0.
pub memory-overdrawn :
    (c : MemoryConfig) (ram : ℕ) (apps : List String) (sp : Split) (ss : List Share)
    → c.local_ldap ≡ true
    → ram < c.opendj_ram
    → split_ram c ram apps ≡ ok sp
    → shares c.weights apps sp.ram sp.total ≡ ok ss
    → (ram < sp.opendj_max) × (sum_max ss ≡ 0)
unfolding choose_split
memory-overdrawn c ram apps sp ss l short h k =
    let p = split_ram-Parts c ram apps sp h in
    let (a, t) =
      total_weight-opendj c apps p.w p.apps_total p.total l p.found p.apps_ok p.total_ok in
    let small = share-le p.w.weigth p.apps_total ram p.total p.share t p.share_ok in
    let less : ltb (pos_part p.share) c.opendj_ram ≡ true = ground arith in
    let left : sub_ℕ ram c.opendj_ram ≡ negsuc (c.opendj_ram - ram - 1) = ground arith in
    let e : sp ≡ record {
      opendj_max = c.opendj_ram;
      ram = negsuc (c.opendj_ram - ram - 1);
      total = p.apps_total;
    } =
      p.chosen ∙ rw less (rw left) in
    rw e (
      short,
      shares_negative c.weights apps _ p.apps_total ss
          (subst (λ (s : Split). shares c.weights apps s.ram s.total ≡ ok ss) e k),
    )
