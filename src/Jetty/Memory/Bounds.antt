-- ===== src/Jetty/Memory/Bounds.antt =====
-- The memory that is handed out stays within the limit that was entered, up to rounding.
use community_edition_setup.Prelude.{
  ℕ, ◌+◌, ◌*◌, ◌≤◌, ◌-◌, String, ◌≡◌, ◌∙◌, ap, subst, true, List, [], ◌∷◌, ltb, Bool-cases, inl,
  inr, length, arith, ok,
}
use community_edition_setup.Prelude.Int.{ℤ, pos, sub_ℕ, pos_part}
use community_edition_setup.Prelude.Dict.{Dict}
use community_edition_setup.Jetty.Memory.{
  Weight, MemoryConfig, sum_weights, share_of, Share, shares, Split, choose_split, split_ram,
}
use community_edition_setup.Jetty.Memory.Rounds.{
  sum_max, share_of_upper, shares-cons, shares_upper, shares-nil, cancel, split_ram-Parts,
  total_weight-opendj,
}

-- Any share of the applications is within the memory that is left for them.
apps_bound :
    (weights : Dict Weight) (apps : List String) (ram sum : ℕ) (ss : List Share)
    → shares weights apps (pos ram) sum ≡ ok ss
    → sum_weights weights apps ≡ ok sum
    → sum_max ss + sum_max ss ≤ ram + ram + length apps
apps_bound weights [] ram sum ss h k = rw (shares-nil weights (pos ram) sum ss h) (omega arith)
apps_bound weights (app ∷ apps) ram sum ss h k =
    let a = shares-cons weights app apps (pos ram) sum ss h in
    cancel sum (sum_max ss) _ (share_of_upper a.w.weigth ram sum a.m a.share).0
      (omega (arith, shares_upper weights (app ∷ apps) ram sum sum ss h k))

module _ (c : MemoryConfig) (ram : ℕ) (apps : List String) (ss : List Share)
    (room : c.opendj_ram ≤ ram) where
  Within : Split → Type 0
  Within sp =
      (c.opendj_ram ≤ sp.opendj_max)
      × (2 * (sp.opendj_max + sum_max ss) ≤ 2 * ram + length apps + 1)

  Within-off_top :
      (apps_total : ℕ)
      → sum_weights c.weights apps ≡ ok apps_total
      → shares c.weights apps (sub_ℕ ram c.opendj_ram) apps_total ≡ ok ss
      → Within
          (record { opendj_max = c.opendj_ram; ram = sub_ℕ ram c.opendj_ram; total = apps_total })
  unfolding Within
  Within-off_top apps_total a k =
      let left : sub_ℕ ram c.opendj_ram ≡ pos (ram - c.opendj_ram) = ground arith in
      omega (arith, apps_bound c.weights apps (ram - c.opendj_ram) apps_total ss (rw left at k) a)

  Within-shared :
      (w apps_total total : ℕ) (share : ℤ)
      → total ≡ w + apps_total
      → sum_weights c.weights apps ≡ ok apps_total
      → share_of w (pos ram) total ≡ ok share
      → c.opendj_ram ≤ pos_part share
      → shares c.weights apps (pos ram) total ≡ ok ss
      → Within (record { opendj_max = pos_part share; ram = pos ram; total = total })
  unfolding Within
  Within-shared w apps_total total share t a s enough k =
      let (positive, own) = share_of_upper w ram total share s in
      let others = shares_upper c.weights apps ram total apps_total ss k a in
      (
        enough,
        omega (
          arith,
          cancel total (pos_part share + sum_max ss) (ram + ram + length apps + 1) positive
              (omega (arith, ap (λ (x : ℕ). x * ram) t)),
        ),
      )

-- Where OpenDJ runs on this machine and the limit leaves room for `opendj_ram`: OpenDJ gets
-- `opendj_ram` at least, and OpenDJ and the applications together get the limit at most, up to half
-- a unit of rounding for each.
pub memory-within :
    (c : MemoryConfig) (ram : ℕ) (apps : List String) (sp : Split) (ss : List Share)
    → c.local_ldap ≡ true
    → c.opendj_ram ≤ ram
    → split_ram c ram apps ≡ ok sp
    → shares c.weights apps sp.ram sp.total ≡ ok ss
    → (c.opendj_ram ≤ sp.opendj_max)
      × (2 * (sp.opendj_max + sum_max ss) ≤ 2 * ram + length apps + 1)
unfolding Within choose_split
memory-within c ram apps sp ss l room h k =
    let p = split_ram-Parts c ram apps sp h in
    let (a, t) =
      total_weight-opendj c apps p.w p.apps_total p.total l p.found p.apps_ok p.total_ok in
    elim (Bool-cases (ltb (pos_part p.share) c.opendj_ram)) [
      | inl less ↦
          let e : sp ≡ record {
            opendj_max = c.opendj_ram;
            ram = sub_ℕ ram c.opendj_ram;
            total = p.apps_total;
          } =
            p.chosen ∙ rw less in
          rw e (
            Within-off_top c ram apps ss room p.apps_total a
              (subst (λ (s : Split). shares c.weights apps s.ram s.total ≡ ok ss) e k))
      | inr more ↦
          let e : sp ≡ record { opendj_max = pos_part p.share; ram = pos ram; total = p.total } =
            p.chosen ∙ rw more in
          rw e (
            Within-shared c ram apps ss room p.w.weigth p.apps_total p.total p.share t a p.share_ok
              (ground arith)
              (subst (λ (s : Split). shares c.weights apps s.ram s.total ≡ ok ss) e k))
    ]
