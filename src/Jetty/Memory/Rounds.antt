-- ===== src/Jetty/Memory/Rounds.antt =====
-- The loops of the memory calculation, one round at a time, and the rounding of one share.
use native.Mathlib.Nat.{mul-add, le_of_mul-le-mul_left}
use community_edition_setup.Prelude.{
  ℕ, suc, ◌+◌, ◌*◌, ◌≤◌, ◌<◌, String, ◌≡◌, subst, true, false, List, [], ◌∷◌, length, arith, ok,
  key_error, or_raise, >>=-eq-ok,
}
use community_edition_setup.Prelude.Int.{ℤ, pos, pos_part, round_div_ℤ}
use community_edition_setup.Prelude.Rounding.{round_div_upper}
use community_edition_setup.Prelude.Dict
use community_edition_setup.Prelude.Dict.{Dict}
use community_edition_setup.Jetty.Memory.{
  Weight, MemoryConfig, sum_weights, total_weight, scale, share_of, Share, shares, Split,
  choose_split, split_ram,
}

-- The memory of all applications together.
abbrev pub sum_max : List Share → ℕ
sum_max [] = 0
sum_max (s ∷ ss) = pos_part s.max_mem + sum_max ss

pub share_of_upper :
    (w ram total : ℕ) (m : ℤ)
    → share_of w (pos ram) total ≡ ok m
    → (0 < total) × (total * pos_part m + total * pos_part m ≤ w * ram + w * ram + total)
unfolding share_of scale round_div_ℤ
share_of_upper w ram total m h = ground (arith, round_div_upper (w * ram) total)

-- One round of the loop, taken apart.
pub record Round (weights : Dict Weight) (app : String) (apps : List String) (ram : ℤ) (total : ℕ)
    (ss : List Share) : Type 0 where
  pub w : Weight
  pub found : or_raise key_error (Dict.get weights app) ≡ ok w
  pub m : ℤ
  pub share : share_of w.weigth ram total ≡ ok m
  pub rest : List Share
  pub others : shares weights apps ram total ≡ ok rest
  pub all : ok (record { app = app; max_mem = m; min_mem = w.min } ∷ rest) ≡ ok ss

pub shares-cons :
    (weights : Dict Weight) (app : String) (apps : List String) (ram : ℤ) (total : ℕ)
    (ss : List Share)
    → shares weights (app ∷ apps) ram total ≡ ok ss
    → Round weights app apps ram total ss
unfolding shares
shares-cons weights app apps ram total ss h =
    let (w, found, h1) = >>=-eq-ok (or_raise key_error (Dict.get weights app)) _ h in
    let (m, share, h2) = >>=-eq-ok (share_of w.weigth ram total) _ h1 in
    let (rest, others, all) = >>=-eq-ok (shares weights apps ram total) _ h2 in
    record { w = w; found = found; m = m; share = share; rest = rest; others = others; all = all }

pub record WeightRound (weights : Dict Weight) (app : String) (apps : List String) (sum : ℕ)
    : Type 0 where
  pub w : Weight
  pub found : or_raise key_error (Dict.get weights app) ≡ ok w
  pub rest : ℕ
  pub others : sum_weights weights apps ≡ ok rest
  pub all : sum ≡ w.weigth + rest

pub sum_weights-cons :
    (weights : Dict Weight) (app : String) (apps : List String) (sum : ℕ)
    → sum_weights weights (app ∷ apps) ≡ ok sum
    → WeightRound weights app apps sum
unfolding sum_weights
sum_weights-cons weights app apps sum h =
    let (w, found, h1) = >>=-eq-ok (or_raise key_error (Dict.get weights app)) _ h in
    let (rest, others, all) = >>=-eq-ok (sum_weights weights apps) _ h1 in
    record { w = w; found = found; rest = rest; others = others; all = cc }

step_upper :
    (t m s w r ram n : ℕ)
    → t * m + t * m ≤ w * ram + w * ram + t
    → t * s + t * s ≤ r * ram + r * ram + n * t
    → t * (m + s) + t * (m + s) ≤ (w + r) * ram + (w + r) * ram + suc n * t
step_upper t m s w r ram n h k = omega arith

pub shares-nil :
    (weights : Dict Weight) (ram : ℤ) (total : ℕ) (ss : List Share)
    → shares weights [] ram total ≡ ok ss
    → ss ≡ []
unfolding shares
shares-nil weights ram total ss h = cc

pub shares_upper :
    (weights : Dict Weight) (apps : List String) (ram total sum : ℕ) (ss : List Share)
    → shares weights apps (pos ram) total ≡ ok ss
    → sum_weights weights apps ≡ ok sum
    → total * sum_max ss + total * sum_max ss ≤ sum * ram + sum * ram + length apps * total
shares_upper weights [] ram total sum ss h k =
    rw (shares-nil weights (pos ram) total ss h) (omega arith)
shares_upper weights (app ∷ apps) ram total sum ss h k =
    let a = shares-cons weights app apps (pos ram) total ss h in
    let b = sum_weights-cons weights app apps sum k in
    let e : ss ≡ record { app = app; max_mem = a.m; min_mem = a.w.min } ∷ a.rest = cc a.all in
    let same : a.w ≡ b.w = cc (a.found, b.found) in
    rw (e, b.all)
      (step_upper total (pos_part a.m) (sum_max a.rest) b.w.weigth b.rest ram (length apps)
        (subst
          (λ (w : Weight).
            total * pos_part a.m + total * pos_part a.m ≤ w.weigth * ram + w.weigth * ram + total)
          same (share_of_upper a.w.weigth ram total a.m a.share).1)
        (shares_upper weights apps ram total b.rest a.rest a.others b.others))

pub cancel : (t s k : ℕ) → 0 < t → t * s + t * s ≤ t * k → s + s ≤ k
cancel t s k h le = le_of_mul-le-mul_left (omega (arith, mul-add t s s)) h

-- `split_ram` taken apart.
pub record Parts (c : MemoryConfig) (ram : ℕ) (apps : List String) (sp : Split) : Type 0 where
  pub total : ℕ
  pub total_ok : total_weight c apps true ≡ ok total
  pub w : Weight
  pub found : or_raise key_error (Dict.get c.weights "opendj") ≡ ok w
  pub share : ℤ
  pub share_ok : share_of w.weigth (pos ram) total ≡ ok share
  pub apps_total : ℕ
  pub apps_ok : total_weight c apps false ≡ ok apps_total
  pub chosen : sp ≡ choose_split c.opendj_ram ram (pos_part share) total apps_total

pub split_ram-Parts :
    (c : MemoryConfig) (ram : ℕ) (apps : List String) (sp : Split)
    → split_ram c ram apps ≡ ok sp
    → Parts c ram apps sp
unfolding split_ram
split_ram-Parts c ram apps sp h =
    let (total, total_ok, h1) = >>=-eq-ok (total_weight c apps true) _ h in
    let (w, found, h2) = >>=-eq-ok (or_raise key_error (Dict.get c.weights "opendj")) _ h1 in
    let (share, share_ok, h3) = >>=-eq-ok (share_of w.weigth (pos ram) total) _ h2 in
    let (apps_total, apps_ok, h4) = >>=-eq-ok (total_weight c apps false) _ h3 in
    record {
      total = total;
      total_ok = total_ok;
      w = w;
      found = found;
      share = share;
      share_ok = share_ok;
      apps_total = apps_total;
      apps_ok = apps_ok;
      chosen = cc;
    }

-- The weight with OpenDJ is its own and that of the applications.
pub total_weight-opendj :
    (c : MemoryConfig) (apps : List String) (w : Weight) (apps_total total : ℕ)
    → c.local_ldap ≡ true
    → or_raise key_error (Dict.get c.weights "opendj") ≡ ok w
    → total_weight c apps false ≡ ok apps_total
    → total_weight c apps true ≡ ok total
    → (sum_weights c.weights apps ≡ ok apps_total) × (total ≡ w.weigth + apps_total)
unfolding total_weight
total_weight-opendj c apps w apps_total total l f a t = ground arith
