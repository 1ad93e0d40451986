-- ===== src/Jetty/Memory.antt =====
-- `calculate_aplications_memory` and `calculate_selected_aplications_memory` of
-- setup_app/installers/jetty.py. Sizes are whole numbers of MB.
pub mod Rounds
pub mod Bounds
pub mod Overdrawn
pub mod Total
mod Tests
use community_edition_setup.Prelude.{
  ℕ, ◌+◌, ◌*◌, String, ◌<>◌, Bool, true, false, ◌&&◌, List, [], ◌∷◌, ◌++◌, ltb, ◌=ℕ◌, if◌then◌else◌,
  Result, ok, err, key_error, zero_division, or_raise, ◌>>=◌,
}
use community_edition_setup.Prelude.Int.{ℤ, pos, sub_ℕ, pos_part, neg_part, round_div_ℤ}
use community_edition_setup.Prelude.Dict
use community_edition_setup.Prelude.Dict.{Dict}

-- A value of `app_mem_weigths`.
pub record Weight : Type 0 where
  pub weigth : ℕ
  pub min : ℕ

-- The attributes of `Config` that the calculation reads: the weights, `opendj_ram`, and whether
-- `ldap_install` is `LOCAL`.
pub record MemoryConfig : Type 0 where
  pub weights : Dict Weight
  pub opendj_ram : ℕ
  pub local_ldap : Bool

-- `templateRenderingDict` and `os.environ`, where a number stands for its text.
pub record Settings : Type 0 where
  pub rendering : Dict ℤ
  pub environ : Dict ℤ

-- The first loop: every known application gets its minimum for both sizes.
defaults : Dict Weight → Dict ℤ → Dict ℤ
defaults [] d = d
defaults ((app, w) ∷ ws) d =
    defaults ws
      (Dict.set (Dict.set d (app <> "_max_mem") (pos w.min)) (app <> "_min_mem") (pos w.min))

pub sum_weights : Dict Weight → List String → Result ℕ
sum_weights weights [] = ok 0
sum_weights weights (app ∷ apps) = do
  w ← or_raise key_error (Dict.get weights app)
  rest ← sum_weights weights apps
  ok (w.weigth + rest)

-- `calulate_total_weigth`
pub total_weight : MemoryConfig → List String → Bool → Result ℕ
unfolding sum_weights
total_weight c apps withopendj = do
  apps_weight ← sum_weights c.weights apps
  if c.local_ldap && withopendj
      then (do w ← or_raise key_error (Dict.get c.weights "opendj"); ok (w.weigth + apps_weight))
      else ok apps_weight

-- `application_max_ram` times a weight, which may be negative after a subtraction.
scale : ℕ → ℤ → ℤ
scale w r = sub_ℕ (w * pos_part r) (w * neg_part r)

-- `round(weigth * ram / total)`
pub share_of : ℕ → ℤ → ℕ → Result ℤ
unfolding scale
share_of w ram total =
    if total =ℕ 0 then err zero_division else ok (round_div_ℤ (scale w ram) total)

-- What the last loop writes for each application: its share of `ram`, and its minimum.
pub record Share : Type 0 where
  pub app : String
  pub max_mem : ℤ
  pub min_mem : ℕ

pub shares : Dict Weight → List String → ℤ → ℕ → Result (List Share)
unfolding share_of
shares weights [] ram total = ok []
shares weights (app ∷ apps) ram total = do
  w ← or_raise key_error (Dict.get weights app)
  max_mem ← share_of w.weigth ram total
  rest ← shares weights apps ram total
  ok (record { app = app; max_mem = max_mem; min_mem = w.min } ∷ rest)

write_shares : List Share → Dict ℤ → Dict ℤ
write_shares [] d = d
write_shares (s ∷ ss) d =
    write_shares ss
      (Dict.set (Dict.set d (s.app <> "_max_mem") s.max_mem) (s.app <> "_min_mem") (pos s.min_mem))

-- What is decided before the last loop: the heap of OpenDJ, the memory that is left for the
-- applications, and the weight that they share it by.
pub record Split : Type 0 where
  pub opendj_max : ℕ
  pub ram : ℤ
  pub total : ℕ

-- OpenDJ gets its share of the memory, or `opendj_ram` off the top if the share is less.
pub choose_split : ℕ → ℕ → ℕ → ℕ → ℕ → Split
choose_split opendj_ram ram share total apps_total =
    if ltb share opendj_ram
    then record { opendj_max = opendj_ram; ram = sub_ℕ ram opendj_ram; total = apps_total }
    else record { opendj_max = share; ram = pos ram; total = total }

pub split_ram : MemoryConfig → ℕ → List String → Result Split
unfolding total_weight share_of choose_split
split_ram c ram apps = do
  total ← total_weight c apps true
  w ← or_raise key_error (Dict.get c.weights "opendj")
  share ← share_of w.weigth (pos ram) total
  apps_total ← total_weight c apps false
  ok (choose_split c.opendj_ram ram (pos_part share) total apps_total)

opendj_environ : MemoryConfig → ℕ → Dict ℤ → Result (Dict ℤ)
opendj_environ c opendj_max env = do
  w ← or_raise key_error (Dict.get c.weights "opendj")
  ok (Dict.set (Dict.set env "ce_ldap_xms" (pos w.min)) "ce_ldap_xmx" (pos opendj_max))

finish : MemoryConfig → List String → ℤ → ℕ → Dict ℤ → Dict ℤ → Result Settings
unfolding shares write_shares
finish c apps ram total rendering env = do
  ss ← shares c.weights apps ram total
  ok (record { rendering = write_shares ss rendering; environ = env })

unfoldable pub calculate_applications_memory :
    MemoryConfig → ℕ → List String → Settings → Result Settings
unfolding defaults total_weight split_ram opendj_environ finish
calculate_applications_memory c ram apps s =
    let d = defaults c.weights s.rendering in
    if c.local_ldap
    then (do
      sp ← split_ram c ram apps
      env ← opendj_environ c sp.opendj_max s.environ
      finish c apps sp.ram sp.total d env)
    else (do total ← total_weight c apps true; finish c apps (pos ram) total d s.environ)

-- The flags of the applications that `calculate_selected_aplications_memory` looks at.
pub record Selected : Type 0 where
  pub ox_auth : Bool
  pub ox_trust : Bool
  pub saml : Bool
  pub casa : Bool
  pub scim_server : Bool
  pub fido2 : Bool
  pub oxd : Bool
  pub passport : Bool

abbrev when : Bool → String → List String
when b app = if b then app ∷ [] else []

pub installed_components : Selected → List String
installed_components s =
    when s.ox_auth "oxauth"
    ++ (when s.ox_trust "identity"
        ++ (when s.saml "idp"
            ++ (when s.casa "casa"
                ++ (when s.scim_server "scim"
                    ++ (when s.fido2 "fido2"
                        ++ (when s.oxd "oxd" ++ when s.passport "passport"))))))

pub calculate_selected_applications_memory :
    MemoryConfig → ℕ → Selected → Settings → Result Settings
unfolding installed_components
calculate_selected_applications_memory c ram selected s =
    calculate_applications_memory c ram (installed_components selected) s
