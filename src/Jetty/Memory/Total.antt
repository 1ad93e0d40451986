-- ===== src/Jetty/Memory/Total.antt =====
-- The calculation raises nothing for applications that have a weight.
use community_edition_setup.Prelude.{◌<◌, String, ◌≡◌, some}
use community_edition_setup.Prelude.Dict
use community_edition_setup.Prelude.Dict.{Dict}
use community_edition_setup.Jetty.Memory.{Weight}

-- An application with a weight above 0.
pub record HasWeight (weights : Dict Weight) (app : String) : Type 0 where
  pub w : Weight
  pub found : Dict.get weights app ≡ some w
  pub positive : 0 < w.weigth
