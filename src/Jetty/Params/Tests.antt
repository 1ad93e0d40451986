-- ===== src/Jetty/Params/Tests.antt =====
-- Setting a port in the lines of an ini file.
use community_edition_setup.Prelude.{String, ◌<>◌, ◌≡◌, refl, List, [], ◌∷◌}
use community_edition_setup.Prelude.Text.{starts_with, is_infix, strip, lstrip, rstrip, is_space}
use community_edition_setup.Jetty.Params.{matches, set_line, set_jetty_param}
use community_edition_setup.Jetty.Params.Setting.{
  SetsLine, set_jetty_param-set_jetty_param, set_jetty_param-SetsLine,
}

abbrev ini : List String
ini = "--module=http" ∷ "# jetty.http.port=8080" ∷ "jetty.http.host=localhost" ∷ []

port_is_set :
    set_jetty_param "jetty.http.port" "8081" ini
    ≡ "--module=http" ∷ "jetty.http.port=8081" ∷ "jetty.http.host=localhost" ∷ []
unfolding set_jetty_param set_line matches starts_with is_infix strip lstrip rstrip is_space
port_is_set = refl

second_port_counts :
    set_jetty_param "jetty.http.port" "8082" (set_jetty_param "jetty.http.port" "8081" ini)
    ≡ set_jetty_param "jetty.http.port" "8082" ini
unfolding is_space
second_port_counts = set_jetty_param-set_jetty_param "j" "etty.http.port" "8081" "8082" ini refl

set_jetty_param-SetsLine_example :
    SetsLine "jetty.http.port"
      ("jetty.http.port" <> ("=" <> "8081"))
      ini
      (set_jetty_param "jetty.http.port" "8081" ini)
set_jetty_param-SetsLine_example = set_jetty_param-SetsLine "jetty.http.port" "8081" ini
