-- ===== src/Jetty/Params.antt =====
-- `set_jetty_param` of setup_app/installers/jetty.py, on the lines of an ini file. The parameter's
-- name is not empty: with an empty one the code reads `l[0]` of empty lines.
pub mod Setting
mod Tests
use community_edition_setup.Prelude.{String, ◌<>◌, Bool, ◌&&◌, ◌||◌, List, [], ◌∷◌, if◌then◌else◌}
use community_edition_setup.Prelude.Text.{starts_with, is_infix, strip, is_space}

-- The two tests of the loop: a comment that names the parameter, or a line that begins with it.
pub matches : String → String → Bool
matches param l = (is_infix param l && starts_with l "#") || starts_with (strip is_space l) param

-- The `for … else`: the first line that passes is replaced, and without one the line is appended.
set_line : String → String → List String → List String
set_line param line [] = line ∷ []
set_line param line (l ∷ ls) = if matches param l then line ∷ ls else l ∷ set_line param line ls

pub set_jetty_param : String → String → List String → List String
unfolding set_line
set_jetty_param param val ls = set_line param (param <> ("=" <> val)) ls
