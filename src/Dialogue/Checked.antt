-- ===== src/Dialogue/Checked.antt =====
-- `check_properties` ends on a fresh instance, with all that it asks for.
use community_edition_setup.Dialogue.{◌>>=◌, ◌>>◌}
