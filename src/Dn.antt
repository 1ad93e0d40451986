-- ===== src/Dn.antt =====
-- Distinguished names: setup_app/utils/ldif_utils.py (`get_key_from`) and `get_rootdn`,
-- `get_doc_id_from_dn` of setup_app/utils/db_utils.py. The parser `dnutils.parse_dn` is ldap3's, and
-- a parameter: it gives the relative names, outermost last, or raises (`none`).
pub mod Keys
mod Tests
use community_edition_setup.Prelude.{
  String, ◌<>◌, Bool, ◌&&◌, Option, List, [], ◌∷◌, reverse, map, ◌==◌, if◌then◌else◌, Result, ok,
  err, invalid_dn, index_error, or_raise, map_ok, ◌>>=◌,
}
use community_edition_setup.Prelude.Text.{join}

-- A triple of `parse_dn`, without its separator.
pub record Rdn : Type 0 where
  pub attr : String
  pub value : String

unfoldable pub is_root : Rdn → Bool
is_root rd = rd.attr == "o" && rd.value == "gluu"

-- The loop of `get_key_from`.
unfoldable pub key_parts : List Rdn → List String
key_parts [] = []
key_parts (rd ∷ rds) = let rest = key_parts rds in if is_root rd then rest else rd.value ∷ rest

-- What follows the loop.
unfoldable pub key_of : List Rdn → String
key_of rds = let key = join "_" (reverse (key_parts rds)) in if key == "" then "_" else key

module _ (parse_dn : String → Option (List Rdn)) where
  unfoldable pub get_key_from : String → Result String
  get_key_from dn = map_ok key_of (or_raise invalid_dn (parse_dn dn))

-- `'='.join(dnp[:2])`
abbrev rdn_text : Rdn → String
rdn_text rd = rd.attr <> ("=" <> rd.value)

-- `pop(0)` of an empty list raises.
unfoldable pub root_of : List Rdn → Result String
root_of [] = err index_error
root_of (_ ∷ rds) = ok (join "," (map rdn_text rds))

-- The value of the first relative name, and `_` for the root.
unfoldable pub doc_id_of : List Rdn → Result String
doc_id_of [] = err index_error
doc_id_of (rd ∷ _) = ok (if rd.value == "gluu" then "_" else rd.value)

module _ (parse_dn : String → Option (List Rdn)) where
  unfoldable pub get_rootdn : String → Result String
  get_rootdn dn = do rds ← or_raise invalid_dn (parse_dn dn); root_of rds

  unfoldable pub get_doc_id_from_dn : String → Result String
  get_doc_id_from_dn dn = do rds ← or_raise invalid_dn (parse_dn dn); doc_id_of rds
