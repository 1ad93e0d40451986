-- ===== src/Prelude/Joins.antt =====
-- Lemmas on joined texts.
use Prim.Native.Char.{Char}
use Prim.Native.String.{String, ◌++◌ as ◌<>◌}
use mathlib.Core.Path.{◌≡◌, refl}
use mathlib.Core.Logic.{◌≢◌}
use mathlib.Core.List.{List, ◌++◌}
use text.Mathlib.TextLemmas.{append_assoc, append-nil, append_cancel_left, cons-append, cons≢nil}
use community_edition_setup.Prelude.Text.{join}

-- One more part at the end of a list that has some.
pub join-concat :
    (sep p : String) (ps : List String) (q : String)
    → join sep ((List.◌∷◌ p ps) ++ List.◌∷◌ q List.[]) ≡ join sep (List.◌∷◌ p ps) <> (sep <> q)
unfolding join
join-concat sep p List.[] q = refl
join-concat sep p (List.◌∷◌ r ps) q = rw (join-concat sep r ps q) (simp append_assoc)

pub join-concat_of_ne_nil :
    (sep : String) (ps : List String) (q : String)
    → ps ≢ List.[]
    → join sep (ps ++ List.◌∷◌ q List.[]) ≡ join sep ps <> (sep <> q)
join-concat_of_ne_nil sep List.[] q h = absurd (h refl)
join-concat_of_ne_nil sep (List.◌∷◌ p ps) q h = join-concat sep p ps q

pub append-ne-nil : (c : Char) (s t : String) → (String.◌∷◌ c s) <> t ≢ ""
append-ne-nil c s t e = cons≢nil (rw cons-append at e)

pub append-ne_self : (s : String) (c : Char) (t u : String) → s <> ((String.◌∷◌ c t) <> u) ≢ s
append-ne_self s c t u e = append-ne-nil c t u (append_cancel_left s _ "" (rw (append-nil s) e))
