-- ===== src/Session/Tests.antt =====
-- A question, its answers, and what is returned.
use community_edition_setup.Prelude.{◌≡◌, refl, [], ◌∷◌, some, none, false}
use community_edition_setup.Prelude.Text.{strip, lstrip, rstrip, is_space, differs}
use community_edition_setup.Config.Samples.{hybrid}
use community_edition_setup.Session.{Console, line, interrupt, returned, text, truthy, get_prompt}
use community_edition_setup.Session.Prompting.{Answers, get_prompt-Answers, get_prompt-first}

abbrev console : Console
console = record {
  cfg = hybrid;
  input = line " " ∷ line "" ∷ line " c1.gluu.org " ∷ interrupt ∷ [];
}

get_prompt-Answers_example :
    let (r, s') = get_prompt (some (text "Yes")) false console in
    Answers (truthy (some (text "Yes"))) false (r, s'.input) × (s'.cfg ≡ console.cfg)
get_prompt-Answers_example = get_prompt-Answers (some (text "Yes")) false console

get_prompt-first_example : get_prompt none false console ≡ (
  returned (some (text (strip is_space " c1.gluu.org "))),
  record console { input = interrupt ∷ [] },
)
unfolding strip lstrip rstrip is_space
get_prompt-first_example =
    get_prompt-first console (line " " ∷ line "" ∷ []) " c1.gluu.org " (interrupt ∷ []) refl refl
      (differs _ _ refl)
