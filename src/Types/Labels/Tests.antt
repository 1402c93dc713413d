-- ===== src/Types/Labels/Tests.antt =====
-- The properties of labels at two of them.
use clu.Prelude.{
  ◌≡◌, refl, Bool, true, false, List, [], ◌∷◌, map, Text, text, text_eq, lower, lower_char, ok,
}
use clu.Prelude.Dict.{elem, all_different}
use clu.Types.{Given, pos, text_given, int_given}
use clu.Types.Labels.{new_enum}
use clu.Types.Labels.Chosen.{new_enum_lem}

abbrev states : List Text
states = text "Idle" ∷ text "Moving" ∷ []

abbrev all_valid : Given → Bool
all_valid g = false

states-different : all_different (map lower states) ≡ true
unfolding all_different elem text_eq lower lower_char
states-different = refl

same_lower : lower (text "MOVING") ≡ lower (text "Moving")
unfolding lower lower_char
same_lower = refl

new_enum_lem_example :
    (new_enum all_valid states (int_given (pos 1)) ≡ ok (text "Moving"))
    × (new_enum all_valid states (text_given (text "MOVING")) ≡ ok (text "Moving"))
new_enum_lem_example =
    new_enum_lem all_valid states 1 (text "Moving") (text "MOVING") states-different refl same_lower
      refl refl
