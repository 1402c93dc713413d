-- ===== src/CaseDict/Tests.antt =====
-- The properties of `CaseInsensitiveDict` at a dictionary of two keys.
use clu.Prelude.{ℕ, ◌≡◌, refl, [], ◌∷◌, text, text_eq, lower, lower_char, ok, if◌then◌else◌}
use clu.Prelude.Dict.{Dict, keys, all_different, elem}
use clu.CaseDict.{CaseDict, init, get_item, set_item}
use clu.CaseDict.Keys.{real_key}
use clu.CaseDict.Laws.{IsValid, init-IsValid, set_item_lem, written_keys}

abbrev pairs : Dict ℕ
pairs = (text "Temp", 3) ∷ (text "fluxes", 5) ∷ []

abbrev two_keys : CaseDict ℕ
two_keys = record { lc = text "temp" ∷ text "fluxes" ∷ []; items = pairs }

init-pairs : init pairs ≡ ok two_keys
unfolding init lower lower_char all_different elem text_eq
init-pairs = refl

two_keys-IsValid : IsValid two_keys
two_keys-IsValid = (init-IsValid pairs two_keys init-pairs).0

set_item_lem_example :
    (e : CaseDict ℕ) × (set_item two_keys (text "TEMP") 8 ≡ ok e)
    × IsValid e
    × (get_item e (text "temp") ≡ (
        if text_eq (lower (text "TEMP")) (lower (text "temp"))
        then ok 8
        else get_item two_keys (text "temp")))
    × (keys e.items
        ≡ written_keys (real_key (lower (text "TEMP")) (keys pairs)) (text "TEMP") (keys pairs))
set_item_lem_example = set_item_lem two_keys (text "TEMP") 8 (text "temp") two_keys-IsValid
