-- ===== src/Types/Bits/Tests.antt =====
-- The properties of bit fields at a layout of three fields.
use clu.Prelude.{
  ℕ, ◌<◌, ◌≡◌, refl, Bool, false, Option, none, some, List, [], ◌∷◌, Text, text, text_eq, ok,
  bit_and, arith,
}
use clu.Prelude.Dict.{lookup, insert}
use clu.Tcp.{number}
use clu.Types.{ℤ, Given}
use clu.Types.Shifts.{mask_of, shift_left}
use clu.Types.Bits.{Layout, init, add_fields, parse_field, word_of, get_attr, set_attr}
use clu.Types.Bits.Disjoint.{IsLaid, init-IsLaid}
use clu.Types.Bits.Fields.{set_attr-get_attr}

abbrev lamps : List Text
lamps = text "ne:4" ∷ text ":3" ∷ text "hgcd" ∷ text "ff:8" ∷ []

abbrev layout : Layout
layout = record {
  width = 16;
  field_specs = (text "ne", 4) ∷ (text "hgcd", 1) ∷ (text "ff", 8) ∷ [];
  bit_fields = (text "ne", (0, 15)) ∷ (text "hgcd", (7, 1)) ∷ (text "ff", (8, 255)) ∷ [];
}

lamps-layout : init lamps ≡ ok layout
unfolding init add_fields clu.Types.Bits.add_field parse_field word_of number lookup insert mask_of
    shift_left text_eq
lamps-layout = refl

ff-field : lookup (text "ff") layout.bit_fields ≡ some (8, 255)
unfolding lookup text_eq
ff-field = refl

abbrev no_literal : Text → Option ℤ
no_literal t = none

abbrev all_valid : Given → Bool
all_valid g = false

set_attr-get_attr_example :
    (m : ℕ) × (set_attr no_literal all_valid layout 43690 (text "ff") 513 ≡ ok m)
    × (m < 4294967296)
    × (get_attr layout m (text "ff") ≡ ok (bit_and 513 255))
    × ((x : Text) → text_eq (text "ff") x ≡ false → get_attr layout m x ≡ get_attr layout 43690 x)
set_attr-get_attr_example =
    set_attr-get_attr no_literal all_valid lamps layout 43690 513 (text "ff") (8, 255) lamps-layout
      (omega arith) ff-field (λ m. refl)

init-IsLaid_example : IsLaid layout
init-IsLaid_example = init-IsLaid lamps layout lamps-layout
