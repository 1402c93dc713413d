-- ===== src/Types/Bits.antt =====
-- The bit fields of a keyword value, the class `Bits`: its layout, which the names and widths in
-- its specification give, and the fields of a value, which is a natural number below 2^32.
pub mod Disjoint
pub mod Fields
mod Tests
use clu.Prelude.{
  ℕ, zero, suc, ◌+◌, ◌-◌, ◌%◌, Bool, true, false, Option, none, some, List, [], ◌∷◌, ◌++◌, Text,
  text, text_eq, leb, ltb, ◌==◌, if◌then◌else◌, Result, ok, err, ◌>>=◌, ◌&&◌, ◌||◌,
  value_type_error, attribute_error, bit_and, bit_or,
}
use clu.Prelude.Dict.{Dict, lookup, insert}
use clu.Tcp.{is_digit, number}
use clu.Types.{ℤ, pos, Given, int_given, new_uint}
use clu.Types.Shifts.{shift_left, shift_right, mask_of}

-- [a-zA-Z0-9_]
abbrev pub is_word_char : ℕ → Bool
is_word_char c =
    (leb 97 c && leb c 122) || (leb 65 c && leb c 90) || (leb 48 c && leb c 57) || (c == 95)

-- [a-zA-Z0-9_]*, and what is left
unfoldable pub word_of : Text → Text × Text
word_of [] = ([], [])
word_of (c ∷ s) = let r = word_of s in if is_word_char c then (c ∷ r.0, r.1) else ([], c ∷ s)

abbrev pub all_digits : Text → Bool
all_digits [] = true
all_digits (c ∷ s) = is_digit c && all_digits s

-- The width after a colon, or 1 where there is none; no width is read of another text.
width_of : Text → Option ℕ
width_of [] = some 1
width_of (c ∷ []) = none
width_of (c ∷ d ∷ s) = if c == 58 && all_digits (d ∷ s) then some (number 0 (d ∷ s)) else none

-- The name, which may be empty, and the width that fieldSpec matches in the whole of a text.
unfoldable pub parse_field : Text → Option (Text × ℕ)
unfolding word_of width_of
parse_field s = let r = word_of s in elim (width_of r.1) [ none ↦ none | some w ↦ some (r.0, w) ]

-- The layout: the width of all fields, the specifications in order, and the offset and the mask of
-- each name.
pub record Layout : Type 0 where
  pub width : ℕ
  pub field_specs : List (Text × ℕ)
  pub bit_fields : Dict (ℕ × ℕ)

abbrev pub empty : Layout
empty = record { width = 0; field_specs = []; bit_fields = [] }

-- offset += width, and the test of the offset
widen : ℕ → Layout → Result Layout
widen w t =
    if ltb 32 (t.width + w) then err value_type_error else ok (record t { width = t.width + w })

named_field : Text → ℕ → Layout → Result Layout
unfolding widen
named_field [] w t = widen w t
named_field (c ∷ s) w t =
    if text_eq (c ∷ s) (text "native")
    then err value_type_error
    else widen w (record t {
      field_specs = t.field_specs ++ (c ∷ s, w) ∷ [];
      bit_fields = insert (c ∷ s) (t.width, mask_of w) t.bit_fields;
    })

add_parsed : Option (Text × ℕ) → Layout → Result Layout
unfolding named_field
add_parsed none t = err value_type_error
add_parsed (some (n, w)) t = named_field n w t

-- One round of the loop over the specifications.
unfoldable pub add_field : Text → Layout → Result Layout
unfolding parse_field add_parsed
add_field s t = add_parsed (parse_field s) t

unfoldable pub add_fields : List Text → Layout → Result Layout
unfolding add_field
add_fields [] t = ok t
add_fields (s ∷ ss) t = do u ← add_field s t; add_fields ss u

-- Bits.init(dct, *args)
unfoldable pub init : List Text → Result Layout
unfolding add_fields
init [] = err value_type_error
init (s ∷ ss) = add_fields (s ∷ ss) empty

-- (self >> offset) & mask
unfoldable pub read_field : Option (ℕ × ℕ) → ℕ → Result ℕ
unfolding shift_right
read_field none n = err attribute_error
read_field (some (offset, mask)) n = ok (bit_and (shift_right n offset) mask)

-- getAttr(self, name)
unfoldable pub get_attr : Layout → ℕ → Text → Result ℕ
unfolding read_field
get_attr t n name = read_field (lookup name t.bit_fields) n

-- (self & ~(mask << offset)) | ((value & mask) << offset): `n & ~m` is n less the bits that it
-- shares with m
unfoldable pub replaced_field : ℕ × ℕ → ℕ → ℕ → ℕ
unfolding shift_left
replaced_field (offset, mask) n value =
    bit_or (n - bit_and n (shift_left mask offset)) (shift_left (bit_and value mask) offset)

write_field : (Text → Option ℤ) → (Given → Bool) → Option (ℕ × ℕ) → ℕ → ℕ → Result ℕ
unfolding replaced_field
write_field literal is_invalid none n value = err attribute_error
write_field literal is_invalid (some f) n value =
    new_uint literal is_invalid (int_given (pos (replaced_field f n value)))

-- setAttr(self, name, value)
unfoldable pub set_attr : (Text → Option ℤ) → (Given → Bool) → Layout → ℕ → Text → ℕ → Result ℕ
unfolding write_field
set_attr literal is_invalid t n name value =
    write_field literal is_invalid (lookup name t.bit_fields) n value

-- Bits.binary(value, width)
unfoldable pub binary : ℕ → ℕ → Text
unfolding shift_right
binary value zero = []
binary value (suc shift) = (48 + bit_and (shift_right value shift) 1) ∷ binary value shift

-- bitsString(self)
unfoldable pub bits_string : Layout → ℕ → Text
unfolding binary
bits_string t n = binary n t.width

abbrev show_value : Result ℕ → ℕ → Result Text
show_value (err e) w = err e
show_value (ok n) w = ok (binary n w)

-- The texts name=bits of `doRepr`, which puts commas between them.
unfoldable pub shown_fields : Layout → ℕ → List (Text × ℕ) → Result (List Text)
unfolding get_attr binary
shown_fields t n [] = ok []
shown_fields t n ((name, w) ∷ specs) = do
  b ← show_value (get_attr t n name) w
  rest ← shown_fields t n specs
  ok ((name ++ text "=" ++ b) ∷ rest)
