-- ===== src/Types/Labels.antt =====
-- The values that stand for labels, the classes `Enum` and `Bool`, made of a text or an index.
pub mod Chosen
mod Tests
use clu.Prelude.{
  ℕ, Bool, true, false, Option, none, some, List, [], ◌∷◌, Text, text_eq, lower, ◌==◌,
  if◌then◌else◌, Result, ok, err, value_error, invalid_value_error, get_elem?, ◌||◌,
}
use clu.Types.{ℤ, pos, negsuc, Given, text_given, int_given}

-- The first label that is a text up to case.
unfoldable pub find_label : Text → List Text → Result Text
find_label t [] = err value_error
find_label t (l ∷ ls) =
    let rest = find_label t ls in if text_eq (lower t) (lower l) then ok l else rest

-- cls.enumLabels[value], for an index in its bounds
at_index : Option Text → Result Text
at_index none = err value_error
at_index (some l) = ok l

label_of : List Text → Given → Result Text
unfolding find_label at_index
label_of labels (int_given (pos n)) = at_index (get_elem? labels n)
label_of labels (int_given (negsuc n)) = err value_error
label_of labels (text_given t) = find_label t labels

-- Enum.new(cls, value)
unfoldable pub new_enum : (Given → Bool) → List Text → Given → Result Text
unfolding label_of
new_enum is_invalid labels v = if is_invalid v then err invalid_value_error else label_of labels v

-- value == True or value == cls.trueValue
abbrev pub is_true : Text → Given → Bool
is_true true_value (text_given t) = text_eq t true_value
is_true true_value (int_given (pos n)) = n == 1
is_true true_value (int_given (negsuc n)) = false

-- value == False or value == cls.falseValue
abbrev pub is_false : Text → Given → Bool
is_false false_value (text_given t) = text_eq t false_value
is_false false_value (int_given (pos n)) = n == 0
is_false false_value (int_given (negsuc n)) = false

-- Bool.new(cls, value)
unfoldable pub new_bool : (Given → Bool) → Text → Text → Given → Result Bool
new_bool is_invalid false_value true_value v =
    if is_invalid v
    then err invalid_value_error
    else if is_true true_value v
    then ok true
    else if is_false false_value v
    then ok false
    else err value_error

-- doStr(self)
unfoldable pub bool_text : Text → Text → Bool → Text
bool_text false_value true_value true = true_value
bool_text false_value true_value false = false_value
