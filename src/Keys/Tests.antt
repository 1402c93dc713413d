-- ===== src/Keys/Tests.antt =====
-- The properties of keys at a few values.
use clu.Prelude.{
  ◌⊎◌, err, Error, type_error, ℕ, zero, ◌==◌, arith, ◌+◌, ◌≡◌, refl, Bool, true, false, Option,
  none, some, List, [], ◌∷◌, Text, text, text_eq, lower, ok, length, leb, if◌then◌else◌,
}
use clu.Prelude.Dict.{all_different, lookup, insert, update, elem}
use clu.Keys.{
  Wrapping, Cell, Conversion, converts, is_invalid, refuses, ValueType, single, repeated, compound,
  by_name, Range, Values, typed, raw, Key, Slot, cell, group, value, invalid_value, consume, init,
}
use clu.Keys.{consume_key, Keyword, consume_next, consume_up_to}
use clu.Keys.Matches.{Raises, consume_lem}
use clu.Keys.Ends.{consume_up_to-ends}
use clu.Keys.Readable.{IsReadable}
use clu.Keys.Outcome.{HasOutcome}
use clu.Keys.Counts.{IsIn, consume-init}
use clu.Keys.Dictionary.{KeysDictionary, init_dictionary, get_key}
use clu.Keys.Lookups.{names, AreFound, init_dictionary_lem}

-- Type 0 takes any number but 9, which is invalid; another takes its own number and those above.
abbrev number : ℕ → ℕ → Conversion ℕ
number zero n = if n == 9 then is_invalid else converts n
number t n = if leb t n then converts n else refuses

abbrev pair_then_many : List (ValueType ℕ)
pair_then_many = compound 0 (1 ∷ []) ∷ repeated 5 1 (some 2) ∷ []

-- One wrapping takes any values, and another raises for a first value that is invalid.
abbrev always : Wrapping ℕ ℕ
always = some (λ ts cs. none)

abbrev complaint : List (Cell ℕ) → Option Error
complaint [] = none
complaint (value n ∷ cs) = none
complaint (invalid_value ∷ cs) = some type_error

abbrev picky : Wrapping ℕ ℕ
picky = some (λ ts cs. complaint cs)

picky-consume : consume number picky pair_then_many (9 ∷ 4 ∷ 7 ∷ 8 ∷ []) ≡ err type_error
unfolding consume
picky-consume = refl

abbrev slots : List (Slot ℕ)
slots = group (invalid_value ∷ value 4 ∷ []) ∷ cell (value 7) ∷ cell (value 8) ∷ []

consumed : consume number always pair_then_many (9 ∷ 4 ∷ 7 ∷ 8 ∷ []) ≡ ok (true, typed slots)
unfolding consume
consumed = refl

not_consumed :
    consume number always pair_then_many (9 ∷ 4 ∷ 7 ∷ 8 ∷ 9 ∷ [])
    ≡ ok (false, raw (9 ∷ 4 ∷ 7 ∷ 8 ∷ 9 ∷ []))
unfolding consume
not_consumed = refl

abbrev never_same : ValueType ℕ → ValueType ℕ → Bool
never_same t u = false

counted : init never_same pair_then_many ≡ ok (record { min_vals = 3; max_vals = some 4 })
unfolding init
counted = refl

consume_lem_example :
    ((r : Bool × Values ℕ ℕ) × (consume number picky pair_then_many (9 ∷ 4 ∷ 7 ∷ 8 ∷ []) ≡ ok r)
      × HasOutcome number picky pair_then_many (9 ∷ 4 ∷ 7 ∷ 8 ∷ []) r
      × ((r.0 ≡ true) ⊎ (¬ (IsReadable number picky pair_then_many (9 ∷ 4 ∷ 7 ∷ 8 ∷ [])))))
    ⊎ ((e : Error) × (consume number picky pair_then_many (9 ∷ 4 ∷ 7 ∷ 8 ∷ []) ≡ err e)
        × Raises picky e)
consume_lem_example = consume_lem number picky pair_then_many (9 ∷ 4 ∷ 7 ∷ 8 ∷ []) tt

consume-init_example : IsIn (record { min_vals = 3; max_vals = some 4 }) 4
consume-init_example =
    consume-init number always never_same pair_then_many
      (record { min_vals = 3; max_vals = some 4 }) (9 ∷ 4 ∷ 7 ∷ 8 ∷ []) (typed slots)
      (omega arith, tt) counted consumed

abbrev nothing_named : ValueType ℕ → Option Text
nothing_named t = none

abbrev airmass : Key ℕ
airmass = record { name = text "AirMass"; vtypes = single 1 ∷ []; unique = none }

abbrev focus : Key ℕ
focus = record { name = text "focus"; vtypes = pair_then_many; unique = some (text "Guider") }

abbrev two_keys : KeysDictionary ℕ
two_keys = record {
  keys = (text "airmass", airmass) ∷ (text "guider", focus) ∷ [];
  named_types = [];
}

built : init_dictionary nothing_named (text "tcc") (airmass ∷ focus ∷ []) ≡ ok two_keys
unfolding init_dictionary text_eq lower lookup insert update clu.Keys.Dictionary.name_for
    clu.Prelude.lower_char clu.Keys.Dictionary.extend clu.Keys.Dictionary.add
built = refl

init_dictionary_lem_example :
    (text_eq (text "tcc") (lower (text "tcc")) ≡ true)
    × (all_different (names (airmass ∷ focus ∷ [])) ≡ true)
    × AreFound (airmass ∷ focus ∷ []) two_keys
    × ((x : Text)
        → elem (lower x) (names (airmass ∷ focus ∷ [])) ≡ false
        → get_key x two_keys ≡ none)
init_dictionary_lem_example =
    init_dictionary_lem nothing_named (text "tcc") (airmass ∷ focus ∷ []) two_keys built

-- All of three values convert, and there are five rounds.
consume_up_to-ends_example :
    consume_next number always 0 (consume_up_to number always 0 5 (1 ∷ 2 ∷ 9 ∷ [], [])) ≡ none
consume_up_to-ends_example = consume_up_to-ends number always 0 5 (1 ∷ 2 ∷ 9 ∷ [], []) (omega arith)
