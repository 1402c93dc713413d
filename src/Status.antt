-- ===== src/Status.antt =====
-- `CommandStatus` of python/clu/tools.py. A flag is the number of its bits, 1 to 511: the nine
-- members have one bit each, and what stands for several (`ACTIVE_STATES`, ...) is a combination.
-- Iteration over the enumeration gives the nine members in the order of their definition.
pub mod Codes
pub mod Bits
mod Tests
use mathlib.Core.List.{filter_map}
use clu.Prelude.{
  Error, value_error, attribute_error, ◌||◌, ℕ, zero, suc, ◌+◌, ◌/◌, ◌%◌, Bool, true, false, Option,
  none, some, List, [], ◌∷◌, bit_and, bit_or, Text, text, text_eq, ◌==◌, ltb, if◌then◌else◌, not,
  ◌&&◌,
}
use clu.Prelude.Dict.{Dict, lookup}

abbrev pub CommandStatus : Type 0
CommandStatus = ℕ

abbrev pub done : CommandStatus
done = 1

abbrev pub cancelled : CommandStatus
cancelled = 2

abbrev pub failed : CommandStatus
failed = 4

abbrev pub timedout : CommandStatus
timedout = 8

abbrev pub ready : CommandStatus
ready = 16

abbrev pub running : CommandStatus
running = 32

abbrev pub cancelling : CommandStatus
cancelling = 64

abbrev pub failing : CommandStatus
failing = 128

abbrev pub debug : CommandStatus
debug = 256

abbrev pub active_states : CommandStatus
active_states = bit_or (bit_or running cancelling) failing

abbrev pub failed_states : CommandStatus
failed_states = bit_or (bit_or cancelled failed) timedout

abbrev pub failing_states : CommandStatus
failing_states = bit_or cancelling failing

abbrev pub done_states : CommandStatus
done_states = bit_or done failed_states

-- The members with their names, and COMMAND_STATUS_TO_CODE.
abbrev pub members : List (Text × CommandStatus)
members =
    (text "DONE", done)
    ∷ (text "CANCELLED", cancelled)
    ∷ (text "FAILED", failed)
    ∷ (text "TIMEDOUT", timedout)
    ∷ (text "READY", ready)
    ∷ (text "RUNNING", running)
    ∷ (text "CANCELLING", cancelling)
    ∷ (text "FAILING", failing)
    ∷ (text "DEBUG", debug)
    ∷ []

abbrev pub command_status_to_code : Dict Text
command_status_to_code =
    (text "DONE", text ":")
    ∷ (text "CANCELLED", text "f")
    ∷ (text "FAILED", text "f")
    ∷ (text "TIMEDOUT", text "f")
    ∷ (text "READY", text "i")
    ∷ (text "RUNNING", text ">")
    ∷ (text "CANCELLING", text "w")
    ∷ (text "FAILING", text "w")
    ∷ (text "DEBUG", text "d")
    ∷ []

name_in : List (Text × CommandStatus) → CommandStatus → Option Text
name_in [] v = none
name_in ((name, bit) ∷ l) v = if bit == v then some name else name_in l v

-- bit.name; a combination has the name of an alias or none, and neither is in the code table
unfoldable pub name : CommandStatus → Option Text
unfolding name_in
name v = name_in members v

code_named : Option Text → Option Text
unfolding lookup
code_named none = none
code_named (some n) = lookup n command_status_to_code

-- status.code, as the constructor sets it
unfoldable pub code : CommandStatus → Option Text
unfolding name code_named text_eq
code v = code_named (name v)

-- READY | ACTIVE_STATES | DONE_STATES
abbrev all_states : CommandStatus
all_states = 255

-- What a status with no code raises when the code is asked for: the code of a named combination is
-- None, and any other combination is made without the constructor and has no attribute `code`.
unfoldable pub code_error : CommandStatus → Error
code_error v =
    if v == active_states
      || v == failed_states
      || v == failing_states
      || v == done_states
      || v == all_states
    then value_error
    else attribute_error

-- a in b, for two flags
unfoldable pub is_in : CommandStatus → CommandStatus → Bool
is_in a b = bit_and a b == a

-- bin(v).count("1"): nine digits at most
count_ones : ℕ → ℕ → ℕ
count_ones zero v = 0
count_ones (suc digits) v = v % 2 + count_ones digits (v / 2)

unfoldable pub is_combination : CommandStatus → Bool
unfolding count_ones
is_combination v = ltb 1 (count_ones 9 v)

unfoldable pub active_bits_of : List (Text × CommandStatus) → CommandStatus → List CommandStatus
unfolding count_ones
active_bits_of [] v = []
active_bits_of ((_, bit) ∷ l) v =
    let rest = active_bits_of l v in
    if not (bit_and bit v == 0) && (count_ones 9 bit == 1) then bit ∷ rest else rest

unfoldable pub active_bits : CommandStatus → List CommandStatus
unfolding active_bits_of
active_bits v = active_bits_of members v

unfoldable pub did_fail : CommandStatus → Bool
unfolding is_in
did_fail v = is_in v failed_states

unfoldable pub did_succeed : CommandStatus → Bool
did_succeed v = v == done

unfoldable pub is_active : CommandStatus → Bool
unfolding is_in
is_active v = is_in v active_states

unfoldable pub is_done : CommandStatus → Bool
unfolding is_in
is_done v = is_in v done_states

unfoldable pub is_failing : CommandStatus → Bool
unfolding is_in
is_failing v = is_in v failing_states

abbrev statuses : Dict CommandStatus
statuses = (text ":", done) ∷ (text "f", failed) ∷ (text "!", failed) ∷ (text ">", running) ∷ []

-- default or RUNNING: a flag of no bits is false
or_running : Option CommandStatus → CommandStatus
or_running none = running
or_running (some v) = if v == 0 then running else v

get_status : Option CommandStatus → CommandStatus → CommandStatus
get_status none default = default
get_status (some v) default = v

unfoldable pub code_to_status : Text → Option CommandStatus → CommandStatus
unfolding lookup or_running get_status text_eq
code_to_status c default = get_status (lookup c statuses) (or_running default)
