-- ===== src/Reply.antt =====
-- `MessageCode` and `Reply` of python/clu/base.py. The date of a reply is not modelled: nothing
-- that is modelled reads it.
pub mod Codes
use clu.Prelude.{
  ℕ, Bool, true, false, Option, none, some, List, [], ◌∷◌, Text, text, text_eq, if◌then◌else◌,
  Result, ok, err, Error, value_error, ◌==◌,
}
use clu.Prelude.Dict.{Dict}
use clu.Value.{Value}

pub data MessageCode : Type 0 where
  started done failed error critical info warning debug : MessageCode

-- code.value
unfoldable pub code_value : MessageCode → Text
code_value started = text ">"
code_value done = text ":"
code_value failed = text "f"
code_value error = text "e"
code_value critical = text "!"
code_value info = text "i"
code_value warning = text "w"
code_value debug = text "d"

-- list(MessageCode)
abbrev all_codes : List MessageCode
all_codes = started ∷ done ∷ failed ∷ error ∷ critical ∷ info ∷ warning ∷ debug ∷ []

find_code : List MessageCode → Text → Result MessageCode
find_code [] t = err value_error
find_code (c ∷ l) t = if text_eq (code_value c) t then ok c else find_code l t

-- MessageCode(t), of a text
unfoldable pub message_code : Text → Result MessageCode
unfolding find_code
message_code t = find_code all_codes t

-- a == b for two codes
unfoldable pub code_eq : MessageCode → MessageCode → Bool
code_eq started started = true
code_eq done done = true
code_eq failed failed = true
code_eq error error = true
code_eq critical critical = true
code_eq info info = true
code_eq warning warning = true
code_eq debug debug = true
code_eq _ _ = false

abbrev pub Message : Type 0
Message = Dict Value

-- A command is named by its identity as an object.
abbrev pub CommandRef : Type 0
CommandRef = ℕ

pub record Reply : Type 0 where
  pub message_code : MessageCode
  pub message : Message
  pub command : Option CommandRef
  pub broadcast : Bool
  pub use_validation : Bool
  pub validated : Bool
  pub internal : Bool
