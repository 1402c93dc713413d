-- ===== src/Command/Fake.antt =====
-- `FakeCommand` of python/clu/command.py, whose `write` goes to a log: a level and the text of a
-- message.
use clu.Prelude.{
  ℕ, ◌≡◌, refl, Option, none, some, [], ◌∷◌, Text, text, text_eq, if◌then◌else◌, Result, ok, err,
  value_error, ◌||◌, ◌>>=◌,
}
use clu.Prelude.Dict.{update}
use clu.Value.{str, exc}
use clu.Reply.{Message}
use clu.Command.{
  MessageArg, no_message, unsupported, text_message, dict_message, exc_message, code_text,
  to_message, is_error_code,
}

-- The level of `logging` for a code: 10, 20, 30 or 40, or none for a code that is not written.
unfoldable pub fake_level : Text → Option ℕ
fake_level code =
    if text_eq code (text "d")
    then some 10
    else if text_eq code (text "i")
    then some 20
    else if text_eq code (text "w")
    then some 30
    else if text_eq code (text "f") || text_eq code (text "e")
    then some 40
    else none

unfoldable pub fake_message : Text → Text → MessageArg → Result Message
fake_message keyword code no_message = ok []
fake_message keyword code (dict_message m) = ok m
fake_message keyword code (text_message t) =
    let k = if text_eq code (text "f") || text_eq code (text "e") then text "error" else keyword in
    ok ((k, str t) ∷ [])
fake_message keyword code (exc_message e) = ok ((text "error", exc e) ∷ [])
fake_message keyword code unsupported = err value_error

logged : Option ℕ → Result Message → Message → Result (Option (ℕ × Message))
logged none m keywords = ok none
logged (some level) m keywords = do d ← m; ok (some (level, update d keywords))

-- FakeCommand.write(message_code, message, **kwargs): what is logged, if anything, of a command
-- with this default keyword
unfoldable pub fake_write : Text → Text → MessageArg → Message → Result (Option (ℕ × Message))
unfolding logged fake_level fake_message
fake_write keyword code message keywords =
    logged (fake_level code) (fake_message keyword code message) keywords

-- The message is the one that `BaseCommand.write` makes of the same code and message.
pub fake_message-to_message :
    (keyword code : Text) (m : MessageArg)
    → fake_message keyword code m ≡ to_message keyword (code_text code) m
unfolding fake_message to_message is_error_code
fake_message-to_message keyword code no_message = refl
fake_message-to_message keyword code unsupported = refl
fake_message-to_message keyword code (text_message t) = refl
fake_message-to_message keyword code (dict_message m) = refl
fake_message-to_message keyword code (exc_message e) = refl
