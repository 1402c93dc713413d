-- ===== src/JsonParser/Tests.antt =====
-- The properties of `JSONParser` with one callback, at a new command.
use clu.Prelude.{
  ◌≡◌, refl, true, false, Bool, none, some, Option, List, [], ◌∷◌, ◌++◌, Text, text, text_eq, ok,
  Result, inl,
}
use clu.Prelude.Dict.{Dict, lookup}
use clu.Value.{str, other}
use clu.Reply.{Message}
use clu.Status.{is_done}
use clu.Command.{Command, ActorCall, new}
use clu.Command.Trace.{IsSound, new-IsSound}
use clu.JsonParser.{Json, object, Problem, parse_command, without}
use clu.JsonParser.Outcomes.{
  IsAnswered, request, parse_command-IsAnswered, parse_command-unreadable,
}

abbrev record_call : ActorCall → List ActorCall → Result (Unit {0}) × List ActorCall
record_call a l = (ok tt, l ++ a ∷ [])

abbrev payload : Message
payload = (text "command", str (text "move")) ∷ (text "x", other (text "3")) ∷ []

abbrev reads : Text → Option Json
reads t = some (object payload)

abbrev reads_nothing : Text → Option Json
reads_nothing t = none

abbrev callbacks : Dict Bool
callbacks = (text "move", true) ∷ []

abbrev takes_all : Text → Message → Bool
takes_all verb m = true

abbrev complain : Problem → Text
complain p = text "bad command"

abbrev fresh : Command
fresh = new 5 none true (1 ∷ []) false (text "text") false false true none

fresh-IsSound : IsSound fresh
fresh-IsSound = new-IsSound 5 none true (1 ∷ []) false (text "text") false false true none

fresh-is_done : is_done fresh.status ≡ false
unfolding is_done new
fresh-is_done = refl

fresh-finished : fresh.finished ≡ false
unfolding new
fresh-finished = refl

lookup-payload : lookup (text "command") payload ≡ some (str (text "move"))
unfolding lookup text_eq
lookup-payload = refl

parse_command-IsAnswered_example :
    IsAnswered
      (request callbacks takes_all (text "move") (without (text "command") payload))
      (parse_command record_call reads callbacks takes_all complain (text "{}") fresh [])
parse_command-IsAnswered_example =
    parse_command-IsAnswered record_call reads callbacks takes_all complain (λ a x. refl) b'{'
      (text "}") payload (text "move") fresh [] refl lookup-payload fresh-IsSound fresh-is_done
      fresh-finished

parse_command-unreadable_example :
    IsAnswered none
      (parse_command record_call reads_nothing callbacks takes_all complain (text "{}") fresh [])
parse_command-unreadable_example =
    parse_command-unreadable record_call reads_nothing callbacks takes_all complain (λ a x. refl)
      b'{' (text "}") fresh [] (inl refl) fresh-IsSound fresh-is_done fresh-finished
