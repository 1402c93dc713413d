-- ===== src/Click/BuiltIn/Tests.antt =====
-- The built-in commands at an actor that keeps what it is given.
use clu.Prelude.{true, false, none, List, [], ◌∷◌, ◌++◌, text, ok, Result}
use clu.Command.{Command, ActorCall, new}
use clu.Click.BuiltIn.{Node, command, group, more, no_more}

abbrev record_call : ActorCall → List ActorCall → Result (Unit {0}) × List ActorCall
record_call a l = (ok tt, l ++ a ∷ [])

abbrev fresh : Command
fresh = new 5 none true [] false (text "text") false false true none

abbrev root : Node
root = group (text "Usage: parser") (more (text "ping") (command (text "Usage: ping")) no_more)
