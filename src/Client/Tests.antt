-- ===== src/Client/Tests.antt =====
-- The properties of the client at one command that is sent and one reply.
use clu.Prelude.{
  ℕ, ◌≡◌, refl, true, false, Option, none, some, [], ◌∷◌, Text, text, text_eq, ok, length,
}
use clu.Prelude.Dict.{lookup}
use clu.Value.{str}
use clu.Reply.{Message, done, message_code, code_value}
use clu.Client.{AmqpReply, Sent, Client, handled, send_command}
use clu.Client.Models.{HasUpdated}
use clu.Client.Replies.{HasReceived, HasKept, handled-running}
use clu.Client.Sending.{outgoing, outgoing-IsFresh}

abbrev reads : Text → Option Message
reads t = some ((text "text", str t) ∷ [])

abbrev clock : Text → ℕ
clock k = length k

abbrev lonely : Client
lonely = record {
  name = text "me";
  models = [];
  running_commands = [];
  callbacks = [];
  called = [];
  tasks = [];
}

abbrev last_reply : AmqpReply
last_reply = record {
  is_valid = true;
  message_code = text ":";
  internal = false;
  sender = some (text "lamps");
  command_id = some (text "abc");
  body = [];
}

done-code : message_code (text ":") ≡ ok done
unfolding message_code code_value text_eq
done-code = refl

abc-id : text_eq (text "abc") [] ≡ false
unfolding text_eq
abc-id = refl

abbrev sent : Client
sent =
    (send_command (text "abc") 5 (text "lamps") (text "on") [] none none false none none lonely).1

abbrev held : Client
held = record lonely { running_commands = (text "abc", outgoing 5 false none none) ∷ [] }

held-lookup : lookup (text "abc") held.running_commands ≡ some (outgoing 5 false none none)
unfolding lookup text_eq
held-lookup = refl

handled-running_example :
    (t : Sent) × (d : Client) × (handled reads 1 clock last_reply held ≡ ok d)
    × HasReceived last_reply (outgoing 5 false none none) t
    × HasKept (text "abc") t held d
    × HasUpdated clock last_reply held d
handled-running_example =
    let f = outgoing-IsFresh 5 false none none in
    handled-running reads 1 clock last_reply (text "abc") (outgoing 5 false none none) done held
      refl refl abc-id held-lookup done-code f.sound f.active f.open_ tt
