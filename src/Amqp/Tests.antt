-- ===== src/Amqp/Tests.antt =====
-- The properties of AMQP actors at one command and its replies.
use clu.Prelude.{
  ℕ, ◌≡◌, refl, true, false, Option, none, some, [], ◌∷◌, ◌++◌, Text, text, text_eq, ok, length,
}
use clu.Value.{str}
use clu.Status
use clu.Reply.{Message, code_value, done}
use clu.Client.{AmqpReply, Sent, Client, handle_reply}
use clu.Client.Replies.{HasReceived, HasKept}
use clu.Amqp.{AmqpActor, ReplyMessage, write_internal, new_command, undelivered, unrouted}
use clu.Amqp.Conversation.{
  arrived, reply_of, asked, asking, kept, write_internal-handle_reply, undelivered-handle_reply,
}

abbrev lights : Message
lights = (text "lamps", str (text "on")) ∷ []

abbrev dumped : Message → Text
dumped m = text "{}"

abbrev lights_read : Text → Option Message
lights_read t = some lights

abbrev unrouted_read : Text → Option Message
unrouted_read t = some (unrouted (text "lamps"))

abbrev clock : Text → ℕ
clock k = length k

abbrev lonely : Client
lonely = record {
  name = text "me";
  models = [];
  running_commands = [];
  callbacks = [];
  called = [];
  tasks = [];
}

abbrev actor : AmqpActor
actor = record { name = text "lamps"; is_ready = true; published = []; warned = 0 }

abc-id : text_eq (text "abc") [] ≡ false
unfolding text_eq
abc-id = refl

write_internal-handle_reply_example :
    let p =
      asked
        (text "abc")
        5
        (text "lamps")
        (text "on")
        []
        none
        none
        false
        none
        none
        lonely
        dumped
        lights_read
        1
        clock in
    let d =
      asking
        (text "abc")
        5
        (text "lamps")
        (text "on")
        []
        none
        none
        false
        none
        none
        lonely
        dumped
        lights_read
        1
        clock in
    let s =
      kept
        (text "abc")
        5
        (text "lamps")
        (text "on")
        []
        none
        none
        false
        none
        none
        lonely
        dumped
        lights_read
        1
        clock in
    (m : ReplyMessage) × (t : Sent) × (e : Client) × ((write_internal dumped
        (record {
          code = done;
          message = lights;
          command = some (new_command (text "lamps") p);
          broadcast = false;
          internal = true;
        })
        actor).published
      ≡ m ∷ [])
    × (m.routing_key ≡ text "reply." ++ p.commander_id)
    × (handle_reply lights_read 1 clock (arrived m) d ≡ ok (reply_of m lights, e))
    × (m.message_code ≡ code_value done)
    × HasReceived (reply_of m lights) s t
    × HasKept p.command_id t d e
unfolding clu.Client.send_command
write_internal-handle_reply_example =
    write_internal-handle_reply (text "abc") 5 (text "lamps") (text "on") [] none none false none
      none lonely dumped lights_read 1 clock actor done lights true refl refl abc-id tt

undelivered-handle_reply_example :
    let p =
      asked
        (text "abc")
        5
        (text "lamps")
        (text "on")
        []
        none
        none
        false
        none
        none
        lonely
        dumped
        unrouted_read
        1
        clock in
    let d =
      asking
        (text "abc")
        5
        (text "lamps")
        (text "on")
        []
        none
        none
        false
        none
        none
        lonely
        dumped
        unrouted_read
        1
        clock in
    (r : AmqpReply) × (t : Sent) × (e : Client) × (handle_reply unrouted_read 1 clock
        (arrived (undelivered dumped (text "me") (text "lamps") (text "lamps") p))
        d
      ≡ ok (r, e))
    × (t.command.status ≡ Status.failed)
    × (t.command.finished ≡ true)
    × HasKept p.command_id t d e
unfolding clu.Client.send_command
undelivered-handle_reply_example =
    undelivered-handle_reply (text "abc") 5 (text "lamps") (text "on") [] none none false none none
      lonely dumped unrouted_read 1 clock (text "lamps") refl abc-id tt
