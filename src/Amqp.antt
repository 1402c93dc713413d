-- ===== src/Amqp.antt =====
-- The commands and replies of `AMQPBaseActor` and the tasks of `AMQPActor` of python/clu/actor.py,
-- and the reply that `AMQPClient._publish_message` of python/clu/client.py makes for a command that
-- no actor takes. `dumps` is `json.dumps`.
pub mod Conversation
pub mod Tasks
mod Tests
use clu.Prelude.{
  ℕ, ◌+◌, Bool, true, false, Option, none, some, List, [], ◌∷◌, ◌++◌, Text, text, text_eq,
  if◌then◌else◌, ◌||◌,
}
use clu.Prelude.Dict.{Dict, lookup, insert}
use clu.Value.{str}
use clu.Reply.{Message, MessageCode, code_value}
use clu.Client.{Published, Incoming}

-- The command that an actor makes of a message, before it is parsed.
pub record RemoteCommand : Type 0 where
  pub command_string : Text
  pub command_id : Option Text
  pub commander_id : Option Text
  pub consumer_id : Text
  pub internal : Bool

-- A reply that is published: its routing key, headers, correlation id and body.
pub record ReplyMessage : Type 0 where
  pub routing_key : Text
  pub message_code : Text
  pub commander_id : Option Text
  pub command_id : Option Text
  pub sender : Text
  pub internal : Bool
  pub correlation_id : Option Text
  pub body : Text

-- An actor: its name, whether its exchange is ready, what it has published, its warnings.
pub record AmqpActor : Type 0 where
  pub name : Text
  pub is_ready : Bool
  pub published : List ReplyMessage
  pub warned : ℕ

-- The reply that is written: what `_write_internal` reads of it.
pub record Output : Type 0 where
  pub code : MessageCode
  pub message : Message
  pub command : Option RemoteCommand
  pub broadcast : Bool
  pub internal : Bool

-- new_command(message), up to the call of the parser, for a command that a client has published
unfoldable pub new_command : Text → Published → RemoteCommand
new_command name p = record {
  command_string = p.command_string;
  command_id = some p.command_id;
  commander_id = some p.commander_id;
  consumer_id = name;
  internal = p.internal;
}

-- The text of a commander in a routing key.
unfoldable pub shown : Option Text → Text
shown none = text "None"
shown (some t) = t

unfoldable pub routing_key : Option RemoteCommand → Bool → Text
unfolding shown
routing_key none broadcast = text "reply.broadcast"
routing_key (some c) broadcast =
    if broadcast then text "reply.broadcast" else text "reply." ++ shown c.commander_id

abbrev pub commander_of : Option RemoteCommand → Option Text
commander_of none = none
commander_of (some c) = c.commander_id

abbrev pub id_of : Option RemoteCommand → Option Text
id_of none = none
id_of (some c) = c.command_id

-- error_msg, with the consumer's name as it is shown
abbrev pub unrouted : Text → Message
unrouted quoted =
    (text "error", str (text "Failed routing message to consumer " ++ (quoted ++ text "."))) ∷ []

module _ (dumps : Message → Text) where
  -- The message that `_write_internal` publishes.
  unfoldable pub reply_message : Text → Output → ReplyMessage
  unfolding routing_key
  reply_message name o = record {
    routing_key = routing_key o.command o.broadcast;
    message_code = code_value o.code;
    commander_id = commander_of o.command;
    command_id = id_of o.command;
    sender = name;
    internal = o.internal;
    correlation_id = id_of o.command;
    body = dumps o.message;
  }

  -- _write_internal(reply)
  unfoldable pub write_internal : Output → AmqpActor → AmqpActor
  unfolding reply_message
  write_internal o a =
      if a.is_ready
      then record a { published = a.published ++ reply_message a.name o ∷ [] }
      else record a { warned = 1 + a.warned }

  -- The reply that the client publishes to itself when no consumer has taken its command.
  unfoldable pub undelivered : Text → Text → Text → Published → ReplyMessage
  undelivered name consumer quoted p = record {
    routing_key = text "reply." ++ name;
    message_code = text "f";
    commander_id = some p.commander_id;
    command_id = some p.command_id;
    sender = consumer;
    internal = p.internal;
    correlation_id = some p.command_id;
    body = dumps (unrouted quoted);
  }

-- The task handlers of an actor, with the calls that have been made: the handler and the payload,
-- which holds the actor under a name of its own; and the names of the tasks that are unknown.
pub record TaskActor (J : Type 0) : Type 0 where
  pub task_handlers : Dict ℕ
  pub gathered : List (ℕ × Dict J)
  pub unknown : List (Option Text)

-- body.pop(k)
unfoldable pub without {ℓ} : {V : Type ℓ} → Text → Dict V → Dict V
without k [] = []
without k ((j, v) ∷ m) = if text_eq j k then m else (j, v) ∷ without k m

unfoldable pub find_handler : Option Text → Dict ℕ → Option ℕ
find_handler none m = none
find_handler (some t) m = lookup t m

module _ {J : Type 0} where
  -- The name of a task, if the value is a text.
  unfoldable pub task_name : (J → Option Text) → Option J → Option Text
  task_name name_of none = none
  task_name name_of (some v) = name_of v

  -- add_task_handler(name, callback)
  unfoldable pub add_task_handler : Text → ℕ → TaskActor J → TaskActor J
  add_task_handler name callback a = record a {
    task_handlers = insert name callback a.task_handlers;
  }

  unfoldable pub call_handler : Option ℕ → Option Text → Dict J → TaskActor J → TaskActor J
  call_handler none name payload a = record a { unknown = a.unknown ++ name ∷ [] }
  call_handler (some f) name payload a = record a { gathered = a.gathered ++ (f, payload) ∷ [] }

  -- new_command(message) of a task: `actor` is the actor as a value, `name_of` the text of a value
  unfoldable pub new_task : J → (J → Option Text) → Dict J → TaskActor J → TaskActor J
  unfolding without find_handler call_handler task_name
  new_task actor name_of body a =
      let name = task_name name_of (lookup (text "task") body) in
      call_handler (find_handler name a.task_handlers) name
        (insert (text "__actor__") actor (without (text "task") body)) a
