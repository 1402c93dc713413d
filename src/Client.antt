-- ===== src/Client.antt =====
-- `AMQPReply` and the replies of `AMQPClient` of python/clu/client.py. A message of the broker is
-- its headers, its correlation id and its body; `loads` is `json.loads` of a body that is a
-- dictionary, or `none` where it raises.
pub mod Models
pub mod Replies
pub mod Sending
mod Tests
use clu.Prelude.{
  ℕ, Bool, true, false, Option, none, some, List, [], ◌∷◌, ◌++◌, Text, text, text_eq, if◌then◌else◌,
  Result, ok, err, Error, value_error, ◌>>=◌, not, ◌&&◌, ◌||◌, ◌==◌,
}
use clu.Prelude.Dict.{Dict, lookup, insert}
use clu.Status.{CommandStatus, code_to_status, is_done}
use clu.Reply.{Message, MessageCode, Reply, message_code}
use clu.Model.{Model, update_model}
use clu.Command.{Command, ActorCall, Kwargs, no_message, flag, set_status, new}

-- The headers that are read; `message_code` is the text that `str` makes of it.
pub record Incoming : Type 0 where
  pub message_code : Option Text
  pub internal : Bool
  pub sender : Option Text
  pub header_id : Option Text
  pub correlation_id : Option Text
  pub body : Text

pub record AmqpReply : Type 0 where
  pub is_valid : Bool
  pub message_code : Text
  pub internal : Bool
  pub sender : Option Text
  pub command_id : Option Text
  pub body : Message

-- A command that the client sent, with its reply callback and the replies that it has received.
pub record Sent : Type 0 where
  pub command : Command
  pub reply_callback : Option ℕ
  pub replies : List Reply

-- A callback for all replies: its identity and whether it is a coroutine function.
pub record ReplyCallback : Type 0 where
  pub id : ℕ
  pub is_coroutine : Bool

-- `called` holds the calls made at once and `running` the tasks, each with its reply.
pub record Client : Type 0 where
  pub name : Text
  pub models : Dict Model
  pub running_commands : Dict Sent
  pub callbacks : List ReplyCallback
  pub called : List (ℕ × AmqpReply)
  pub tasks : List (ℕ × AmqpReply)

unfoldable pub or_text : Option Text → Text → Text
or_text none t = t
or_text (some s) t = s

-- command_id_header and command_id_header != self.command_id
unfoldable pub mismatched : Option Text → Option Text → Bool
unfolding text_eq
mismatched none o = false
mismatched (some t) none = not (text_eq t [])
mismatched (some t) (some u) = not (text_eq t []) && not (text_eq t u)

abbrev pub invalid : Text → Bool → Option Text → Option Text → AmqpReply
invalid code internal sender id = record {
  is_valid = false;
  message_code = code;
  internal = internal;
  sender = sender;
  command_id = id;
  body = [];
}

unfoldable pub with_body : AmqpReply → Option Message → Result AmqpReply
with_body r none = err value_error
with_body r (some m) = ok (record r { body = m })

module _ (loads : Text → Option Message) where
  -- AMQPReply(message)
  unfoldable pub read : Incoming → Result AmqpReply
  unfolding or_text mismatched with_body text_eq
  read m =
      let code = or_text m.message_code [] in
      if text_eq code []
      then ok (invalid code false none none)
      else if mismatched m.header_id m.correlation_id
      then ok (invalid code m.internal m.sender m.correlation_id)
      else with_body
          (record {
            is_valid = true;
            message_code = code;
            internal = m.internal;
            sender = m.sender;
            command_id = m.correlation_id;
            body = [];
          })
          (loads m.body)

find {ℓ} : {V : Type ℓ} → Option Text → Dict V → Option (Text × V)
find none m = none
find (some k) m = elim (lookup k m) [ none ↦ none | some v ↦ some (k, v) ]

-- del d[k], of a key that is there
unfoldable pub remove {ℓ} : {V : Type ℓ} → Text → Dict V → Dict V
remove k [] = []
remove k ((j, v) ∷ m) = if text_eq j k then m else (j, v) ∷ remove k m

pub plain : Kwargs
plain = record { broadcast = false; internal = none; write_to_log = none; keywords = [] }

-- The commands of a client have no actor, so `set_status` calls none.
abbrev pub no_actor : ActorCall → Unit {0} → Result (Unit {0}) × Unit {0}
no_actor a w = (ok tt, w)

-- set_status(status), if the command has another
unfoldable pub advance : CommandStatus → Command → Result Command
unfolding plain
advance status c =
    if c.status == status
    then ok c
    else let r = set_status no_actor (flag status) no_message false plain c tt in
      (do u ← r.0; ok r.1)

-- `time` and `now` are readings of the clock by the model.
module _ (time : ℕ) (now : Text → ℕ) where
  update_found : Option (Text × Model) → Message → Client → Result Client
  update_found none body c = ok c
  update_found (some (k, m)) body c = do
    n ← update_model time now body m
    ok (record c { models = insert k n c.models })

  -- self.models[reply.sender].update_model(reply.body), if the sender has a model
  unfoldable pub update_sender : AmqpReply → Client → Result Client
  unfolding update_found find
  update_sender r c = update_found (find r.sender c.models) r.body c

-- command.replies.append(Reply(...))
gathered : AmqpReply → Sent → Result Sent
gathered r s = do
  code ← message_code r.message_code
  ok (record s {
    replies =
        s.replies
        ++ record {
          message_code = code;
          message = r.body;
          command = some s.command.ref;
          broadcast = false;
          use_validation = false;
          validated = true;
          internal = r.internal;
        }
          ∷ [];
  })

reply_called : AmqpReply → Sent → Client → Client
reply_called r s c = elim s.reply_callback [
  | none ↦ c
  | some f ↦ record c { called = c.called ++ (f, r) ∷ [] }
]

-- The end of the update of a running command: the future is finished and the command forgotten if
-- the status is done and the future is not.
settle : CommandStatus → Text → Sent → Client → Client
unfolding remove
settle status k s c =
    if is_done status && not s.command.finished
    then record c { running_commands = remove k c.running_commands }
    else record c { running_commands = insert k s c.running_commands }

update_running : AmqpReply → Option (Text × Sent) → Client → Result Client
unfolding gathered reply_called settle advance
update_running r none c = ok c
update_running r (some (k, s)) c = do
  t ← gathered r s
  let d = reply_called r t c
  let status = code_to_status r.message_code none
  e ← advance status t.command
  ok (settle status k (record t { command = e }) d)

-- reply.command_id and reply.command_id in self.running_commands
named : Option Text → Option Text
unfolding text_eq
named none = none
named (some t) = if text_eq t [] then none else some t

call_reply : AmqpReply → List ReplyCallback → Client → Client
call_reply r [] c = c
call_reply r (cb ∷ l) c = call_reply r l (
    if cb.is_coroutine
    then record c { tasks = c.tasks ++ (cb.id, r) ∷ [] }
    else record c { called = c.called ++ (cb.id, r) ∷ [] })

module _ (loads : Text → Option Message) (time : ℕ) (now : Text → ℕ) where
  -- The handling of a reply that has been read.
  unfoldable pub handled : AmqpReply → Client → Result Client
  unfolding update_running call_reply find named update_sender
  handled r c = if not r.is_valid then ok c else do
    d ← update_sender time now r c
    e ← update_running r (find (named r.command_id) d.running_commands) d
    ok (call_reply r e.callbacks e)

  -- handle_reply(message)
  unfoldable pub handle_reply : Incoming → Client → Result (AmqpReply × Client)
  unfolding read handled
  handle_reply m c = do r ← read loads m; d ← handled r c; ok (r, d)

-- add_reply_callback and remove_reply_callback
has_callback : ReplyCallback → List ReplyCallback → Bool
has_callback f [] = false
has_callback f (g ∷ l) = g.id == f.id || has_callback f l

without_callback : ReplyCallback → List ReplyCallback → List ReplyCallback
without_callback f [] = []
without_callback f (g ∷ l) = if g.id == f.id then l else g ∷ without_callback f l

unfoldable pub add_reply_callback : ReplyCallback → Client → Client
unfolding has_callback
add_reply_callback f c =
    if has_callback f c.callbacks then c else record c { callbacks = c.callbacks ++ f ∷ [] }

unfoldable pub remove_reply_callback : ReplyCallback → Client → Result Client
unfolding has_callback without_callback
remove_reply_callback f c =
    if has_callback f c.callbacks
    then ok (record c { callbacks = without_callback f c.callbacks })
    else err value_error

-- A message that is published: its routing key, its headers and its body.
pub record Published : Type 0 where
  pub routing_key : Text
  pub command_id : Text
  pub commander_id : Text
  pub internal : Bool
  pub command_string : Text

-- The command of an actor on whose behalf a command is sent: its number if it is not 0 or empty,
-- its commander if that is a text, and its internal flag.
pub record Origin : Type 0 where
  pub command_id : Option Text
  pub commander_id : Option Text
  pub internal : Bool

abbrev pub joined : Text → List Text → Text
joined s [] = s
joined s (a ∷ l) = joined (s ++ (text " " ++ a)) l

-- id or str(uuid.uuid4())
or_fresh : Option Text → Text → Text
unfolding text_eq
or_fresh none fresh = fresh
or_fresh (some t) fresh = if text_eq t [] then fresh else t

id_for : Option Origin → Option Text → Text → Text
unfolding or_fresh
id_for none id fresh = or_fresh id fresh
id_for (some o) id fresh = elim o.command_id [ none ↦ or_fresh id fresh | some t ↦ t ]

commander_for : Option Origin → Text → Text → Text
commander_for none name consumer = name ++ (text "." ++ consumer)
commander_for (some o) name consumer = elim o.commander_id [
  | none ↦ name ++ (text "." ++ consumer)
  | some t ↦ t ++ (text "." ++ consumer)
]

internal_for : Option Origin → Bool → Bool
internal_for none b = b
internal_for (some o) b = o.internal

-- send_command, up to the wait for the command: `fresh` is the identifier that `uuid4` gives, `ref`
-- names the new command.
unfoldable pub send_command :
    Text
    → ℕ
    → Text
    → Text
    → List Text
    → Option Text
    → Option ℕ
    → Bool
    → Option Origin
    → Option ℕ
    → Client
    → Published × Client
unfolding id_for commander_for internal_for
send_command fresh ref consumer command_string args command_id callback internal command limit c =
    let id = id_for command command_id fresh in
    let flag_ = internal_for command internal in
    (
      record {
        routing_key = text "command." ++ consumer;
        command_id = id;
        commander_id = commander_for command c.name consumer;
        internal = flag_;
        command_string = joined command_string args;
      },
      record c {
        running_commands =
            insert id
              (record {
                command = new ref none false [] false (text "text") false flag_ true limit;
                reply_callback = callback;
                replies = [];
              })
              c.running_commands;
      },
    )
