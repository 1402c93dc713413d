-- ===== src/Lib.antt =====
-- clu, the library of SDSS for actors that receive commands and reply with keywords: the state of a
-- command, what it writes to its actor, how an actor turns that into a reply, and what becomes of
-- the reply in the model, the store and the transports of the users.
--
-- A client's command is a future with a status. `BaseCommand.set_status` changes the status and
-- calls `BaseCommand.write`, which calls the actor's `write`. `BaseActor.write` makes a reply of the
-- message, checks it against the schema and updates the model with it, hands it to the transport
-- (`_write_internal`), and keeps it in the command and in the store.
--
-- Which file models which part (paths from the repository's root):
--   Prelude   texts, results, dictionaries as association lists, lemmas on these
--   Status    python/clu/tools.py, Maskbit and CommandStatus: a flag is the number of its bits
--   CaseDict  python/clu/tools.py, CaseInsensitiveDict: __init__, __get_key__ (get_key),
--             __getitem__ (get_item), __setitem__ (set_item), __contains__ (contains)
--   Callbacks python/clu/tools.py, CallbackMixIn
--   Value     python/clu/tools.py, dict_depth, format_value, escape
--   Reply     python/clu/base.py, MessageCode and Reply
--   Store     python/clu/store.py
--   Command   python/clu/command.py, BaseCommand, and StatusMixIn.do_callbacks of
--             python/clu/tools.py; Command/Fake FakeCommand.write
--   Model     python/clu/model.py, Property, CluModel.flatten, Model.validate, Model.update_model
--   Actor     python/clu/base.py, BaseActor.write
--   Legacy    python/clu/legacy/actor.py, new_user, get_user_command_id, _write_internal
--   Timed     python/clu/command.py, TimedCommand and TimedCommandList; the rounds of the
--             poller and the tasks of one command are the steps of Timed/Overlap
--   Handler   python/clu/tools.py, ActorHandler
--   JsonParser python/clu/parsers/json.py, JSONParser.parse_command
--   Click     python/clu/parsers/click.py, ClickParser and the end of a callback; Click/Tasks
--             get_running_tasks, cancel_command, CluCommand.invoke, unique; Click/BuiltIn the
--             commands that every parser has
--   Client    python/clu/client.py, AMQPReply, and of AMQPClient handle_reply, send_command and the
--             reply callbacks
--   Amqp      python/clu/actor.py, AMQPBaseActor.new_command and _write_internal, AMQPActor, and of
--             python/clu/client.py what _publish_message does for a command that nobody takes
--   Tcp       python/clu/actor.py, TCPBaseActor.new_user, new_command and _write_internal
--   Keys      python/clu/legacy/types/keys.py, TypedValues, Key, KeysDictionary
--   Types     python/clu/legacy/types/types.py, validate, Int, Long and UInt; Types/Shifts shifts and
--             masks; Types/Bits the class Bits; Types/Labels Enum and Bool
--   Tron      python/clu/legacy/tron.py, TronKey, TronModel, and of TronConnection send_command and
--             _handle_reply
-- The child modules hold the theorems and, named Tests, runs at concrete inputs.
--
-- Numbers are natural numbers: statuses are below 512, the nine bits of the flags, and theorems say
-- so where they depend on it. Loops run over lists; the loop of a repeated type with no limit runs
-- as often as there are values, which Keys/Ends shows to be enough. Exceptions are the classes of
-- `Error`. Objects are known by numbers where the code compares them by identity, and times by ticks
-- of a clock. Parameters stand for the code of others: `json.dumps` and `json.loads`, the validator of
-- jsonschema, `shlex.split`, click, the clock, the match with WARNING_REGEX, the callbacks of the
-- JSON parser, the conversion of one value of a legacy keyword, what the wrappers of compound types
-- raise, the test `is` on two types, the literals that `int` reads, for a command the `write` of its
-- actor, which may raise, and for an actor what its message processor and its `_write_internal` raise.
-- A message of the broker arrives with the headers and the body that it was published with.
--
-- Not modelled: network and terminal I/O, the calls of loggers, what click itself does, `ModelSet`, the
-- servers of actors, the start and stop of clients, the parser of legacy replies,
-- the floats of its value types, `parse_legacy_command`;
-- `stop_callbacks` and `wait_for_status`, which wait for tasks; the number of arguments that a
-- callback takes; texts outside ASCII in `lower` and `strip`.
pub mod Prelude
pub mod Status
pub mod CaseDict
pub mod Value
pub mod Reply
pub mod Store
pub mod Command
pub mod Callbacks
pub mod Model
pub mod Actor
pub mod Legacy
pub mod Timed
pub mod Handler
pub mod JsonParser
pub mod Client
pub mod Keys
pub mod Tron
pub mod Amqp
pub mod Tcp
pub mod Types
pub mod Click
