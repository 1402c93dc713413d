-- ===== src/Command.antt =====
-- `BaseCommand` of python/clu/command.py, with `StatusMixIn.do_callbacks` of python/clu/tools.py.
-- The actor that a command writes to is a parameter: what its `write` does with a call, in a world
-- of its own, where it may also raise.
pub mod Written
pub mod Lifecycle
pub mod Ends
pub mod Trace
pub mod Open
pub mod Fake
mod Tests
use clu.Prelude.{
  ℕ, ◌+◌, Bool, true, false, Option, none, some, List, [], ◌∷◌, ◌++◌, map, Text, text, text_eq,
  lower, ltb, ◌==◌, if◌then◌else◌, Result, ok, err, Error, value_error, type_error, command_error,
  assertion_error, ◌>>=◌, not, ◌&&◌, ◌||◌,
}
use clu.Value.{Value, Exc, str, exc}
use clu.Status.{CommandStatus, members, timedout, is_done}
use clu.Status
use clu.Reply.{
  MessageCode, Message, CommandRef, started, done, failed, error, info, code_eq, code_value,
  message_code,
}

-- The handle of `call_later`.
pub data Timer : Type 0 where
  no_timer armed disarmed : Timer

-- `scheduled` holds the calls that `call_soon` has been given, `warned` counts the warnings, and
-- `finished` is `done()` of the future that the command is.
pub record Command : Type 0 where
  pub ref : CommandRef
  pub parent : Option CommandRef
  pub has_actor : Bool
  pub status : CommandStatus
  pub finished : Bool
  pub callbacks : List ℕ
  pub scheduled : List (ℕ × CommandStatus)
  pub watcher : Option Bool
  pub timer : Timer
  pub silent : Bool
  pub internal : Bool
  pub write_to_log : Bool
  pub default_keyword : Text
  pub warned : ℕ

-- What `write` takes for its code: a logging level, a text, or a member of `MessageCode`.
pub data CodeArg : Type 0 where
  level : ℕ → CodeArg
  code_text : Text → CodeArg
  member : MessageCode → CodeArg

pub data MessageArg : Type 0 where
  no_message unsupported : MessageArg
  text_message : Text → MessageArg
  dict_message : Message → MessageArg
  exc_message : Exc → MessageArg

-- The keyword arguments of `write`; `keywords` are those that go into the message.
pub record Kwargs : Type 0 where
  pub broadcast : Bool
  pub internal : Option Bool
  pub write_to_log : Option Bool
  pub keywords : Message

-- A call of `actor.write`.
pub record ActorCall : Type 0 where
  pub code : MessageCode
  pub message : Message
  pub command : CommandRef
  pub broadcast : Bool
  pub silent : Bool
  pub internal : Bool
  pub write_to_log : Bool
  pub keywords : Message

-- message_code in ["f", "e"]
is_error_code : CodeArg → Bool
unfolding code_eq text_eq
is_error_code (level _) = false
is_error_code (code_text t) = text_eq t (text "f") || text_eq t (text "e")
is_error_code (member c) = code_eq c failed || code_eq c error

unfoldable pub to_message : Text → CodeArg → MessageArg → Result Message
unfolding is_error_code
to_message keyword c no_message = ok []
to_message keyword c (dict_message m) = ok m
to_message keyword c (text_message t) =
    ok ((if is_error_code c then text "error" else keyword, str t) ∷ [])
to_message keyword c (exc_message e) = ok ((text "error", exc e) ∷ [])
to_message keyword c unsupported = err value_error

-- The levels are those of `logging`: DEBUG 10, INFO 20, WARNING 30 and ERROR 40.
level_code : ℕ → Result Text
level_code n =
    if n == 10
    then ok (text "d")
    else if n == 20
    then ok (text "i")
    else if n == 30
    then ok (text "w")
    else if n == 40
    then ok (text "e")
    else err value_error

unfoldable pub to_code : CodeArg → Result MessageCode
unfolding level_code
to_code (level n) = do t ← level_code n; message_code t
to_code (code_text t) = message_code t
to_code (member c) = ok c

abbrev is_nil {ℓ} : {A : Type ℓ} → List A → Bool
is_nil [] = true
is_nil (_ ∷ _) = false

abbrev is_none : Option Bool → Bool
is_none none = true
is_none (some _) = false

-- kwargs == {}; `broadcast` is a parameter of its own
no_kwargs : Kwargs → Bool
no_kwargs k = is_none k.internal && (is_none k.write_to_log && is_nil k.keywords)

-- The code that a command with a parent writes, or none where it writes nothing.
child_code : MessageCode → Bool → Option MessageCode
child_code started empty = none
child_code done empty = if empty then none else some info
child_code failed empty = some error
child_code c empty = some c

code_for : Option CommandRef → MessageCode → Bool → Option MessageCode
unfolding child_code
code_for none c empty = some c
code_for (some _) c empty = child_code c empty

abbrev or_default : Option Bool → Bool → Bool
or_default none b = b
or_default (some b) _ = b

abbrev writer : Command → CommandRef
writer c = elim c.parent [ none ↦ c.ref | some p ↦ p ]

-- The call that `write` makes of the actor, if it makes one.
unfoldable pub written : Command → CodeArg → MessageArg → Kwargs → Result (Option ActorCall)
unfolding to_message to_code code_for no_kwargs
written c code message k = do
  m ← to_message c.default_keyword code message
  if not c.has_actor then err command_error else do
    mc ← to_code code
    ok (elim (code_for c.parent mc (no_kwargs k && is_nil m)) [
      | none ↦ none
      | some mc' ↦ some (record {
        code = mc';
        message = m;
        command = writer c;
        broadcast = k.broadcast;
        silent = c.silent;
        internal = or_default k.internal c.internal;
        write_to_log = or_default k.write_to_log c.write_to_log;
        keywords = k.keywords;
      })
    ])

-- What `set_status` takes for a status: a member or combination of flags, an integer, or a name.
pub data StatusArg : Type 0 where
  flag : CommandStatus → StatusArg
  number : ℕ → StatusArg
  name : Text → StatusArg

find_bit : List (Text × CommandStatus) → Text → Result CommandStatus
find_bit [] t = err value_error
find_bit ((n, bit) ∷ l) t = if text_eq (lower t) (lower n) then ok bit else find_bit l t

-- self.flags(status), after the search for a name: flags beyond the nine bits are no status
unfoldable pub to_status : StatusArg → Result CommandStatus
unfolding find_bit text_eq lower
to_status (flag v) = ok v
to_status (number n) = if ltb n 512 then ok n else err value_error
to_status (name t) = find_bit members t

-- status == CommandStatus.TIMEDOUT: an integer or a text is no flag
abbrev is_timedout : StatusArg → Bool
is_timedout (flag v) = v == timedout
is_timedout (number _) = false
is_timedout (name _) = false

-- A text that comes with a status of code f or e is an error message.
error_message : Text → MessageArg → MessageArg
unfolding text_eq
error_message code (text_message t) =
    if text_eq code (text "f") || text_eq code (text "e")
    then dict_message ((text "error", str t) ∷ [])
    else text_message t
error_message code m = m

-- for func in self.callbacks: if self.status: loop.call_soon(func, self.status)
do_callbacks : Command → Command
do_callbacks c =
    if c.status == 0
    then c
    else record c { scheduled = c.scheduled ++ map (λ f. (f, c.status)) c.callbacks }

abbrev disarm : Timer → Timer
disarm no_timer = no_timer
disarm armed = disarmed
disarm disarmed = disarmed

abbrev set_event : Option Bool → Option Bool
set_event none = none
set_event (some _) = some true

-- The end of `set_status`, once the message is out.
unfoldable pub complete : CommandStatus → Command → Command
unfolding do_callbacks
complete v c =
    let d = do_callbacks (record c { status = v }) in
    let e : Command =
      if is_done v && not c.finished
      then record d { finished = true; timer = disarm c.timer }
      else d in
    record e { watcher = set_event c.watcher }

-- The constructor: `time_limit` 0 or none starts no timer; `status_callbacks` are the callback or
-- the list of callbacks given.
unfoldable pub new :
    CommandRef
    → Option CommandRef
    → Bool
    → List ℕ
    → Bool
    → Text
    → Bool
    → Bool
    → Bool
    → Option ℕ
    → Command
unfolding do_callbacks
new ref parent has_actor status_callbacks call_now keyword silent internal to_log time_limit =
    let c : Command = record {
      ref = ref;
      parent = parent;
      has_actor = has_actor;
      status = Status.ready;
      finished = false;
      callbacks = status_callbacks;
      scheduled = [];
      watcher = none;
      timer = elim time_limit [ none ↦ no_timer | some n ↦ if n == 0 then no_timer else armed ];
      silent = silent;
      internal = internal;
      write_to_log = to_log;
      default_keyword = keyword;
      warned = 0;
    } in
    if call_now then do_callbacks c else c

module _ {W : Type 0} (actor_write : ActorCall → W → Result (Unit {0}) × W) where
  call : Result (Option ActorCall) → W → Result (Unit {0}) × W
  call (err e) w = (err e, w)
  call (ok none) w = (ok tt, w)
  call (ok (some a)) w = actor_write a w

  -- self.write(...)
  unfoldable pub write : Command → CodeArg → MessageArg → Kwargs → W → Result (Unit {0}) × W
  unfolding call
  write c code message k w = call (written c code message k) w

  finish_with : CommandStatus → Command → Result (Unit {0}) × W → Result (Unit {0}) × Command × W
  finish_with v c (ok _, w) = (ok tt, complete v c, w)
  finish_with v c (err e, w) = (err e, c, w)

  with_code :
      CommandStatus
      → Option Text
      → MessageArg
      → Bool
      → Kwargs
      → Command
      → W
      → Result (Unit {0}) × Command × W
  unfolding finish_with error_message complete
  with_code v none m quiet k c w = (err (Status.code_error v), c, w)
  with_code v (some code) m quiet k c w = finish_with v c (
      if c.has_actor && not quiet
      then write c (code_text code) (error_message code m) k w
      else (ok tt, w))

  change_to :
      Result CommandStatus
      → MessageArg
      → Bool
      → Kwargs
      → Command
      → W
      → Result (Unit {0}) × Command × W
  unfolding with_code
  change_to (err e) m quiet k c w = (err e, c, w)
  change_to (ok v) m quiet k c w =
      if v == c.status then (ok tt, c, w) else with_code v (Status.code v) m quiet k c w

  -- set_status(status, message, silent, **kwargs)
  unfoldable pub set_status :
      StatusArg → MessageArg → Bool → Kwargs → Command → W → Result (Unit {0}) × Command × W
  unfolding change_to to_status
  set_status s message quiet k c w =
      if c.status == 0
      then (err assertion_error, c, w)
      else if is_timedout s && c.finished
      then (ok tt, c, w)
      else if is_done c.status
      then (ok tt, record c { warned = c.warned + 1 }, w)
      else change_to (to_status s) message quiet k c w

  unfoldable pub finish : MessageArg → Bool → Kwargs → Command → W → Result (Unit {0}) × Command × W
  finish = set_status (flag Status.done)

  unfoldable pub fail : MessageArg → Bool → Kwargs → Command → W → Result (Unit {0}) × Command × W
  fail = set_status (flag Status.failed)
