-- ===== src/Actor.antt =====
-- `BaseActor.write` of python/clu/base.py, over the model and the store of the actor. What
-- `_write_internal` is called with is recorded in `emitted`, and the replies that commands gather
-- in `replies`. The schema's validator, the text of its complaint and the clocks are parameters.
pub mod Writes
mod Tests
use clu.Prelude.{
  ℕ, zero, suc, Bool, true, false, Option, none, some, List, [], ◌∷◌, ◌++◌, Text, text,
  if◌then◌else◌, Result, ok, err, Error, type_error, value_error, ◌>>=◌, not, ◌&&◌,
}
use clu.Prelude.Dict.{Dict, update}
use clu.Value.{Value, Frame, Exc, str, other, dict, exc, bool, list, end, field}
use clu.Reply.{MessageCode, error, Message, CommandRef, Reply, message_code}
use clu.Command.{
  CodeArg, MessageArg, level, code_text, member, no_message, unsupported, text_message,
  dict_message, exc_message,
}
use clu.Model
use clu.Model.{Model, validate}
use clu.Store
use clu.Store.{KeywordStore, add_reply}

pub record Actor : Type 0 where
  pub name : Text
  pub validates : Bool
  pub model : Option Model
  pub store : Option KeywordStore
  pub processor : Option (Message → Result Message)
  pub emitted : List (Reply × Bool)
  pub replies : List (CommandRef × Reply)

-- The arguments of `write` after the code and the message; `keywords` are its keyword arguments.
pub record Options : Type 0 where
  pub command : Option CommandRef
  pub broadcast : Bool
  pub validate : Option Bool
  pub expand_exceptions : Bool
  pub traceback_frame : ℕ
  pub silent : Bool
  pub internal : Bool
  pub emit : Bool
  pub write_to_log : Bool
  pub keywords : Message

-- MessageCode(message_code): an integer is no code
unfoldable pub to_code : CodeArg → Result MessageCode
to_code (level n) = err value_error
to_code (code_text t) = message_code t
to_code (member c) = ok c

unfoldable pub to_message : MessageArg → Result Message
to_message no_message = ok []
to_message (text_message t) = ok ((text "text", str t) ∷ [])
to_message (dict_message m) = ok m
to_message (exc_message e) = err type_error
to_message unsupported = err type_error

-- The message processor may raise.
abbrev pub process : Option (Message → Result Message) → Message → Result Message
process none m = ok m
process (some f) m = f m

-- The frame n steps into a traceback, or its last.
unfoldable pub frame_at : ℕ → Frame → List Frame → Frame
frame_at n f [] = f
frame_at zero f (g ∷ l) = f
frame_at (suc n) f (g ∷ l) = frame_at n g l

abbrev none_value : Value
none_value = other (text "None")

filename_of : ℕ → List Frame → Value
unfolding frame_at
filename_of n [] = none_value
filename_of n (f ∷ l) = str (frame_at n f l).filename

lineno_of : ℕ → List Frame → Value
unfolding frame_at
lineno_of n [] = none_value
lineno_of n (f ∷ l) = other (frame_at n f l).lineno

unfoldable pub expand : ℕ → Exc → Value
unfolding filename_of lineno_of
expand n e = dict (
    field (text "module") (str e.module_name) (
      field (text "type") (str e.type_name) (
        field (text "message") (str e.message) (
          field (text "filename") (filename_of n e.frames)
            (field (text "lineno") (lineno_of n e.frames) end)))))

expand_value : Bool → ℕ → Value → Value
expand_value expanding n (exc e) = if expanding then expand n e else str e.message
expand_value expanding n (str s) = str s
expand_value expanding n (bool b) = bool b
expand_value expanding n (list l) = list l
expand_value expanding n (dict fs) = dict fs
expand_value expanding n (other s) = other s

-- the loop over the items of the message
unfoldable pub expand_all : Bool → ℕ → Message → Message
unfolding expand_value
expand_all expanding n [] = []
expand_all expanding n ((k, v) ∷ m) = (k, expand_value expanding n v) ∷ expand_all expanding n m

abbrev or_default : Option Bool → Bool → Bool
or_default none b = b
or_default (some b) _ = b

-- `accepts` is the validator of the schema, `complain` the text of the error for a message that it
-- rejects; `time`, `now` and `date` are readings of the clock by the model and by the store;
-- `internal` is what the actor's `_write_internal` raises, if anything, for a reply, where it is no
-- coroutine, and nothing where it is one.
module _ (accepts : Message → Bool) (complain : Message → Text) (time : ℕ) (now date : Text → ℕ)
    (internal : Reply → Bool → Result (Unit {0})) where
  checked : Reply → Model → Result (Bool × Model) → Result (Reply × Option Model)
  checked r m (err e) = err e
  checked r m (ok (true, n)) = ok (record r { use_validation = true; validated = true }, some n)
  checked r m (ok (false, n)) = ok (
    record r {
      use_validation = true;
      validated = false;
      message_code = error;
      message = (text "error", str (complain r.message)) ∷ [];
    },
    some n,
  )

  unfoldable pub check_reply : Bool → Option Model → Reply → Result (Reply × Option Model)
  unfolding checked
  check_reply do_validate none r = ok (r, none)
  check_reply do_validate (some m) r =
      if do_validate
      then checked r m (validate accepts true time now r.message m)
      else ok (r, some m)

  -- command.replies.append(reply)
  gather : Option CommandRef → Reply → Actor → Actor
  gather none r a = a
  gather (some c) r a = record a { replies = a.replies ++ (c, r) ∷ [] }

  keep : Reply → Option KeywordStore → Option KeywordStore
  keep r none = none
  keep r (some s) = some (add_reply date r s)

  store_reply : Reply → Actor → Result Reply × Actor
  unfolding keep
  store_reply r a = (ok r, record a { store = keep r a.store })

  after_internal : Result (Unit {0}) → Reply → Actor → Result Reply × Actor
  unfolding store_reply
  after_internal (err e) r a = (err e, a)
  after_internal (ok _) r a = store_reply r a

  -- The rest of `write`, with the reply checked.
  send : Options → Reply → Actor → Result Reply × Actor
  unfolding gather store_reply after_internal
  send o r a =
      let b = gather o.command r a in
      if o.emit && not o.silent
      then after_internal (internal r o.write_to_log) r
          (record b { emitted = b.emitted ++ (r, o.write_to_log) ∷ [] })
      else store_reply r b

  -- The reply before it is checked, of the message that has been processed.
  unfoldable pub draft : MessageCode → Message → Options → Reply
  draft code m o = record {
    message_code = code;
    message = expand_all o.expand_exceptions o.traceback_frame m;
    command = o.command;
    broadcast = o.broadcast;
    use_validation = false;
    validated = false;
    internal = o.internal;
  }

  sent : Options → Actor → Result (Reply × Option Model) → Result Reply × Actor
  unfolding send
  sent o a (err e) = (err e, a)
  sent o a (ok (r, m)) = send o r (record a { model = m })

  prepared : Actor → CodeArg → MessageArg → Options → Result Reply
  prepared a code msg o = do
    c ← to_code code
    m ← to_message msg
    p ← process a.processor (update m o.keywords)
    ok (draft c p o)

  from_draft : Options → Actor → Result Reply → Result Reply × Actor
  from_draft o a (err e) = (err e, a)
  from_draft o a (ok r) = sent o a (check_reply (or_default o.validate a.validates) a.model r)

  -- write(message_code, message, ...)
  unfoldable pub write : CodeArg → MessageArg → Options → Actor → Result Reply × Actor
  unfolding prepared from_draft sent
  write code msg o a = from_draft o a (prepared a code msg o)
