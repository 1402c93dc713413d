-- ===== src/Command/Written.antt =====
-- What `BaseCommand.write` asks of the actor.
use clu.Prelude.{
  ◌≡◌, ◌≢◌, refl, text_eq, inl, inr, Bool, true, false, Option, none, some, text, Result, ok, err,
  value_error, command_error, arith, if◌then◌else◌, ◌⊎◌, not,
}
use clu.Prelude.Dict.{lookup}
use clu.Status.{is_done, code_to_status}
use clu.Reply.{
  MessageCode, CommandRef, started, done, failed, error, critical, info, warning, debug, code_value,
}
use clu.Reply.Codes.{error_of, message_code_error}
use clu.Command.{
  Command, CodeArg, MessageArg, Kwargs, ActorCall, code_text, member, text_message, no_message,
  dict_message, unsupported, exc_message, level, written, to_code, to_message,
}

-- Whether a client reads a code as the end of a command.
abbrev pub ends : MessageCode → Bool
ends c = is_done (code_to_status (code_value c) none)

ends_lem : (c : MessageCode) → ends c ≡ true → (c ≡ done) ⊎ (c ≡ failed) ⊎ (c ≡ critical)
unfolding code_to_status code_value is_done lookup text_eq
ends_lem started h = cc
ends_lem done h = inl refl
ends_lem failed h = inr (inl refl)
ends_lem error h = cc
ends_lem critical h = inr (inr refl)
ends_lem info h = cc
ends_lem warning h = cc
ends_lem debug h = cc

-- A call of `write` of a command with a parent, if it reaches the actor, is made as the parent,
-- with a code that does not open a command; and a client reads that code as the end of a command
-- only if it is the code ! that `write` was given itself.
pub written-child :
    (c : Command) (p : CommandRef) (code : CodeArg) (m : MessageArg) (k : Kwargs) (a : ActorCall)
    → c.parent ≡ some p
    → written c code m k ≡ ok (some a)
    → (a.command ≡ p)
      × (a.code ≢ started)
      × (ends a.code ≡ true → (a.code ≡ critical) × (to_code code ≡ ok critical))
unfolding written
written-child c p code m k a e h = (
  ground arith,
  (λ o. ground arith),
  λ t. elim (ends_lem a.code t) [
    | inl y ↦ absurd (ground arith)
    | inr (inl y) ↦ absurd (ground arith)
    | inr (inr y) ↦ (y, ground arith)
  ],
)

-- A command with no parent that has an actor always makes the call, as itself, with the code and
-- the message that it was given, if it raises nothing.
pub written_self :
    (c : Command) (code : CodeArg) (m : MessageArg) (k : Kwargs) (o : Option ActorCall)
    → c.parent ≡ none
    → written c code m k ≡ ok o
    → (a : ActorCall) × (o ≡ some a)
      × (a.command ≡ c.ref)
      × (to_code code ≡ ok a.code)
      × (to_message c.default_keyword code m ≡ ok a.message)
unfolding written
written_self c code m k none e h = absurd (ground arith)
written_self c code m k (some a) e h = (a, refl, ground arith, ground arith, ground arith)

abbrev pub unsupported_message : MessageArg → Bool
unsupported_message unsupported = true
unsupported_message no_message = false
unsupported_message (text_message _) = false
unsupported_message (dict_message _) = false
unsupported_message (exc_message _) = false

abbrev pub known_code : Result MessageCode → Bool
known_code (ok _) = true
known_code (err _) = false

-- `write` raises a ValueError for a message of an unsupported class, else a CommandError if the
-- command has no actor, else a ValueError for a code that is no level and no member, and nothing
-- else.
pub written_errors :
    (c : Command) (code : CodeArg) (m : MessageArg) (k : Kwargs)
    → error_of (written c code m k) ≡ (
        if unsupported_message m
        then some value_error
        else if not c.has_actor
        then some command_error
        else if known_code (to_code code)
        then none
        else some value_error)
unfolding written to_message to_code
written_errors c (level n) m k = ground (
  arith,
  message_code_error (text "d"),
  message_code_error (text "i"),
  message_code_error (text "w"),
  message_code_error (text "e"),
)
written_errors c (code_text t) m k = ground (arith, message_code_error t)
written_errors c (member d) m k = ground arith
