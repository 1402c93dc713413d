-- ===== src/Actor/Writes.antt =====
-- What `BaseActor.write` returns, emits and keeps.
use clu.Prelude.{
  ℕ, ◌≡◌, err, Bool, true, false, Option, none, some, [], ◌∷◌, ◌++◌, Text, text, if◌then◌else◌,
  Result, ok, not, ◌&&◌,
}
use clu.Value.{Value, str, exc, bool, list, dict, other}
use clu.Reply.{error, Message, Reply}
use clu.Command.{CodeArg, MessageArg}
use clu.CaseDict.{get_item}
use clu.CaseDict.Laws.{IsValid}
use clu.Model.{Model}
use clu.Model.Views.{Applied}
use clu.Store.{KeywordStore}
use clu.Store.{add_reply}
use clu.Actor.{Actor, Options, or_default, write}

-- The model of the actor, if it has one, is valid.
abbrev pub ModelIsValid : Option Model → Type 0
ModelIsValid none = Unit
ModelIsValid (some m) = IsValid m.props

abbrev is_exc : Value → Bool
is_exc (exc _) = true
is_exc (str _) = false
is_exc (bool _) = false
is_exc (list _) = false
is_exc (dict _) = false
is_exc (other _) = false

abbrev pub no_exceptions : Message → Bool
no_exceptions [] = true
no_exceptions ((_, v) ∷ m) = not (is_exc v) && no_exceptions m

module _ (accepts : Message → Bool) (complain : Message → Text) (time : ℕ) (now date : Text → ℕ)
    (transmits : Reply → Bool → Result (Unit {0})) where
  abbrev has_model : Option Model → Bool
  has_model none = false
  has_model (some _) = true

  -- Whether the reply is checked and rejected.
  abbrev pub rejects : Actor → Options → Message → Bool
  rejects a o m = or_default o.validate a.validates && (has_model a.model && not (accepts m))

  -- How the reply that is written follows from its draft.
  pub record IsVerdict (rejected : Bool) (r s : Reply) : Type 0 where
    pub message_code : s.message_code ≡ (if rejected then error else r.message_code)
    pub message :
        s.message ≡ (if rejected then (text "error", str (complain r.message)) ∷ [] else r.message)
    pub command : s.command ≡ r.command
    pub broadcast : s.broadcast ≡ r.broadcast
    pub internal : s.internal ≡ r.internal

  -- How the model that is kept follows from the model that was there.
  abbrev pub Kept : Bool → Message → Option Model → Option Model → Type 0
  Kept changes l none none = Unit
  Kept changes l (some m) (some n) =
      IsValid n.props
      × (if changes then Applied now l (get_item m.props) (get_item n.props) else n ≡ m)
  Kept changes l none (some _) = ⊥
  Kept changes l (some _) none = ⊥

  abbrev Checked : Bool → Option Model → Reply → Result (Reply × Option Model) → Type 0
  Checked b om r result =
      (p : Reply × Option Model) × (result ≡ ok p)
      × IsVerdict (b && (has_model om && not (accepts r.message))) r p.0
      × Kept (b && accepts r.message) r.message om p.1

  -- What the transport makes of a reply: nothing, if the call does not emit or is silent.
  abbrev pub delivery : Options → Reply → Result (Unit {0})
  delivery o s = if o.emit && not o.silent then transmits s o.write_to_log else ok tt

  -- What `write` returns of a reply, or raises.
  abbrev pub returned : Reply → Result (Unit {0}) → Result Reply
  returned s (ok _) = ok s
  returned s (err e) = err e

  abbrev pub stored : Reply → Option KeywordStore → Result (Unit {0}) → Option KeywordStore
  stored s k (err e) = k
  stored s none (ok _) = none
  stored s (some k) (ok _) = some (add_reply date s k)

  -- What a reply leaves in the actor: it is given to `_write_internal` if the call emits and is not
  -- silent, gathered by the command if there is one, and kept by the store if there is one, unless
  -- `_write_internal` raises.
  pub record IsSent (o : Options) (a : Actor) (s : Reply) (b : Actor) : Type 0 where
    pub emitted :
        b.emitted
        ≡ (if o.emit && not o.silent then a.emitted ++ (s, o.write_to_log) ∷ [] else a.emitted)
    pub replies :
        b.replies ≡ (elim o.command [ none ↦ a.replies | some c ↦ a.replies ++ (c, s) ∷ [] ])
    pub store : b.store ≡ stored s a.store (delivery o s)

  abbrev run : CodeArg → MessageArg → Options → Actor → Result Reply × Actor
  run = write accepts complain time now date transmits
