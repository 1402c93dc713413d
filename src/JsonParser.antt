-- ===== src/JsonParser.antt =====
-- `JSONParser.parse_command` of python/clu/parsers/json.py. `json.loads`, the callbacks' own
-- behaviour and the texts of the complaints are parameters.
pub mod Outcomes
mod Tests
use clu.Prelude.{
  ℕ, Bool, true, false, Option, none, some, List, [], ◌∷◌, Text, text, text_eq, starts_with,
  if◌then◌else◌, Result, ok, err, Error, type_error, attribute_error, ◌||◌,
}
use clu.Prelude.Dict.{Dict, lookup}
use clu.Value.{Value, Items, str, bool, list, dict, exc, other, nil, cons}
use clu.Reply.{Message}
use clu.Status
use clu.Command.{Command, ActorCall, Kwargs, no_message, flag, set_status, fail}

-- What `json.loads` returns: a dictionary, a list, a text, or a number, a Boolean or None.
pub data Json : Type 0 where
  object : Message → Json
  array : Items → Json
  string : Text → Json
  scalar : Json

pub data Problem : Type 0 where
  no_json no_command : Problem
  no_callback : Value → Problem
  no_coroutine not_scheduled : Text → Problem

-- The result of the call, the command and the world after it, and the task that it created: the
-- name of the callback and the payload.
pub record Outcome (W : Type 0) : Type 0 where
  pub result : Result (Unit {0})
  pub command : Command
  pub world : W
  pub task : Option (Text × Message)

-- payload.pop("command"), the dictionary that is left
unfoldable pub without : Text → Message → Message
without k [] = []
without k ((j, v) ∷ m) = if text_eq j k then m else (j, v) ∷ without k m

has_item : Text → Items → Bool
has_item t nil = false
has_item t (cons (str s) l) = text_eq s t || has_item t l
has_item t (cons _ l) = has_item t l

-- t in s, for two texts
has_text : Text → Text → Bool
has_text t [] = starts_with [] t
has_text t (c ∷ s) = starts_with (c ∷ s) t || has_text t s

abbrev plain : Kwargs
plain = record { broadcast = false; internal = none; write_to_log = none; keywords = [] }

module _ {W : Type 0} (actor_write : ActorCall → W → Result (Unit {0}) × W)
    (loads : Text → Option Json) (callbacks : Dict Bool) (schedules : Text → Message → Bool)
    (complain : Problem → Text) where
  outcome : Result (Unit {0}) × Command × W → Outcome W
  outcome (r, c, w) = record { result = r; command = c; world = w; task = none }

  raises : Error → Command → W → Outcome W
  raises e c w = record { result = err e; command = c; world = w; task = none }

  -- command.fail(error=...)
  fail_with : Problem → Command → W → Outcome W
  unfolding outcome
  fail_with p c w = outcome (
      fail actor_write no_message false
        (record plain { keywords = (text "error", str (complain p)) ∷ [] }) c w)

  -- The callbacks hold for each name whether it is a coroutine function.
  dispatch : Text → Message → Command → W → Outcome W
  unfolding fail_with
  dispatch verb payload c w = elim (lookup verb callbacks) [
    | none ↦ fail_with (no_callback (str verb)) c w
    | some false ↦ fail_with (no_coroutine verb) c w
    | some true ↦
        if schedules verb payload
        then record { result = ok tt; command = c; world = w; task = some (verb, payload) }
        else fail_with (not_scheduled verb) c w
  ]

  by_verb : Option Value → Message → Command → W → Outcome W
  unfolding dispatch raises
  by_verb none payload = fail_with no_command
  by_verb (some (str verb)) payload = dispatch verb payload
  by_verb (some (list l)) payload = raises type_error
  by_verb (some (dict fs)) payload = raises type_error
  by_verb (some (bool b)) payload = fail_with (no_callback (bool b))
  by_verb (some (exc e)) payload = fail_with (no_callback (exc e))
  by_verb (some (other t)) payload = fail_with (no_callback (other t))

  by_payload : Option Json → Command → W → Outcome W
  unfolding by_verb has_item has_text without
  by_payload none = fail_with no_json
  by_payload (some (object m)) = by_verb (lookup (text "command") m) (without (text "command") m)
  by_payload (some (array l)) =
      if has_item (text "command") l then raises type_error else fail_with no_command
  by_payload (some (string t)) =
      if has_text (text "command") t then raises attribute_error else fail_with no_command
  by_payload (some scalar) = raises type_error

  after_running : Text → Result (Unit {0}) × Command × W → Outcome W
  unfolding by_payload
  after_running body (err e, c, w) = raises e c w
  after_running body (ok _, c, w) = by_payload (loads body) c w

  -- parse_command(command), of a command with this body
  unfoldable pub parse_command : Text → Command → W → Outcome W
  unfolding after_running
  parse_command [] c w = record { result = ok tt; command = c; world = w; task = none }
  parse_command (x ∷ s) c w =
      after_running (x ∷ s)
        (set_status actor_write (flag Status.running) no_message false plain c w)
