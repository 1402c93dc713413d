-- ===== src/Actor/Tests.antt =====
-- The property of `BaseActor.write` at an actor with an empty model and a store, and a message that
-- holds an exception.
use clu.Prelude.{ℕ, Bool, true, false, none, some, [], ◌∷◌, ◌++◌, Result, Text, text, ok, length}
use clu.Value.{exc, str}
use clu.Reply.{Message, Reply}
use clu.Model.{Model}
use clu.Actor.{Actor, Options}

abbrev accepts_short : Message → Bool
accepts_short [] = true
accepts_short (_ ∷ []) = true
accepts_short (_ ∷ _ ∷ _) = false

abbrev complain : Message → Text
complain m = text "rejected"

abbrev clock : Text → ℕ
clock k = length k

abbrev empty_model : Model
empty_model = record {
  name = text "m";
  last_seen = none;
  props = record { lc = []; items = [] };
  hooks = record { registered = []; running = []; called = [] };
}

abbrev lamp : Actor
lamp = record {
  name = text "lamp";
  validates = true;
  model = some empty_model;
  store = some (record { filter = none; outputs = [] });
  processor = none;
  emitted = [];
  replies = [];
}

abbrev options : Options
options = record {
  command = some 5;
  broadcast = false;
  validate = none;
  expand_exceptions = true;
  traceback_frame = 0;
  silent = false;
  internal = false;
  emit = true;
  write_to_log = true;
  keywords = (text "note", str (text "late")) ∷ [];
}

abbrev problem : Message
problem =
    (
      text "error",
      exc (record {
        module_name = text "m";
        type_name = text "E";
        message = text "no";
        frames = [];
      }),
    )
    ∷ []

abbrev sends : Reply → Bool → Result (Unit {0})
sends r b = ok tt

abbrev noted : Message
noted = problem ++ (text "note", str (text "late")) ∷ []
