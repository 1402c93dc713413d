-- ===== src/Model.antt =====
-- `Property`, `CluModel` and `Model.update_model`, `Model.validate` of python/clu/model.py. The
-- JSON schema validator is a parameter; readings of the clock are numbers.
pub mod Update
pub mod Views
mod Tests
use clu.Prelude.{
  ℕ, Bool, true, false, Option, none, some, List, [], ◌∷◌, map, Text, text, text_eq, if◌then◌else◌,
  Result, ok, err, ◌>>=◌, not, ◌&&◌,
}
use clu.Prelude.Dict.{Dict, insert}
use clu.Value.{Value, Items, Fields, str, bool, list, dict, exc, other, nil, cons, end, field}
use clu.Reply.{Message}
use clu.CaseDict.{CaseDict, get_key, get_item, set_item, contains}
use clu.Callbacks
use clu.Callbacks.{Callback, Callbacks, notify}

-- The copy of a property that its callbacks receive.
pub record Seen : Type 0 where
  pub name : Text
  pub value : Value
  pub last_seen : Option ℕ
  pub in_schema : Bool

pub record Property : Type 0 where
  pub now : Seen
  pub open now use *
  pub hooks : Callbacks Seen

-- The copies that a model's callbacks receive: the flattened model and the property.
pub record Change : Type 0 where
  pub flat : Message
  pub property : Seen

pub record Model : Type 0 where
  pub name : Text
  pub last_seen : Option ℕ
  pub props : CaseDict Property
  pub hooks : Callbacks Change

abbrev none_value : Value
none_value = other (text "None")

-- Property(name), with no callback
unfoldable pub new_property : Text → Property
new_property name = record {
  now = record { name = name; value = none_value; last_seen = none; in_schema = true };
  hooks = record { registered = []; running = []; called = [] };
}

-- property.value = v: the callbacks run whether the value changes or not
unfoldable pub set_value : ℕ → Value → Property → Property
set_value time v p =
    let n : Seen = record p.now { value = v; last_seen = some time } in
    record { now = n; hooks = notify n p.hooks }

flatten_items : Dict Property → Message
flatten_items [] = []
flatten_items ((k, p) ∷ m) = (k, p.value) ∷ flatten_items m

unfoldable pub flatten : Model → Message
unfolding flatten_items
flatten m = flatten_items m.props.items

-- d[k] = v and d.update(e), on the entries of a dictionary value
unfoldable pub set_field : Text → Value → Fields → Fields
set_field k v end = field k v end
set_field k v (field j w fs) = if text_eq j k then field j v fs else field j w (set_field k v fs)

unfoldable pub update_fields : Fields → Fields → Fields
update_fields fs end = fs
update_fields fs (field k v gs) = update_fields (set_field k v fs) gs

-- The value that a property takes: a dictionary is merged into a dictionary.
unfoldable pub merge : Value → Value → Value
merge (dict fs) (dict gs) = dict (update_fields fs gs)
merge _ v = v

-- Mutating the property that is held under a key.
unfoldable pub set_held : CaseDict Property → Text → ℕ → Value → Result (CaseDict Property)
set_held d key time v = do
  k ← get_key d key
  p ← get_item d key
  ok (record d { items = insert k (set_value time v p) d.items })

abbrev outside_schema : Property → Property
outside_schema p = record p { now = record p.now { in_schema = false } }

-- if key not in self: self[key] = Property(key) with in_schema false
unfoldable pub add_missing : Text → CaseDict Property → Result (CaseDict Property)
unfolding new_property
add_missing key d = do
  found ← contains d key
  if found then ok d else set_item d key (outside_schema (new_property key))

-- the assignment of one round of the loop of `update_model`
unfoldable pub assign : ℕ → Text → Value → CaseDict Property → Result (CaseDict Property)
assign time key v d = do
  e ← add_missing key d
  p ← get_item e key
  set_held e key time (merge p.value v)

-- one round of the loop of `update_model`
unfoldable pub update_key : ℕ → Text → Value → Model → Result Model
update_key time key v m = do
  d ← assign time key v m.props
  let n : Model = record m { props = d }
  p ← get_item d key
  ok (record n { hooks = notify (record { flat = flatten n; property = p.now }) m.hooks })

-- `now` is the reading of the clock at each key of the instance.
unfoldable pub update_all : (Text → ℕ) → Message → Model → Result Model
update_all now [] m = ok m
update_all now ((key, v) ∷ l) m = do n ← update_key (now key) key v m; update_all now l n

unfoldable pub update_model : ℕ → (Text → ℕ) → Message → Model → Result Model
update_model time now instance_ m = update_all now instance_ (record m { last_seen = some time })

unfoldable pub update_if : Bool → ℕ → (Text → ℕ) → Message → Model → Result (Bool × Model)
update_if true time now instance_ m = do n ← update_model time now instance_ m; ok (true, n)
update_if false time now instance_ m = ok (true, m)

-- validate(instance, update_model): whether the schema's validator accepts the instance; `accepts`
-- is that validator.
unfoldable pub validate :
    (Message → Bool) → Bool → ℕ → (Text → ℕ) → Message → Model → Result (Bool × Model)
validate accepts updates time now instance_ m =
    if not (accepts instance_) then ok (false, m) else update_if updates time now instance_ m
