-- ===== src/Model/Views.antt =====
-- What `update_model` should make of a model, said of the fields of its values.
use clu.Prelude.{
  ℕ, ◌≡◌, refl, sym, subst, Bool, false, Option, none, some, [], ◌∷◌, Text, text, text_eq,
  text_eq_iff, if◌then◌else◌, Result, ok, err, arith,
}
use clu.Prelude.Dict.{over}
use clu.Value.{Value, Fields, str, bool, list, dict, exc, other, end, field}
use clu.Reply.{Message}
use clu.CaseDict.{get_item}
use clu.CaseDict.Laws.{IsValid}
use clu.Callbacks.{Callbacks, notify}
use clu.Model.{
  Property, Seen, Model, merge, set_field, update_fields, set_value, new_property, update_model,
}
use clu.Model.Update.{View, write_view, given, apply_all, update_model_view}

-- The value of a field, or of the last of several of one name.
pub field_of : Text → Fields → Option Value
field_of j end = none
field_of j (field k v fs) = if text_eq k j then some v else field_of j fs

pub last_of : Text → Fields → Option Value
last_of j end = none
last_of j (field k v fs) = over (last_of j fs) (if text_eq k j then some v else none)

-- The value w that a property of value u has after it is given v: two dictionaries make one that
-- has the fields of the second and, where it has none, those of the first; else it is v.
abbrev pub IsMerged : Value → Value → Value → Type 0
IsMerged (dict fs) (dict gs) w =
    (hs : Fields) × (w ≡ dict hs)
    × ((j : Text) → field_of j hs ≡ over (last_of j gs) (field_of j fs))
IsMerged _ v w = w ≡ v

abbrev old_value : Result Property → Value
old_value (ok p) = p.value
old_value (err _) = other (text "None")

abbrev old_name : Text → Result Property → Text
old_name key (ok p) = p.now.name
old_name key (err _) = key

abbrev old_in_schema : Result Property → Bool
old_in_schema (ok p) = p.now.in_schema
old_in_schema (err _) = false

abbrev old_hooks : Result Property → Callbacks Seen
old_hooks (ok p) = p.hooks
old_hooks (err _) = record { registered = []; running = []; called = [] }

-- A property after its key has been given a value at some time.
pub record IsGiven (time : ℕ) (key : Text) (v : Value) (old : Result Property) (p : Property)
    : Type 0 where
  pub value : IsMerged (old_value old) v p.value
  pub name : p.now.name ≡ old_name key old
  pub in_schema : p.now.in_schema ≡ old_in_schema old
  pub last_seen : p.now.last_seen ≡ some time
  pub hooks : p.hooks ≡ notify p.now (old_hooks old)

-- The second view is the first after the keys of an instance are given their values in turn.
pub Applied : (Text → ℕ) → Message → View → View → Type 0
Applied now [] f g = g ≡ f
Applied now ((key, v) ∷ l) f g =
    (p : Property) × IsGiven (now key) key v (f key) p × Applied now l (write_view key p f) g

field_of-set_field :
    (k j : Text) (v : Value) (fs : Fields)
    → field_of j (set_field k v fs) ≡ (if text_eq k j then some v else field_of j fs)
unfolding field_of set_field
field_of-set_field k j v end = refl
field_of-set_field k j v (field i w fs) =
    ground (arith, text_eq_iff k j, text_eq_iff i k, text_eq_iff i j, field_of-set_field k j v fs)

field_of-update_fields :
    (j : Text) (fs gs : Fields)
    → field_of j (update_fields fs gs) ≡ over (last_of j gs) (field_of j fs)
unfolding last_of update_fields
field_of-update_fields j fs end = refl
field_of-update_fields j fs (field k v gs) =
    ground (arith, field_of-update_fields j (set_field k v fs) gs, field_of-set_field k j v fs)

merge-IsMerged : (u v : Value) → IsMerged u v (merge u v)
unfolding merge
merge-IsMerged (dict fs) (dict gs) =
    (update_fields fs gs, refl, λ j. field_of-update_fields j fs gs)
merge-IsMerged (dict fs) (str s) = refl
merge-IsMerged (dict fs) (bool b) = refl
merge-IsMerged (dict fs) (list l) = refl
merge-IsMerged (dict fs) (exc e) = refl
merge-IsMerged (dict fs) (other s) = refl
merge-IsMerged (str s) v = refl
merge-IsMerged (bool b) v = refl
merge-IsMerged (list l) v = refl
merge-IsMerged (exc e) v = refl
merge-IsMerged (other s) v = refl

given-IsGiven :
    (time : ℕ) (key : Text) (v : Value) (old : Result Property)
    → IsGiven time key v old (given time key v old)
unfolding set_value new_property
given-IsGiven time key v (ok p) = record {
  value = merge-IsMerged p.value v;
  name = refl;
  in_schema = refl;
  last_seen = refl;
  hooks = refl;
}
given-IsGiven time key v (err e) = record {
  value = merge-IsMerged (other (text "None")) v;
  name = refl;
  in_schema = refl;
  last_seen = refl;
  hooks = refl;
}

pub apply_all-Applied :
    (now : Text → ℕ) (l : Message) (f : View) → Applied now l f (apply_all now l f)
unfolding Applied apply_all
apply_all-Applied now [] f = refl
apply_all-Applied now ((key, v) ∷ l) f = (
  given (now key) key v (f key),
  given-IsGiven (now key) key v (f key),
  apply_all-Applied now l (write_view key (given (now key) key v (f key)) f),
)

-- `update_model` raises nothing on a valid model and leaves a valid one, with the time recorded.
-- What the model reads at every text is what it read before, with the keys of the instance, in
-- turn and under any spelling, given their values: a dictionary is merged into a dictionary, field
-- by field, any other value replaces the old one, the property keeps its name and its place in the
-- schema, is seen at the time of the key, and its callbacks are run; a key that the model lacks
-- becomes a property outside the schema.
pub update_model-Applied :
    (time : ℕ) (now : Text → ℕ) (l : Message) (m : Model)
    → IsValid m.props
    → (n : Model) × (update_model time now l m ≡ ok n)
      × IsValid n.props
      × Applied now l (get_item m.props) (get_item n.props)
      × (n.last_seen ≡ some time)
update_model-Applied time now l m valid =
    let (n, q, good, view, t) = update_model_view time now l m valid in
    (
      n,
      q,
      good,
      subst (Applied now l (get_item m.props)) (sym view)
          (apply_all-Applied now l (get_item m.props)),
      t,
    )
