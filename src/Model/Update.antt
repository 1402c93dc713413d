-- ===== src/Model/Update.antt =====
-- What `update_model` does to the properties of a model.
use mathlib.Core.Path.{fun_ext}
use clu.Prelude.{
  ◌&&◌, ℕ, ◌≡◌, refl, ap, ◌∙◌, Bool, true, false, some, [], ◌∷◌, Text, text_eq, lower,
  if◌then◌else◌, Result, ok, err, Bool-cases, inl, inr, ◌⊎◌,
}
use clu.Value.{Value}
use clu.Reply.{Message}
use clu.CaseDict.{CaseDict, get_item, contains}
use clu.CaseDict.Laws.{
  IsValid, contains-get_item, get_key-set_item, is_ok, Writes, set_item-Writes, held-Writes,
  Writes-trans, reads_self,
}
use clu.Callbacks.{notify}
use clu.Model.{
  Property, Model, new_property, outside_schema, set_value, merge, add_missing, set_held, assign,
  update_key, update_all, update_model, update_if, validate, flatten,
}

-- The property that a round works on: the one that is there, or a new one outside the schema.
abbrev pub old_or_new : Text → Result Property → Property
old_or_new key (ok p) = p
old_or_new key (err _) = outside_schema (new_property key)

Result-cases {ℓ} : {A : Type ℓ} (r : Result A) → ((a : A) × (r ≡ ok a)) ⊎ (is_ok r ≡ false)
Result-cases (ok a) = inl (a, refl)
Result-cases (err e) = inr refl

new_when_absent :
    (key : Text) (r : Result Property)
    → is_ok r ≡ false
    → old_or_new key r ≡ outside_schema (new_property key)
new_when_absent key (ok p) h = cc
new_when_absent key (err e) h = refl

contains_at :
    (d : CaseDict Property) (key : Text) (b : Bool)
    → IsValid d
    → is_ok (get_item d key) ≡ b
    → contains d key ≡ ok b
contains_at d key b valid e = contains-get_item d key valid ∙ ap ok e

add_missing_lem :
    (d : CaseDict Property) (key : Text)
    → IsValid d
    → (e : CaseDict Property) × (add_missing key d ≡ ok e)
      × Writes d key (old_or_new key (get_item d key)) e
unfolding add_missing
add_missing_lem d key valid = elim (Result-cases (get_item d key)) [
  | inl (p, e) ↦ (d, rw (contains_at d key true valid (rw e)), rw e (held-Writes d key p valid e))
  | inr e ↦ rw (contains_at d key false valid e) (
      let (x, q, w) = set_item-Writes d key (outside_schema (new_property key)) valid in
      (x, q, rw (new_when_absent key (get_item d key) e) w))
]

set_held_lem :
    (d : CaseDict Property) (key : Text) (time : ℕ) (v : Value) (p : Property)
    → IsValid d
    → get_item d key ≡ ok p
    → (e : CaseDict Property) × (set_held d key time v ≡ ok e) × Writes d key (set_value time v p) e
unfolding set_held
set_held_lem d key time v p valid h =
    let (x, q, w) = set_item-Writes d key (set_value time v p) valid in
    (x, rw h (get_key-set_item d key (set_value time v p) p valid h ∙ q), w)

-- The property under a key after the key has been given a value.
abbrev pub given : ℕ → Text → Value → Result Property → Property
given time key v old = let p = old_or_new key old in set_value time (merge p.value v) p

assign_lem :
    (time : ℕ) (key : Text) (v : Value) (d : CaseDict Property)
    → IsValid d
    → (e : CaseDict Property) × (assign time key v d ≡ ok e)
      × Writes d key (given time key v (get_item d key)) e
unfolding assign
assign_lem time key v d valid =
    let (x, q, w) = add_missing_lem d key valid in
    let p = old_or_new key (get_item d key) in
    let (y, r, u) = set_held_lem x key time (merge p.value v) p w.valid (reads_self d key p x w) in
    (
      y,
      rw (q, reads_self d key p x w) r,
      Writes-trans d key p (given time key v (get_item d key)) x y w u,
    )

-- One key of an instance never raises on a valid model, and gives the property under every
-- spelling of the key its value: a dictionary is merged into a dictionary, any other value replaces
-- the old one, and a key that the model lacks becomes a property outside the schema. All other
-- properties stay the same, and the model's callbacks are given that property and the new model.
pub update_key_lem :
    (time : ℕ) (key : Text) (v : Value) (m : Model)
    → IsValid m.props
    → (n : Model) × (update_key time key v m ≡ ok n)
      × Writes m.props key (given time key v (get_item m.props key)) n.props
      × (n.hooks
          ≡ notify
              (record {
                flat = flatten n;
                property = (given time key v (get_item m.props key)).now;
              })
              m.hooks)
      × (n.last_seen ≡ m.last_seen)
unfolding update_key flatten
update_key_lem time key v m valid =
    let (x, q, w) = assign_lem time key v m.props valid in
    let p = given time key v (get_item m.props key) in
    let n : Model = record m { props = x } in
    (
      record n { hooks = notify (record { flat = flatten n; property = p.now }) m.hooks },
      rw (q, reads_self m.props key p x w),
      w,
      refl,
      refl,
    )

-- A model seen as a function: what reading each text returns.
abbrev pub View : Type 0
View = Text → Result Property

abbrev pub write_view : Text → Property → View → View
write_view key p f j = if text_eq (lower key) (lower j) then ok p else f j

-- An instance applied to a view, key by key.
unfoldable pub apply_all : (Text → ℕ) → Message → View → View
apply_all now [] f = f
apply_all now ((key, v) ∷ l) f = apply_all now l (write_view key (given (now key) key v (f key)) f)

update_all_lem :
    (now : Text → ℕ) (l : Message) (m : Model)
    → IsValid m.props
    → (n : Model) × (update_all now l m ≡ ok n)
      × IsValid n.props
      × (get_item n.props ≡ apply_all now l (get_item m.props))
      × (n.last_seen ≡ m.last_seen)
unfolding update_all apply_all
update_all_lem now [] m valid = (m, refl, valid, refl, refl)
update_all_lem now ((key, v) ∷ l) m valid =
    let (n, q, w, h, s) = update_key_lem (now key) key v m valid in
    let (o, r, good, view, t) = update_all_lem now l n w.valid in
    (o, rw q r, good, view ∙ ap (apply_all now l) (fun_ext w.reads), t ∙ s)

-- `update_model` raises nothing on a valid model and leaves a valid one, which reads at every text
-- as the instance applied to what the model read before, key by key; and it records the time.
pub update_model_view :
    (time : ℕ) (now : Text → ℕ) (l : Message) (m : Model)
    → IsValid m.props
    → (n : Model) × (update_model time now l m ≡ ok n)
      × IsValid n.props
      × (get_item n.props ≡ apply_all now l (get_item m.props))
      × (n.last_seen ≡ some time)
unfolding update_model
update_model_view time now l m valid =
    update_all_lem now l (record m { last_seen = some time }) valid

-- A rejected instance changes nothing; an accepted one is applied exactly if the update is asked
-- for. On a valid model neither raises.
pub validate_lem :
    (accepts : Message → Bool) (updates : Bool) (time : ℕ) (now : Text → ℕ) (l : Message)
    (m : Model)
    → IsValid m.props
    → (n : Model) × (validate accepts updates time now l m ≡ ok (accepts l, n))
      × IsValid n.props
      × (if accepts l && updates
          then get_item n.props ≡ apply_all now l (get_item m.props)
          else n ≡ m)
unfolding validate
validate_lem accepts updates time now l m valid = elim (Bool-cases (accepts l)) [
  | inr e ↦ rw e (m, refl, valid, refl)
  | inl e ↦ rw e (by_update updates (update_model_view time now l m valid))
]
  where
    by_update :
        (b : Bool)
        → (n : Model) × (update_model time now l m ≡ ok n)
          × IsValid n.props
          × (get_item n.props ≡ apply_all now l (get_item m.props))
          × (n.last_seen ≡ some time)
        → (n : Model) × (update_if b time now l m ≡ ok (true, n))
          × IsValid n.props
          × (if b then get_item n.props ≡ apply_all now l (get_item m.props) else n ≡ m)
    by_update true (n, q, good, view, t) = (n, unfold update_if in rw q, good, view)
    by_update false p = (m, unfold update_if in refl, valid, refl)
