-- ===== src/Keys.antt =====
-- `TypedValues`, `Key` and `KeysDictionary` of python/clu/legacy/types/keys.py. The types of single
-- values are a parameter, with what a call of one does with a value; a compound type has at least
-- one part, and its wrapper makes an object of its parts or raises an error.
pub mod Reads
pub mod Consumed
pub mod Outcome
pub mod Counts
pub mod Readable
pub mod Matches
pub mod Ends
pub mod Dictionary
pub mod Lookups
mod Tests
use clu.Prelude.{
  text, message_error, ℕ, zero, suc, ◌+◌, ◌-◌, Bool, true, false, Option, none, some, List, [], ◌∷◌,
  ◌++◌, map, Text, text_eq, lower, length, ◌==◌, if◌then◌else◌, Result, ok, err, Error, keys_error,
  type_error, ◌>>=◌, not, ◌&&◌, ◌||◌,
}
use clu.Prelude.Dict.{Dict, lookup, insert, update}

-- What a call `vtype(string)` does: it converts, raises InvalidValueError, or raises a ValueError,
-- a TypeError or an OverflowError.
pub data Conversion {ℓ} (V : Type ℓ) : Type ℓ where
  converts : V → Conversion V
  is_invalid : Conversion V
  refuses : Conversion V

-- A value that has been converted, or InvalidValue.
pub data Cell {ℓ} (V : Type ℓ) : Type ℓ where
  value : V → Cell V
  invalid_value : Cell V

-- An entry of a list of typed values: one value, or the object that wraps those of a compound type.
pub data Slot {ℓ} (V : Type ℓ) : Type ℓ where
  cell : Cell V → Slot V
  group : List (Cell V) → Slot V

-- ValueType, RepeatedValueType with its limits, CompoundValueType and ByName.
pub data ValueType {ℓ} (T : Type ℓ) : Type ℓ where
  single : T → ValueType T
  repeated : T → ℕ → Option ℕ → ValueType T
  compound : T → List T → ValueType T
  by_name : Text → ValueType T

-- minVals and maxVals
pub record Range : Type 0 where
  pub min_vals : ℕ
  pub max_vals : Option ℕ

pub same_limit : ℕ → Option ℕ → Bool
same_limit n none = false
same_limit n (some m) = n == m

pub add_limit : Option ℕ → Option ℕ → Option ℕ
add_limit none o = none
add_limit (some m) none = none
add_limit (some m) (some n) = some (m + n)

-- self.maxVals += n
pub raised : Option ℕ → ℕ → Result (Option ℕ)
raised none n = err type_error
raised (some m) n = ok (some (m + n))

pub add_exactly : ℕ → Range → Result Range
unfolding raised
add_exactly n r = do
  m ← raised r.max_vals n
  ok (record { min_vals = r.min_vals + n; max_vals = m })

module _ {ℓ} {T : Type ℓ} where
  -- one round of the loop of `TypedValues.__init__`; `last` tells whether the type is the last of
  -- the list
  pub count_type : ValueType T → Bool → Range → Result Range
  unfolding same_limit add_limit add_exactly
  count_type (single t) last r = add_exactly 1 r
  count_type (repeated t n m) last r =
      if not (same_limit n m) && not last
      then err keys_error
      else ok (record { min_vals = r.min_vals + n; max_vals = add_limit r.max_vals m })
  count_type (compound t ts) last r = add_exactly (suc (length ts)) r
  count_type (by_name k) last r = ok r

-- `same_object` is the test `is` on two types.
module _ {ℓ} {T : Type ℓ} (same_object : ValueType T → ValueType T → Bool) where
  -- vtype is vtypes[-1], of a type and those that come after it
  pub is_last : ValueType T → List (ValueType T) → Bool
  is_last t [] = true
  is_last t (u ∷ []) = same_object t u
  is_last t (_ ∷ u ∷ ts) = is_last t (u ∷ ts)

  pub count_types : List (ValueType T) → Range → Result Range
  unfolding count_type is_last
  count_types [] r = ok r
  count_types (t ∷ ts) r = do s ← count_type t (is_last t ts) r; count_types ts s

  -- TypedValues(vtypes): the counts, or the error
  unfoldable pub init : List (ValueType T) → Result Range
  unfolding count_types
  init ts = count_types ts (record { min_vals = 0; max_vals = some 0 })

-- The values of a keyword, before and after they are consumed.
pub data Values (R V : Type 0) : Type 0 where
  raw : List R → Values R V
  typed : List (Slot V) → Values R V

-- Values that are still to be consumed, and those that have been.
abbrev pub Progress : Type 0 → Type 0 → Type 0
Progress R V = List R × List (Cell V)

pub as_slots : {V : Type 0} → List (Cell V) → List (Slot V)
as_slots [] = []
as_slots (c ∷ l) = cell c ∷ as_slots l

-- CompoundValueType.WrapEnable and the wrappers: none if values are not wrapped, else the error, if
-- any, that the wrapper of a compound type raises for the values, given the parts of the type.
abbrev pub Wrapping : Type 0 → Type 0 → Type 0
Wrapping T V = Option (List T → List (Cell V) → Option Error)

module _ {T R V : Type 0} (convert : T → R → Conversion V) (wrapping : Wrapping T V) where
  pub keep : Conversion V → List R → List (Cell V) → Option (Progress R V)
  keep (converts v) l cs = some (l, cs ++ value v ∷ [])
  keep is_invalid l cs = some (l, cs ++ invalid_value ∷ [])
  keep refuses l cs = none

  -- consumeNextValue(valueType, values): none for False
  pub consume_next : T → Progress R V → Option (Progress R V)
  unfolding keep
  consume_next t ([], cs) = none
  consume_next t (x ∷ l, cs) = keep (convert t x) l cs

  pub and_then :
      Option (Progress R V) → (Progress R V → Option (Progress R V)) → Option (Progress R V)
  and_then none f = none
  and_then (some p) f = f p

  -- the first loop of a repeated type: exactly n values
  pub consume_times : T → ℕ → Progress R V → Option (Progress R V)
  unfolding and_then consume_next
  consume_times t zero p = some p
  consume_times t (suc n) p = and_then (consume_next t p) (consume_times t n)

  -- the second loop, with a limit on the values: as many as convert
  pub consume_up_to : T → ℕ → Progress R V → Progress R V
  unfolding consume_next
  consume_up_to t zero p = p
  consume_up_to t (suc n) p = elim (consume_next t p) [ none ↦ p | some q ↦ consume_up_to t n q ]

  -- the values that the second loop may take: those that are left, if there is no limit
  pub room : ℕ → Option ℕ → Progress R V → ℕ
  room n none p = length p.0
  room n (some m) p = m - n

  pub consume_repeated : T → ℕ → Option ℕ → Progress R V → Option (Progress R V)
  unfolding consume_times consume_up_to room
  consume_repeated t n m p =
      and_then (consume_times t n p) (λ q. some (consume_up_to t (room n m q) q))

  pub consume_parts : List T → Progress R V → Option (Progress R V)
  unfolding consume_next and_then
  consume_parts [] p = some p
  consume_parts (t ∷ ts) p = and_then (consume_next t p) (consume_parts ts)

  pub slots_of : Option (Progress R V) → Option (List R × List (Slot V))
  unfolding as_slots
  slots_of none = none
  slots_of (some (l, cs)) = some (l, as_slots cs)

  -- values[-size:] = [wrapped], for the values of the type
  pub wrapped : List T → Option (Progress R V) → Result (Option (List R × List (Slot V)))
  unfolding as_slots
  wrapped ts none = ok none
  wrapped ts (some (l, cs)) = elim wrapping [
    | none ↦ ok (some (l, as_slots cs))
    | some wrapper ↦ elim (wrapper ts cs) [ none ↦ ok (some (l, group cs ∷ [])) | some e ↦ err e ]
  ]

  -- The values of one type, as the slots that they become; an unresolved name is a KeysError.
  pub consume_type : ValueType T → List R → Result (Option (List R × List (Slot V)))
  unfolding consume_next consume_repeated consume_parts slots_of wrapped
  consume_type (single t) l = ok (slots_of (consume_next t (l, [])))
  consume_type (repeated t n m) l = ok (slots_of (consume_repeated t n m (l, [])))
  consume_type (compound t ts) l = wrapped (t ∷ ts) (consume_parts (t ∷ ts) (l, []))
  consume_type (by_name k) l = err keys_error

  pub after_type :
      List (Slot V)
      → Option (List R × List (Slot V))
      → (List R → List (Slot V) → Result (Option (List R × List (Slot V))))
      → Result (Option (List R × List (Slot V)))
  after_type done none f = ok none
  after_type done (some (l, more)) f = f l (done ++ more)

  -- the loop over the types
  pub consume_types :
      List (ValueType T) → List R → List (Slot V) → Result (Option (List R × List (Slot V)))
  unfolding consume_type after_type
  consume_types [] l done = ok (some (l, done))
  consume_types (t ∷ ts) l done = do r ← consume_type t l; after_type done r (consume_types ts)

  pub finished : List R → Option (List R × List (Slot V)) → Bool × Values R V
  finished l none = (false, raw l)
  finished l (some ([], done)) = (true, typed done)
  finished l (some (_ ∷ _, done)) = (false, raw l)

  -- consume(values): the result and the values after it
  unfoldable pub consume : List (ValueType T) → List R → Result (Bool × Values R V)
  unfolding consume_types finished
  consume ts l = do r ← consume_types ts l []; ok (finished l r)

-- A keyword of a message: its name, its values, and whether a key has matched it.
pub record Keyword (R V : Type 0) : Type 0 where
  pub name : Text
  pub values : Values R V
  pub matched : Bool

-- Key(name, *vtypes): the types, and the name that it is registered under.
pub record Key (T : Type 0) : Type 0 where
  pub name : Text
  pub vtypes : List (ValueType T)
  pub unique : Option Text

module _ {T R V : Type 0} (convert : T → R → Conversion V) (wrapping : Wrapping T V) where
  pub with_values : Text → Bool × Values R V → Bool × Keyword R V
  with_values name (matched, values) =
      (matched, record { name = name; values = values; matched = matched })

  -- key.consume(keyword), of a keyword whose values are texts and that no key has matched
  unfoldable pub consume_key : Key T → Text → List R → Result (Bool × Keyword R V)
  unfolding with_values
  consume_key k name l =
      if not (text_eq (lower name) (lower k.name))
      then ok (false, record { name = name; values = raw l; matched = false })
      else do r ← consume convert wrapping k.vtypes l; ok (with_values name r)

  created : Bool × Keyword R V → Result (Keyword R V)
  created (true, k) = ok k
  created (false, _) = err keys_error

  -- key.create(*values); a keyword cannot be called raw
  unfoldable pub create : Key T → List R → Result (Keyword R V)
  unfolding created
  create k l =
      if text_eq (lower k.name) (text "raw")
      then err message_error
      else do r ← consume_key k k.name l; created r
