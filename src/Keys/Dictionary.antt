-- ===== src/Keys/Dictionary.antt =====
-- `KeysDictionary` of python/clu/legacy/types/keys.py; the registry of all dictionaries and `load`,
-- which evaluates a file, are not modelled.
use clu.Prelude.{
  Bool, true, false, Option, none, some, List, [], ◌∷◌, ◌++◌, Text, text_eq, lower, if◌then◌else◌,
  Result, ok, err, keys_error, ◌>>=◌,
}
use clu.Prelude.Dict.{Dict, lookup, insert, update}
use clu.Keys.{ValueType, single, repeated, compound, by_name, Key}

abbrev pub is_some {ℓ} : {A : Type ℓ} → Option A → Bool
is_some none = false
is_some (some _) = true

-- KeysDictionary: the keys in lower case, and the types that have a name.
pub record KeysDictionary (T : Type 0) : Type 0 where
  pub keys : Dict (Key T)
  pub named_types : Dict (ValueType T)

abbrev local : {T : Type 0} → Option Text → ValueType T → Dict (ValueType T)
local none t = []
local (some n) t = (n, t) ∷ []

named_type : {T : Type 0} → Option (ValueType T) → Result (ValueType T)
named_type none = err keys_error
named_type (some t) = ok t

-- The name that the key is registered under.
unfoldable pub name_for : {T : Type 0} → Key T → Text
name_for k = elim k.unique [ none ↦ k.name | some n ↦ n ]

module _ {T : Type 0} (name_of : ValueType T → Option Text) where
  -- A type of the key, with its name resolved, and the name that it brings.
  resolve_type : Dict (ValueType T) → ValueType T → Result (ValueType T × Dict (ValueType T))
  unfolding named_type
  resolve_type named (by_name k) = do u ← named_type (lookup k named); ok (u, [])
  resolve_type named (single t) = ok (single t, local (name_of (single t)) (single t))
  resolve_type named (repeated t n m) =
      ok (repeated t n m, local (name_of (repeated t n m)) (repeated t n m))
  resolve_type named (compound t ts) =
      ok (compound t ts, local (name_of (compound t ts)) (compound t ts))

  -- the loop of `add` over the types
  pub resolve :
      Dict (ValueType T) → List (ValueType T) → Result (List (ValueType T) × Dict (ValueType T))
  unfolding resolve_type
  resolve named [] = ok ([], [])
  resolve named (t ∷ ts) = do
    u ← resolve_type named t
    rest ← resolve named ts
    ok (u.0 ∷ rest.0, u.1 ++ rest.1)

  -- add(key)
  unfoldable pub add : Key T → KeysDictionary T → Result (KeysDictionary T)
  unfolding resolve name_for
  add k d = if is_some (lookup (lower (name_for k)) d.keys) then err keys_error else do
    r ← resolve d.named_types k.vtypes
    ok (record {
      keys = insert (lower (name_for k)) (record k { vtypes = r.0 }) d.keys;
      named_types = update d.named_types r.1;
    })

  -- extend(keys), and the loop of the constructor
  unfoldable pub extend : List (Key T) → KeysDictionary T → Result (KeysDictionary T)
  extend [] d = ok d
  extend (k ∷ ks) d = do e ← add k d; extend ks e

  -- KeysDictionary(name, version, *keys), for a version of two numbers
  unfoldable pub init_dictionary : Text → List (Key T) → Result (KeysDictionary T)
  init_dictionary name ks =
      if text_eq name (lower name)
      then extend ks (record { keys = []; named_types = [] })
      else err keys_error

-- d[name]
unfoldable pub get_key : {T : Type 0} → Text → KeysDictionary T → Option (Key T)
get_key name d = lookup (lower name) d.keys
