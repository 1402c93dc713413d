-- ===== src/CaseDict.antt =====
-- `CaseInsensitiveDict` of python/clu/tools.py: a dictionary with the list of its keys in lower
-- case, kept in step by the methods that the class overrides.
pub mod Keys
pub mod Laws
mod Tests
use mathlib.Core.Option
use clu.Prelude.{
  ℕ, zero, suc, Bool, true, false, Option, none, some, List, [], ◌∷◌, ◌++◌, map, Text, text_eq,
  lower, get_elem?, if◌then◌else◌, Result, ok, err, Error, key_error, index_error, assertion_error,
  ◌>>=◌, not, ◌&&◌,
}
use clu.Prelude.Dict.{Dict, lookup, insert, keys, elem, all_different}

pub record CaseDict {ℓ} (V : Type ℓ) : Type ℓ where
  pub lc : List Text
  pub items : Dict V

-- l.index(k)
unfoldable pub index : Text → List Text → Option ℕ
index k [] = none
index k (j ∷ l) = if text_eq j k then some 0 else Option.map suc (index k l)

or_index_error : Option Text → Result Text
or_index_error none = err index_error
or_index_error (some k) = ok k

pub key_at : Option ℕ → List Text → Text → Result Text
unfolding or_index_error
key_at none ks key = ok key
key_at (some i) ks key = or_index_error (get_elem? ks i)

module _ {ℓ} {V : Type ℓ} where
  -- CaseInsensitiveDict(values)
  unfoldable pub init : Dict V → Result (CaseDict V)
  init values =
      let lc = map lower (keys values) in
      if all_different lc then ok (record { lc = lc; items = values }) else err assertion_error

  -- __get_key__
  unfoldable pub get_key : CaseDict V → Text → Result Text
  unfolding key_at
  get_key d key = key_at (index (lower key) d.lc) (keys d.items) key

  unfoldable pub or_key_error : Option V → Result V
  or_key_error none = err key_error
  or_key_error (some v) = ok v

  -- d[key]
  unfoldable pub get_item : CaseDict V → Text → Result V
  unfolding or_key_error
  get_item d key = do k ← get_key d key; or_key_error (lookup k d.items)

  -- d[key] = value
  unfoldable pub set_item : CaseDict V → Text → V → Result (CaseDict V)
  set_item d key value =
      if not (elem (lower key) d.lc)
      then ok (record { lc = d.lc ++ lower key ∷ []; items = insert key value d.items })
      else do k ← get_key d key; ok (record d { items = insert k value d.items })

  -- key in d
  unfoldable pub contains : CaseDict V → Text → Result Bool
  contains d key = do k ← get_key d key; ok (elem k (keys d.items))
