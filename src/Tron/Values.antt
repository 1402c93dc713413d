-- ===== src/Tron/Values.antt =====
-- What the keywords of a reply tell of the values of a Tron model.
use clu.Prelude.{
  ◌≡◌, Bool, true, false, Option, none, some, List, [], ◌∷◌, Text, text_eq, lower, if◌then◌else◌,
  Result, ok, err,
}
use clu.Prelude.Dict.{lookup}
use clu.CaseDict.{get_item}
use clu.CaseDict.Laws.{IsValid, is_ok}
use clu.Keys.{Wrapping, Conversion, Cell, Keyword, Key, consume_key}
use clu.Keys.Matches.{AreResolved}
use clu.Keys.Dictionary.{KeysDictionary}
use clu.Tron.Model.{Natives, TronKey, TronModel, Parsed, natives}

module _ {T R V N : Type 0} (convert : T → R → Conversion V) (wrap : Wrapping T V) (native : V → N)
    (wrapped_native : List (Cell V) → Option N) where
  abbrev pub if_any : Result (Natives N) → Option (Natives N)
  if_any (ok ns) = some ns
  if_any (err _) = none

  -- The values that a keyword brings, if the dictionary has its key and the key matches it.
  abbrev pub matched_values : Result (Bool × Keyword R V) → Option (Natives N)
  matched_values (ok (true, kw)) = if_any (natives convert wrap native wrapped_native kw.values)
  matched_values (ok (false, kw)) = none
  matched_values (err e) = none

  abbrev pub news_of_key : Option (Key T) → Text → List R → Option (Natives N)
  news_of_key none name l = none
  news_of_key (some k) name l = matched_values (consume_key convert wrap k name l)

  abbrev pub news : KeysDictionary T → Text × List R → Option (Natives N)
  news d (name, l) = news_of_key (lookup (lower name) d.keys) name l

  -- What is held under a name, after a keyword of that name or another has brought values.
  abbrev pub replaced : Option (Natives N) → Text → Text → Option (Natives N) → Option (Natives N)
  replaced none name x old = old
  replaced (some ns) name x old = if text_eq (lower name) (lower x) then some ns else old

  -- The values that the last keyword with a name has brought, or else those of before.
  abbrev pub latest :
      KeysDictionary T → List (Text × List R) → Text → Option (Natives N) → Option (Natives N)
  latest d [] x old = old
  latest d (k ∷ ks) x old = latest d ks x (replaced (news d k) k.0 x old)

  abbrev pub value_in : Result (TronKey T R V N) → Option (Natives N)
  value_in (ok k) = some k.value
  value_in (err _) = none

  abbrev pub value_of : TronModel T R V N → Text → Option (Natives N)
  value_of m x = value_in (get_item m.items x)

  -- A valid model with an item for each key of its dictionary, whose types have been resolved.
  pub record Covers (m : TronModel T R V N) : Type 0 where
    pub valid : IsValid m.items
    pub held :
        (x : Text) (k : Key T)
        → lookup (lower x) m.keydict.keys ≡ some k
        → (is_ok (get_item m.items k.name) ≡ true) × AreResolved k.vtypes

  -- The model and the dictionary after a round, and after the loop.
  pub record HasRead (ks : List (Text × List R)) (p q : Parsed convert wrap native wrapped_native)
      : Type 0 where
    pub covers : Covers q.model
    pub same_keys : q.model.keydict ≡ p.model.keydict
    pub values_read :
        (x : Text) → value_of q.model x ≡ latest p.model.keydict ks x (value_of p.model x)
    pub parsed_read :
        (x : Text)
        → lookup (lower x) q.parsed ≡ latest p.model.keydict ks x (lookup (lower x) p.parsed)
