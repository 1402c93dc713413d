-- ===== src/Tron/Model.antt =====
-- `TronKey` and `TronModel` of python/clu/legacy/tron.py. The conversion of values is that of the
-- keys; `native` is the `native` property of a converted value, and `wrapped_native` that of the
-- object that a compound type makes, if the object has one.
use clu.Prelude.{
  ℕ, Bool, true, false, ◌+◌, Option, none, some, List, [], ◌∷◌, ◌++◌, Text, lower, Result, ok, err,
  attribute_error, ◌>>=◌,
}
use clu.Prelude.Dict.{Dict, lookup, insert}
use clu.CaseDict.{CaseDict, get_item, set_item}
use clu.Callbacks.{Callbacks, notify, new}
use clu.Keys.{
  Wrapping, Conversion, Cell, value, invalid_value, Slot, cell, group, Values, raw, typed, Keyword,
  Key, consume_key,
}
use clu.Keys.Dictionary.{KeysDictionary}

-- A list of Python values, None among them.
abbrev pub Natives : Type 0 → Type 0
Natives N = List (Option N)

-- The copy of a key that the callbacks receive.
pub record KeyCopy (N : Type 0) : Type 0 where
  pub name : Text
  pub value : Natives N
  pub last_seen : Option ℕ

pub record TronKey (T R V N : Type 0) : Type 0 where
  pub name : Text
  pub key : Key T
  pub keyword : Option (Keyword R V)
  pub value : Natives N
  pub last_seen : Option ℕ
  pub hooks : Callbacks (KeyCopy N)

-- What the callbacks of a model receive: the flattened model and the copy of the key.
pub record KeyChange (N : Type 0) : Type 0 where
  pub flat : Dict (Natives N)
  pub changed : KeyCopy N

-- `warned` counts the warnings.
pub record TronModel (T R V N : Type 0) : Type 0 where
  pub name : Text
  pub keydict : KeysDictionary T
  pub items : CaseDict (TronKey T R V N)
  pub last_seen : Option ℕ
  pub hooks : Callbacks (KeyChange N)
  pub warned : ℕ

abbrev nones : {A N : Type 0} → List A → Natives N
nones [] = []
nones (_ ∷ l) = none ∷ nones l

module _ {T R V N : Type 0} where
  unfoldable pub copied : TronKey T R V N → KeyCopy N
  copied k = record { name = k.name; value = k.value; last_seen = k.last_seen }

  -- TronKey(name, key)
  unfoldable pub new_key : Text → Key T → TronKey T R V N
  unfolding new
  new_key name key = record {
    name = name;
    key = key;
    keyword = none;
    value = nones key.vtypes;
    last_seen = none;
    hooks = new [];
  }

  -- the loop of the constructor
  unfoldable pub new_keys :
      Dict (Key T) → CaseDict (TronKey T R V N) → Result (CaseDict (TronKey T R V N))
  unfolding new_key
  new_keys [] d = ok d
  new_keys ((k, key) ∷ l) d = do e ← set_item d key.name (new_key key.name key); new_keys l e

  -- TronModel(keydict), with the name of the dictionary and the callbacks of the model
  unfoldable pub new_model :
      Text → KeysDictionary T → Callbacks (KeyChange N) → Result (TronModel T R V N)
  unfolding new_keys
  new_model name keydict hooks = do
    items ← new_keys keydict.keys (record { lc = []; items = [] })
    ok (record {
      name = name;
      keydict = keydict;
      items = items;
      last_seen = none;
      hooks = hooks;
      warned = 0;
    })

  unfoldable pub flatten : Dict (TronKey T R V N) → Dict (Natives N)
  flatten [] = []
  flatten ((k, t) ∷ l) = (k, t.value) ∷ flatten l

module _ {T R V N : Type 0} (convert : T → R → Conversion V) (wrapping : Wrapping T V)
    (native : V → N) (wrapped_native : List (Cell V) → Option N) where
  unfoldable pub slot_native : Slot V → Result (Option N)
  slot_native (cell (value v)) = ok (some (native v))
  slot_native (cell invalid_value) = ok none
  slot_native (group cs) = elim (wrapped_native cs) [
    | none ↦ err attribute_error
    | some n ↦ ok (some n)
  ]

  unfoldable pub slots_natives : List (Slot V) → Result (Natives N)
  unfolding slot_native
  slots_natives [] = ok []
  slots_natives (s ∷ l) = do n ← slot_native s; ns ← slots_natives l; ok (n ∷ ns)

  -- [value.native for value in keyword.values]; a text has no such attribute
  unfoldable pub natives : Values R V → Result (Natives N)
  unfolding slots_natives
  natives (raw []) = ok []
  natives (raw (_ ∷ _)) = err attribute_error
  natives (typed l) = slots_natives l

  -- update_keyword(keyword) at a time
  unfoldable pub update_keyword : ℕ → Keyword R V → TronKey T R V N → Result (TronKey T R V N)
  unfolding copied
  update_keyword now kw k = do
    ns ← natives kw.values
    let d : TronKey T R V N = record k { keyword = some kw; value = ns; last_seen = some now }
    ok (record d { hooks = notify (copied d) d.hooks })

  -- The model, the dictionary that `parse_reply` builds, and the keywords of the reply so far.
  pub record Parsed : Type 0 where
    pub model : TronModel T R V N
    pub parsed : Dict (Natives N)
    pub keywords : List (Keyword R V)

  unfoldable pub unparsed : Keyword R V → Parsed → Parsed
  unparsed kw p = record p {
    model = record p.model { warned = 1 + p.model.warned };
    keywords = p.keywords ++ kw ∷ [];
  }

  -- A keyword that its key has been asked to consume.
  unfoldable pub after_consume : ℕ → Text → Bool × Keyword R V → Parsed → Result Parsed
  unfolding copied flatten
  after_consume now key_name (false, kw) p = ok (unparsed kw p)
  after_consume now key_name (true, kw) p = do
    k ← get_item p.model.items key_name
    n ← update_keyword now kw k
    items ← set_item p.model.items key_name n
    let change : KeyChange N = record { flat = flatten items.items; changed = copied n }
    ok (record {
      model = record p.model { items = items; hooks = notify change p.model.hooks };
      parsed = insert key_name n.value p.parsed;
      keywords = p.keywords ++ kw ∷ [];
    })

  unfoldable pub by_key : ℕ → Text → List R → Option (Key T) → Parsed → Result Parsed
  by_key now name l none p =
      ok (unparsed (record { name = name; values = raw l; matched = false }) p)
  by_key now name l (some k) p = do
    r ← consume_key convert wrapping k name l
    after_consume now (lower name) r p

  -- one round of the loop of `parse_reply`
  unfoldable pub parse_keyword : ℕ → Text × List R → Parsed → Result Parsed
  parse_keyword now (name, l) p =
      by_key now name l (lookup (lower name) p.model.keydict.keys)
        (record p { model = record p.model { last_seen = some now } })

  -- parse_reply(reply), of keywords with their names and values
  unfoldable pub parse_reply : ℕ → List (Text × List R) → Parsed → Result Parsed
  parse_reply now [] p = ok p
  parse_reply now (k ∷ l) p = do q ← parse_keyword now k p; parse_reply now l q
