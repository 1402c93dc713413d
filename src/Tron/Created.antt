-- ===== src/Tron/Created.antt =====
-- A Tron model after its constructor.
use clu.Prelude.{
  ◌≡◌, refl, true, Option, none, some, List, [], ◌∷◌, Text, text_eq, lower, ok, Bool-cases, inl,
  inr, subst,
}
use clu.Prelude.Dict.{Dict, lookup, all_different}
use clu.CaseDict.{CaseDict, get_item}
use clu.CaseDict.Laws.{IsValid, Writes, set_item-Writes, reads_self, is_ok}
use clu.Callbacks.{Callbacks}
use clu.Keys.{Wrapping, Key, Conversion, Cell}
use clu.Keys.Reads.{some_inj}
use clu.Keys.Matches.{AreResolved}
use clu.Keys.Dictionary.{KeysDictionary}
use clu.Tron.Model.{TronKey, TronModel, KeyChange, new_key, new_keys, new_model}
use clu.Tron.Values.{Covers}

module _ {T R V N : Type 0} (convert : T → R → Conversion V) (wrap : Wrapping T V) (native : V → N)
    (wrapped_native : List (Cell V) → Option N) where
  -- A valid dictionary with what another has and an item for each key of a list.
  record HasKeys (l : Dict (Key T)) (d e : CaseDict (TronKey T R V N)) : Type 0 where
    valid : IsValid e
    keeps : (x : Text) → is_ok (get_item d x) ≡ true → is_ok (get_item e x) ≡ true
    holds : (x : Text) (k : Key T) → lookup x l ≡ some k → is_ok (get_item e k.name) ≡ true

  is_ok-Writes :
      (d e : CaseDict (TronKey T R V N)) (k x : Text) (v : TronKey T R V N)
      → Writes d k v e
      → is_ok (get_item d x) ≡ true
      → is_ok (get_item e x) ≡ true
  is_ok-Writes d e k x v w h = elim (Bool-cases (text_eq (lower k) (lower x))) [
    | inl f ↦ rw (w.reads x, f) refl
    | inr f ↦ rw (w.reads x, f) h
  ]

  new_keys-HasKeys :
      (l : Dict (Key T)) (d : CaseDict (TronKey T R V N))
      → IsValid d
      → (e : CaseDict (TronKey T R V N)) × (new_keys l d ≡ ok e) × HasKeys l d e
  unfolding new_keys lookup
  new_keys-HasKeys [] d v =
      (d, refl, record { valid = v; keeps = λ x h. h; holds = λ x k h. absurd (cc h) })
  new_keys-HasKeys ((j, key) ∷ l) d v =
      let u = new_key key.name key in
      let (m, a, w) = set_item-Writes d key.name u v in
      let (e, b, r) = new_keys-HasKeys l m w.valid in
      (
        e,
        rw (a, b) refl,
        record {
          valid = r.valid;
          keeps = λ x h. r.keeps x (is_ok-Writes d m key.name x u w h);
          holds = λ x k h. elim (Bool-cases (text_eq j x)) [
            | inl f ↦
                let g : some key ≡ some k = rw f at h in
                let p : is_ok (get_item m key.name) ≡ true =
                  rw (reads_self d key.name u m w) refl in
                let q = r.keeps key.name p in
                subst (λ (k : Key T). is_ok (get_item e k.name) ≡ true) (some_inj g) q
            | inr f ↦ r.holds x k (rw f at h)
          ];
        },
      )

  -- A dictionary whose keys have resolved types makes a model that is valid, has the dictionary,
  -- and has an item for each of its keys.
  pub new_model-Covers :
      (name : Text) (keydict : KeysDictionary T) (hooks : Callbacks (KeyChange N))
      → ((x : Text) (k : Key T) → lookup x keydict.keys ≡ some k → AreResolved k.vtypes)
      → (m : TronModel T R V N) × (new_model name keydict hooks ≡ ok m)
        × (m.keydict ≡ keydict)
        × Covers convert wrap native wrapped_native m
  unfolding new_model
  new_model-Covers name keydict hooks h =
      let empty : CaseDict (TronKey T R V N) = record { lc = []; items = [] } in
      let (e, a, r) =
        new_keys-HasKeys keydict.keys empty
          (record { synced = refl; different = unfold all_different in refl }) in
      (
        record {
          name = name;
          keydict = keydict;
          items = e;
          last_seen = none;
          hooks = hooks;
          warned = 0;
        },
        rw a refl,
        refl,
        record { valid = r.valid; held = λ x k g. (r.holds (lower x) k g, h (lower x) k g) },
      )
