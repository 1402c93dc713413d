-- ===== src/CaseDict/Laws.antt =====
-- `CaseInsensitiveDict` as a map on lower-case texts: its invariant, and what its overridden
-- methods answer and keep.
use mathlib.Core.List.{map-append}
use clu.Prelude.{
  ◌≡◌, refl, ap, sym, ◌∙◌, subst, Bool, true, false, Option, none, some, List, [], ◌∷◌, ◌++◌, map,
  Text, text_eq, text_eq_iff, text_eq_refl, lower, if◌then◌else◌, Result, ok, err, arith,
  Option-cases, Bool-cases, inl, inr, ◌>>=◌,
}
use clu.Prelude.Dict.{Dict, lookup, insert, keys, elem, all_different, different-append}
use clu.CaseDict.{CaseDict, init, get_key, get_item, set_item, contains, or_key_error}
use clu.CaseDict.Keys.{
  real_key, or_key, key_at-index, elem-real_key, fold_lookup, fold_lookup-none, lookup-real_key,
  keys-insert_new, keys-insert_old, fold-insert, fold-insert_real,
}

-- The list of lower-case keys is in step with the keys, and no two keys are equal up to case.
pub record IsValid {ℓ} {V : Type ℓ} (d : CaseDict V) : Type ℓ where
  pub synced : d.lc ≡ map lower (keys d.items)
  pub different : all_different d.lc ≡ true

-- The keys after a write: a text that the dictionary holds up to case keeps its old spelling and
-- its place, and a new one goes last.
abbrev pub written_keys : Option Text → Text → List Text → List Text
written_keys none k ks = ks ++ k ∷ []
written_keys (some _) k ks = ks

module _ {ℓ} {V : Type ℓ} where
  elem-lookup :
      (k : Text) (m : Dict V)
      → elem k (keys m) ≡ (elim (or_key_error (lookup k m)) [ ok _ ↦ true | err _ ↦ false ])
  unfolding elem lookup or_key_error
  elem-lookup k [] = refl
  elem-lookup k ((j, v) ∷ m) = ground (arith, elem-lookup k m)

module _ {ℓ} {V : Type ℓ} where
  -- A dictionary is built only from keys that differ up to case.
  pub init-IsValid :
      (values : Dict V) (d : CaseDict V) → init values ≡ ok d → IsValid d × (d.items ≡ values)
  unfolding init
  init-IsValid values d h = elim (Bool-cases (all_different (map lower (keys values)))) [
    | inl e ↦
        let r : ok (record { lc = map lower (keys values); items = values }) ≡ ok d = rw e at h in
        ground arith
    | inr e ↦ absurd (cc (rw e at h))
  ]

  get_key-real_key :
      (d : CaseDict V) (key : Text)
      → IsValid d
      → get_key d key ≡ ok (or_key (real_key (lower key) (keys d.items)) key)
  unfolding get_key
  get_key-real_key d key v = rw v.synced (key_at-index (lower key) (keys d.items) key)

  -- The lookup is that of the map on lower-case texts; a text that it does not hold is a KeyError.
  pub get_item-fold_lookup :
      (d : CaseDict V) (key : Text)
      → IsValid d
      → get_item d key ≡ or_key_error (fold_lookup (lower key) d.items)
  unfolding get_item
  get_item-fold_lookup d key v =
      rw (get_key-real_key d key v) (ap or_key_error (lookup-real_key key d.items))

  set_item_new :
      (d : CaseDict V) (k : Text) (v : V)
      → IsValid d
      → real_key (lower k) (keys d.items) ≡ none
      → set_item d k v ≡ ok (record { lc = d.lc ++ lower k ∷ []; items = insert k v d.items })
  unfolding set_item
  set_item_new d k v valid e = rw (valid.synced, elem-real_key (lower k) (keys d.items), e)

  set_item_old :
      (d : CaseDict V) (k j : Text) (v : V)
      → IsValid d
      → real_key (lower k) (keys d.items) ≡ some j
      → set_item d k v ≡ ok (record d { items = insert j v d.items })
  unfolding set_item
  set_item_old d k j v valid e =
      rw (get_key-real_key d k valid, valid.synced, elem-real_key (lower k) (keys d.items), e)

  new-IsValid :
      (d : CaseDict V) (k : Text) (v : V)
      → IsValid d
      → real_key (lower k) (keys d.items) ≡ none
      → IsValid (record { lc = d.lc ++ lower k ∷ []; items = insert k v d.items })
  new-IsValid d k v valid e = record {
    synced = rw (keys-insert_new k v d.items e, map-append, valid.synced);
    different =
        different-append (lower k) d.lc valid.different
          (ground (arith, elem-real_key (lower k) (keys d.items), e, valid.synced));
  }

  old-IsValid :
      (d : CaseDict V) (k j : Text) (v : V)
      → IsValid d
      → real_key (lower k) (keys d.items) ≡ some j
      → IsValid (record d { items = insert j v d.items })
  old-IsValid d k j v valid e = record {
    synced = valid.synced ∙ ap (map lower) (sym (keys-insert_old (lower k) j v d.items e));
    different = valid.different;
  }

  -- From a valid dictionary a write raises nothing and leaves a valid dictionary; a later read
  -- returns the value written at every spelling of its key, and what it returned before (a value
  -- or the KeyError) at every other text; keys keep their spelling and order.
  pub set_item_lem :
      (d : CaseDict V) (k : Text) (v : V) (j : Text)
      → IsValid d
      → (e : CaseDict V) × (set_item d k v ≡ ok e)
        × IsValid e
        × (get_item e j ≡ (if text_eq (lower k) (lower j) then ok v else get_item d j))
        × (keys e.items ≡ written_keys (real_key (lower k) (keys d.items)) k (keys d.items))
  unfolding or_key_error
  set_item_lem d k v j valid = elim (Option-cases (real_key (lower k) (keys d.items))) [
    | inl e ↦
        let d' : CaseDict V = record { lc = d.lc ++ lower k ∷ []; items = insert k v d.items } in
        (
          d',
          set_item_new d k v valid e,
          new-IsValid d k v valid e,
          ground (
            arith,
            get_item-fold_lookup d j valid,
            get_item-fold_lookup d' j (new-IsValid d k v valid e),
            fold-insert k (lower j) v d.items e,
          ),
          rw e (keys-insert_new k v d.items e),
        )
    | inr (r, e) ↦
        let d' : CaseDict V = record d { items = insert r v d.items } in
        (
          d',
          set_item_old d k r v valid e,
          old-IsValid d k r v valid e,
          ground (
            arith,
            get_item-fold_lookup d j valid,
            get_item-fold_lookup d' j (old-IsValid d k r v valid e),
            fold-insert_real (lower k) r (lower j) v d.items e,
          ),
          rw e (keys-insert_old (lower k) r v d.items e),
        )
  ]

  -- Texts equal up to case are one key: they read the same value or the same KeyError.
  pub get_item-lower :
      (d : CaseDict V) (j k : Text) → IsValid d → lower j ≡ lower k → get_item d j ≡ get_item d k
  get_item-lower d j k valid e =
      get_item-fold_lookup d j valid
      ∙ ap (λ (l : Text). or_key_error (fold_lookup l d.items)) e
      ∙ sym (get_item-fold_lookup d k valid)

  abbrev pub is_ok : Result V → Bool
  is_ok (ok _) = true
  is_ok (err _) = false

  -- `key in d` answers, without an error, whether reading the key would return a value.
  pub contains-get_item :
      (d : CaseDict V) (k : Text) → IsValid d → contains d k ≡ ok (is_ok (get_item d k))
  unfolding contains get_item
  contains-get_item d k valid = rw (get_key-real_key d k valid) (ap ok (elem-lookup _ d.items))

  -- Writing under the key that the dictionary holds is the write that the class makes.
  pub get_key-set_item :
      (d : CaseDict V) (k : Text) (v w : V)
      → IsValid d
      → get_item d k ≡ ok w
      → (get_key d k >>= λ r. ok (record d { items = insert r v d.items })) ≡ set_item d k v
  get_key-set_item d k v w valid h = elim (Option-cases (real_key (lower k) (keys d.items))) [
    | inl e ↦ absurd (
        ok≢err (
          sym h
          ∙ get_item-fold_lookup d k valid
          ∙ ap or_key_error (fold_lookup-none (lower k) d.items e)))
    | inr (r, e) ↦ rw (get_key-real_key d k valid, set_item_old d k r v valid e, e)
  ]
    where
      ok≢err : ok w ≡ or_key_error none → ⊥
      ok≢err p = unfold or_key_error in cc p

-- A dictionary e that is d with one value written: valid, and read as d but for the key.
pub record Writes {ℓ} {V : Type ℓ} (d : CaseDict V) (k : Text) (v : V) (e : CaseDict V)
    : Type ℓ where
  pub valid : IsValid e
  pub reads :
      (j : Text) → get_item e j ≡ (if text_eq (lower k) (lower j) then ok v else get_item d j)

module _ {ℓ} {V : Type ℓ} where
  ok-injective : {d e : CaseDict V} → ok d ≡ ok e → d ≡ e
  ok-injective p = cc p

  pub set_item-Writes :
      (d : CaseDict V) (k : Text) (v : V)
      → IsValid d
      → (e : CaseDict V) × (set_item d k v ≡ ok e) × Writes d k v e
  set_item-Writes d k v valid =
      let (e, q, good, r, s) = set_item_lem d k v k valid in
      (
        e,
        q,
        record {
          valid = good;
          reads = λ j.
              let (e', q', good', r', s') = set_item_lem d k v j valid in
              subst
                (λ (x : CaseDict V).
                  get_item x j ≡ (if text_eq (lower k) (lower j) then ok v else get_item d j))
                (ok-injective (sym q' ∙ q)) r';
        },
      )

  -- A dictionary that holds the value already is itself so written.
  pub held-Writes :
      (d : CaseDict V) (k : Text) (v : V) → IsValid d → get_item d k ≡ ok v → Writes d k v d
  held-Writes d k v valid h = record {
    valid = valid;
    reads = λ j. elim (Bool-cases (text_eq (lower k) (lower j))) [
      | inl e ↦ rw e (sym (get_item-lower d k j valid ((text_eq_iff _ _).0 e)) ∙ h)
      | inr e ↦ rw e
    ];
  }

  -- Of two writes to one key the second counts.
  pub Writes-trans :
      (d : CaseDict V) (k : Text) (v w : V) (e f : CaseDict V)
      → Writes d k v e
      → Writes e k w f
      → Writes d k w f
  Writes-trans d k v w e f a b = record {
    valid = b.valid;
    reads = λ j. ground (arith, a.reads j, b.reads j);
  }

  pub reads_self :
      (d : CaseDict V) (k : Text) (v : V) (e : CaseDict V) → Writes d k v e → get_item e k ≡ ok v
  reads_self d k v e w = w.reads k ∙ rw text_eq_refl
