-- ===== src/CaseDict/Keys.antt =====
-- The key under which a dictionary holds a text up to case, and the value that it holds there.
use mathlib.Core.Bool.{false≢true}
use clu.Prelude.{
  ◌≡◌, refl, ap, sym, ◌∙◌, true, false, Option, none, some, List, [], ◌∷◌, ◌++◌, map, Text, text_eq,
  text_eq_iff, text_eq_refl, lower, if◌then◌else◌, ok, arith, not, Option-cases, Bool-cases, inl,
  inr,
}
use clu.Prelude.Dict.{Dict, lookup, insert, keys, elem}
use clu.CaseDict.{index, key_at}

-- The first of the keys that is `l` in lower case.
pub real_key : Text → List Text → Option Text
real_key l [] = none
real_key l (k ∷ ks) = if text_eq (lower k) l then some k else real_key l ks

abbrev pub or_key : Option Text → Text → Text
or_key none key = key
or_key (some k) key = k

pub key_at-index :
    (l : Text) (ks : List Text) (key : Text)
    → key_at (index l (map lower ks)) ks key ≡ ok (or_key (real_key l ks) key)
unfolding key_at index real_key
key_at-index l [] key = refl
key_at-index l (k ∷ ks) key = ground (arith, key_at-index l ks key)

pub elem-real_key :
    (l : Text) (ks : List Text)
    → not (elem l (map lower ks)) ≡ (elim (real_key l ks) [ none ↦ true | some _ ↦ false ])
unfolding elem real_key
elem-real_key l [] = refl
elem-real_key l (k ∷ ks) = ground (arith, elem-real_key l ks)

pub lower-real_key : (l : Text) (ks : List Text) (k : Text) → real_key l ks ≡ some k → lower k ≡ l
unfolding real_key
lower-real_key l [] k h = cc
lower-real_key l (j ∷ ks) k h = ground (arith, text_eq_iff (lower j) l, lower-real_key l ks k)

-- Two texts that differ in lower case differ.
text_eq-lower : (j k : Text) → text_eq (lower j) (lower k) ≡ false → text_eq j k ≡ false
text_eq-lower j k h = elim (Bool-cases (text_eq j k)) [
  | inl e ↦ absurd (false≢true (sym h ∙ (text_eq_iff _ _).1 (ap lower ((text_eq_iff j k).0 e))))
  | inr e ↦ e
]

lower-or_key :
    (key : Text) (ks : List Text) → lower (or_key (real_key (lower key) ks) key) ≡ lower key
lower-or_key key ks = elim (Option-cases (real_key (lower key) ks)) [
  | inl e ↦ rw e
  | inr (k, e) ↦ rw e (lower-real_key (lower key) ks k e)
]

module _ {ℓ} {V : Type ℓ} where
  -- The value held under the text `l`, given in lower case.
  pub fold_lookup : Text → Dict V → Option V
  fold_lookup l [] = none
  fold_lookup l ((k, v) ∷ m) = if text_eq (lower k) l then some v else fold_lookup l m

  -- An entry whose key is another in lower case is passed over.
  lookup-skip :
      (k j : Text) (v : V) (m : Dict V)
      → text_eq (lower k) (lower j) ≡ false
      → lookup j ((k, v) ∷ m) ≡ lookup j m
  unfolding lookup
  lookup-skip k j v m h = rw (text_eq-lower k j h)

  pub lookup-real_key :
      (key : Text) (m : Dict V)
      → lookup (or_key (real_key (lower key) (keys m)) key) m ≡ fold_lookup (lower key) m
  unfolding real_key fold_lookup
  lookup-real_key key [] = unfold lookup in refl
  lookup-real_key key ((k, v) ∷ m) = elim (Bool-cases (text_eq (lower k) (lower key))) [
    | inl e ↦ rw e (unfold lookup in rw text_eq_refl)
    | inr e ↦ rw e (
        lookup-skip k (or_key (real_key (lower key) (keys m)) key) v m (rw lower-or_key e)
        ∙ lookup-real_key key m)
  ]

  pub keys-insert_new :
      (k : Text) (v : V) (m : Dict V)
      → real_key (lower k) (keys m) ≡ none
      → keys (insert k v m) ≡ keys m ++ k ∷ []
  unfolding insert real_key
  keys-insert_new k v [] h = refl
  keys-insert_new k v ((j, w) ∷ m) h =
      ground (arith, text_eq_iff j k, text_eq_refl (lower k), keys-insert_new k v m)

  pub keys-insert_old :
      (l k : Text) (v : V) (m : Dict V)
      → real_key l (keys m) ≡ some k
      → keys (insert k v m) ≡ keys m
  unfolding insert real_key
  keys-insert_old l k v [] h = cc
  keys-insert_old l k v ((j, w) ∷ m) h =
      ground (arith, text_eq_iff j k, text_eq_refl k, keys-insert_old l k v m)

  pub fold-insert :
      (k l : Text) (v : V) (m : Dict V)
      → real_key (lower k) (keys m) ≡ none
      → fold_lookup l (insert k v m) ≡ (if text_eq (lower k) l then some v else fold_lookup l m)
  unfolding insert real_key fold_lookup
  fold-insert k l v [] h = refl
  fold-insert k l v ((j, w) ∷ m) h = ground (
    arith,
    text_eq_iff j k,
    text_eq_iff (lower j) l,
    text_eq_iff (lower k) l,
    text_eq_iff (lower j) (lower k),
    text_eq_refl (lower k),
    fold-insert k l v m,
  )

  -- Writing under the real key is seen at every text that is that key in lower case.
  pub fold-insert_real :
      (l k x : Text) (v : V) (m : Dict V)
      → real_key l (keys m) ≡ some k
      → fold_lookup x (insert k v m) ≡ (if text_eq l x then some v else fold_lookup x m)
  unfolding insert real_key fold_lookup
  fold-insert_real l k x v [] h = cc
  fold-insert_real l k x v ((j, w) ∷ m) h = ground (
    arith,
    text_eq_iff j k,
    text_eq_refl k,
    text_eq_iff (lower j) l,
    text_eq_iff (lower j) x,
    text_eq_iff l x,
    text_eq_refl l,
    lower-real_key l (keys m) k,
    fold-insert_real l k x v m,
  )

  pub fold_lookup-none :
      (l : Text) (m : Dict V) → real_key l (keys m) ≡ none → fold_lookup l m ≡ none
  unfolding real_key fold_lookup
  fold_lookup-none l [] h = refl
  fold_lookup-none l ((k, v) ∷ m) h = ground (arith, fold_lookup-none l m)
