-- ===== src/Keys/Lookups.antt =====
-- What the keys of a `KeysDictionary` are after `add` and `extend`.
use clu.Prelude.{
  ◌≡◌, refl, subst, ◌∙◌, Bool, true, false, ◌||◌, Option, none, some, List, [], ◌∷◌, Text, text_eq,
  text_eq_iff, lower, if◌then◌else◌, Result, ok, err, keys_error, ◌>>=◌, arith,
}
use clu.Prelude.Dict.{Dict, lookup, insert, lookup-insert, update, all_different, elem}
use clu.Keys.{ValueType, Key}
use clu.Keys.Reads.{ok_inj, bind_ok}
use clu.Keys.Dictionary.{
  is_some, KeysDictionary, add, extend, init_dictionary, get_key, name_for, resolve,
}

module _ {T : Type 0} (name_of : ValueType T → Option Text) where
  -- A key has been registered: it has its name, its unique name and resolved types, its name was
  -- free, and the keys of other names are as they were.
  pub record HasAdded (k : Key T) (d e : KeysDictionary T) : Type 0 where
    pub held : Key T
    pub found : get_key (name_for k) e ≡ some held
    pub same_name : held.name ≡ k.name
    pub was_free : get_key (name_for k) d ≡ none
    pub others :
        (x : Text) → text_eq (lower (name_for k)) (lower x) ≡ false → get_key x e ≡ get_key x d

  -- A key that is added, if `add` does not raise, has been registered, whatever the dictionary.
  add-HasAdded : (k : Key T) (d e : KeysDictionary T) → add name_of k d ≡ ok e → HasAdded k d e
  unfolding add
  add-HasAdded k d e h =
      by_place (lookup (lower (name_for k)) d.keys) refl (resolve name_of d.named_types k.vtypes) h
    where
      by_place :
          (o : Option (Key T))
          → lookup (lower (name_for k)) d.keys ≡ o
          → (r : Result (List (ValueType T) × Dict (ValueType T)))
          → (if is_some o
              then err keys_error
              else (r >>= (λ r. ok (record {
                keys = insert (lower (name_for k)) (record k { vtypes = r.0 }) d.keys;
                named_types = update d.named_types r.1;
              }))))
            ≡ ok e
          → HasAdded k d e
      by_place (some _) f r g = absurd (cc g)
      by_place none f (err _) g = absurd (cc g)
      by_place none f (ok r) g =
          let n = lower (name_for k) in
          subst (HasAdded k d) (ok_inj g) (record {
            held = record k { vtypes = r.0 };
            found =
                unfold get_key in
                lookup-insert n n (record k { vtypes = r.0 }) d.keys
                ∙ ground (arith, text_eq_iff n n);
            same_name = refl;
            was_free = unfold get_key in f;
            others = λ x y.
                unfold get_key in
                lookup-insert n (lower x) (record k { vtypes = r.0 }) d.keys ∙ ground (arith, y);
          })

if_ok :
    {A : Type 0} (b : Bool) (r : Result A) (y : A)
    → (if b then r else err keys_error) ≡ ok y
    → (b ≡ true) × (r ≡ ok y)
if_ok true r y h = (refl, h)
if_ok false r y h = absurd (cc h)

abbrev pub names : {T : Type 0} → List (Key T) → List Text
names [] = []
names (k ∷ ks) = lower (name_for k) ∷ names ks

-- Each key of the list is found, under the name that it is registered with.
abbrev pub AreFound : {T : Type 0} → List (Key T) → KeysDictionary T → Type 0
AreFound [] d = Unit
AreFound {T} (k ∷ ks) d =
    ((h : Key T) × (get_key (name_for k) d ≡ some h) × (h.name ≡ k.name)) × AreFound ks d

module _ {T : Type 0} (name_of : ValueType T → Option Text) where
  record HasExtended (ks : List (Key T)) (d e : KeysDictionary T) : Type 0 where
    different : all_different (names ks) ≡ true
    all_found : AreFound ks e
    same : (x : Text) → elem (lower x) (names ks) ≡ false → get_key x e ≡ get_key x d
    free : (x : Text) (k : Key T) → get_key x d ≡ some k → elem (lower x) (names ks) ≡ false

  -- A key of the dictionary has neither the name of the key that is added nor one of those after
  -- it.
  is_free :
      {k : Key T} {ks : List (Key T)} {d m e : KeysDictionary T}
      → HasAdded name_of k d m
      → HasExtended ks m e
      → (x : Text) (j : Key T) → get_key x d ≡ some j
      → elem (lower x) (names (k ∷ ks)) ≡ false
  unfolding elem get_key
  is_free {k} {ks} {d} c r x j g = by_name_of (text_eq (lower (name_for k)) (lower x)) refl
    where
      by_name_of :
          (b : Bool)
          → text_eq (lower (name_for k)) (lower x) ≡ b
          → (b || elem (lower x) (names ks)) ≡ false
      by_name_of true f =
          let n = text_eq_iff (lower (name_for k)) (lower x) in absurd (cc (c.was_free, g, n.0 f))
      by_name_of false f = r.free x j (c.others x f ∙ g)

  extend-HasExtended :
      (ks : List (Key T)) (d e : KeysDictionary T) → extend name_of ks d ≡ ok e → HasExtended ks d e
  unfolding extend all_different elem
  extend-HasExtended [] d e h = record {
    different = refl;
    all_found = tt;
    same = λ x f. rw (ok_inj h) refl;
    free = λ x k f. refl;
  }
  extend-HasExtended (k ∷ ks) d e h =
      let (m, a, b) = bind_ok (add name_of k d) (extend name_of ks) e h in
      let c = add-HasAdded name_of k d m a in
      let r = extend-HasExtended ks m e b in
      let f = r.free (name_for k) c.held c.found in
      record {
        different = ground (arith, f, r.different);
        all_found = ((c.held, r.same (name_for k) f ∙ c.found, c.same_name), r.all_found);
        same = λ x g. r.same x (ground (arith, g)) ∙ c.others x (ground (arith, g));
        free = λ x j g. is_free c r x j g;
      }

  -- A dictionary that the constructor builds has a lower-case name; the names of its keys differ,
  -- up to case; each key of the list is found under its name, and no other name is found.
  pub init_dictionary_lem :
      (name : Text) (ks : List (Key T)) (d : KeysDictionary T)
      → init_dictionary name_of name ks ≡ ok d
      → (text_eq name (lower name) ≡ true)
        × (all_different (names ks) ≡ true)
        × AreFound ks d
        × ((x : Text) → elem (lower x) (names ks) ≡ false → get_key x d ≡ none)
  unfolding init_dictionary
  init_dictionary_lem name ks d h =
      let empty : KeysDictionary T = record { keys = []; named_types = [] } in
      let (a, b) = if_ok (text_eq name (lower name)) (extend name_of ks empty) d h in
      let r = extend-HasExtended ks empty d b in
      (a, r.different, r.all_found, λ x f. r.same x f ∙ (unfold get_key lookup in refl))
