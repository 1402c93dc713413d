-- ===== src/Keys/Matches.antt =====
-- `Key.consume` does not raise when the types of the key have been resolved.
use clu.Prelude.{
  ◌≡◌, refl, ap, sym, subst, ◌⊎◌, Error, err, ◌>>=◌, Bool, true, false, Option, none, some, List,
  [], ◌∷◌, ◌++◌, Text, text_eq, text_eq_iff, lower, Result, ok, Bool-cases, inl, inr,
}
use clu.Keys.{
  Wrapping, Cell, group, Progress, as_slots, Conversion, Slot, ValueType, single, repeated,
  compound, by_name, Values, raw, typed, Keyword, Key, consume_key, consume, consume_types,
  consume_type, after_type, finished, with_values, slots_of, wrapped, consume_next,
  consume_repeated, consume_parts,
}
use clu.Keys.Readable.{IsReadable, consume_readable}
use clu.Keys.Outcome.{HasOutcome, consume-HasOutcome}

-- No type of the list waits for its name to be resolved.
abbrev pub AreResolved : {T : Type 0} → List (ValueType T) → Type 0
AreResolved [] = Unit
AreResolved (single t ∷ ts) = AreResolved ts
AreResolved (repeated t n m ∷ ts) = AreResolved ts
AreResolved (compound t ps ∷ ts) = AreResolved ts
AreResolved (by_name k ∷ ts) = ⊥

-- The errors that the wrapper of a compound type can raise.
abbrev pub Raises : {T V : Type 0} → Wrapping T V → Error → Type 0
Raises none e = ⊥
Raises {T} {V} (some f) e = (ts : List T) × (cs : List (Cell V)) × (f ts cs ≡ some e)

abbrev pub NeverRaises : {T V : Type 0} → Wrapping T V → Type 0
NeverRaises none = Unit
NeverRaises {T} {V} (some f) = (ts : List T) (cs : List (Cell V)) → f ts cs ≡ none

module _ {T R V : Type 0} (convert : T → R → Conversion V) (wrap : Wrapping T V) where
  -- A result, or an error that the wrapper of a compound type has raised.
  abbrev Returns : {A : Type 0} → Result A → Type 0
  Returns {A} r = ((a : A) × (r ≡ ok a)) ⊎ ((e : Error) × (r ≡ err e) × Raises wrap e)

  after_total :
      (o : Option (List R × List (Slot V))) (done : List (Slot V))
      (f : List R → List (Slot V) → Result (Option (List R × List (Slot V))))
      → ((l : List R) (d : List (Slot V)) → Returns (f l d))
      → Returns (after_type convert wrap done o f)
  unfolding after_type
  after_total none done f h = inl (none, refl)
  after_total (some (l, more)) done f h = h l (done ++ more)

  bind_total :
      {A B : Type 0} (r : Result A) (f : A → Result B)
      → Returns r
      → ((a : A) → Returns (f a))
      → Returns (r >>= f)
  bind_total r f (inl (a, e)) h = subst (λ x. Returns (x >>= f)) (sym e) (h a)
  bind_total r f (inr (e, p, x)) h = inr (e, ap (λ y. y >>= f) p, x)

  by_wrapper :
      (g : List T → List (Cell V) → Option Error)
      → wrap ≡ some g
      → (ts : List T) (l : List R) (cs : List (Cell V)) (o : Option Error) → g ts cs ≡ o
      → Returns {A = Option (List R × List (Slot V))}
          (elim o [ none ↦ ok (some (l, group cs ∷ [])) | some e ↦ err e ])
  by_wrapper g p ts l cs none q = inl (_, refl)
  by_wrapper g p ts l cs (some e) q =
      inr (e, refl, subst (λ (w : Wrapping T V). Raises w e) (sym p) (ts, cs, q))

  wrapped_total : (ts : List T) (o : Option (Progress R V)) → Returns (wrapped convert wrap ts o)
  unfolding wrapped
  wrapped_total ts none = inl (none, refl)
  wrapped_total ts (some (l, cs)) = by_wrapping wrap refl
    where
      by_wrapping :
          (w : Wrapping T V)
          → wrap ≡ w
          → Returns {A = Option (List R × List (Slot V))} (elim w [
            | none ↦ ok (some (l, as_slots cs))
            | some f ↦ elim (f ts cs) [ none ↦ ok (some (l, group cs ∷ [])) | some e ↦ err e ]
          ])
      by_wrapping none p = inl (some (l, as_slots cs), refl)
      by_wrapping (some g) p = by_wrapper g p ts l cs (g ts cs) refl

  consume_types_total :
      (ts : List (ValueType T)) (l : List R) (done : List (Slot V))
      → AreResolved ts
      → Returns (consume_types convert wrap ts l done)
  unfolding consume_types consume_type
  consume_types_total [] l done a = inl (some (l, done), refl)
  consume_types_total (single t ∷ ts) l done a =
      after_total (slots_of convert wrap (consume_next convert wrap t (l, []))) done
        (consume_types convert wrap ts) (λ m d. consume_types_total ts m d a)
  consume_types_total (repeated t n m ∷ ts) l done a =
      after_total (slots_of convert wrap (consume_repeated convert wrap t n m (l, []))) done
        (consume_types convert wrap ts) (λ m d. consume_types_total ts m d a)
  consume_types_total (compound t ps ∷ ts) l done a =
      bind_total (wrapped convert wrap (t ∷ ps) (consume_parts convert wrap (t ∷ ps) (l, [])))
        (λ r. after_type convert wrap done r (consume_types convert wrap ts))
        (wrapped_total (t ∷ ps) (consume_parts convert wrap (t ∷ ps) (l, [])))
        (λ r.
          after_total r done (consume_types convert wrap ts) (λ m d. consume_types_total ts m d a))
  consume_types_total (by_name k ∷ ts) l done a = absurd a

  consume-Returns :
      (ts : List (ValueType T)) (l : List R) → AreResolved ts → Returns (consume convert wrap ts l)
  unfolding consume
  consume-Returns ts l a =
      bind_total (consume_types convert wrap ts l []) (λ r. ok (finished convert wrap l r))
        (consume_types_total ts l [] a) (λ r. inl (_, refl))

  -- When no type waits for its name to be resolved, `consume` raises nothing but what the wrapper
  -- of a compound type raises. If it returns, either it has succeeded, the types of the key stand
  -- for a list of single types, as long as the list of the values, and each new value is what its
  -- type makes of the value in its place; or it has failed, the values are as they were, and it is
  -- not so that no type is repeated, there are as many values as types and each type takes the
  -- value in its place.
  pub consume_lem :
      (ts : List (ValueType T)) (l : List R)
      → AreResolved ts
      → ((r : Bool × Values R V) × (consume convert wrap ts l ≡ ok r)
          × HasOutcome convert wrap ts l r
          × ((r.0 ≡ true) ⊎ (¬ (IsReadable convert wrap ts l))))
        ⊎ ((e : Error) × (consume convert wrap ts l ≡ err e) × Raises wrap e)
  consume_lem ts l a = elim (consume-Returns ts l a) [
    | inl (r, e) ↦ inl (r, e, consume-HasOutcome convert wrap ts l r e, complete r e)
    | inr x ↦ inr x
  ]
    where
      complete :
          (r : Bool × Values R V)
          → consume convert wrap ts l ≡ ok r
          → (r.0 ≡ true) ⊎ (¬ (IsReadable convert wrap ts l))
      complete (true, v) e = inl refl
      complete (false, v) e = inr (consume_readable convert wrap ts l v e)

  not_raised : NeverRaises wrap → (e : Error) → Raises wrap e → ⊥
  not_raised h e x = by_wrapping wrap h x
    where
      by_wrapping : (w : Wrapping T V) → NeverRaises w → Raises w e → ⊥
      by_wrapping none h x = x
      by_wrapping (some f) h (ts, cs, p) = absurd (cc (h ts cs, p))

  consume_total :
      (ts : List (ValueType T)) (l : List R)
      → NeverRaises wrap
      → AreResolved ts
      → (r : Bool × Values R V) × (consume convert wrap ts l ≡ ok r)
  consume_total ts l w a = elim (consume-Returns ts l a) [
    | inl x ↦ x
    | inr (e, p, x) ↦ absurd (not_raised w e x)
  ]

  -- A keyword that has been asked for by a key: it has its name, and if the key has matched it the
  -- name is that of the key, up to case, and the values have been typed; else they are as they
  -- were.
  abbrev pub HasMatched : Key T → Text → List R → Bool × Keyword R V → Type 0
  HasMatched k name l (true, kw) =
      (kw.name ≡ name)
      × (kw.matched ≡ true)
      × (lower name ≡ lower k.name)
      × ((slots : List (Slot V)) × (kw.values ≡ typed slots))
  HasMatched k name l (false, kw) = (kw.name ≡ name) × (kw.matched ≡ false) × (kw.values ≡ raw l)

  -- A key whose types are resolved, where no wrapper raises, raises nothing when it is asked for a
  -- keyword, and the keyword keeps its name: if it is matched its name is that of the key, up to
  -- case, and its values have been typed; else its values are as they were.
  pub consume_key-HasMatched :
      (k : Key T) (name : Text) (l : List R)
      → NeverRaises wrap
      → AreResolved k.vtypes
      → (r : Bool × Keyword R V) × (consume_key convert wrap k name l ≡ ok r)
        × HasMatched k name l r
  unfolding consume_key with_values
  consume_key-HasMatched k name l w a = elim (Bool-cases (text_eq (lower name) (lower k.name))) [
    | inr e ↦ (
      (false, record { name = name; values = raw l; matched = false }),
      rw e refl,
      (refl, refl, refl),
    )
    | inl e ↦
        let (r, q) = consume_total k.vtypes l w a in
        (
          with_values convert wrap name r,
          rw (e, q) refl,
          matched r q ((text_eq_iff (lower name) (lower k.name)).0 e),
        )
  ]
    where
      matched :
          (r : Bool × Values R V)
          → consume convert wrap k.vtypes l ≡ ok r
          → lower name ≡ lower k.name
          → HasMatched k name l (with_values convert wrap name r)
      matched (true, typed s) q e = (refl, refl, e, (s, refl))
      matched (true, raw m) q e =
          absurd (consume-HasOutcome convert wrap k.vtypes l (true, raw m) q)
      matched (false, v) q e = (refl, refl, consume-HasOutcome convert wrap k.vtypes l (false, v) q)
