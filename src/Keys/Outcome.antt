-- ===== src/Keys/Outcome.antt =====
-- What `TypedValues.consume` does with the values of a keyword.
use clu.Prelude.{
  ◌≡◌, refl, ap, sym, subst, ◌∙◌, Bool, true, false, Option, none, some, List, [], ◌∷◌, ◌++◌,
  append-nil, Result, Error, ok, err, ◌>>=◌,
}
use clu.Keys.{
  Wrapping, Conversion, Cell, Slot, group, ValueType, single, repeated, compound, by_name, Values,
  raw, typed, Progress, as_slots, consume_next, consume_repeated, consume_parts, slots_of, wrapped,
  consume_type, after_type, consume_types, finished, consume,
}
use clu.Keys.Consumed.{consume_next-Took, consume_repeated-Took, consume_parts-Took}
use clu.Keys.Reads.{
  replicate, Expands, flat, flat-append, flat-as_slots, Reads, Took, Took-none, Took-append, ok_inj,
  some_inj,
}

module _ {T R V : Type 0} (convert : T → R → Conversion V) (wrap : Wrapping T V) where
  -- The values that the slots hold, with those that are left.
  abbrev Fills : List T → List R → List R × List (Slot V) → Type 0
  Fills ts l q = Took convert ts (l, []) (q.0, flat q.1)

  slots_of-Fills :
      (ts : List T) (l : List R) (o : Option (Progress R V)) (q : List R × List (Slot V))
      → ((p : Progress R V) → o ≡ some p → Took convert ts (l, []) p)
      → slots_of convert wrap o ≡ some q
      → Fills ts l q
  unfolding slots_of
  slots_of-Fills ts l none q f h = absurd (cc h)
  slots_of-Fills ts l (some (r, cs)) q f h = subst (Fills ts l) (some_inj h) (
      subst (λ (ds : List (Cell V)). Took convert ts (l, []) (r, ds)) (sym (flat-as_slots cs))
        (f (r, cs) refl))

  -- The slots of the values of a compound type hold the values.
  flat-wrapped :
      (ts : List T) (r : List R) (cs : List (Cell V)) (q : List R × List (Slot V))
      → wrapped convert wrap ts (some (r, cs)) ≡ ok (some q)
      → (r ≡ q.0) × (flat q.1 ≡ cs)
  unfolding wrapped
  flat-wrapped ts r cs q h = by_wrapping wrap h
    where
      by_result :
          (o : Option Error)
          → (elim o [ none ↦ ok (some (r, group cs ∷ [])) | some e ↦ err e ]) ≡ ok (some q)
          → (r ≡ q.0) × (flat q.1 ≡ cs)
      by_result none g =
          let e = some_inj (ok_inj g) in
          (
            ap (λ (x : List R × List (Slot V)). x.0) e,
            sym (ap (λ (x : List R × List (Slot V)). flat x.1) e) ∙ unfold flat in append-nil cs,
          )
      by_result (some e) g = absurd (cc g)

      by_wrapping :
          (w : Wrapping T V)
          → (elim w [
            | none ↦ ok (some (r, as_slots cs))
            | some f ↦ elim (f ts cs) [ none ↦ ok (some (r, group cs ∷ [])) | some e ↦ err e ]
          ])
            ≡ ok (some q)
          → (r ≡ q.0) × (flat q.1 ≡ cs)
      by_wrapping none g =
          let e = some_inj (ok_inj g) in
          (
            ap (λ (x : List R × List (Slot V)). x.0) e,
            sym (ap (λ (x : List R × List (Slot V)). flat x.1) e) ∙ flat-as_slots cs,
          )
      by_wrapping (some f) g = by_result (f ts cs) g

  wrapped-Fills :
      (ts : List T) (l : List R) (o : Option (Progress R V)) (q : List R × List (Slot V))
      → ((p : Progress R V) → o ≡ some p → Took convert ts (l, []) p)
      → wrapped convert wrap ts o ≡ ok (some q)
      → Fills ts l q
  wrapped-Fills ts l none q f h = absurd (unfold wrapped in cc (ok_inj h))
  wrapped-Fills ts l (some (r, cs)) q f h =
      let (a, b) = flat-wrapped ts r cs q h in
      subst (λ (m : List R). Took convert ts (l, []) (m, flat q.1)) a
        (subst (λ (ds : List (Cell V)). Took convert ts (l, []) (r, ds)) (sym b) (f (r, cs) refl))

  -- The types that one type stands for, put before those of the rest.
  consume_type-Fills :
      (t : ValueType T) (l : List R) (q : List R × List (Slot V))
      → consume_type convert wrap t l ≡ ok (some q)
      → (us : List T) × Fills us l q
        × ((ts : List (ValueType T)) (vs : List T) → Expands ts vs → Expands (t ∷ ts) (us ++ vs))
  unfolding consume_type slots_of
  consume_type-Fills (single t) l q h = (
    t ∷ [],
    slots_of-Fills (t ∷ []) l (consume_next convert wrap t (l, [])) q
        (λ p e. consume_next-Took convert wrap t (l, []) p e) (ok_inj h),
    λ ts vs e. (vs, refl, e),
  )
  consume_type-Fills (repeated t n m) l q h =
      by_progress (consume_repeated convert wrap t n m (l, [])) refl (ok_inj h)
    where
      by_progress :
          (o : Option (Progress R V))
          → consume_repeated convert wrap t n m (l, []) ≡ o
          → slots_of convert wrap o ≡ some q
          → (us : List T) × Fills us l q
            × ((ts : List (ValueType T)) (vs : List T)
                → Expands ts vs
                → Expands (repeated t n m ∷ ts) (us ++ vs))
      by_progress none e g = absurd (cc g)
      by_progress (some p) e g =
          let (k, a, b, c) = consume_repeated-Took convert wrap t n m (l, []) p e in
          (
            replicate k t,
            slots_of-Fills (replicate k t) l (some p) q
                (λ r f. subst (Took convert (replicate k t) (l, [])) (some_inj f) c) g,
            λ ts vs x. (k, vs, refl, a, b, x),
          )
  consume_type-Fills (compound t ps) l q h = (
    t ∷ ps,
    wrapped-Fills (t ∷ ps) l (consume_parts convert wrap (t ∷ ps) (l, [])) q
        (λ p e. consume_parts-Took convert wrap (t ∷ ps) (l, []) p e) h,
    λ ts vs e. (vs, refl, e),
  )
  consume_type-Fills (by_name k) l q h = absurd (cc h)

  -- Values that are read after others have been.
  Took-after :
      (us : List T) (l : List R) (done more : List (Slot V)) (r : List R)
      → Fills us l (r, more)
      → Took convert us (l, flat done) (r, flat (done ++ more))
  Took-after us l done more r a = record {
    taken = a.taken;
    new = a.new;
    left = a.left;
    kept = flat-append done more ∙ ap (◌++◌ (flat done)) a.kept;
    reads = a.reads;
  }

  -- The loop over the types reads what they stand for.
  consume_types-Took :
      (ts : List (ValueType T)) (l : List R) (done : List (Slot V)) (q : List R × List (Slot V))
      → consume_types convert wrap ts l done ≡ ok (some q)
      → (us : List T) × Expands ts us × Took convert us (l, flat done) (q.0, flat q.1)
  unfolding consume_types after_type
  consume_types-Took [] l done q h = (
    [],
    refl,
    subst (λ (r : List R × List (Slot V)). Took convert [] (l, flat done) (r.0, flat r.1))
        (some_inj (ok_inj h)) (Took-none convert (l, flat done)),
  )
  consume_types-Took (t ∷ ts) l done q h =
      by_type (consume_types-Took ts) (consume_type convert wrap t l) refl h
    where
      by_type :
          ((l : List R) (done : List (Slot V)) (q : List R × List (Slot V))
            → consume_types convert wrap ts l done ≡ ok (some q)
            → (us : List T) × Expands ts us × Took convert us (l, flat done) (q.0, flat q.1))
          → (r : Result (Option (List R × List (Slot V)))) → consume_type convert wrap t l ≡ r
          → (r >>= (λ o. after_type convert wrap done o (consume_types convert wrap ts)))
            ≡ ok (some q)
          → (us : List T) × Expands (t ∷ ts) us × Took convert us (l, flat done) (q.0, flat q.1)
      by_type rest (err x) e g = absurd (cc g)
      by_type rest (ok none) e g = absurd (cc g)
      by_type rest (ok (some (r, more))) e g =
          let (us, a, b) = consume_type-Fills t l (r, more) e in
          let (vs, c, d) = rest r (done ++ more) q g in
          (
            us ++ vs,
            b ts vs c,
            Took-append convert us vs (l, flat done) (r, flat (done ++ more)) (q.0, flat q.1)
                (Took-after us l done more r a) d,
          )

  -- When no value is left, all of them have been read.
  all_read :
      (us : List T) (l : List R) (done : List (Slot V))
      → Took convert us (l, []) ([], flat done)
      → Reads convert us l (flat done)
  all_read us l done a =
      subst (Reads convert us l) (sym a.kept) (
        subst (λ (m : List R). Reads convert us m a.new) (sym (a.left ∙ append-nil a.taken))
          a.reads)

  -- What the result of `consume` tells of the values.
  abbrev pub HasOutcome : List (ValueType T) → List R → Bool × Values R V → Type 0
  HasOutcome ts l (true, typed slots) =
      (us : List T) × Expands ts us × Reads convert us l (flat slots)
  HasOutcome ts l (true, raw _) = ⊥
  HasOutcome ts l (false, v) = v ≡ raw l

  -- When `consume` returns, either it has succeeded, the types of the key stand for a list of
  -- single types, as long as the list of the values, and each new value is what its type makes of
  -- the value in its place; or it has failed, and the values are as they were.
  pub consume-HasOutcome :
      (ts : List (ValueType T)) (l : List R) (r : Bool × Values R V)
      → consume convert wrap ts l ≡ ok r
      → HasOutcome ts l r
  unfolding consume finished flat
  consume-HasOutcome ts l r h = by_result (consume_types convert wrap ts l []) refl h
    where
      by_result :
          (o : Result (Option (List R × List (Slot V))))
          → consume_types convert wrap ts l [] ≡ o
          → (o >>= (λ p. ok (finished convert wrap l p))) ≡ ok r
          → HasOutcome ts l r
      by_result (err x) e g = absurd (cc g)
      by_result (ok none) e g = subst (HasOutcome ts l) (ok_inj g) refl
      by_result (ok (some (_ ∷ _, done))) e g = subst (HasOutcome ts l) (ok_inj g) refl
      by_result (ok (some ([], done))) e g =
          let (us, a, b) = consume_types-Took ts l [] ([], done) e in
          subst (HasOutcome ts l) (ok_inj g) (us, a, all_read us l done b)
