-- ===== src/Keys/Readable.antt =====
-- What `TypedValues.consume` cannot fail on: as many values as there are types, each of which the
-- type in its place takes, where no type is repeated.
use clu.Prelude.{
  ◌≡◌, refl, false, Option, none, some, List, [], ◌∷◌, ◌++◌, Result, Error, ok, err, ◌≢◌, ◌⊎◌, inl,
  inr, subst, Option-cases,
}
use clu.Keys.{
  Wrapping, Conversion, converts, is_invalid, refuses, Cell, Slot, ValueType, single, repeated,
  compound, by_name, Values, group, as_slots, keep, consume_next, and_then, consume_parts, slots_of,
  wrapped, consume_type, after_type, consume_types, finished, consume,
}

-- The types of the parts, in order; no type is repeated or waits for its name to be resolved.
abbrev pub AreParts : {T : Type 0} → List (ValueType T) → List T → Type 0
AreParts [] us = us ≡ []
AreParts {T} (single t ∷ ts) us = (vs : List T) × (us ≡ t ∷ vs) × AreParts ts vs
AreParts (repeated t n m ∷ ts) us = ⊥
AreParts {T} (compound t ps ∷ ts) us = (vs : List T) × (us ≡ (t ∷ ps) ++ vs) × AreParts ts vs
AreParts (by_name k ∷ ts) us = ⊥

module _ {T R V : Type 0} (convert : T → R → Conversion V) (wrap : Wrapping T V) where
  -- Each type takes the value in its place.
  abbrev pub Accept : List T → List R → Type 0
  Accept [] [] = Unit
  Accept [] (x ∷ l) = ⊥
  Accept (t ∷ us) [] = ⊥
  Accept (t ∷ us) (x ∷ l) = (convert t x ≢ refuses) × Accept us l

  abbrev pub IsReadable : List (ValueType T) → List R → Type 0
  IsReadable ts l = (us : List T) × AreParts ts us × Accept us l

  keep_accepted :
      (o : Conversion V) (l : List R) (cs : List (Cell V))
      → (o ≢ refuses)
      → (ds : List (Cell V)) × (keep convert wrap o l cs ≡ some (l, ds))
  unfolding keep
  keep_accepted (converts v) l cs h = (_, refl)
  keep_accepted is_invalid l cs h = (_, refl)
  keep_accepted refuses l cs h = absurd (h refl)

  parts_accepted :
      (ts us : List T) (l : List R) (cs : List (Cell V))
      → Accept (ts ++ us) l
      → (m : List R) × (ds : List (Cell V)) × (consume_parts convert wrap ts (l, cs) ≡ some (m, ds))
        × Accept us m
  unfolding consume_parts consume_next and_then
  parts_accepted [] us l cs a = (l, cs, refl, a)
  parts_accepted (t ∷ ts) us [] cs a = absurd a
  parts_accepted (t ∷ ts) us (x ∷ l) cs (h, a) =
      let (ds, e) = keep_accepted (convert t x) l cs h in
      let (m, es, f, b) = parts_accepted ts us l ds a in (m, es, rw (e, f) refl, b)

  -- Everything is read, or an error is raised.
  abbrev Ends : Result (Option (List R × List (Slot V))) → Type 0
  Ends r = ((d : List (Slot V)) × (r ≡ ok (some ([], d)))) ⊎ ((e : Error) × (r ≡ err e))

  by_wrapping :
      (w : Wrapping T V) (ts : List T) (m : List R) (cs : List (Cell V))
      → ((d : List (Slot V)) × (wrapped convert w ts (some (m, cs)) ≡ ok (some (m, d))))
        ⊎ ((e : Error) × (wrapped convert w ts (some (m, cs)) ≡ err e))
  unfolding wrapped
  by_wrapping none ts m cs = inl (as_slots cs, refl)
  by_wrapping (some f) ts m cs = elim (Option-cases (f ts cs)) [
    | inl e ↦ inl (group cs ∷ [], rw e refl)
    | inr (x, e) ↦ inr (x, rw e refl)
  ]

  types_accepted :
      (ts : List (ValueType T)) (us : List T) (l : List R) (done : List (Slot V))
      → AreParts ts us
      → Accept us l
      → Ends (consume_types convert wrap ts l done)
  unfolding consume_types consume_type after_type consume_next slots_of
  types_accepted [] [] [] done p a = inl (done, refl)
  types_accepted [] [] (x ∷ l) done p a = absurd a
  types_accepted [] (u ∷ us) l done p a = absurd (cc p)
  types_accepted (single t ∷ ts) us l done (vs, p, q) a =
      by_values l (λ m b d. types_accepted ts vs m d q b) (subst (λ ws. Accept ws l) p a)
    where
      by_values :
          (l : List R)
          → ((m : List R)
              → Accept vs m
              → (d : List (Slot V)) → Ends (consume_types convert wrap ts m d))
          → Accept (t ∷ vs) l
          → Ends (consume_types convert wrap (single t ∷ ts) l done)
      by_values [] f b = absurd b
      by_values (x ∷ l) f (h, b) =
          let (ds, e) = keep_accepted (convert t x) l [] h in rw e (f l b (done ++ as_slots ds))
  types_accepted (compound t ps ∷ ts) us l done (vs, p, q) a =
      let (m, cs, e, b) = parts_accepted (t ∷ ps) vs l [] (subst (λ ws. Accept ws l) p a) in
      elim (by_wrapping wrap (t ∷ ps) m cs) [
        | inl (d, f) ↦ rw (e, f) (types_accepted ts vs m (done ++ d) q b)
        | inr (x, f) ↦ inr (x, rw (e, f) refl)
      ]
  types_accepted (repeated t n m ∷ ts) us l done p a = absurd p
  types_accepted (by_name k ∷ ts) us l done p a = absurd p

  -- `consume` does not return False for values that can be read.
  pub consume_readable :
      (ts : List (ValueType T)) (l : List R) (v : Values R V)
      → consume convert wrap ts l ≡ ok (false, v)
      → IsReadable ts l
      → ⊥
  unfolding consume finished
  consume_readable ts l v e (us, p, a) = elim (types_accepted ts us l [] p a) [
    | inl (d, f) ↦ absurd (cc (e, f))
    | inr (x, f) ↦ absurd (cc (e, f))
  ]
