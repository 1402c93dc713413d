-- ===== src/Keys/Consumed.antt =====
-- The loops of `TypedValues.consume` over the values of one type.
use clu.Prelude.{
  ℕ, zero, suc, ◌+◌, ◌≤◌, ◌≡◌, refl, ap, subst, ◌∙◌, true, Option, none, some, List, [], ◌∷◌, ◌++◌,
  arith,
}
use clu.Keys.{
  Wrapping, Conversion, converts, is_invalid, refuses, Cell, value, invalid_value, Progress, keep,
  consume_next, and_then, consume_times, consume_up_to, room, consume_repeated, consume_parts,
}
use clu.Keys.Reads.{replicate, is_within, Took, Took-none, Took-append, some_inj}

module _ {T R V : Type 0} (convert : T → R → Conversion V) (wrap : Wrapping T V) where
  keep-Took :
      (t : T) (x : R) (l : List R) (cs : List (Cell V)) (o : Conversion V) (q : Progress R V)
      → convert t x ≡ o
      → keep convert wrap o l cs ≡ some q
      → Took convert (t ∷ []) (x ∷ l, cs) q
  unfolding keep
  keep-Took t x l cs (converts v) q e h =
      subst (Took convert (t ∷ []) (x ∷ l, cs)) (some_inj h) (record {
        taken = x ∷ [];
        new = value v ∷ [];
        left = refl;
        kept = refl;
        reads = (rw e refl, tt);
      })
  keep-Took t x l cs is_invalid q e h =
      subst (Took convert (t ∷ []) (x ∷ l, cs)) (some_inj h) (record {
        taken = x ∷ [];
        new = invalid_value ∷ [];
        left = refl;
        kept = refl;
        reads = (rw e refl, tt);
      })
  keep-Took t x l cs refuses q e h = absurd (cc h)

  pub consume_next-Took :
      (t : T) (p q : Progress R V)
      → consume_next convert wrap t p ≡ some q
      → Took convert (t ∷ []) p q
  unfolding consume_next
  consume_next-Took t ([], cs) q h = absurd (cc h)
  consume_next-Took t (x ∷ l, cs) q h = keep-Took t x l cs (convert t x) q refl h

  pub and_then-some :
      (o : Option (Progress R V)) (f : Progress R V → Option (Progress R V)) (q : Progress R V)
      → and_then convert wrap o f ≡ some q
      → (p : Progress R V) × (o ≡ some p) × (f p ≡ some q)
  unfolding and_then
  and_then-some none f q h = absurd (cc h)
  and_then-some (some p) f q h = (p, refl, h)

  consume_times-Took :
      (t : T) (n : ℕ) (p q : Progress R V)
      → consume_times convert wrap t n p ≡ some q
      → Took convert (replicate n t) p q
  unfolding consume_times
  consume_times-Took t zero p q h = subst (Took convert [] p) (some_inj h) (Took-none convert p)
  consume_times-Took t (suc n) p q h =
      let (r, a, b) =
        and_then-some (consume_next convert wrap t p) (consume_times convert wrap t n) q h in
      Took-append convert (t ∷ []) (replicate n t) p r q (consume_next-Took t p r a)
        (consume_times-Took t n r q b)

  consume_up_to-Took :
      (t : T) (n : ℕ) (p : Progress R V)
      → (k : ℕ) × (k ≤ n) × Took convert (replicate k t) p (consume_up_to convert wrap t n p)
  unfolding consume_up_to
  consume_up_to-Took t zero p = (0, omega arith, Took-none convert p)
  consume_up_to-Took t (suc n) p =
      by_next (consume_up_to-Took t n) (consume_next convert wrap t p) refl
    where
      more :
          (q r : Progress R V)
          → Took convert (t ∷ []) p q
          → (k : ℕ) × (k ≤ n) × Took convert (replicate k t) q r
          → (k : ℕ) × (k ≤ suc n) × Took convert (replicate k t) p r
      more q r a (k, b, c) =
          (suc k, omega arith, Took-append convert (t ∷ []) (replicate k t) p q r a c)

      by_next :
          ((q : Progress R V)
            → (k : ℕ) × (k ≤ n) × Took convert (replicate k t) q (consume_up_to convert wrap t n q))
          → (o : Option (Progress R V)) → consume_next convert wrap t p ≡ o
          → (k : ℕ) × (k ≤ suc n)
            × Took convert
                (replicate k t)
                p
                (elim o [ none ↦ p | some q ↦ consume_up_to convert wrap t n q ])
      by_next rest none e = (0, omega arith, Took-none convert p)
      by_next rest (some q) e =
          more q (consume_up_to convert wrap t n q) (consume_next-Took t p q e) (rest q)

  replicate-append : (n k : ℕ) (t : T) → replicate n t ++ replicate k t ≡ replicate (n + k) t
  replicate-append zero k t = let e : k ≡ 0 + k = omega arith in ap (λ m. replicate m t) e
  replicate-append (suc n) k t =
      let e : suc (n + k) ≡ suc n + k = omega arith in
      ap (◌∷◌ t) (replicate-append n k t) ∙ ap (λ m. replicate m t) e

  within_room :
      (n k : ℕ) (m : Option ℕ) (p : Progress R V)
      → k ≤ room convert wrap n m p
      → is_within (n + k) n m ≡ true
  unfolding room
  within_room n k none p h = refl
  within_room n k (some m) p h = ground arith

  pub consume_repeated-Took :
      (t : T) (n : ℕ) (m : Option ℕ) (p q : Progress R V)
      → consume_repeated convert wrap t n m p ≡ some q
      → (k : ℕ) × (n ≤ k) × (is_within k n m ≡ true) × Took convert (replicate k t) p q
  unfolding consume_repeated
  consume_repeated-Took t n m p q h =
      let (r, a, b) =
        and_then-some (consume_times convert wrap t n p)
          (λ q. some (consume_up_to convert wrap t (room convert wrap n m q) q)) q h in
      let (k, c, d) = consume_up_to-Took t (room convert wrap n m r) r in
      (
        n + k,
        omega arith,
        within_room n k m r c,
        subst (Took convert (replicate (n + k) t) p) (some_inj b) (
            subst
              (λ (ts : List T).
                Took convert ts p (consume_up_to convert wrap t (room convert wrap n m r) r))
              (replicate-append n k t)
              (Took-append convert (replicate n t) (replicate k t) p r _
                (consume_times-Took t n p r a) d)),
      )

  pub consume_parts-Took :
      (ts : List T) (p q : Progress R V)
      → consume_parts convert wrap ts p ≡ some q
      → Took convert ts p q
  unfolding consume_parts
  consume_parts-Took [] p q h = subst (Took convert [] p) (some_inj h) (Took-none convert p)
  consume_parts-Took (t ∷ ts) p q h =
      let (r, a, b) =
        and_then-some (consume_next convert wrap t p) (consume_parts convert wrap ts) q h in
      Took-append convert (t ∷ []) ts p r q (consume_next-Took t p r a)
        (consume_parts-Took ts r q b)
