-- ===== src/Keys/Ends.antt =====
-- The second loop of a repeated type with no limit ends, within as many rounds as there are values.
use clu.Prelude.{ℕ, zero, suc, ◌≤◌, ◌≡◌, refl, ap, Option, none, some, [], ◌∷◌, length, arith}
use clu.Keys.{
  Wrapping, Conversion, converts, is_invalid, refuses, Progress, keep, consume_next, consume_up_to,
}
use clu.Keys.Reads.{some_inj}

module _ {T R V : Type 0} (convert : T → R → Conversion V) (wrap : Wrapping T V) where
  -- A round that takes a value leaves one less.
  consume_next-length :
      (t : T) (p q : Progress R V)
      → consume_next convert wrap t p ≡ some q
      → length p.0 ≡ suc (length q.0)
  unfolding consume_next keep
  consume_next-length t ([], cs) q h = absurd (cc h)
  consume_next-length t (x ∷ l, cs) q h = by_value (convert t x) h
    where
      by_value :
          (c : Conversion V) → keep convert wrap c l cs ≡ some q → suc (length l) ≡ suc (length q.0)
      by_value (converts v) g = ap (λ (p : Progress R V). suc (length p.0)) (some_inj g)
      by_value is_invalid g = ap (λ (p : Progress R V). suc (length p.0)) (some_inj g)
      by_value refuses g = absurd (cc g)

  -- After at least as many rounds as there are values, no further round takes one: the loop of the
  -- code, which has no bound on its rounds, has ended there.
  pub consume_up_to-ends :
      (t : T) (n : ℕ) (p : Progress R V)
      → length p.0 ≤ n
      → consume_next convert wrap t (consume_up_to convert wrap t n p) ≡ none
  unfolding consume_up_to
  consume_up_to-ends t zero p h = none_left p h
    where
      none_left : (p : Progress R V) → length p.0 ≤ 0 → consume_next convert wrap t p ≡ none
      none_left ([], cs) g = unfold consume_next in refl
      none_left (x ∷ l, cs) g = absurd (omega arith)
  consume_up_to-ends t (suc n) p h =
      by_next (consume_up_to-ends t n) (consume_next convert wrap t p) refl
    where
      by_next :
          ((q : Progress R V)
            → length q.0 ≤ n
            → consume_next convert wrap t (consume_up_to convert wrap t n q) ≡ none)
          → (o : Option (Progress R V)) → consume_next convert wrap t p ≡ o
          → consume_next convert wrap t
              (elim o [ none ↦ p | some q ↦ consume_up_to convert wrap t n q ])
            ≡ none
      by_next rest none e = e
      by_next rest (some q) e = let a = consume_next-length t p q e in rest q (omega arith)
