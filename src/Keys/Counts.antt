-- ===== src/Keys/Counts.antt =====
-- How the counts that `TypedValues.__init__` computes bound the values that `consume` accepts.
use clu.Prelude.{
  ℕ, zero, suc, ◌+◌, ◌≤◌, ◌≡◌, refl, ap, subst, Bool, true, false, Option, none, some, List, [],
  ◌∷◌, ◌++◌, length, length-append, arith, ok, err, keys_error, ◌>>=◌, not, ◌&&◌, if◌then◌else◌,
}
use clu.Keys.{
  Wrapping, Conversion, Cell, ValueType, single, repeated, compound, by_name, Range, init,
  count_types, count_type, is_last, same_limit, add_limit, raised, add_exactly, Values, raw, typed,
  consume,
}
use clu.Keys.Reads.{replicate, is_within, Expands, flat, Reads, ok_inj, bind_ok}
use clu.Keys.Outcome.{consume-HasOutcome}

abbrev pub IsOrdered : ℕ → Option ℕ → Type 0
IsOrdered n none = Unit
IsOrdered n (some m) = n ≤ m

-- The limits of each repeated type are in order.
abbrev pub AreOrdered : {T : Type 0} → List (ValueType T) → Type 0
AreOrdered [] = Unit
AreOrdered (repeated t n m ∷ ts) = IsOrdered n m × AreOrdered ts
AreOrdered (single t ∷ ts) = AreOrdered ts
AreOrdered (compound t ps ∷ ts) = AreOrdered ts
AreOrdered (by_name k ∷ ts) = AreOrdered ts

abbrev pub IsAtMost : ℕ → Option ℕ → Type 0
IsAtMost k none = Unit
IsAtMost k (some m) = k ≤ m

abbrev pub IsIn : Range → ℕ → Type 0
IsIn r k = (r.min_vals ≤ k) × IsAtMost k r.max_vals

length-replicate : {A : Type 0} (n : ℕ) (x : A) → length (replicate n x) ≡ n
length-replicate zero x = refl
length-replicate (suc n) x = ap suc (length-replicate n x)

Reads-length :
    {T R V : Type 0} (convert : T → R → Conversion V) (us : List T) (l : List R)
    (cs : List (Cell V))
    → Reads convert us l cs
    → length us ≡ length l
Reads-length convert [] [] [] h = refl
Reads-length convert [] [] (_ ∷ _) h = absurd h
Reads-length convert [] (_ ∷ _) cs h = absurd h
Reads-length convert (_ ∷ _) [] cs h = absurd h
Reads-length convert (_ ∷ _) (_ ∷ _) [] h = absurd h
Reads-length convert (t ∷ us) (x ∷ l) (c ∷ cs) h = ap suc (Reads-length convert us l cs h.1)

add_exactly-IsIn :
    (n : ℕ) (r s : Range) (k : ℕ) → add_exactly n r ≡ ok s → IsIn r k → IsIn s (k + n)
unfolding add_exactly raised
add_exactly-IsIn n r s k h i = by_limit r.max_vals refl i.1 h
  where
    by_limit :
        (o : Option ℕ)
        → r.max_vals ≡ o
        → IsAtMost k o
        → (raised o n >>= (λ m. ok (record { min_vals = r.min_vals + n; max_vals = m }))) ≡ ok s
        → IsIn s (k + n)
    by_limit none e j g = absurd (cc g)
    by_limit (some m) e j g =
        let a = i.0 in subst (λ (r : Range). IsIn r (k + n)) (ok_inj g) (omega arith, omega arith)

-- The limits on more values, when the limits of the repeated type are in order.
add_limit-IsAtMost :
    (n : ℕ) (o m : Option ℕ) (j k : ℕ)
    → IsOrdered n m
    → is_within k n m ≡ true
    → IsAtMost j o
    → IsAtMost (j + k) (add_limit o m)
unfolding add_limit
add_limit-IsAtMost n none m j k o w i = tt
add_limit-IsAtMost n (some b) none j k o w i = tt
add_limit-IsAtMost n (some b) (some m) j k o w i = ground arith

repeated_result :
    (b : Bool) (x : Range) (s : Range) → (if b then err keys_error else ok x) ≡ ok s → x ≡ s
repeated_result true x s h = absurd (cc h)
repeated_result false x s h = ok_inj h

more_values :
    {T : Type 0} (s : Range) (k n : ℕ) (l vs : List T)
    → length l ≡ n
    → IsIn s (k + n + length vs)
    → IsIn s (k + length (l ++ vs))
more_values s k n l vs e i =
    let a = length-append l vs in
    let b : k + n + length vs ≡ k + length (l ++ vs) = omega arith in subst (IsIn s) b i

-- The values that a list of types stands for, added to those that are counted.
count_types-IsIn :
    {T : Type 0} (same : ValueType T → ValueType T → Bool) (ts : List (ValueType T)) (us : List T)
    (r s : Range) (k : ℕ)
    → AreOrdered ts
    → Expands ts us
    → count_types same ts r ≡ ok s
    → IsIn r k
    → IsIn s (k + length us)
unfolding count_types count_type
count_types-IsIn same [] us r s k o e h i =
    let a : k ≡ k + length us = rw e (omega arith) in
    subst (λ (r : Range). IsIn r (k + length us)) (ok_inj h) (subst (IsIn r) a i)
count_types-IsIn same (single t ∷ ts) us r s k o (vs, e, f) h i =
    let (q, a, b) = bind_ok (add_exactly 1 r) (count_types same ts) s h in
    let c = count_types-IsIn same ts vs q s (k + 1) o f b (add_exactly-IsIn 1 r q k a i) in
    rw e (more_values s k 1 (t ∷ []) vs refl c)
count_types-IsIn same (compound t ps ∷ ts) us r s k o (vs, e, f) h i =
    let (q, a, b) = bind_ok (add_exactly (suc (length ps)) r) (count_types same ts) s h in
    let c =
      count_types-IsIn same ts vs q s (k + suc (length ps)) o f b
        (add_exactly-IsIn (suc (length ps)) r q k a i) in
    rw e (more_values s k (suc (length ps)) (t ∷ ps) vs refl c)
count_types-IsIn same (repeated t n m ∷ ts) us r s k o (j, vs, e, a, b, f) h i =
    let (q, c, d) =
      bind_ok (count_type (repeated t n m) (is_last same (repeated t n m) ts) r)
        (count_types same ts) s h in
    let g = count_types-IsIn same ts vs q s (k + j) o.1 f d (
      subst (λ (r : Range). IsIn r (k + j))
        (repeated_result (not (same_limit n m) && not (is_last same (repeated t n m) ts)) _ q c)
        (let x = i.0 in omega arith, add_limit-IsAtMost n r.max_vals m k j o.0 b i.1)) in
    rw e (more_values s k j (replicate j t) vs (length-replicate j t) g)
count_types-IsIn same (by_name x ∷ ts) us r s k o e h i = absurd e

-- A key whose repeated types have their limits in order: when its types are counted, and `consume`
-- succeeds, the number of the values is between the two counts.
pub consume-init :
    {T R V : Type 0} (convert : T → R → Conversion V) (wrap : Wrapping T V)
    (same : ValueType T → ValueType T → Bool) (ts : List (ValueType T)) (s : Range) (l : List R)
    (v : Values R V)
    → AreOrdered ts
    → init same ts ≡ ok s
    → consume convert wrap ts l ≡ ok (true, v)
    → IsIn s (length l)
unfolding init
consume-init convert wrap same ts s l (raw x) o h e =
    absurd (consume-HasOutcome convert wrap ts l (true, raw x) e)
consume-init convert wrap same ts s l (typed x) o h e =
    let (us, a, b) = consume-HasOutcome convert wrap ts l (true, typed x) e in
    let c = count_types-IsIn same ts us _ s 0 o a h (omega arith, omega arith) in
    let d = Reads-length convert us l (flat x) b in
    let f : 0 + length us ≡ length l = omega arith in subst (IsIn s) f c
