-- ===== src/Keys/Reads.antt =====
-- The single types that the types of a key of python/clu/legacy/types/keys.py stand for, and the
-- values that they make of the values of a keyword.
use Prim.Native.Nat.{max}
use clu.Prelude.{
  ℕ, zero, suc, ◌≤◌, ◌≡◌, refl, ap, sym, ◌∙◌, Bool, true, Option, none, some, List, [], ◌∷◌, ◌++◌,
  leb, append_assoc, append-nil, Result, ok, err, ◌>>=◌,
}
use clu.Keys.{
  Conversion, converts, is_invalid, refuses, Cell, value, invalid_value, Slot, cell, group,
  ValueType, single, repeated, compound, by_name, Progress, as_slots,
}

abbrev pub replicate {ℓ} : {A : Type ℓ} → ℕ → A → List A
replicate zero x = []
replicate (suc n) x = x ∷ replicate n x

-- At most m values, or the n that are needed at least.
abbrev pub is_within : ℕ → ℕ → Option ℕ → Bool
is_within k n none = true
is_within k n (some m) = leb k (max m n)

-- The single types that a list of types stands for.
abbrev pub Expands : {T : Type 0} → List (ValueType T) → List T → Type 0
Expands [] us = us ≡ []
Expands {T} (single t ∷ ts) us = (vs : List T) × (us ≡ t ∷ vs) × Expands ts vs
Expands {T} (repeated t n m ∷ ts) us =
    (k : ℕ) × (vs : List T) × (us ≡ replicate k t ++ vs)
    × (n ≤ k)
    × (is_within k n m ≡ true)
    × Expands ts vs
Expands {T} (compound t ps ∷ ts) us = (vs : List T) × (us ≡ t ∷ (ps ++ vs)) × Expands ts vs
Expands (by_name k ∷ ts) us = ⊥

-- The values of a list of slots, in order.
unfoldable pub flat : {V : Type 0} → List (Slot V) → List (Cell V)
flat [] = []
flat (cell c ∷ l) = c ∷ flat l
flat (group cs ∷ l) = cs ++ flat l

pub flat-append : {V : Type 0} (l m : List (Slot V)) → flat (l ++ m) ≡ flat l ++ flat m
unfolding flat
flat-append [] m = refl
flat-append (cell c ∷ l) m = ap (◌∷◌ c) (flat-append l m)
flat-append (group cs ∷ l) m = rw (flat-append l m, append_assoc)

pub flat-as_slots : {V : Type 0} (cs : List (Cell V)) → flat (as_slots cs) ≡ cs
unfolding flat as_slots
flat-as_slots [] = refl
flat-as_slots (c ∷ cs) = ap (◌∷◌ c) (flat-as_slots cs)

module _ {T R V : Type 0} (convert : T → R → Conversion V) where
  abbrev pub Converts : Conversion V → Cell V → Type 0
  Converts (converts v) c = c ≡ value v
  Converts is_invalid c = c ≡ invalid_value
  Converts refuses c = ⊥

  -- Each cell is what the type of its place makes of the value of its place.
  abbrev pub Reads : List T → List R → List (Cell V) → Type 0
  Reads [] [] [] = Unit
  Reads (t ∷ ts) (x ∷ xs) (c ∷ cs) = Converts (convert t x) c × Reads ts xs cs
  Reads [] (_ ∷ _) cs = ⊥
  Reads [] [] (_ ∷ _) = ⊥
  Reads (_ ∷ _) [] cs = ⊥
  Reads (_ ∷ _) (_ ∷ _) [] = ⊥

  pub Reads-append :
      (ts us : List T) (xs ys : List R) (cs ds : List (Cell V))
      → Reads ts xs cs
      → Reads us ys ds
      → Reads (ts ++ us) (xs ++ ys) (cs ++ ds)
  Reads-append [] us [] ys [] ds h k = k
  Reads-append [] us (_ ∷ _) ys cs ds h k = absurd h
  Reads-append [] us [] ys (_ ∷ _) ds h k = absurd h
  Reads-append (_ ∷ _) us [] ys cs ds h k = absurd h
  Reads-append (_ ∷ _) us (_ ∷ _) ys [] ds h k = absurd h
  Reads-append (t ∷ ts) us (x ∷ xs) ys (c ∷ cs) ds h k = (h.0, Reads-append ts us xs ys cs ds h.1 k)

  -- What has been consumed between two states, by these types.
  pub record Took (ts : List T) (p q : Progress R V) : Type 0 where
    pub taken : List R
    pub new : List (Cell V)
    pub left : p.0 ≡ taken ++ q.0
    pub kept : q.1 ≡ p.1 ++ new
    pub reads : Reads ts taken new

  pub Took-none : (p : Progress R V) → Took [] p p
  Took-none p = record {
    taken = [];
    new = [];
    left = refl;
    kept = sym (append-nil p.1);
    reads = tt;
  }

  pub Took-append :
      (ts us : List T) (p q r : Progress R V) → Took ts p q → Took us q r → Took (ts ++ us) p r
  Took-append ts us p q r a b = record {
    taken = a.taken ++ b.taken;
    new = a.new ++ b.new;
    left = a.left ∙ ap (◌++◌ a.taken) b.left ∙ sym (append_assoc a.taken b.taken r.0);
    kept = b.kept ∙ ap (λ (l : List (Cell V)). l ++ b.new) a.kept ∙ append_assoc p.1 a.new b.new;
    reads = Reads-append ts us a.taken b.taken a.new b.new a.reads b.reads;
  }

pub ok_inj : {A : Type 0} {a b : A} → ok a ≡ ok b → a ≡ b
ok_inj h = cc h

pub some_inj : {A : Type 0} {a b : A} → some a ≡ some b → a ≡ b
some_inj h = cc h

pub bind_ok :
    {A B : Type 0} (r : Result A) (f : A → Result B) (y : B)
    → (r >>= f) ≡ ok y
    → (x : A) × (r ≡ ok x) × (f x ≡ ok y)
bind_ok (err e) f y h = absurd (cc h)
bind_ok (ok x) f y h = (x, refl, h)
