-- ===== src/Types/Bits/Disjoint.antt =====
-- The fields of a layout lie side by side.
use clu.Prelude.{
  ℕ, ◌+◌, ◌≤◌, ◌≡◌, refl, sym, ◌∙◌, true, false, Option, none, some, List, [], ◌∷◌, ◌++◌, Text,
  text, text_eq, text_eq_iff, Result, ok, err, subst, arith, ltb, ◌⊎◌, inl, inr, Bool-cases, ◌>>=◌,
}
use clu.Prelude.Dict.{lookup, insert, lookup-insert}
use clu.Types.Shifts.{mask_of}
use clu.Keys.Reads.{some_inj, ok_inj}
use clu.Types.Bits.{
  Layout, empty, parse_field, widen, named_field, add_parsed, add_field, add_fields, init,
}

-- An offset and a mask that stand for bits below a limit.
pub record IsField (limit : ℕ) (f : ℕ × ℕ) : Type 0 where
  pub size : ℕ
  pub is_mask : f.1 ≡ mask_of size
  pub below : f.0 + size ≤ limit

-- Two fields with no bit in common, below a limit.
pub record AreApart (limit : ℕ) (f g : ℕ × ℕ) : Type 0 where
  pub first : IsField limit f
  pub second : IsField limit g
  pub apart : (f.0 + first.size ≤ g.0) ⊎ (g.0 + second.size ≤ f.0)

-- Each name stands for bits of the layout, no two names share a bit, and the layout has 32 bits at
-- most.
pub record IsLaid (t : Layout) : Type 0 where
  pub fits : t.width ≤ 32
  pub field : (x : Text) (f : ℕ × ℕ) → lookup x t.bit_fields ≡ some f → IsField t.width f
  pub apart :
      (x y : Text) (f g : ℕ × ℕ)
      → text_eq x y ≡ false
      → lookup x t.bit_fields ≡ some f
      → lookup y t.bit_fields ≡ some g
      → AreApart t.width f g

wider : {a b : ℕ} {f : ℕ × ℕ} → a ≤ b → IsField a f → IsField b f
wider p i = record { size = i.size; is_mask = i.is_mask; below = omega (arith, i.below, p) }

wider_apart : {a b : ℕ} {f g : ℕ × ℕ} → a ≤ b → AreApart a f g → AreApart b f g
unfolding wider
wider_apart p r = record { first = wider p r.first; second = wider p r.second; apart = r.apart }

flip : {a : ℕ} {f g : ℕ × ℕ} → AreApart a f g → AreApart a g f
flip r = record {
  first = r.second;
  second = r.first;
  apart = elim r.apart [ inl p ↦ inr p | inr p ↦ inl p ];
}

empty-IsLaid : IsLaid empty
unfolding lookup
empty-IsLaid = record { fits = omega arith; field = λ x f h. cc; apart = λ x y f g n h k. cc }

-- The layout with one more field at its end.
abbrev extended : Text → ℕ → Layout → Layout
extended n w t = record t {
  width = t.width + w;
  field_specs = t.field_specs ++ (n, w) ∷ [];
  bit_fields = insert n (t.width, mask_of w) t.bit_fields;
}

new_field : (w : ℕ) (t : Layout) → IsField (t.width + w) (t.width, mask_of w)
new_field w t = record { size = w; is_mask = refl; below = omega arith }

new_apart :
    (w : ℕ) (t : Layout) (g : ℕ × ℕ)
    → IsField t.width g
    → AreApart (t.width + w) (t.width, mask_of w) g
unfolding wider new_field
new_apart w t g i = record {
  first = new_field w t;
  second = wider (omega arith) i;
  apart = inr i.below;
}

module _ (n : Text) (w : ℕ) (t : Layout) where
  -- A field of the extended layout is the new one or an old one.
  field_cases :
      (x : Text) (f : ℕ × ℕ)
      → lookup x (extended n w t).bit_fields ≡ some f
      → ((text_eq n x ≡ true) × (f ≡ (t.width, mask_of w))) ⊎ (lookup x t.bit_fields ≡ some f)
  field_cases x f h =
      let e = sym (lookup-insert n x (t.width, mask_of w) t.bit_fields) ∙ h in
      elim (Bool-cases (text_eq n x)) [
        | inl q ↦ inl (q, sym (some_inj (rw q at e)))
        | inr q ↦ inr (rw q at e)
      ]

  extended-IsLaid : t.width + w ≤ 32 → IsLaid t → IsLaid (extended n w t)
  extended-IsLaid p i = record {
    fits = p;
    field = λ x f h. elim (field_cases x f h) [
      | inl q ↦ subst (IsField (t.width + w)) (sym q.1) (new_field w t)
      | inr q ↦ wider (omega arith) (i.field x f q)
    ];
    apart = λ x y f g d h k. by_cases x y f g d (field_cases x f h) (field_cases y g k);
  }
    where
      by_cases :
          (x y : Text) (f g : ℕ × ℕ)
          → text_eq x y ≡ false
          → ((text_eq n x ≡ true) × (f ≡ (t.width, mask_of w))) ⊎ (lookup x t.bit_fields ≡ some f)
          → ((text_eq n y ≡ true) × (g ≡ (t.width, mask_of w))) ⊎ (lookup y t.bit_fields ≡ some g)
          → AreApart (t.width + w) f g
      by_cases x y f g d (inl (a, _)) (inl (b, _)) =
          absurd (cc (d, (text_eq_iff x y).1 (sym ((text_eq_iff n x).0 a) ∙ (text_eq_iff n y).0 b)))
      by_cases x y f g d (inl (_, e)) (inr k) =
          subst (λ q. AreApart (t.width + w) q g) (sym e) (new_apart w t g (i.field y g k))
      by_cases x y f g d (inr h) (inl (_, e)) =
          subst (AreApart (t.width + w) f) (sym e) (flip (new_apart w t f (i.field x f h)))
      by_cases x y f g d (inr h) (inr k) = wider_apart (omega arith) (i.apart x y f g d h k)

widen-IsLaid : (w : ℕ) (t u : Layout) → IsLaid t → widen w t ≡ ok u → IsLaid u
unfolding widen
widen-IsLaid w t u i h = elim (Bool-cases (ltb 32 (t.width + w))) [
  | inl e ↦ absurd (cc (rw e at h))
  | inr e ↦ subst IsLaid (ok_inj (rw e at h)) (record {
    fits = ground arith;
    field = λ x f k. wider (omega arith) (i.field x f k);
    apart = λ x y f g d a b. wider_apart (omega arith) (i.apart x y f g d a b);
  })
]

named_field-IsLaid :
    (n : Text) (w : ℕ) (t u : Layout) → IsLaid t → named_field n w t ≡ ok u → IsLaid u
unfolding named_field widen
named_field-IsLaid [] w t u i h = widen-IsLaid w t u i h
named_field-IsLaid (c ∷ s) w t u i h = elim (Bool-cases (text_eq (c ∷ s) (text "native"))) [
  | inl e ↦ absurd (cc (rw e at h))
  | inr e ↦ elim (Bool-cases (ltb 32 (t.width + w))) [
    | inl b ↦ absurd (cc (rw (e, b) at h))
    | inr b ↦ subst IsLaid (ok_inj (rw (e, b) at h)) (extended-IsLaid (c ∷ s) w t (ground arith) i)
  ]
]

add_parsed-IsLaid :
    (o : Option (Text × ℕ)) (t u : Layout) → IsLaid t → add_parsed o t ≡ ok u → IsLaid u
unfolding add_parsed
add_parsed-IsLaid none t u i h = cc
add_parsed-IsLaid (some (n, w)) t u i h = named_field-IsLaid n w t u i h

add_field-IsLaid : (s : Text) (t u : Layout) → IsLaid t → add_field s t ≡ ok u → IsLaid u
unfolding add_field
add_field-IsLaid s t u i h = add_parsed-IsLaid (parse_field s) t u i h

add_fields-IsLaid : (ss : List Text) (t u : Layout) → IsLaid t → add_fields ss t ≡ ok u → IsLaid u
unfolding add_fields
add_fields-IsLaid [] t u i h = subst IsLaid (ok_inj h) i
add_fields-IsLaid (s ∷ ss) t u i h =
    go (add_field s t) (λ v p. add_fields-IsLaid ss v u (add_field-IsLaid s t v i p)) h
  where
    go :
        (r : Result Layout)
        → ((v : Layout) → r ≡ ok v → add_fields ss v ≡ ok u → IsLaid u)
        → (r >>= add_fields ss) ≡ ok u
        → IsLaid u
    go (ok v) f e = f v refl e
    go (err x) f e = cc

-- The layout that a specification gives: 32 bits at most, each name stands for bits of it, and no
-- two different names share a bit.
pub init-IsLaid : (ss : List Text) (t : Layout) → init ss ≡ ok t → IsLaid t
unfolding init
init-IsLaid [] t h = cc
init-IsLaid (s ∷ ss) t h = add_fields-IsLaid (s ∷ ss) empty t empty-IsLaid h
