-- ===== src/Types/Bits/Fields.antt =====
-- Reading the fields of a number after one of them is set.
use clu.Prelude.{
  ℕ, zero, suc, ◌+◌, ◌-◌, ◌*◌, ◌/◌, ◌%◌, ◌≤◌, ◌<◌, ◌≡◌, refl, sym, ap, ◌∙◌, subst, Bool, false,
  Option, none, some, List, Text, text_eq, ok, arith, ltb, inl, inr, bit_and, bit_or,
}
use clu.Prelude.Dict.{lookup}
use clu.Types.{ℤ, pos, Given, int_given, new_uint, validated_integer, validate, integer_of, in_uint}
use clu.Types.Shifts.{
  shift_left, shift_right, read_bits, write_bits, read_bits-bit_and, write_bits-bit_or,
  bit_and-mask,
}
use clu.Types.Bits.{Layout, init, get_attr, set_attr, read_field, replaced_field, write_field}
use clu.Types.Bits.Disjoint.{IsField, AreApart, IsLaid, init-IsLaid}

-- What is written is read back.
read_bits-write_bits : (o w n v : ℕ) → read_bits o w (write_bits o w n v) ≡ read_bits 0 w v
unfolding read_bits write_bits
read_bits-write_bits zero zero n v = refl
read_bits-write_bits zero (suc w) n v =
    let m = write_bits 0 w (n / 2) (v / 2) in
    let e : (m * 2 + v % 2) / 2 ≡ m = omega arith in
    omega (arith, ap (read_bits 0 w) e, read_bits-write_bits zero w (n / 2) (v / 2))
read_bits-write_bits (suc o) w n v =
    let m = write_bits o w (n / 2) v in
    let e : (m * 2 + n % 2) / 2 ≡ m = omega arith in
    ap (read_bits o w) e ∙ read_bits-write_bits o w (n / 2) v

-- Bits above those that are written, and bits below them, are as they were.
read_bits_above :
    (o w p x n v : ℕ) → o + w ≤ p → read_bits p x (write_bits o w n v) ≡ read_bits p x n
unfolding read_bits write_bits
read_bits_above zero zero p x n v h = refl
read_bits_above zero (suc w) zero x n v h = absurd (omega (arith, h))
read_bits_above zero (suc w) (suc p) x n v h =
    let m = write_bits 0 w (n / 2) (v / 2) in
    let e : (m * 2 + v % 2) / 2 ≡ m = omega arith in
    ap (read_bits p x) e ∙ read_bits_above zero w p x (n / 2) (v / 2) (omega (arith, h))
read_bits_above (suc o) w zero x n v h = absurd (omega (arith, h))
read_bits_above (suc o) w (suc p) x n v h =
    let m = write_bits o w (n / 2) v in
    let e : (m * 2 + n % 2) / 2 ≡ m = omega arith in
    ap (read_bits p x) e ∙ read_bits_above o w p x (n / 2) v (omega (arith, h))

read_bits_below :
    (o w p x n v : ℕ) → p + x ≤ o → read_bits p x (write_bits o w n v) ≡ read_bits p x n
unfolding read_bits write_bits
read_bits_below o w zero zero n v h = refl
read_bits_below zero w zero (suc x) n v h = absurd (omega (arith, h))
read_bits_below zero w (suc p) x n v h = absurd (omega (arith, h))
read_bits_below (suc o) w zero (suc x) n v h =
    let m = write_bits o w (n / 2) v in
    let e : (m * 2 + n % 2) / 2 ≡ m = omega arith in
    omega (arith, ap (read_bits 0 x) e, read_bits_below o w zero x (n / 2) v (omega (arith, h)))
read_bits_below (suc o) w (suc p) x n v h =
    let m = write_bits o w (n / 2) v in
    let e : (m * 2 + n % 2) / 2 ≡ m = omega arith in
    ap (read_bits p x) e ∙ read_bits_below o w p x (n / 2) v (omega (arith, h))

-- A number with bits written below k bits has k bits still.
write_bits-lt :
    (o w k n v : ℕ) → o + w ≤ k → n < shift_left 1 k → write_bits o w n v < shift_left 1 k
unfolding write_bits shift_left
write_bits-lt zero zero k n v h b = b
write_bits-lt zero (suc w) zero n v h b = absurd (omega (arith, h))
write_bits-lt zero (suc w) (suc k) n v h b =
    omega (arith, write_bits-lt zero w k (n / 2) (v / 2) (omega (arith, h)) (omega (arith, b)))
write_bits-lt (suc o) w zero n v h b = absurd (omega (arith, h))
write_bits-lt (suc o) w (suc k) n v h b =
    omega (arith, write_bits-lt o w k (n / 2) v (omega (arith, h)) (omega (arith, b)))

word_size : shift_left 1 32 ≡ 4294967296
unfolding shift_left
word_size = refl

-- What a field of a number reads, and what becomes of the number when it is set.
module _ (f : ℕ × ℕ) (limit : ℕ) (i : IsField limit f) where
  read_field-read_bits : (n : ℕ) → read_field (some f) n ≡ ok (read_bits f.0 i.size n)
  unfolding read_field
  read_field-read_bits n =
      ap (λ k. ok (bit_and (shift_right n f.0) k)) i.is_mask
      ∙ ap ok (read_bits-bit_and f.0 i.size n)

  replaced_field-write_bits : (n v : ℕ) → replaced_field f n v ≡ write_bits f.0 i.size n v
  unfolding replaced_field
  replaced_field-write_bits n v =
      ap (λ k. bit_or (n - bit_and n (shift_left k f.0)) (shift_left (bit_and v k) f.0)) i.is_mask
      ∙ write_bits-bit_or f.0 i.size n v

  replaced_field-lt : (n v : ℕ) → limit ≤ 32 → n < 4294967296 → replaced_field f n v < 4294967296
  replaced_field-lt n v l b = rw (replaced_field-write_bits n v) (
      subst (λ q. write_bits f.0 i.size n v < q) word_size
        (write_bits-lt f.0 i.size 32 n v (omega (arith, i.below, l))
          (subst (λ q. n < q) (sym word_size) b)))

  read_field-replaced_field :
      (n v : ℕ) → read_field (some f) (replaced_field f n v) ≡ ok (bit_and v f.1)
  read_field-replaced_field n v =
      read_field-read_bits (replaced_field f n v)
      ∙ ap (λ k. ok (read_bits f.0 i.size k)) (replaced_field-write_bits n v)
      ∙ ap ok (
          read_bits-write_bits f.0 i.size n v
          ∙ sym (bit_and-mask i.size v)
          ∙ ap (bit_and v) (sym i.is_mask))

other_field :
    (f g : ℕ × ℕ) (limit n v : ℕ)
    → AreApart limit f g
    → read_field (some g) (replaced_field f n v) ≡ read_field (some g) n
other_field f g limit n v r =
    read_field-read_bits g limit r.second (replaced_field f n v)
    ∙ ap ok (
        ap (read_bits g.0 r.second.size) (replaced_field-write_bits f limit r.first n v)
        ∙ elim r.apart [
          | inl p ↦ read_bits_above f.0 r.first.size g.0 r.second.size n v p
          | inr p ↦ read_bits_below f.0 r.first.size g.0 r.second.size n v p
        ])
    ∙ sym (read_field-read_bits g limit r.second n)

module _ (literal : Text → Option ℤ) (is_invalid : Given → Bool) where
  new_uint-pos :
      (m : ℕ)
      → is_invalid (int_given (pos m)) ≡ false
      → m < 4294967296
      → new_uint literal is_invalid (int_given (pos m)) ≡ ok m
  unfolding new_uint validated_integer validate integer_of in_uint
  new_uint-pos m h b = let e : ltb 4294967295 m ≡ false = ground arith in rw (h, e) refl

  -- The layout of a specification, a value below 2^32, and the name of a field, where no number is
  -- invalid: setting the field raises nothing and gives a value below 2^32 in which the field is
  -- the new value cut to its mask, and every other name answers as before.
  pub set_attr-get_attr :
      (ss : List Text) (t : Layout) (n v : ℕ) (name : Text) (f : ℕ × ℕ)
      → init ss ≡ ok t
      → n < 4294967296
      → lookup name t.bit_fields ≡ some f
      → ((m : ℕ) → is_invalid (int_given (pos m)) ≡ false)
      → (m : ℕ) × (set_attr literal is_invalid t n name v ≡ ok m)
        × (m < 4294967296)
        × (get_attr t m name ≡ ok (bit_and v f.1))
        × ((x : Text) → text_eq name x ≡ false → get_attr t m x ≡ get_attr t n x)
  unfolding get_attr set_attr write_field
  set_attr-get_attr ss t n v name f s b h valid =
      let laid = init-IsLaid ss t s in
      let i = laid.field name f h in
      let m = replaced_field f n v in
      let below = replaced_field-lt f t.width i n v laid.fits b in
      (
        m,
        ap (λ o. write_field literal is_invalid o n v) h ∙ new_uint-pos m (valid m) below,
        below,
        ap (λ o. read_field o m) h ∙ read_field-replaced_field f t.width i n v,
        λ x d. by_name x d (lookup x t.bit_fields) refl laid,
      )
    where
      by_name :
          (x : Text)
          → text_eq name x ≡ false
          → (o : Option (ℕ × ℕ)) → lookup x t.bit_fields ≡ o
          → IsLaid t
          → read_field (lookup x t.bit_fields) (replaced_field f n v)
            ≡ read_field (lookup x t.bit_fields) n
      by_name x d none e laid = rw e (unfold read_field in refl)
      by_name x d (some g) e laid = rw e (other_field f g t.width n v (laid.apart name x f g d h e))
