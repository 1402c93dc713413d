-- ===== src/Types/Integers.antt =====
-- The bounds of the integer types of keyword values.
use clu.Prelude.{
  ℕ, zero, suc, ◌+◌, ◌*◌, ◌/◌, ◌<◌, ◌≡◌, refl, subst, ap, ◌∙◌, Bool, true, false, Option, Text, ok,
  err, arith, ltb, ltb→lt, Bool-cases, inl, inr, bit_or, overflow_error, if◌then◌else◌,
}
use clu.Types.{ℤ, pos, negsuc, Given, new_uint, validated_integer, in_uint}
use clu.Types.Shifts.{even-bit_or, bit_or-zero}

-- Bits set above a number that is below them.
high_bit : ℕ → ℕ
high_bit zero = 1
high_bit (suc k) = high_bit k * 2

bit_or-high : (k m : ℕ) → m < high_bit k → bit_or (high_bit k) m ≡ high_bit k + m
unfolding high_bit
bit_or-high zero m h =
    let e : m ≡ 0 = omega (arith, h) in ap (bit_or 1) e ∙ omega (arith, bit_or-zero 1, e)
bit_or-high (suc k) m h =
    omega (arith, even-bit_or (high_bit k) m, bit_or-high k (m / 2) (omega (arith, h)))

high_bit-31 : high_bit 31 ≡ 2147483648
unfolding high_bit
high_bit-31 = refl

bit_or-31 : (m : ℕ) → m < 2147483648 → bit_or 2147483648 m ≡ 2147483648 + m
bit_or-31 m h = subst (λ q. m < q → bit_or q m ≡ q + m) high_bit-31 (bit_or-high 31 m) h

-- What `UInt` makes of an integer that is in its bounds: itself, or 2^31 and its magnitude.
abbrev pub unsigned : ℤ → ℕ
unsigned (pos n) = n
unsigned (negsuc n) = 2147483648 + (n + 1)

abbrev pub in_bounds : ℤ → Bool
in_bounds (pos n) = ltb n 4294967296
in_bounds (negsuc n) = ltb (n + 1) 2147483648

in_uint-unsigned :
    (literal : Text → Option ℤ) (is_invalid : Given → Bool) (z : ℤ)
    → in_uint literal is_invalid z ≡ (if in_bounds z then ok (unsigned z) else err overflow_error)
unfolding in_uint
in_uint-unsigned literal is_invalid (pos n) = ground arith
in_uint-unsigned literal is_invalid (negsuc n) = elim (Bool-cases (ltb (n + 1) 2147483648)) [
  | inl e ↦
      let q : ltb 2147483647 (n + 1) ≡ false = ground arith in
      rw (e, q) (ap ok (bit_or-31 (n + 1) (ltb→lt (n + 1) 2147483648 e)))
  | inr e ↦ let q : ltb 2147483647 (n + 1) ≡ true = ground arith in rw (e, q) refl
]

unsigned-lt : (z : ℤ) → in_bounds z ≡ true → unsigned z < 4294967296
unsigned-lt (pos n) h = ltb→lt n 4294967296 h
unsigned-lt (negsuc n) h = omega (arith, ltb→lt (n + 1) 2147483648 h)

-- A value that is an integer and not invalid: `UInt` takes it exactly if it lies between -(2^31 -
-- 1) and 2^32 - 1, and else raises an OverflowError. What it makes of it is below 2^32: the
-- integer itself, or for a negative one 2^31 and its magnitude.
pub new_uint_lem :
    (literal : Text → Option ℤ) (is_invalid : Given → Bool) (g : Given) (z : ℤ)
    → validated_integer literal is_invalid g ≡ ok z
    → (new_uint literal is_invalid g
        ≡ (if in_bounds z then ok (unsigned z) else err overflow_error))
      × (in_bounds z ≡ true → unsigned z < 4294967296)
unfolding new_uint
new_uint_lem literal is_invalid g z h =
    (rw h (in_uint-unsigned literal is_invalid z), unsigned-lt z)
