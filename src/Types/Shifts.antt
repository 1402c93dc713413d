-- ===== src/Types/Shifts.antt =====
-- Shifts and masks of natural numbers, and what reading and writing a field of bits does to a
-- number.
use Prim.Native.Nat.{min, max, digits, bitwise, bit_and-bitwise, bit_or-bitwise}
use clu.Prelude.{
  ℕ, zero, suc, ◌+◌, ◌-◌, ◌*◌, ◌/◌, ◌%◌, ◌≤◌, ◌≡◌, refl, sym, ◌∙◌, ap, arith, bit_and, bit_or,
}

-- n >> k
unfoldable pub shift_right : ℕ → ℕ → ℕ
shift_right n zero = n
shift_right n (suc k) = shift_right (n / 2) k

-- n << k
unfoldable pub shift_left : ℕ → ℕ → ℕ
shift_left n zero = n
shift_left n (suc k) = shift_left n k * 2

-- The count of digits that a native operation is given does not matter once it is large enough.
module _ (z : ℕ → ℕ) (f : ℕ → ℕ → ℕ) where
  no_digit : (n b : ℕ) → digits z f n 0 b ≡ z b
  no_digit zero b = refl
  no_digit (suc n) b = refl

  same_digits : (a n m b : ℕ) → a ≤ n → a ≤ m → digits z f n a b ≡ digits z f m a b
  same_digits zero n m b p q = no_digit n b ∙ sym (no_digit m b)
  same_digits (suc a) zero m b p q = absurd (omega arith)
  same_digits (suc a) (suc n) zero b p q = absurd (omega arith)
  same_digits (suc a) (suc n) (suc m) b p q =
      ap (λ d. d * 2 + f (suc a % 2) (b % 2))
        (same_digits (suc a / 2) n m (b / 2) (omega arith) (omega arith))

  -- One digit of the result, and those after it.
  next_digit :
      (a b : ℕ)
      → z b ≡ z (b / 2) * 2 + f 0 (b % 2)
      → bitwise z f a b ≡ bitwise z f (a / 2) (b / 2) * 2 + f (a % 2) (b % 2)
  next_digit zero b e = e
  next_digit (suc a) b e =
      ap (λ d. d * 2 + f (suc a % 2) (b % 2))
        (same_digits (suc a / 2) a (suc a / 2) (b / 2) (omega arith) (omega arith))

pub bit_and-digit : (a b : ℕ) → bit_and a b ≡ bit_and (a / 2) (b / 2) * 2 + min (a % 2) (b % 2)
bit_and-digit a b =
    bit_and-bitwise a b
    ∙ next_digit (λ b. zero) min a b (omega arith)
    ∙ ap (λ d. d * 2 + min (a % 2) (b % 2)) (sym (bit_and-bitwise (a / 2) (b / 2)))

pub bit_or-digit : (a b : ℕ) → bit_or a b ≡ bit_or (a / 2) (b / 2) * 2 + max (a % 2) (b % 2)
bit_or-digit a b =
    bit_or-bitwise a b
    ∙ next_digit (λ b. b) max a b (omega arith)
    ∙ ap (λ d. d * 2 + max (a % 2) (b % 2)) (sym (bit_or-bitwise (a / 2) (b / 2)))

bit_and-odd : (a m : ℕ) → bit_and a (m * 2 + 1) ≡ bit_and (a / 2) m * 2 + a % 2
bit_and-odd a m =
    let e : (m * 2 + 1) / 2 ≡ m = omega arith in
    omega (arith, bit_and-digit a (m * 2 + 1), ap (bit_and (a / 2)) e)

bit_and-even : (a m : ℕ) → bit_and a (m * 2) ≡ bit_and (a / 2) m * 2
bit_and-even a m =
    let e : m * 2 / 2 ≡ m = omega arith in
    omega (arith, bit_and-digit a (m * 2), ap (bit_and (a / 2)) e)

bit_or-even : (a m : ℕ) → bit_or a (m * 2) ≡ bit_or (a / 2) m * 2 + a % 2
bit_or-even a m =
    let e : m * 2 / 2 ≡ m = omega arith in
    omega (arith, bit_or-digit a (m * 2), ap (bit_or (a / 2)) e)

pub even-bit_or : (m a : ℕ) → bit_or (m * 2) a ≡ bit_or m (a / 2) * 2 + a % 2
even-bit_or m a =
    let e : m * 2 / 2 ≡ m = omega arith in
    omega (arith, bit_or-digit (m * 2) a, ap (λ k. bit_or k (a / 2)) e)

bit_and-zero_within : (n a : ℕ) → a ≤ n → bit_and a 0 ≡ 0
bit_and-zero_within n zero h = bit_and-bitwise 0 0
bit_and-zero_within zero (suc a) h = absurd (omega arith)
bit_and-zero_within (suc n) (suc a) h =
    omega (arith, bit_and-digit (suc a) 0, bit_and-zero_within n (suc a / 2) (omega arith))

pub bit_and-zero : (a : ℕ) → bit_and a 0 ≡ 0
bit_and-zero a = bit_and-zero_within a a (omega arith)

bit_or-zero_within : (n a : ℕ) → a ≤ n → bit_or a 0 ≡ a
bit_or-zero_within n zero h = bit_or-bitwise 0 0
bit_or-zero_within zero (suc a) h = absurd (omega arith)
bit_or-zero_within (suc n) (suc a) h =
    omega (arith, bit_or-digit (suc a) 0, bit_or-zero_within n (suc a / 2) (omega arith))

pub bit_or-zero : (a : ℕ) → bit_or a 0 ≡ a
bit_or-zero a = bit_or-zero_within a a (omega arith)

-- (1 << width) - 1
unfoldable pub mask_of : ℕ → ℕ
unfolding shift_left
mask_of w = shift_left 1 w - 1

shift_left-positive : (w : ℕ) → 1 ≤ shift_left 1 w
unfolding shift_left
shift_left-positive zero = omega arith
shift_left-positive (suc w) = omega (arith, shift_left-positive w)

pub mask_of-suc : (w : ℕ) → mask_of (suc w) ≡ mask_of w * 2 + 1
unfolding mask_of shift_left
mask_of-suc w = omega (arith, shift_left-positive w)

pub mask_of-zero : mask_of 0 ≡ 0
unfolding mask_of shift_left
mask_of-zero = refl

-- The bits of a number from an offset on, as many as the width; and the number with them replaced.
unfoldable pub read_bits : ℕ → ℕ → ℕ → ℕ
read_bits zero zero n = 0
read_bits zero (suc w) n = read_bits zero w (n / 2) * 2 + n % 2
read_bits (suc o) w n = read_bits o w (n / 2)

unfoldable pub write_bits : ℕ → ℕ → ℕ → ℕ → ℕ
write_bits zero zero n v = n
write_bits zero (suc w) n v = write_bits zero w (n / 2) (v / 2) * 2 + v % 2
write_bits (suc o) w n v = write_bits o w (n / 2) v * 2 + n % 2

-- A mask takes the lowest bits.
pub bit_and-mask : (w n : ℕ) → bit_and n (mask_of w) ≡ read_bits 0 w n
unfolding read_bits
bit_and-mask zero n = ap (bit_and n) mask_of-zero ∙ bit_and-zero n
bit_and-mask (suc w) n =
    ap (bit_and n) (mask_of-suc w)
    ∙ bit_and-odd n (mask_of w)
    ∙ ap (λ k. k * 2 + n % 2) (bit_and-mask w (n / 2))

pub read_bits-bit_and : (o w n : ℕ) → bit_and (shift_right n o) (mask_of w) ≡ read_bits o w n
unfolding shift_right read_bits
read_bits-bit_and zero w n = bit_and-mask w n
read_bits-bit_and (suc o) w n = read_bits-bit_and o w (n / 2)

pub read_bits-le : (w n : ℕ) → read_bits 0 w n ≤ n
unfolding read_bits
read_bits-le zero n = omega arith
read_bits-le (suc w) n = omega (arith, read_bits-le w (n / 2))

-- Clearing the lowest bits and setting them.
set_low : (w n v : ℕ) → bit_or (n - read_bits 0 w n) (read_bits 0 w v) ≡ write_bits 0 w n v
unfolding read_bits write_bits
set_low zero n v = let e : n - 0 ≡ n = omega arith in ap (λ k. bit_or k 0) e ∙ bit_or-zero n
set_low (suc w) n v =
    let a = n / 2 - read_bits 0 w (n / 2) in
    let e : n - (read_bits 0 w (n / 2) * 2 + n % 2) ≡ a * 2 =
      omega (arith, read_bits-le w (n / 2)) in
    let q : (read_bits 0 w (v / 2) * 2 + v % 2) / 2 ≡ read_bits 0 w (v / 2) = omega arith in
    ap (λ k. bit_or k (read_bits 0 w (v / 2) * 2 + v % 2)) e
    ∙ omega (
      arith,
      even-bit_or a (read_bits 0 w (v / 2) * 2 + v % 2),
      ap (bit_or a) q,
      set_low w (n / 2) (v / 2),
    )

bit_and-shifted-le : (o w n : ℕ) → bit_and n (shift_left (mask_of w) o) ≤ n
unfolding shift_left
bit_and-shifted-le zero w n = omega (arith, bit_and-mask w n, read_bits-le w n)
bit_and-shifted-le (suc o) w n =
    omega (arith, bit_and-even n (shift_left (mask_of w) o), bit_and-shifted-le o w (n / 2))

-- (n & ~(mask << o)) | ((v & mask) << o) replaces the bits; `n & ~m` is n less the bits that it
-- shares with m.
pub write_bits-bit_or :
    (o w n v : ℕ)
    → bit_or (n - bit_and n (shift_left (mask_of w) o)) (shift_left (bit_and v (mask_of w)) o)
      ≡ write_bits o w n v
unfolding shift_left write_bits
write_bits-bit_or zero w n v =
    ap (λ k. bit_or (n - k) (bit_and v (mask_of w))) (bit_and-mask w n)
    ∙ ap (bit_or (n - read_bits 0 w n)) (bit_and-mask w v)
    ∙ set_low w n v
write_bits-bit_or (suc o) w n v =
    let m = shift_left (mask_of w) o in
    let u = shift_left (bit_and v (mask_of w)) o in
    let e : (n - bit_and (n / 2) m * 2) / 2 ≡ n / 2 - bit_and (n / 2) m = omega arith in
    ap (λ k. bit_or (n - k) (u * 2)) (bit_and-even n m)
    ∙ omega (
      arith,
      bit_or-even (n - bit_and (n / 2) m * 2) u,
      ap (λ k. bit_or k u) e,
      bit_and-shifted-le o w (n / 2),
      write_bits-bit_or o w (n / 2) v,
    )
