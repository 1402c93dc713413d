-- ===== src/Types.antt =====
-- The value types of legacy keywords (python/clu/legacy/types/types.py): the integers here, the
-- bit fields in Types/Bits, the labels in Types/Labels. An integer of Python is a ℤ; the literal
-- that `int(value, 0)` reads, and what a type takes for invalid (`validate`), are parameters.
pub mod Shifts
pub mod Bits
pub mod Integers
pub mod Labels
mod Tests
use clu.Prelude.{
  ℕ, zero, suc, ◌+◌, Bool, true, false, Option, none, some, Text, leb, ltb, if◌then◌else◌, Result,
  ok, err, Error, ◌>>=◌, value_error, overflow_error, invalid_value_error, bit_or,
}

-- pos n is n, negsuc n is -(n + 1).
pub data ℤ : Type 0 where
  pos negsuc : ℕ → ℤ

-- A value that a type is made of: a text of a reply, or an integer.
pub data Given : Type 0 where
  text_given : Text → Given
  int_given : ℤ → Given

module _ (literal : Text → Option ℤ) (is_invalid : Given → Bool) where
  -- cls.validate(value)
  pub validate : Given → Result Given
  validate v = if is_invalid v then err invalid_value_error else ok v

  pub integer_of : Given → Result ℤ
  integer_of (text_given t) = elim (literal t) [ none ↦ err value_error | some n ↦ ok n ]
  integer_of (int_given n) = ok n

  -- int(cls.validate(value), 0) for a text, int(cls.validate(value)) for another
  pub validated_integer : Given → Result ℤ
  unfolding validate integer_of
  validated_integer v = do u ← validate v; integer_of u

  -- -0x7FFFFFFF <= n <= 0x7FFFFFFF
  pub in_int : ℤ → Result ℤ
  in_int (pos n) = if ltb 2147483647 n then err overflow_error else ok (pos n)
  in_int (negsuc n) = if ltb 2147483647 (n + 1) then err overflow_error else ok (negsuc n)

  -- Int.new(cls, value)
  unfoldable pub new_int : Given → Result ℤ
  unfolding validated_integer in_int
  new_int v = do n ← validated_integer v; in_int n

  -- Long.new(cls, value)
  unfoldable pub new_long : Given → Result ℤ
  unfolding validated_integer
  new_long v = validated_integer v

  -- A negative value is re-interpreted as 0x80000000 | -value.
  pub in_uint : ℤ → Result ℕ
  in_uint (pos n) = if ltb 4294967295 n then err overflow_error else ok n
  in_uint (negsuc n) =
      if ltb 2147483647 (n + 1) then err overflow_error else ok (bit_or 2147483648 (n + 1))

  -- UInt.new(cls, value)
  unfoldable pub new_uint : Given → Result ℕ
  unfolding validated_integer in_uint
  new_uint v = do n ← validated_integer v; in_uint n
