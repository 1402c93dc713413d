-- ===== src/Types/Tests.antt =====
-- The properties of the value types at concrete values.
use clu.Prelude.{
  ◌<◌, ◌≡◌, refl, Bool, true, false, Option, none, Text, ok, err, overflow_error, if◌then◌else◌,
}
use clu.Types.{ℤ, negsuc, Given, int_given, new_uint, validated_integer}
use clu.Types.Integers.{in_bounds, unsigned, new_uint_lem}

abbrev no_literal : Text → Option ℤ
no_literal t = none

abbrev all_valid : Given → Bool
all_valid g = false

minus_one : validated_integer no_literal all_valid (int_given (negsuc 0)) ≡ ok (negsuc 0)
unfolding validated_integer
minus_one = refl

new_uint_lem_example :
    (new_uint no_literal all_valid (int_given (negsuc 0))
      ≡ (if in_bounds (negsuc 0) then ok (unsigned (negsuc 0)) else err overflow_error))
    × (in_bounds (negsuc 0) ≡ true → unsigned (negsuc 0) < 4294967296)
new_uint_lem_example = new_uint_lem no_literal all_valid (int_given (negsuc 0)) (negsuc 0) minus_one
