-- ===== src/Prelude/Errors.antt =====
-- Python exceptions as values.

-- The classes of exception that the modelled code raises or lets through.
pub data Error : Type 0 where
  type_error value_error key_error index_error attribute_error assertion_error : Error
  runtime_error command_error clu_error keys_error message_error overflow_error invalid_value_error
        value_type_error :
      Error

pub data Result {ℓ} (A : Type ℓ) : Type ℓ where
  ok : A → Result A
  err : Error → Result A

infixl 5 ◌>>=◌
abbrev pub ◌>>=◌ {ℓ κ} : {A : Type ℓ} {B : Type κ} → Result A → (A → Result B) → Result B
ok a >>= f = f a
err e >>= f = err e
