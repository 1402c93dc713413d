-- ===== src/Reply/Codes.antt =====
-- `MessageCode` from a text and back.
use clu.Prelude.{
  ◌≡◌, ◌↔◌, refl, Option, none, some, List, [], ◌∷◌, Text, text_eq, text_eq_iff, Result, ok, err,
  Error, value_error, arith, ◌⊎◌, inr,
}
use clu.Reply.{MessageCode, started, code_value, find_code, all_codes, message_code}

abbrev pub error_of {ℓ} : {A : Type ℓ} → Result A → Option Error
error_of (ok _) = none
error_of (err e) = some e

find_code_error :
    (l : List MessageCode) (t : Text)
    → (error_of (find_code l t) ≡ none) ⊎ (error_of (find_code l t) ≡ some value_error)
unfolding find_code
find_code_error [] t = inr refl
find_code_error (c ∷ l) t = ground (arith, find_code_error l t)

-- A text that is no code is a ValueError.
pub message_code_error :
    (t : Text) → (error_of (message_code t) ≡ none) ⊎ (error_of (message_code t) ≡ some value_error)
unfolding message_code
message_code_error t = find_code_error all_codes t

find_code-value :
    (l : List MessageCode) (t : Text) (c : MessageCode) → find_code l t ≡ ok c → t ≡ code_value c
unfolding find_code
find_code-value [] t c h = cc
find_code-value (d ∷ l) t c h = ground (arith, text_eq_iff (code_value d) t, find_code-value l t c)

pub code_value-message_code : (c : MessageCode) → message_code (code_value c) ≡ ok c
unfolding message_code code_value text_eq
code_value-message_code started = refl
code_value-message_code _ = refl

-- A text gives a code exactly when it is the code's value.
pub message_code-code_value :
    (t : Text) (c : MessageCode) → (message_code t ≡ ok c) ↔ (t ≡ code_value c)
message_code-code_value t c =
    (unfold message_code in find_code-value all_codes t c, λ e. rw e (code_value-message_code c))
