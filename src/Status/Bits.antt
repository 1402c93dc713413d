-- ===== src/Status/Bits.antt =====
-- How the tests of `CommandStatus` divide its values.
use clu.Prelude.{
  ℕ, ◌+◌, ◌<◌, ◌≡◌, refl, Bool, true, false, Option, none, some, List, [], ◌∷◌, arith, holds_below,
  holds_below→, implies, implies→, ◌&&◌, ◌||◌, ◌==◌, not,
}
use clu.Status.{
  CommandStatus, code, is_combination, did_fail, did_succeed, is_done, is_active, is_failing,
  active_bits, ready, debug,
}

abbrev pub total : List ℕ → ℕ
total [] = 0
total (n ∷ l) = n + total l

abbrev pub all_plain : List CommandStatus → Bool
all_plain [] = true
all_plain (v ∷ l) = not (is_combination v) && all_plain l

active_bits_table :
    holds_below (λ v. (total (active_bits v) == v) && all_plain (active_bits v)) 512 ≡ true
unfolding holds_below active_bits is_combination
active_bits_table = refl

-- The active bits of a status below 512 are plain flags, and they add up to the status.
pub active_bits_sum :
    (v : CommandStatus) → v < 512 → (total (active_bits v) ≡ v) × (all_plain (active_bits v) ≡ true)
active_bits_sum v b = ground (
  arith,
  holds_below→ (λ v. (total (active_bits v) == v) && all_plain (active_bits v)) 512 v
      active_bits_table b,
)

abbrev pub count_true : List Bool → ℕ
count_true [] = 0
count_true (true ∷ l) = 1 + count_true l
count_true (false ∷ l) = count_true l

-- The stages of a command: at its end, under way, waiting to start, and the debug status.
abbrev pub stages : CommandStatus → List Bool
stages v = is_done v ∷ is_active v ∷ (v == ready) ∷ (v == debug) ∷ []

abbrev pub ends_check : CommandStatus → Bool
ends_check v =
    implies (is_done v) (count_true (did_succeed v ∷ did_fail v ∷ []) == 1)
    && (implies (did_succeed v || did_fail v) (is_done v) && implies (is_failing v) (is_active v))

abbrev has_code : Option (List ℕ) → Bool
has_code none = false
has_code (some _) = true

stages_table :
    holds_below
      (λ v. implies (has_code (code v)) ((count_true (stages v) == 1) && ends_check v))
      512
    ≡ true
unfolding holds_below code is_done is_active did_fail did_succeed is_failing
stages_table = refl

stages_of :
    (v : CommandStatus)
    → v < 512
    → has_code (code v) ≡ true
    → ((count_true (stages v) == 1) && ends_check v) ≡ true
stages_of v b h =
    implies→ _ _
      (holds_below→
        (λ v. implies (has_code (code v)) ((count_true (stages v) == 1) && ends_check v)) 512 v
        stages_table b)
      h

has_code_of : (o : Option (List ℕ)) {c : List ℕ} → o ≡ some c → has_code o ≡ true
has_code_of o e = ground (arith, e)

-- A status below 512 with a code is exactly one of done, active, ready and debug; if it is done it
-- either succeeded or failed and not both; one that succeeded or failed is done, and one that is
-- failing is active.
pub status_stages :
    (v : CommandStatus) (c : List ℕ)
    → v < 512
    → code v ≡ some c
    → (count_true (stages v) ≡ 1) × (ends_check v ≡ true)
status_stages v c b e =
    let h = stages_of v b (has_code_of (code v) e) in (ground arith, ground arith)
