-- ===== src/Status/Codes.antt =====
-- The codes that statuses are written as (`COMMAND_STATUS_TO_CODE`), and the statuses that
-- `code_to_status` gives back for them.
use clu.Reply.{MessageCode, message_code, code_value}
use clu.Prelude.{
  Result, ok, err, text_eq, ◌<◌, ◌≡◌, refl, Bool, true, false, Option, none, some, Text, arith,
  holds_below, holds_below→, ◌&&◌, not,
}
use clu.Status.{CommandStatus, code, did_fail, did_succeed, is_done, code_to_status}

abbrev bool_eq : Bool → Bool → Bool
bool_eq true b = b
bool_eq false b = not b

-- What the tests say of a status and of the status that its code is read back as.
abbrev same_tests : CommandStatus → CommandStatus → Bool
same_tests a b =
    bool_eq (is_done a) (is_done b)
    && (bool_eq (did_fail a) (did_fail b) && bool_eq (did_succeed a) (did_succeed b))

same_tests→ :
    (a b : CommandStatus)
    → same_tests a b ≡ true
    → (is_done a ≡ is_done b) × (did_fail a ≡ did_fail b) × (did_succeed a ≡ did_succeed b)
same_tests→ a b h = ground arith

abbrev reads_back_code : Option Text → CommandStatus → Bool
reads_back_code none v = true
reads_back_code (some c) v = same_tests (code_to_status c none) v

reads_back_table : holds_below (λ v. reads_back_code (code v) v) 512 ≡ true
unfolding holds_below code code_to_status is_done did_fail did_succeed
reads_back_table = refl

at_code :
    (o : Option Text) (v : CommandStatus) {c : Text}
    → reads_back_code o v ≡ true
    → o ≡ some c
    → same_tests (code_to_status c none) v ≡ true
at_code o v h e = ground (arith, e)

-- Every status below 512 that has a code is read back from it, with no default given, as a status
-- that is done, failed or succeeded exactly when the one written was.
pub code_to_status-code :
    (v : CommandStatus) (c : Text)
    → v < 512
    → code v ≡ some c
    → let w = code_to_status c none in
      (is_done w ≡ is_done v) × (did_fail w ≡ did_fail v) × (did_succeed w ≡ did_succeed v)
code_to_status-code v c b e =
    same_tests→ (code_to_status c none) v (
      at_code (code v) v (holds_below→ (λ v. reads_back_code (code v) v) 512 v reads_back_table b)
        e)

abbrev is_code : Option Text → Bool
is_code none = true
is_code (some t) = elim (message_code t) [ ok _ ↦ true | err _ ↦ false ]

code_table : holds_below (λ v. is_code (code v)) 512 ≡ true
unfolding holds_below code message_code code_value text_eq
code_table = refl

is_code_of :
    (o : Option Text) (t : Text)
    → is_code o ≡ true
    → o ≡ some t
    → (c : MessageCode) × (message_code t ≡ ok c)
is_code_of o t h e = known (message_code t) (rw e at h)
  where
    known :
        (r : Result MessageCode)
        → (elim r [ ok _ ↦ true | err _ ↦ false ]) ≡ true
        → (c : MessageCode) × (r ≡ ok c)
    known (ok c) h = (c, refl)
    known (err e) h = cc

-- The code of a status below 512 is the value of a message code.
pub message_code-code :
    (v : CommandStatus) (t : Text)
    → v < 512
    → code v ≡ some t
    → (c : MessageCode) × (message_code t ≡ ok c)
message_code-code v t b e =
    is_code_of (code v) t (holds_below→ (λ v. is_code (code v)) 512 v code_table b) e
