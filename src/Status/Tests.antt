-- ===== src/Status/Tests.antt =====
-- The properties of `CommandStatus` at concrete statuses.
use clu.Prelude.{◌≡◌, refl, none, some, text, arith}
use clu.Status.{code, code_to_status, is_done, did_fail, did_succeed}
use clu.Status.Codes.{code_to_status-code}

code_failed : code 4 ≡ some (text "f")
unfolding code
code_failed = refl

code_to_status-code_example :
    let w = code_to_status (text "f") none in
    (is_done w ≡ is_done 4) × (did_fail w ≡ did_fail 4) × (did_succeed w ≡ did_succeed 4)
code_to_status-code_example = code_to_status-code 4 (text "f") (omega arith) code_failed
