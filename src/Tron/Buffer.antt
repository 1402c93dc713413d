-- ===== src/Tron/Buffer.antt =====
-- The buffer of `TronConnection._handle_reply` of python/clu/legacy/tron.py: bytes are numbers, 10
-- is a line feed and 13 a carriage return.
use clu.Prelude.{
  ℕ, Bool, true, false, List, [], ◌∷◌, ◌++◌, if◌then◌else◌, Result, ok, err, index_error, ◌>>=◌,
  ◌==◌,
}

-- A byte within a line, one that ends it, or the line feed of a pair.
pub data Mark : Type 0 where
  inside : Mark
  line_feed : Mark
  carriage_return : Mark
  paired : Mark

unfoldable pub mark : Bool → ℕ → Mark
mark after_return c =
    if c == 10
    then (if after_return then paired else line_feed)
    else if c == 13
    then carriage_return
    else inside

unfoldable pub last_line : List ℕ → List (List ℕ)
last_line [] = []
last_line (c ∷ l) = (c ∷ l) ∷ []

-- `bytes.splitlines` from a byte on: whether a carriage return is before it, and the line so far
unfoldable pub split_from : Bool → List ℕ → List ℕ → List (List ℕ)
unfolding mark last_line
split_from after_return line [] = last_line line
split_from after_return line (c ∷ l) = elim (mark after_return c) [
  | inside ↦ split_from false (line ++ c ∷ []) l
  | line_feed ↦ line ∷ split_from false [] l
  | carriage_return ↦ line ∷ split_from true [] l
  | paired ↦ split_from false line l
]

-- buffer.endswith(b"\n")
unfoldable pub ends_line : List ℕ → Bool
ends_line [] = false
ends_line (c ∷ []) = c == 10
ends_line (_ ∷ (c ∷ l)) = ends_line (c ∷ l)

-- lines.pop(): the lines that are left, and the last one
unfoldable pub pop : List (List ℕ) → Result (List (List ℕ) × List ℕ)
pop [] = err index_error
pop (x ∷ []) = ok ([], x)
pop (x ∷ (y ∷ l)) = do r ← pop (y ∷ l); ok (x ∷ r.0, r.1)

-- The lines that data completes, and the buffer after it.
unfoldable pub receive : List ℕ → List ℕ → Result (List (List ℕ) × List ℕ)
unfolding split_from ends_line pop
receive buffer data_ =
    let b = buffer ++ data_ in
    let lines = split_from false [] b in if ends_line b then ok (lines, []) else pop lines

-- The lines that one piece of data after another completes, and the buffer at the end.
unfoldable pub feed : List ℕ → List (List ℕ) → Result (List (List ℕ) × List ℕ)
unfolding receive
feed buffer [] = ok ([], buffer)
feed buffer (d ∷ ds) = do r ← receive buffer d; s ← feed r.1 ds; ok (r.0 ++ s.0, s.1)
