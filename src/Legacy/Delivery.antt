-- ===== src/Legacy/Delivery.antt =====
-- Which transports the lines of a reply reach.
use clu.Prelude.{
  ℕ, ◌<◌, ◌≡◌, refl, ap, Bool, true, false, Option, none, some, List, [], ◌∷◌, ◌++◌, map, Text,
  text, ok, arith, ◌==◌, ==_iff, if◌then◌else◌,
}
use clu.Value.{join}
use clu.Reply.{MessageCode, Message}
use clu.Legacy.{
  Transport, Transports, get, Sender, Line, or_number, recipient, last_of, send_to, send_one,
  deliver, bodies, write_internal,
}

-- Each of the lines, written to one transport.
abbrev pub lines_to : Transport → List Line → List (ℕ × Line)
lines_to t ls = map (λ l. (t.ref, l)) ls

-- One line, written to each of the transports.
abbrev pub line_to_all : Transports → Line → List (ℕ × Line)
line_to_all ts l = map (λ t. (t.1.ref, l)) ts

pub lines_to_all : Transports → List Line → List (ℕ × Line)
lines_to_all ts [] = []
lines_to_all ts (l ∷ ls) = line_to_all ts l ++ lines_to_all ts ls

deliver-user :
    (ts : Transports) (u : ℕ) (t : Transport) (ls : List Line)
    → (u == 0) ≡ false
    → get t.user_id ts ≡ some t
    → deliver ts u (some t) ls ≡ lines_to t ls
unfolding deliver send_one send_to
deliver-user ts u t [] n g = refl
deliver-user ts u t (l ∷ ls) n g =
    rw (n, g, (==_iff t.ref t.ref).1 refl) (ap (◌∷◌ (t.ref, l)) (deliver-user ts u t ls n g))

deliver-all :
    (ts : Transports) (t : Option Transport) (ls : List Line)
    → deliver ts 0 t ls ≡ lines_to_all ts ls
unfolding deliver lines_to_all
deliver-all ts t [] = refl
deliver-all ts t (l ∷ ls) = ap (◌++◌ (line_to_all ts l)) (deliver-all ts (last_of t ts) ls)

-- The lines of a reply with these bodies.
abbrev pub lines_of : ℕ × ℕ → MessageCode → Bool → List Text → List Line
lines_of ids code concatenate bs =
    map (λ (b : Text). record { user_id = ids.0; command_id = ids.1; code = code; body = b })
      (if concatenate then join (text "; ") bs ∷ [] else bs)

abbrev pub with_transport : ℕ → Transport → Sender
with_transport c t = record { command_id = c; transport = some t }

recipient-commander :
    (c u i : ℕ) (t : Transport)
    → 0 < t.user_id
    → recipient (some (with_transport c t)) false u i ≡ (t.user_id, or_number i c)
unfolding recipient
recipient-commander c u i t p = let n : (t.user_id == 0) ≡ false = ground arith in rw (n, n) refl

recipient_broadcast :
    (c u i : ℕ) (t : Transport) → recipient (some (with_transport c t)) true u i ≡ (c, c)
unfolding recipient
recipient_broadcast c u i t = refl

module _ (dumps : Text → Text) (ts : Transports) (code : MessageCode) (message : Message)
    (concatenate : Bool) (bs : List Text) (formatted : bodies dumps message ≡ ok bs) where
  -- A reply that is no broadcast, to a command whose transport is registered, goes to that
  -- transport alone, with the number of its user; the number of the command is the command's
  -- unless one is given.
  pub reply_to_commander :
      (c u i : ℕ) (t : Transport)
      → get t.user_id ts ≡ some t
      → 0 < t.user_id
      → write_internal dumps ts (some (with_transport c t)) code message false u i concatenate
        ≡ ok (lines_to t (lines_of (t.user_id, or_number i c) code concatenate bs))
  unfolding write_internal
  reply_to_commander c u i t g p =
      rw (formatted, recipient-commander c u i t p)
        (ap ok (deliver-user ts t.user_id t _ (ground arith) g))

  -- A broadcast with no command, or with a command of number 0, goes to every user, as from user 0
  -- and command 0.
  pub broadcast_to_all :
      (s : Option Transport) (u i : ℕ)
      → (write_internal dumps ts none code message true u i concatenate
          ≡ ok (lines_to_all ts (lines_of (0, 0) code concatenate bs)))
        × (write_internal dumps ts
              (some (record { command_id = 0; transport = s }))
              code
              message
              true
              u
              i
              concatenate
            ≡ ok (lines_to_all ts (lines_of (0, 0) code concatenate bs)))
  unfolding write_internal recipient
  broadcast_to_all s u i =
      (rw formatted (ap ok (deliver-all ts none _)), rw formatted (ap ok (deliver-all ts s _)))

  -- A broadcast with a command of another number whose transport is registered goes to that
  -- transport alone, under the number of the command.
  pub broadcast_to_commander :
      (c u i : ℕ) (t : Transport)
      → get t.user_id ts ≡ some t
      → 0 < c
      → write_internal dumps ts (some (with_transport c t)) code message true u i concatenate
        ≡ ok (lines_to t (lines_of (c, c) code concatenate bs))
  unfolding write_internal
  broadcast_to_commander c u i t g p =
      rw (formatted, recipient_broadcast c u i t) (ap ok (deliver-user ts c t _ (ground arith) g))
