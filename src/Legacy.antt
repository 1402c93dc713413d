-- ===== src/Legacy.antt =====
-- The users of `BaseLegacyActor` of python/clu/legacy/actor.py, and how `_write_internal` brings a
-- reply to them. A line is written as its parts: the number of the user, that of the command, the
-- code and the body; `dumps` is `json.dumps` at a text.
pub mod Users
pub mod Delivery
mod Tests
use Prim.Native.Nat.{max}
use clu.Prelude.{
  ℕ, zero, suc, ◌+◌, Bool, true, false, Option, none, some, List, [], ◌∷◌, ◌++◌, map, Text, text,
  leb, ◌==◌, if◌then◌else◌, Result, ok, err, Error, type_error, key_error, ◌>>=◌, not, ◌&&◌, ◌||◌,
}
use clu.Value.{Value, format_value, join}
use clu.Reply.{MessageCode, Message}

-- A transport that is registered: its object, and its attribute `user_id`.
pub record Transport : Type 0 where
  pub ref : ℕ
  pub user_id : ℕ

-- self.transports: the keys are the numbers of the users.
abbrev pub Transports : Type 0
Transports = List (ℕ × Transport)

unfoldable pub get : ℕ → Transports → Option Transport
get u [] = none
get u ((v, t) ∷ ts) = if v == u then some t else get u ts

pop : ℕ → Transports → Result Transports
pop u [] = err key_error
pop u ((v, t) ∷ ts) =
    let rest = pop u ts in if v == u then ok ts else (do r ← rest; ok ((v, t) ∷ r))

max_id : Transports → ℕ
max_id [] = 0
max_id ((v, _) ∷ ts) = max v (max_id ts)

abbrev is_empty : Transports → Bool
is_empty [] = true
is_empty (_ ∷ _) = false

-- The number of the next user.
unfoldable pub next_id : Transports → ℕ
unfolding max_id
next_id ts = if is_empty ts then 1 else max_id ts + 1

-- new_user(transport), up to the information that it shows: the transport's object, whether it is
-- closing, and its attribute `user_id` if it has one.
unfoldable pub new_user : ℕ → Bool → Option ℕ → Transports → Result Transports
unfolding pop
new_user ref true (some u) ts = pop u ts
new_user ref true none ts =
    let u = next_id ts in ok (ts ++ (u, record { ref = ref; user_id = u }) ∷ [])
new_user ref false _ ts =
    let u = next_id ts in ok (ts ++ (u, record { ref = ref; user_id = u }) ∷ [])

-- The command that a reply belongs to.
pub record Sender : Type 0 where
  pub command_id : ℕ
  pub transport : Option Transport

-- a or b, for two numbers
abbrev pub or_number : ℕ → ℕ → ℕ
or_number a b = if a == 0 then b else a

id_of : Option Sender → ℕ
id_of none = 0
id_of (some s) = s.command_id

-- get_user_command_id(command, user_id, command_id)
unfoldable pub get_user_command_id : Option Sender → ℕ → ℕ → ℕ × ℕ
unfolding id_of
get_user_command_id command user_id command_id =
    let cid = id_of command in (or_number user_id cid, or_number command_id cid)

pub record Line : Type 0 where
  pub user_id : ℕ
  pub command_id : ℕ
  pub code : MessageCode
  pub body : Text

-- c.isspace(), for an ASCII character
abbrev is_space : ℕ → Bool
is_space c = (leb 9 c && leb c 13) || (leb 28 c && leb c 32)

-- value.strip() == ""
unfoldable pub is_blank : Text → Bool
is_blank [] = true
is_blank (c ∷ s) = is_space c && is_blank s

transport_of : Option Sender → Option Transport
transport_of none = none
transport_of (some s) = s.transport

user_of : Option Transport → ℕ → ℕ
user_of none u = u
user_of (some t) u = or_number t.user_id u

-- The numbers of the user and of the command that the lines carry.
unfoldable pub recipient : Option Sender → Bool → ℕ → ℕ → ℕ × ℕ
unfolding transport_of user_of get_user_command_id
recipient command broadcast user_id command_id =
    if broadcast
    then get_user_command_id command 0 0
    else get_user_command_id command (user_of (transport_of command) user_id) command_id

last_of : Option Transport → Transports → Option Transport
last_of t [] = t
last_of t ((_, u) ∷ ts) = last_of (some u) ts

abbrev is_none : Option Transport → Bool
is_none none = true
is_none (some _) = false

send_to : Transport → Line → Option Transport → List (ℕ × Line)
send_to t l none = []
send_to t l (some g) = if g.ref == t.ref then (t.ref, l) ∷ [] else []

send_one : Transports → Option Transport → Line → List (ℕ × Line)
unfolding send_to
send_one ts none l = []
send_one ts (some t) l = send_to t l (get t.user_id ts)

-- The loop over the lines: what is written, and to which transports. The loop over the transports
-- leaves the last of them in the variable of the command's transport.
unfoldable pub deliver : Transports → ℕ → Option Transport → List Line → List (ℕ × Line)
unfolding last_of send_one
deliver ts user transport [] = []
deliver ts user transport (l ∷ ls) =
    let to_all = user == 0 || is_none transport in
    (if to_all then map (λ t. (t.1.ref, l)) ts else send_one ts transport l)
    ++ deliver ts user (if to_all then last_of transport ts else transport) ls

module _ (dumps : Text → Text) where
  as_type_error : Result Text → Result Text
  as_type_error (ok t) = ok t
  as_type_error (err e) = err type_error

  unfoldable pub bodies : Message → Result (List Text)
  unfolding as_type_error
  bodies [] = ok []
  bodies ((k, v) ∷ m) = do
    t ← as_type_error (format_value dumps v)
    rest ← bodies m
    ok ((if is_blank t then k else k ++ (text "=" ++ t)) ∷ rest)

  -- _write_internal(reply, user_id, command_id, concatenate)
  unfoldable pub write_internal :
      Transports
      → Option Sender
      → MessageCode
      → Message
      → Bool
      → ℕ
      → ℕ
      → Bool
      → Result (List (ℕ × Line))
  unfolding transport_of
  write_internal ts command code message broadcast user_id command_id concatenate = do
    bs ← bodies message
    let ids = recipient command broadcast user_id command_id
    let whole = if concatenate then join (text "; ") bs ∷ [] else bs
    let lines =
        map (λ (b : Text). record { user_id = ids.0; command_id = ids.1; code = code; body = b })
          whole
    ok (deliver ts ids.0 (transport_of command) lines)
