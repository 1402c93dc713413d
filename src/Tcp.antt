-- ===== src/Tcp.antt =====
-- `TCPBaseActor` of python/clu/actor.py: its users, the commands that it receives and the replies
-- that it writes. Transports are known by numbers; `dumps` is the text of a reply with its header,
-- in several lines or in one; texts that `decode` gives are lists of characters.
pub mod Lines
pub mod Users
mod Tests
use clu.Prelude.{
  ℕ, ◌+◌, ◌-◌, ◌*◌, Bool, true, false, Option, none, some, List, [], ◌∷◌, ◌++◌, Text, text, text_eq,
  if◌then◌else◌, Result, ok, err, key_error, ◌>>=◌, not, ◌&&◌, ◌||◌, leb, ◌==◌,
}
use clu.Prelude.Dict.{Dict, lookup, insert}
use clu.Reply.{Message, MessageCode, code_value}

abbrev pub is_digit : ℕ → Bool
is_digit c = leb 48 c && leb c 57

abbrev pub is_space : ℕ → Bool
is_space c = (leb 9 c && leb c 13) || (leb 28 c && leb c 32)

abbrev pub is_empty : Text → Bool
is_empty [] = true
is_empty (_ ∷ _) = false

-- s.strip()
unfoldable pub strip_left : Text → Text
strip_left [] = []
strip_left (c ∷ s) = if is_space c then strip_left s else c ∷ s

unfoldable pub strip_right : Text → Text
strip_right [] = []
strip_right (c ∷ s) = let r = strip_right s in if is_empty r && is_space c then [] else c ∷ r

unfoldable pub strip : Text → Text
strip s = strip_right (strip_left s)

-- [0-9]*, and what is left
unfoldable pub digits_of : Text → Text × Text
digits_of [] = ([], [])
digits_of (c ∷ s) = let r = digits_of s in if is_digit c then (c ∷ r.0, r.1) else ([], c ∷ s)

-- (.+): up to a line feed
unfoldable pub up_to_newline : Text → Text
up_to_newline [] = []
up_to_newline (c ∷ s) = let r = up_to_newline s in if c == 10 then [] else c ∷ r

-- all but the last character, and the last one
unfoldable pub split_last : Text → Text × Text
split_last [] = ([], [])
split_last (c ∷ []) = ([], c ∷ [])
split_last (c ∷ (d ∷ s)) = let r = split_last (d ∷ s) in (c ∷ r.0, r.1)

-- The groups of `([0-9]*)\s*(.+)` in a text that is not empty and has no white space at its ends:
-- when the digits take all of it, they give back the last one.
unfoldable pub groups : Text → Text × Text
unfolding digits_of strip_left up_to_newline split_last
groups s =
    let (d, r) = digits_of s in
    if is_empty r then split_last d else (d, up_to_newline (strip_left r))

-- int(s), of digits, after the number so far
unfoldable pub number : ℕ → Text → ℕ
number n [] = n
number n (c ∷ s) = number (10 * n + (c - 48)) s

-- A command that is received: its text, its number, its commander and its transport.
pub record TcpCommand : Type 0 where
  pub command_string : Text
  pub command_id : ℕ
  pub commander_id : Option Text
  pub transport : Option ℕ

-- new_command(transport, command_str), up to the parser; none if there is nothing to do
unfoldable pub new_command : ℕ → Option Text → Text → Option TcpCommand
unfolding strip groups number
new_command transport user command_str =
    let message = strip command_str in
    if is_empty message
    then none
    else let (d, s) = groups message in
      if is_empty (strip s)
      then none
      else some (record {
        command_string = strip s;
        command_id = number 0 d;
        commander_id = user;
        transport = some transport;
      })

-- The users with their transports, the `user_id` and the `multiline` of transports, and what has
-- been written to which transport.
pub record TcpActor : Type 0 where
  pub name : Text
  pub transports : Dict ℕ
  pub user_ids : List (ℕ × Text)
  pub multilines : List (ℕ × Bool)
  pub written : List (ℕ × Text)

-- getattr(transport, attribute, None), of the last that was set
unfoldable pub attribute {ℓ} : {A : Type ℓ} → ℕ → List (ℕ × A) → Option A
attribute t [] = none
attribute t ((u, a) ∷ l) = if u == t then some a else attribute t l

-- d.pop(k)
unfoldable pub pop {ℓ} : {V : Type ℓ} → Text → Dict V → Result (Dict V)
pop k [] = err key_error
pop k ((j, v) ∷ m) =
    let rest = pop k m in if text_eq j k then ok m else (do r ← rest; ok ((j, v) ∷ r))

unfoldable pub connect : ℕ → Text → TcpActor → TcpActor
connect t fresh a = record a {
  transports = insert fresh t a.transports;
  user_ids = (t, fresh) ∷ a.user_ids;
  multilines = (t, false) ∷ a.multilines;
}

unfoldable pub disconnect : ℕ → Text → Option Text → TcpActor → Result TcpActor
unfolding connect
disconnect t fresh none a = ok (connect t fresh a)
disconnect t fresh (some user) a = do m ← pop user a.transports; ok (record a { transports = m })

-- new_user(transport), of one that is closing or not; `fresh` is what `uuid4` gives
unfoldable pub new_user : ℕ → Bool → Text → TcpActor → Result TcpActor
unfolding connect disconnect
new_user t is_closing fresh a =
    if is_closing then disconnect t fresh (attribute t a.user_ids) a else ok (connect t fresh a)

-- The reply with its header.
pub record FullReply : Type 0 where
  pub command_id : Option ℕ
  pub commander_id : Option Text
  pub message_code : Text
  pub internal : Bool
  pub sender : Text
  pub data_ : Message

-- What `_write_internal` reads of a reply.
pub record TcpOutput : Type 0 where
  pub code : MessageCode
  pub message : Message
  pub command : Option TcpCommand
  pub broadcast : Bool
  pub internal : Bool

module _ (dumps : Bool → FullReply → Text) where
  unfoldable pub is_multiline : Option Bool → Bool
  is_multiline none = false
  is_multiline (some b) = b

  -- send_to_transport(transport, message)
  unfoldable pub send_to_transport : FullReply → ℕ → TcpActor → TcpActor
  unfolding is_multiline
  send_to_transport r t a = record a {
    written = a.written ++ (t, dumps (is_multiline (attribute t a.multilines)) r ++ (10 ∷ [])) ∷ [];
  }

  unfoldable pub send_to_all : FullReply → Dict ℕ → TcpActor → TcpActor
  unfolding send_to_transport
  send_to_all r [] a = a
  send_to_all r ((k, t) ∷ l) a = send_to_all r l (send_to_transport r t a)

  unfoldable pub full_reply : Text → TcpOutput → FullReply
  full_reply name o = record {
    command_id = elim o.command [ none ↦ none | some c ↦ some c.command_id ];
    commander_id = elim o.command [ none ↦ none | some c ↦ c.commander_id ];
    message_code = code_value o.code;
    internal = o.internal;
    sender = name;
    data_ = o.message;
  }

  -- The transport of a reply, if it goes to one alone.
  unfoldable pub recipient : Bool → Option Text → Option ℕ → Option ℕ
  recipient true user t = none
  recipient false none t = none
  recipient false (some user) t = t

  unfoldable pub recipient_of : Bool → Option TcpCommand → Option ℕ
  unfolding recipient
  recipient_of broadcast none = none
  recipient_of broadcast (some c) = recipient broadcast c.commander_id c.transport

  unfoldable pub send : FullReply → Option ℕ → TcpActor → TcpActor
  unfolding send_to_all send_to_transport
  send r none a = send_to_all r a.transports a
  send r (some t) a = send_to_transport r t a

  -- _write_internal(reply)
  unfoldable pub write_internal : TcpOutput → TcpActor → TcpActor
  unfolding full_reply recipient_of send
  write_internal o a = send (full_reply a.name o) (recipient_of o.broadcast o.command) a
