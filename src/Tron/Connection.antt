-- ===== src/Tron/Connection.antt =====
-- The commands of `TronConnection` of python/clu/legacy/tron.py: `send_command`, and what
-- `_handle_reply` does with the command of a reply. `digits` is the text of a number.
use clu.Prelude.{
  ℕ, ◌+◌, ◌%◌, ◌^◌, true, false, Option, none, some, List, [], ◌∷◌, ◌++◌, Text, text, text_eq,
  lower, if◌then◌else◌, Result, ok, ◌>>=◌, ◌==◌, leb, not,
}
use clu.Status.{CommandStatus, code_to_status, is_done}
use clu.Reply.{Message, MessageCode, Reply, message_code}
use clu.Command.{Command, flag, no_message, set_status, new}
use clu.Client.{no_actor, plain, joined}

-- A command that runs, with its commander, its reply callback and its replies.
pub record Running : Type 0 where
  pub command : Command
  pub commander_id : Text
  pub reply_callback : Option ℕ
  pub replies : List Reply

-- The header of a reply, and the data that has been parsed of it.
pub record TronReply : Type 0 where
  pub commander : Text
  pub command_id : ℕ
  pub code : Text
  pub parsed : Message

-- `called` holds the calls of reply callbacks, and `written` what goes to the transport.
pub record Connection : Type 0 where
  pub commander : Text
  pub mid : ℕ
  pub running_commands : List (ℕ × Running)
  pub written : List Text
  pub called : List (ℕ × TronReply)

unfoldable pub find : {A : Type 0} → ℕ → List (ℕ × A) → Option A
find n [] = none
find n ((m, a) ∷ l) = if m == n then some a else find n l

-- d[n] = a
unfoldable pub put : {A : Type 0} → ℕ → A → List (ℕ × A) → List (ℕ × A)
put n a [] = (n, a) ∷ []
put n a ((m, b) ∷ l) = if m == n then (m, a) ∷ l else (m, b) ∷ put n a l

-- d.pop(n), of a key that is there
unfoldable pub drop_key : {A : Type 0} → ℕ → List (ℕ × A) → List (ℕ × A)
drop_key n [] = []
drop_key n ((m, b) ∷ l) = if m == n then l else (m, b) ∷ drop_key n l

-- mid or self._mid
unfoldable pub chosen : Option ℕ → ℕ → ℕ
chosen none own = own
chosen (some n) own = if n == 0 then own else n

-- The message number that is used, and `_mid` before it grows by one.
unfoldable pub numbered : Option ℕ → ℕ → ℕ × ℕ
unfolding chosen
numbered given own =
    let n = chosen given own in if leb (2 ^ 32) n then (n % 2 ^ 32, n % 2 ^ 32) else (n, own)

-- commander or self.commander
unfoldable pub commanding : Option Text → Text → Text
commanding none own = own
commanding (some t) own = if text_eq t [] then own else t

-- send_command(target, command_string, *args), to a transport that is connected
unfoldable pub send_command :
    (ℕ → Text)
    → ℕ
    → Text
    → Text
    → List Text
    → Option Text
    → Option ℕ
    → Option ℕ
    → Option ℕ
    → Connection
    → ℕ × Connection
unfolding numbered commanding
send_command digits ref target command_string args commander given callback limit c =
    let (n, own) = numbered given c.mid in
    let name = commanding commander c.commander in
    (
      n,
      record c {
        mid = own + 1;
        running_commands =
            put n
              (record {
                command = new ref none false [] false (text "text") false false true limit;
                commander_id = name;
                reply_callback = callback;
                replies = [];
              })
              c.running_commands;
        written =
            c.written
            ++ (name
                ++ (text " "
                    ++ (digits n
                        ++ (text " "
                            ++ (target
                                ++ (text " " ++ (joined command_string args ++ (10 ∷ []))))))))
              ∷ [];
      },
    )

-- The reply that is added to those of the command.
unfoldable pub gathered : TronReply → MessageCode → Running → Running
gathered r code s = record s {
  replies =
      s.replies
      ++ record {
        message_code = code;
        message = r.parsed;
        command = some s.command.ref;
        broadcast = false;
        use_validation = false;
        validated = true;
        internal = false;
      }
        ∷ [];
}

unfoldable pub callback_called : TronReply → Option ℕ → Connection → Connection
callback_called r none c = c
callback_called r (some f) c = record c { called = c.called ++ (f, r) ∷ [] }

-- A command that has ended runs no more.
unfoldable pub after_status : CommandStatus → ℕ → Running → Connection → Connection
after_status status n s c = record c {
  running_commands =
      if is_done status then drop_key n c.running_commands else put n s c.running_commands;
}

unfoldable pub reply_to : TronReply → Option Running → Connection → Result Connection
unfolding gathered callback_called after_status
reply_to r none c = ok c
reply_to r (some s) c = if not (text_eq s.commander_id r.commander) then ok c else do
  code ← message_code (lower r.code)
  let t = gathered r code s
  let status = code_to_status (lower r.code) none
  let p = set_status no_actor (flag status) no_message false plain t.command tt
  u ← p.0
  let d = record t { command = p.1 }
  ok (after_status status r.command_id d (callback_called r d.reply_callback c))

-- The end of `_handle_reply` for one reply.
unfoldable pub handle_reply : TronReply → Connection → Result Connection
unfolding reply_to
handle_reply r c = reply_to r (find r.command_id c.running_commands) c
