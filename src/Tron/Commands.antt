-- ===== src/Tron/Commands.antt =====
-- The numbers of the commands that a Tron connection sends, and the replies to them.
use clu.Prelude.{
  ℕ, ◌+◌, ◌%◌, ◌^◌, ◌<◌, ◌≡◌, refl, ap, ◌∙◌, Bool, true, false, Option, none, some, List, [], ◌∷◌,
  ◌++◌, Text, text, text_eq, lower, if◌then◌else◌, ok, ◌==◌, leb, not, ◌&&◌, arith, Bool-cases, inl,
  inr,
}
use clu.Status.{CommandStatus, code_to_status, is_done}
use clu.Reply.{MessageCode, Reply, message_code}
use clu.Command.{flag, no_message, set_status, new}
use clu.Command.Trace.{IsSound, new-IsSound}
use clu.Client.{no_actor, plain}
use clu.Client.Replies.{IsAdvanced, set_status-IsAdvanced, code_to_status-IsCoded}
use clu.Tron.Connection.{
  commanding, Running, TronReply, Connection, find, put, drop_key, chosen, numbered, send_command,
  gathered, callback_called, after_status, reply_to, handle_reply,
}

-- The number of a command is below 2^32, whatever number is given and whatever `_mid` holds.
numbered_bound : (given : Option ℕ) (own : ℕ) → (numbered given own).0 < 2 ^ 32
unfolding numbered
numbered_bound given own = ground arith

numbered_own :
    (own : ℕ) → numbered none own ≡ (own % 2 ^ 32, if leb (2 ^ 32) own then own % 2 ^ 32 else own)
unfolding numbered chosen
numbered_own own = ground arith

find-put :
    {A : Type 0} (n m : ℕ) (a : A) (l : List (ℕ × A))
    → find m (put n a l) ≡ (if n == m then some a else find m l)
unfolding find put
find-put n m a [] = refl
find-put n m a ((k, b) ∷ l) = ground (arith, find-put n m a l)

-- No number stands twice in a list.
abbrev pub is_free : {A : Type 0} → ℕ → List (ℕ × A) → Bool
is_free n [] = true
is_free n ((m, _) ∷ l) = not (m == n) && is_free n l

abbrev pub all_differ : {A : Type 0} → List (ℕ × A) → Bool
all_differ [] = true
all_differ ((m, _) ∷ l) = is_free m l && all_differ l

is_free-find : {A : Type 0} (n : ℕ) (l : List (ℕ × A)) → is_free n l ≡ true → find n l ≡ none
unfolding find
is_free-find n [] h = refl
is_free-find n ((m, a) ∷ l) h = ground (arith, is_free-find n l, h)

is_free-put :
    {A : Type 0} (n m : ℕ) (a : A) (l : List (ℕ × A))
    → is_free m (put n a l) ≡ (not (n == m) && is_free m l)
unfolding put
is_free-put n m a [] = refl
is_free-put n m a ((k, b) ∷ l) = ground (arith, is_free-put n m a l)

put-all_differ :
    {A : Type 0} (n : ℕ) (a : A) (l : List (ℕ × A))
    → all_differ l ≡ true
    → all_differ (put n a l) ≡ true
unfolding put
put-all_differ n a [] h = refl
put-all_differ n a ((k, b) ∷ l) h = ground (arith, put-all_differ n a l, is_free-put n k a l, h)

find-drop_key :
    {A : Type 0} (n m : ℕ) (l : List (ℕ × A))
    → all_differ l ≡ true
    → find m (drop_key n l) ≡ (if n == m then none else find m l)
unfolding find drop_key
find-drop_key n m [] h = ground arith
find-drop_key n m ((k, b) ∷ l) h = ground (arith, find-drop_key n m l, is_free-find k l, h)

-- A command that is sent has a number below 2^32, whatever number is asked for; it runs under its
-- number, with the commander that is named, and the others run as before; numbers still differ if
-- they did.
pub send_command_lem :
    (digits : ℕ → Text) (ref : ℕ) (target command_string : Text) (args : List Text)
    (commander : Option Text) (given callback limit : Option ℕ) (c : Connection)
    → all_differ c.running_commands ≡ true
    → (s : Running) × (n : ℕ) × (d : Connection) × (send_command digits ref target command_string
          args commander given callback limit c
        ≡ (n, d))
      × (n < 2 ^ 32)
      × (s.commander_id ≡ commanding commander c.commander)
      × IsSound s.command
      × ((m : ℕ)
          → find m d.running_commands ≡ (if n == m then some s else find m c.running_commands))
      × (all_differ d.running_commands ≡ true)
unfolding send_command
send_command_lem digits ref target command_string args commander given callback limit c h =
    let n = (numbered given c.mid).0 in
    let s : Running = record {
      command = new ref none false [] false (text "text") false false true limit;
      commander_id = commanding commander c.commander;
      reply_callback = callback;
      replies = [];
    } in
    (
      s,
      n,
      (send_command digits ref target command_string args commander given callback limit c).1,
      refl,
      numbered_bound given c.mid,
      refl,
      new-IsSound ref none false [] false (text "text") false false true limit,
      λ m. find-put n m s c.running_commands,
      put-all_differ n s c.running_commands h,
    )

-- With no number asked for, the number of a command is that of `_mid`, modulo 2^32, and the next
-- number is the one after it, modulo 2^32.
pub send_command-numbered :
    (digits : ℕ → Text) (ref : ℕ) (target command_string : Text) (args : List Text)
    (commander : Option Text) (callback limit : Option ℕ) (c : Connection)
    → let (n, d) =
        send_command digits ref target command_string args commander none callback limit c in
      (n ≡ c.mid % 2 ^ 32) × ((numbered none d.mid).0 ≡ (n + 1) % 2 ^ 32)
unfolding send_command numbered chosen
send_command-numbered digits ref target command_string args commander callback limit c =
    (ground arith, ground arith)

-- The command has the commander that the reply names.
abbrev pub is_own : Option Running → TronReply → Bool
is_own none r = false
is_own (some s) r = text_eq s.commander_id r.commander

-- A reply to a command that runs, from the connection's commander.
pub record HasAnswered (r : TronReply) (v : CommandStatus) (s t : Running) (c d : Connection)
    : Type 0 where
  pub advanced : IsAdvanced v t.command
  pub gained : (x : Reply) × (t.replies ≡ s.replies ++ x ∷ []) × (x.message ≡ r.parsed)
  pub entries :
      (m : ℕ)
      → find m d.running_commands ≡ (
          if r.command_id == m
          then (if is_done v then none else some t)
          else find m c.running_commands)

after_status-entries :
    (v : CommandStatus) (n m : ℕ) (t : Running) (c : Connection)
    → all_differ c.running_commands ≡ true
    → find m (after_status v n t c).running_commands
      ≡ (if n == m then (if is_done v then none else some t) else find m c.running_commands)
unfolding after_status
after_status-entries v n m t c h = elim (Bool-cases (is_done v)) [
  | inl e ↦ rw e (find-drop_key n m c.running_commands h)
  | inr e ↦ rw e (find-put n m t c.running_commands)
]

callback_called-running :
    (r : TronReply) (o : Option ℕ) (c : Connection)
    → (callback_called r o c).running_commands ≡ c.running_commands
unfolding callback_called
callback_called-running r none c = refl
callback_called-running r (some f) c = refl

-- A reply with a known code, from the commander of a command that runs under its number, is sound
-- and is neither done nor finished, when no number stands twice among those that run: nothing is
-- raised; the command takes the status of the code and the reply with its data, it runs no more if
-- that status is done, and the others run as before.
pub handle_reply-HasAnswered :
    (r : TronReply) (s : Running) (code : MessageCode) (c : Connection)
    → find r.command_id c.running_commands ≡ some s
    → text_eq s.commander_id r.commander ≡ true
    → message_code (lower r.code) ≡ ok code
    → IsSound s.command
    → is_done s.command.status ≡ false
    → s.command.finished ≡ false
    → all_differ c.running_commands ≡ true
    → (t : Running) × (d : Connection) × (handle_reply r c ≡ ok d)
      × HasAnswered r (code_to_status (lower r.code) none) s t c d
unfolding handle_reply reply_to gathered
handle_reply-HasAnswered r s code c found same known sound active open_ differ =
    let v = code_to_status (lower r.code) none in
    let (u, e, b) = code_to_status-IsCoded (lower r.code) in
    let (w, a) = set_status-IsAdvanced s.command v u e b sound active open_ in
    let p = set_status no_actor (flag v) no_message false plain s.command tt in
    let t : Running = record (gathered r code s) { command = p.1 } in
    let f = callback_called r s.reply_callback c in
    let k = callback_called-running r s.reply_callback c in
    (
      t,
      after_status v r.command_id t f,
      rw (found, same, known, w) refl,
      record {
        advanced = a;
        gained = (_, refl, refl);
        entries = λ m.
            after_status-entries v r.command_id m t f (ap all_differ k ∙ differ)
            ∙ ap
                (λ (l : List (ℕ × Running)).
                  if r.command_id == m then (if is_done v then none else some t) else find m l)
                k;
      },
    )

-- A reply under a number of no command, or of a command with another commander, changes nothing.
pub handle_reply-other :
    (r : TronReply) (c : Connection)
    → is_own (find r.command_id c.running_commands) r ≡ false
    → handle_reply r c ≡ ok c
unfolding handle_reply
handle_reply-other r c h = of_command (find r.command_id c.running_commands) h
  where
    of_command : (o : Option Running) → is_own o r ≡ false → reply_to r o c ≡ ok c
    of_command none h = unfold reply_to in refl
    of_command (some s) h = unfold reply_to in (rw h refl)
