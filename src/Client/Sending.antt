-- ===== src/Client/Sending.antt =====
-- A command that the client sends, and the replies to it.
use clu.Prelude.{
  ℕ, ◌≡◌, refl, Bool, true, false, Option, none, some, List, [], Text, text, text_eq, text_eq_refl,
  ok, ◌∙◌,
}
use clu.Prelude.Dict.{lookup, lookup-insert}
use clu.Status.{is_done}
use clu.Reply.{Message, MessageCode, message_code}
use clu.Command.{Command, new}
use clu.Command.Trace.{IsSound, new-IsSound}
use clu.Client.{AmqpReply, Sent, Client, Origin, Published, send_command, handled}
use clu.Client.Models.{ModelsValid, HasUpdated}
use clu.Client.Replies.{HasReceived, HasKept, handled-running}

-- The command that is sent.
abbrev pub outgoing : ℕ → Bool → Option ℕ → Option ℕ → Sent
outgoing ref internal limit callback = record {
  command = new ref none false [] false (text "text") false internal true limit;
  reply_callback = callback;
  replies = [];
}

-- A sound command that is neither done nor finished.
pub record IsFresh (c : Command) : Type 0 where
  pub sound : IsSound c
  pub active : is_done c.status ≡ false
  pub open_ : c.finished ≡ false

pub outgoing-IsFresh :
    (ref : ℕ) (internal : Bool) (limit callback : Option ℕ)
    → IsFresh (outgoing ref internal limit callback).command
unfolding new is_done
outgoing-IsFresh ref internal limit callback = record {
  sound = new-IsSound ref none false [] false (text "text") false internal true limit;
  active = refl;
  open_ = refl;
}

module _ (fresh : Text) (ref : ℕ) (consumer command_string : Text) (args : List Text)
    (id : Option Text) (callback : Option ℕ) (internal : Bool) (origin : Option Origin)
    (limit : Option ℕ) (c : Client) where
  -- What `send_command` publishes, and the client after it.
  abbrev pub request : Published
  request =
      (send_command fresh ref consumer command_string args id callback internal origin limit c).0

  abbrev pub waiting : Client
  waiting =
      (send_command fresh ref consumer command_string args id callback internal origin limit c).1

  -- A command that is sent is registered under the identifier that is published, and a valid reply
  -- to that identifier, with a known code, is given to it: it takes the status of the code, is
  -- finished exactly if that status is done, has that one reply, and stays registered with the
  -- others. The identifier is not empty and the models of the client are valid.
  pub send_command-handled :
      (loads : Text → Option Message) (time : ℕ) (now : Text → ℕ) (r : AmqpReply)
      (code : MessageCode)
      → r.is_valid ≡ true
      → r.command_id ≡ some request.command_id
      → text_eq request.command_id [] ≡ false
      → message_code r.message_code ≡ ok code
      → ModelsValid c.models
      → (t : Sent) × (e : Client) × (lookup request.command_id waiting.running_commands
          ≡ some (outgoing ref request.internal limit callback))
        × (handled loads time now r waiting ≡ ok e)
        × HasReceived r (outgoing ref request.internal limit callback) t
        × HasKept request.command_id t waiting e
        × HasUpdated now r waiting e
  unfolding send_command
  send_command-handled loads time now r code v i z m models =
      let o = outgoing ref request.internal limit callback in
      let l : lookup request.command_id waiting.running_commands ≡ some o =
        lookup-insert request.command_id request.command_id o c.running_commands
        ∙ rw (text_eq_refl request.command_id) in
      let f = outgoing-IsFresh ref request.internal limit callback in
      let (t, e, q, got, kept, up) =
        handled-running loads time now r request.command_id o code waiting v i z l m f.sound
          f.active f.open_ models in
      (t, e, l, q, got, kept, up)
