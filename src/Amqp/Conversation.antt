-- ===== src/Amqp/Conversation.antt =====
-- A command from the client that sends it to the actor that takes it, and back.
use clu.Prelude.{
  ℕ, ◌≡◌, refl, ap, sym, ◌∙◌, Bool, true, false, Option, none, some, List, [], ◌∷◌, ◌++◌, Text,
  text, text_eq, text_eq_refl, ok, arith,
}
use clu.Status
use clu.Status.{code_to_status, is_done}
use clu.Reply.{Message, MessageCode, code_value, message_code, started, failed}
use clu.Reply.Codes.{code_value-message_code}
use clu.Client.{
  AmqpReply, Sent, Client, Incoming, Origin, Published, read, or_text, mismatched, with_body,
  handled, handle_reply,
}
use clu.Client.Models.{ModelsValid}
use clu.Client.Replies.{HasReceived, HasKept}
use clu.Client.Sending.{request, waiting, outgoing, send_command-handled}
use clu.Amqp.{
  ReplyMessage, AmqpActor, Output, new_command, routing_key, shown, reply_message, write_internal,
  undelivered, unrouted,
}

-- The message that arrives: the headers, the correlation id and the body that were published.
abbrev pub arrived : ReplyMessage → Incoming
arrived m = record {
  message_code = some m.message_code;
  internal = m.internal;
  sender = some m.sender;
  header_id = m.command_id;
  correlation_id = m.correlation_id;
  body = m.body;
}

-- A valid reply of a message and its body.
abbrev pub reply_of : ReplyMessage → Message → AmqpReply
reply_of m body = record {
  is_valid = true;
  message_code = m.message_code;
  internal = m.internal;
  sender = some m.sender;
  command_id = m.correlation_id;
  body = body;
}

same_id : (o : Option Text) → mismatched o o ≡ false
unfolding mismatched
same_id none = refl
same_id (some t) = rw (text_eq_refl t) (ground arith)

arrived-read :
    (loads : Text → Option Message) (m : ReplyMessage) (body : Message)
    → text_eq m.message_code [] ≡ false
    → m.command_id ≡ m.correlation_id
    → loads m.body ≡ some body
    → read loads (arrived m) ≡ ok (reply_of m body)
unfolding read or_text with_body
arrived-read loads m body c i l =
    let e : mismatched m.command_id m.correlation_id ≡ false =
      ap (λ o. mismatched o m.correlation_id) i ∙ same_id m.correlation_id in
    rw (c, e, l) refl

code_value-text : (c : MessageCode) → text_eq (code_value c) [] ≡ false
unfolding code_value text_eq
code_value-text started = refl
code_value-text _ = refl

failed-status : code_to_status (text "f") none ≡ Status.failed
unfolding code_to_status text_eq
failed-status = refl

failed-is_done : is_done (code_to_status (text "f") none) ≡ true
unfolding code_to_status text_eq is_done
failed-is_done = refl

handled-handle_reply :
    (loads : Text → Option Message) (time : ℕ) (now : Text → ℕ) (m : Incoming) (r : AmqpReply)
    (c d : Client)
    → read loads m ≡ ok r
    → handled loads time now r c ≡ ok d
    → handle_reply loads time now m c ≡ ok (r, d)
unfolding handle_reply
handled-handle_reply loads time now m r c d e f = rw (e, f) refl

module _ (fresh : Text) (ref : ℕ) (consumer command_string : Text) (args : List Text)
    (id : Option Text) (callback : Option ℕ) (internal : Bool) (origin : Option Origin)
    (limit : Option ℕ) (c : Client) (dumps : Message → Text) (loads : Text → Option Message)
    (time : ℕ) (now : Text → ℕ) where
  -- What the client publishes, the client that waits, and the command that it holds.
  abbrev pub asked : Published
  asked = request fresh ref consumer command_string args id callback internal origin limit c

  abbrev pub asking : Client
  asking = waiting fresh ref consumer command_string args id callback internal origin limit c

  abbrev pub kept : Sent
  kept = outgoing ref asked.internal limit callback

  -- A message with a code reaches the command that the client has sent, when it carries its number.
  reached :
      (m : ReplyMessage) (code : MessageCode) (body : Message)
      → m.message_code ≡ code_value code
      → m.command_id ≡ some asked.command_id
      → m.correlation_id ≡ some asked.command_id
      → loads m.body ≡ some body
      → text_eq asked.command_id [] ≡ false
      → ModelsValid c.models
      → (t : Sent) × (e : Client) × (handle_reply loads time now (arrived m) asking
          ≡ ok (reply_of m body, e))
        × HasReceived (reply_of m body) kept t
        × HasKept asked.command_id t asking e
  reached m code body a b d l n v =
      let r = reply_of m body in
      let k : message_code m.message_code ≡ ok code =
        ap message_code a ∙ code_value-message_code code in
      let (t, e, _, h, got, held, _) =
        send_command-handled fresh ref consumer command_string args id callback internal origin
          limit c loads time now r code refl d n k v in
      let f =
        arrived-read loads m body (ap (λ x. text_eq x []) a ∙ code_value-text code) (b ∙ sym d) l in
      (t, e, handled-handle_reply loads time now (arrived m) r asking e f h, got, held)

  -- An actor whose exchange is ready takes the command of a client and writes a reply to it that
  -- is not a broadcast, with any code: one message is published, for the commander of the command,
  -- and when it arrives the client reads it, gives the code and the body to the command that it
  -- sent, and keeps the others. JSON gives the message back, the number of the command is not
  -- empty and the models of the client are valid.
  pub write_internal-handle_reply :
      (a : AmqpActor) (code : MessageCode) (message : Message) (secret : Bool)
      → a.is_ready ≡ true
      → loads (dumps message) ≡ some message
      → text_eq asked.command_id [] ≡ false
      → ModelsValid c.models
      → (m : ReplyMessage) × (t : Sent) × (e : Client) × ((write_internal dumps
            (record {
              code = code;
              message = message;
              command = some (new_command a.name asked);
              broadcast = false;
              internal = secret;
            })
            a).published
          ≡ a.published ++ m ∷ [])
        × (m.routing_key ≡ text "reply." ++ asked.commander_id)
        × (handle_reply loads time now (arrived m) asking ≡ ok (reply_of m message, e))
        × (m.message_code ≡ code_value code)
        × HasReceived (reply_of m message) kept t
        × HasKept asked.command_id t asking e
  unfolding write_internal reply_message new_command routing_key shown
  write_internal-handle_reply a code message secret ready l n v =
      let o : Output = record {
        code = code;
        message = message;
        command = some (new_command a.name asked);
        broadcast = false;
        internal = secret;
      } in
      let m = reply_message dumps a.name o in
      let (t, e, h, got, held) = reached m code message refl refl refl l n v in
      (m, t, e, rw ready refl, refl, h, refl, got, held)

  -- A command that no consumer has taken: when the reply that the client publishes to itself
  -- arrives, the command has failed and its future is finished. JSON gives the message back, the
  -- number of the command is not empty and the models of the client are valid.
  pub undelivered-handle_reply :
      (quoted : Text)
      → loads (dumps (unrouted quoted)) ≡ some (unrouted quoted)
      → text_eq asked.command_id [] ≡ false
      → ModelsValid c.models
      → (r : AmqpReply) × (t : Sent) × (e : Client) × (handle_reply loads time now
            (arrived (undelivered dumps c.name consumer quoted asked))
            asking
          ≡ ok (r, e))
        × (t.command.status ≡ Status.failed)
        × (t.command.finished ≡ true)
        × HasKept asked.command_id t asking e
  unfolding undelivered code_value
  undelivered-handle_reply quoted l n v =
      let m = undelivered dumps c.name consumer quoted asked in
      let (t, e, h, got, held) = reached m failed (unrouted quoted) refl refl refl l n v in
      (
        _,
        t,
        e,
        h,
        got.advanced.status ∙ failed-status,
        got.advanced.finished ∙ failed-is_done,
        held,
      )
