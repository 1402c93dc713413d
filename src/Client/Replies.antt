-- ===== src/Client/Replies.antt =====
-- What `handle_reply` does to the commands that run and to the models.
use clu.Prelude.{
  ℕ, ◌<◌, ◌≡◌, refl, ap, sym, subst, ◌∙◌, Bool, true, false, Option, none, some, List, [], ◌∷◌,
  ◌++◌, Text, text, text_eq, if◌then◌else◌, ok, not, ◌&&◌, ◌||◌, arith, Bool-cases, inl, inr, ◌⊎◌,
  ◌==◌,
}
use clu.Prelude.Dict.{Dict, lookup, insert, lookup-insert}
use clu.Status.{CommandStatus, code_to_status, is_done}
use clu.Status
use clu.Reply.{Message, MessageCode, message_code}
use clu.Model.{Model}
use clu.Command.{Command, no_message, flag, set_status, to_status}
use clu.Command.Ends.{set_status-ok, set_status-HasChanged}
use clu.Command.Trace.{IsSound, Reach-IsSound, next, here, calls}
use clu.Client.Models.{ModelsValid, view, HasUpdated, update_sender-HasUpdated}
use clu.Client.{
  AmqpReply, Sent, Client, ReplyCallback, find, plain, no_actor, advance, update_sender, gathered,
  reply_called, settle, update_running, named, call_reply, handled, Incoming, read, mismatched,
  or_text, invalid, handle_reply,
}

abbrev pub IsCoded : CommandStatus → Type 0
IsCoded v = (u : Text) × (Status.code v ≡ some u) × (v < 512)

done-IsCoded : IsCoded Status.done
unfolding Status.code
done-IsCoded = (text ":", refl, omega arith)

failed-IsCoded : IsCoded Status.failed
unfolding Status.code
failed-IsCoded = (text "f", refl, omega arith)

running-IsCoded : IsCoded Status.running
unfolding Status.code
running-IsCoded = (text ">", refl, omega arith)

status_cases :
    (t : Text)
    → (code_to_status t none ≡ Status.done)
      ⊎ (code_to_status t none ≡ Status.failed)
      ⊎ (code_to_status t none ≡ Status.running)
unfolding code_to_status
status_cases t = ground arith

-- Every text is read as a status with a code.
pub code_to_status-IsCoded : (t : Text) → IsCoded (code_to_status t none)
code_to_status-IsCoded t = elim (status_cases t) [
  | inl e ↦ rw e done-IsCoded
  | inr (inl e) ↦ rw e failed-IsCoded
  | inr (inr e) ↦ rw e running-IsCoded
]

-- A command after its status has been brought to v: the status, the future, and its invariant.
pub record IsAdvanced (v : CommandStatus) (d : Command) : Type 0 where
  pub status : d.status ≡ v
  pub finished : d.finished ≡ is_done v
  pub sound : IsSound d

-- `set_status` with a status that has a code, on a command that is neither done nor finished.
pub set_status-IsAdvanced :
    (c : Command) (v : CommandStatus) (u : Text)
    → Status.code v ≡ some u
    → v < 512
    → IsSound c
    → is_done c.status ≡ false
    → c.finished ≡ false
    → let r = set_status no_actor (flag v) no_message false plain c tt in
      (r.0 ≡ ok tt) × IsAdvanced v r.1
set_status-IsAdvanced c v u e b sound d f =
    let w =
      set_status-ok no_actor v no_message false plain c tt u (λ a x. refl) refl sound.valid d f b
        e in
    let h =
      set_status-HasChanged no_actor (flag v) no_message false plain c tt v u sound.valid d f
        (unfold to_status in refl) e w in
    (
      w,
      record {
        status = h.status;
        finished = h.finished;
        sound =
            Reach-IsSound no_actor sound
              (next here (calls (flag v) no_message false plain tt refl));
      },
    )

advance-IsAdvanced :
    (c : Command) (v : CommandStatus) (u : Text)
    → Status.code v ≡ some u
    → v < 512
    → IsSound c
    → is_done c.status ≡ false
    → c.finished ≡ false
    → (d : Command) × (advance v c ≡ ok d) × IsAdvanced v d
unfolding advance
advance-IsAdvanced c v u e b sound d f = elim (Bool-cases (c.status == v)) [
  | inl q ↦
      let p : c.status ≡ v = ground arith in
      (c, rw q, record { status = p; finished = f ∙ sym (ap is_done (sym p) ∙ d); sound = sound })
  | inr q ↦
      let (w, h) = set_status-IsAdvanced c v u e b sound d f in
      ((set_status no_actor (flag v) no_message false plain c tt).1, rw (q, w), h)
]

-- A callback changes neither the commands nor the models nor the callbacks.
pub record SameState (c d : Client) : Type 0 where
  pub running_commands : d.running_commands ≡ c.running_commands
  pub models : d.models ≡ c.models
  pub callbacks : d.callbacks ≡ c.callbacks

call_reply-SameState :
    (r : AmqpReply) (l : List ReplyCallback) (c : Client) → SameState c (call_reply r l c)
unfolding call_reply
call_reply-SameState r [] c = record { running_commands = refl; models = refl; callbacks = refl }
call_reply-SameState r (cb ∷ l) c =
    let d =
      if cb.is_coroutine
      then record c { tasks = c.tasks ++ (cb.id, r) ∷ [] }
      else record c { called = c.called ++ (cb.id, r) ∷ [] } in
    let s = call_reply-SameState r l d in
    record {
      running_commands = s.running_commands ∙ ground arith;
      models = s.models ∙ ground arith;
      callbacks = s.callbacks ∙ ground arith;
    }

reply_called-SameState : (r : AmqpReply) (s : Sent) (c : Client) → SameState c (reply_called r s c)
unfolding reply_called
reply_called-SameState r s c = record {
  running_commands = ground arith;
  models = ground arith;
  callbacks = ground arith;
}

-- A command of the client after a reply: it has taken the status of the code and the reply.
pub record HasReceived (r : AmqpReply) (s t : Sent) : Type 0 where
  pub advanced : IsAdvanced (code_to_status r.message_code none) t.command
  pub callback : t.reply_callback ≡ s.reply_callback
  pub replies :
      (code : MessageCode)
      → message_code r.message_code ≡ ok code
      → t.replies
        ≡ s.replies
          ++ record {
            message_code = code;
            message = r.body;
            command = some s.command.ref;
            broadcast = false;
            use_validation = false;
            validated = true;
            internal = r.internal;
          }
            ∷ []

-- The commands after a reply to the one of this identifier: it is still there, and the others are
-- as they were.
pub record HasKept (k : Text) (t : Sent) (c d : Client) : Type 0 where
  pub entries :
      (j : Text)
      → lookup j d.running_commands ≡ (if text_eq k j then some t else lookup j c.running_commands)

never : {A : Type 0} (b f : Bool) (x y : A) → f ≡ b → (if b && not f then x else y) ≡ y
never true f x y e = rw e
never false f x y e = refl

settle-insert :
    (v : CommandStatus) (k : Text) (t : Sent) (c : Client)
    → t.command.finished ≡ is_done v
    → settle v k t c ≡ record c { running_commands = insert k t c.running_commands }
unfolding settle
settle-insert v k t c e = never (is_done v) t.command.finished _ _ e

settle-HasKept :
    (v : CommandStatus) (k : Text) (t : Sent) (c : Client)
    → t.command.finished ≡ is_done v
    → HasKept k t c (settle v k t c)
settle-HasKept v k t c e =
    subst (HasKept k t c) (sym (settle-insert v k t c e))
      (record { entries = λ j. lookup-insert k j t c.running_commands })

models-settle :
    (v : CommandStatus) (k : Text) (t : Sent) (c : Client) → (settle v k t c).models ≡ c.models
unfolding settle
models-settle v k t c = ground arith

update_running_lem :
    (r : AmqpReply) (k : Text) (s : Sent) (code : MessageCode) (c : Client)
    → message_code r.message_code ≡ ok code
    → IsSound s.command
    → is_done s.command.status ≡ false
    → s.command.finished ≡ false
    → (t : Sent) × (d : Client) × (update_running r (some (k, s)) c ≡ ok d)
      × HasReceived r s t
      × HasKept k t c d
      × (d.models ≡ c.models)
unfolding update_running gathered
update_running_lem r k s code c e sound n f =
    let v = code_to_status r.message_code none in
    let (u, q, b) = code_to_status-IsCoded r.message_code in
    let (x, p, a) = advance-IsAdvanced s.command v u q b sound n f in
    let g : Sent = record s {
      replies =
          s.replies
          ++ record {
            message_code = code;
            message = r.body;
            command = some s.command.ref;
            broadcast = false;
            use_validation = false;
            validated = true;
            internal = r.internal;
          }
            ∷ [];
    } in
    let t : Sent = record g { command = x } in
    let same = reply_called-SameState r g c in
    let kept = settle-HasKept v k t (reply_called r g c) a.finished in
    (
      t,
      settle v k t (reply_called r g c),
      rw (e, p),
      record { advanced = a; callback = refl; replies = λ code' h. ground (arith, e, h) },
      record {
        entries = λ j.
            kept.entries j
            ∙ ap (λ (l : Dict Sent). if text_eq k j then some t else lookup j l)
                same.running_commands;
      },
      models-settle v k t (reply_called r g c) ∙ same.models,
    )

find-running :
    (o : Option Text) (k : Text) (l : Dict Sent) (s : Sent)
    → o ≡ some k
    → text_eq k [] ≡ false
    → lookup k l ≡ some s
    → find (named o) l ≡ some (k, s)
unfolding find named
find-running o k l s i z e = rw (i, z, find, e)

handled_steps :
    (loads : Text → Option Message) (time : ℕ) (now : Text → ℕ) (r : AmqpReply) (c a d : Client)
    (x : Option (Text × Sent))
    → r.is_valid ≡ true
    → update_sender time now r c ≡ ok a
    → find (named r.command_id) a.running_commands ≡ x
    → update_running r x a ≡ ok d
    → handled loads time now r c ≡ ok (call_reply r d.callbacks d)
unfolding handled
handled_steps loads time now r c a d x v p f q = simp (v, p, f, q)

-- A valid reply with a known code to a command that runs, is sound and is neither done nor
-- finished, at a client whose models are valid: the call raises nothing; the command takes the
-- status that its code is read as and the reply, the future is finished exactly if that status is
-- done, and the command stays among those that run, with the others as they were. The model of the
-- sender takes the body of the reply.
pub handled-running :
    (loads : Text → Option Message) (time : ℕ) (now : Text → ℕ) (r : AmqpReply) (k : Text)
    (s : Sent) (code : MessageCode) (c : Client)
    → r.is_valid ≡ true
    → r.command_id ≡ some k
    → text_eq k [] ≡ false
    → lookup k c.running_commands ≡ some s
    → message_code r.message_code ≡ ok code
    → IsSound s.command
    → is_done s.command.status ≡ false
    → s.command.finished ≡ false
    → ModelsValid c.models
    → (t : Sent) × (d : Client) × (handled loads time now r c ≡ ok d)
      × HasReceived r s t
      × HasKept k t c d
      × HasUpdated now r c d
handled-running loads time now r k s code c v i z l e sound n f models =
    let (a, p, up, same) = update_sender-HasUpdated time now r c models in
    let (t, d, q, got, kept, m) = update_running_lem r k s code a e sound n f in
    let last = call_reply-SameState r d.callbacks d in
    (
      t,
      call_reply r d.callbacks d,
      handled_steps loads time now r c a d (some (k, s)) v p
          (ap (λ (m : Dict Sent). find (named r.command_id) m) same
            ∙ find-running r.command_id k c.running_commands s i z l)
          q,
      got,
      record {
        entries = λ j.
            ap (lookup j) last.running_commands
            ∙ kept.entries j
            ∙ ap (λ (l : Dict Sent). if text_eq k j then some t else lookup j l) same;
      },
      record {
        valid = subst ModelsValid (sym (last.models ∙ m)) up.valid;
        views = λ j. ap (λ (l : Dict Model). view l j) (last.models ∙ m) ∙ up.views j;
      },
    )

-- A reply with no code, or whose header names another command than its correlation id, is read as
-- invalid, and changes nothing of the client.
pub handle_reply-invalid :
    (loads : Text → Option Message) (time : ℕ) (now : Text → ℕ) (m : Incoming) (c : Client)
    → (text_eq (or_text m.message_code []) [] || mismatched m.header_id m.correlation_id) ≡ true
    → (r : AmqpReply) × (handle_reply loads time now m c ≡ ok (r, c)) × (r.is_valid ≡ false)
unfolding handle_reply handled read
handle_reply-invalid loads time now m c h =
    let code = or_text m.message_code [] in
    elim (Bool-cases (text_eq code [])) [
      | inl e ↦ (invalid code false none none, rw e, refl)
      | inr e ↦
          let g : mismatched m.header_id m.correlation_id ≡ true = ground arith in
          (invalid code m.internal m.sender m.correlation_id, rw (e, g), refl)
    ]
