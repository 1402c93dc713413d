-- ===== src/Command/Ends.antt =====
-- A call of `set_status` that changes the status, and the calls that end a command.
use clu.Prelude.{
  ◌<◌, ◌≡◌, refl, sym, ◌∙◌, Bool, true, false, Option, none, some, [], ◌++◌, map, Text, text,
  text_eq, Result, ok, err, arith, ◌&&◌, ◌||◌, not, if◌then◌else◌, ◌==◌, Bool-cases, inl, inr,
  append-nil,
}
use clu.Status.{CommandStatus, is_done}
use clu.Status
use clu.Status.Codes.{message_code-code}
use clu.Reply.{message_code, MessageCode}
use clu.Command.{
  Command, MessageArg, Kwargs, ActorCall, StatusArg, Timer, armed, disarmed, no_timer, flag,
  code_text, no_message, unsupported, text_message, dict_message, exc_message, set_status, finish,
  fail, to_status, is_timedout, error_message, complete, change_to, with_code, finish_with, write,
  written, call, to_code,
}
use clu.Reply.Codes.{error_of}
use clu.Command.Written.{unsupported_message, written_errors}
use clu.Command.Lifecycle.{IsValid, nonzero}

abbrev is_armed : Timer → Bool
is_armed armed = true
is_armed disarmed = false
is_armed no_timer = false

-- A command after a successful change to the status v.
pub record HasChanged (c : Command) (v : CommandStatus) (d : Command) : Type 0 where
  pub status : d.status ≡ v
  pub finished : d.finished ≡ is_done v
  pub scheduled :
      d.scheduled ≡ c.scheduled ++ (if v == c.status then [] else map (λ f. (f, v)) c.callbacks)
  pub timer : (is_done v && is_armed d.timer) ≡ false

complete-HasChanged :
    (c : Command) (v : CommandStatus) (t : Text)
    → Status.code v ≡ some t
    → is_done c.status ≡ false
    → c.finished ≡ false
    → (v == c.status) ≡ false
    → HasChanged c v (complete v c)
unfolding complete
complete-HasChanged c v t e d f n = record {
  status = ground (arith, nonzero v t e);
  finished = ground (arith, nonzero v t e);
  scheduled = ground (arith, nonzero v t e);
  timer = ground (arith, nonzero v t e);
}

same-HasChanged :
    (c : Command) (v : CommandStatus)
    → is_done c.status ≡ false
    → c.finished ≡ false
    → (v == c.status) ≡ true
    → HasChanged c v c
same-HasChanged c v d f e =
    let p : v ≡ c.status = ground arith in
    record {
      status = sym p;
      finished = f ∙ sym (rw p d);
      scheduled = rw e (sym (append-nil c.scheduled));
      timer = rw (p, d);
    }

done_code : Status.code Status.done ≡ some (text ":")
unfolding Status.code
done_code = refl

failed_code : Status.code Status.failed ≡ some (text "f")
unfolding Status.code
failed_code = refl

module _ {W : Type 0} (actor_write : ActorCall → W → Result (Unit {0}) × W) where
  set_status-change_to :
      (s : StatusArg) (m : MessageArg) (quiet : Bool) (k : Kwargs) (c : Command) (w : W)
      → IsValid c
      → is_done c.status ≡ false
      → c.finished ≡ false
      → set_status actor_write s m quiet k c w ≡ change_to actor_write (to_status s) m quiet k c w
  set_status-change_to s m quiet k c w valid d f =
      unfold set_status in
      rw (nonzero c.status valid.has_code valid.coded, f, d)
        (elim (Bool-cases (is_timedout s)) [ inl e ↦ rw e | inr e ↦ rw e ])

  finish_with_ok :
      (v : CommandStatus) (c : Command) (r : Result (Unit {0}) × W)
      → (finish_with actor_write v c r).0 ≡ ok tt
      → (finish_with actor_write v c r).1 ≡ complete v c
  unfolding finish_with
  finish_with_ok v c (ok _, w) h = refl
  finish_with_ok v c (err _, w) h = cc

  with_code_ok :
      (v : CommandStatus) (o : Option Text) (m : MessageArg) (quiet : Bool) (k : Kwargs)
      (c : Command) (w : W)
      → (with_code actor_write v o m quiet k c w).0 ≡ ok tt
      → (with_code actor_write v o m quiet k c w).1 ≡ complete v c
  unfolding with_code
  with_code_ok v none m quiet k c w h = cc
  with_code_ok v (some t) m quiet k c w h = finish_with_ok v c _ h

  change_to-HasChanged :
      (v : CommandStatus) (m : MessageArg) (quiet : Bool) (k : Kwargs) (c : Command) (w : W)
      (t : Text)
      → is_done c.status ≡ false
      → c.finished ≡ false
      → Status.code v ≡ some t
      → (change_to actor_write (ok v) m quiet k c w).0 ≡ ok tt
      → HasChanged c v (change_to actor_write (ok v) m quiet k c w).1
  unfolding change_to
  change_to-HasChanged v m quiet k c w t d f e = elim (Bool-cases (v == c.status)) [
    | inl q ↦ rw q (λ h. same-HasChanged c v d f q)
    | inr n ↦ rw n (λ h.
        rw (with_code_ok v (Status.code v) m quiet k c w h) (complete-HasChanged c v t e d f n))
  ]

  -- On a valid command that is not done, with its future not finished, a call with a status that
  -- has a code, if it does not raise, leaves that status; the future is finished exactly if that
  -- status is done, the time limit is then off, and each callback is scheduled with the status if
  -- it is new.
  pub set_status-HasChanged :
      (s : StatusArg) (m : MessageArg) (quiet : Bool) (k : Kwargs) (c : Command) (w : W)
      (v : CommandStatus) (t : Text)
      → IsValid c
      → is_done c.status ≡ false
      → c.finished ≡ false
      → to_status s ≡ ok v
      → Status.code v ≡ some t
      → (set_status actor_write s m quiet k c w).0 ≡ ok tt
      → HasChanged c v (set_status actor_write s m quiet k c w).1
  set_status-HasChanged s m quiet k c w v t valid d f e x =
      rw (set_status-change_to s m quiet k c w valid d f, e)
        (change_to-HasChanged v m quiet k c w t d f x)

  pub call_ok :
      (c : Command) (t : Text) (m : MessageArg) (k : Kwargs) (w : W) (mc : MessageCode)
      → ((a : ActorCall) (x : W) → (actor_write a x).0 ≡ ok tt)
      → c.has_actor ≡ true
      → unsupported_message m ≡ false
      → message_code t ≡ ok mc
      → (write actor_write c (code_text t) m k w).0 ≡ ok tt
  call_ok c t m k w mc works h u e =
      unfold write in
      called (written c (code_text t) m k)
        (written_errors c (code_text t) m k ∙ (unfold to_code in rw (u, h, e)))
    where
      called :
          (r : Result (Option ActorCall)) → error_of r ≡ none → (call actor_write r w).0 ≡ ok tt
      called (ok none) q = unfold call in refl
      called (ok (some a)) q = unfold call in works a w
      called (err x) q = cc

  finish_with-0 :
      (v : CommandStatus) (c : Command) (r : Result (Unit {0}) × W)
      → r.0 ≡ ok tt
      → (finish_with actor_write v c r).0 ≡ ok tt
  unfolding finish_with
  finish_with-0 v c (ok _, w) h = refl
  finish_with-0 v c (err _, w) h = cc

  error_message_supported :
      (t : Text) (m : MessageArg)
      → unsupported_message m ≡ false
      → unsupported_message (error_message t m) ≡ false
  unfolding error_message
  error_message_supported t (text_message s) h =
      elim (Bool-cases (text_eq t (text "f") || text_eq t (text "e"))) [
        | inl e ↦ ground arith
        | inr e ↦ ground arith
      ]
  error_message_supported t no_message h = refl
  error_message_supported t unsupported h = cc
  error_message_supported t (dict_message d) h = refl
  error_message_supported t (exc_message e) h = refl

  write_or_skip :
      (c : Command) (t : Text) (m : MessageArg) (quiet : Bool) (k : Kwargs) (w : W)
      (mc : MessageCode)
      → ((a : ActorCall) (x : W) → (actor_write a x).0 ≡ ok tt)
      → unsupported_message m ≡ false
      → message_code t ≡ ok mc
      → (if c.has_actor && not quiet then write actor_write c (code_text t) m k w else (ok tt, w)).0
        ≡ ok tt
  write_or_skip c t m quiet k w mc works u e =
      pick (c.has_actor) quiet (λ h. call_ok c t m k w mc works h u e)
    where
      pick :
          (b q : Bool)
          → (b ≡ true → (write actor_write c (code_text t) m k w).0 ≡ ok tt)
          → (if b && not q then write actor_write c (code_text t) m k w else (ok tt, w)).0 ≡ ok tt
      pick true false h = h refl
      pick true true h = refl
      pick false q h = refl

  -- A supported message, an actor that does not raise and a status with a code: the call does not
  -- raise, on a command whose future is not finished.
  pub set_status-ok :
      (v : CommandStatus) (m : MessageArg) (quiet : Bool) (k : Kwargs) (c : Command) (w : W)
      (t : Text)
      → ((a : ActorCall) (x : W) → (actor_write a x).0 ≡ ok tt)
      → unsupported_message m ≡ false
      → IsValid c
      → is_done c.status ≡ false
      → c.finished ≡ false
      → v < 512
      → Status.code v ≡ some t
      → (set_status actor_write (flag v) m quiet k c w).0 ≡ ok tt
  set_status-ok v m quiet k c w t works u valid d f b e =
      let (mc, p) = message_code-code v t b e in
      rw (set_status-change_to (flag v) m quiet k c w valid d f) (
        unfold to_status change_to with_code in
        elim (Bool-cases (v == c.status)) [
          | inl q ↦ rw q
          | inr q ↦
              rw (q, e)
                (finish_with-0 v c _ (
                  write_or_skip c t (error_message t m) quiet k w mc works
                    (error_message_supported t m u) p))
        ])

  -- `finish` and `fail` end a valid command that is not done and whose future is not finished,
  -- whatever they are given but a message of an unsupported class, if the actor's `write` does not
  -- raise: they return, the status
  -- is DONE or FAILED, the future is finished, the time limit is off and each callback is scheduled
  -- with that status.
  pub finish-fail :
      (m : MessageArg) (quiet : Bool) (k : Kwargs) (c : Command) (w : W)
      → ((a : ActorCall) (x : W) → (actor_write a x).0 ≡ ok tt)
      → unsupported_message m ≡ false
      → IsValid c
      → is_done c.status ≡ false
      → c.finished ≡ false
      → let r = finish actor_write m quiet k c w in
        let s = fail actor_write m quiet k c w in
        (r.0 ≡ ok tt)
        × HasChanged c Status.done r.1
        × (s.0 ≡ ok tt)
        × HasChanged c Status.failed s.1
  unfolding finish fail
  finish-fail m quiet k c w works u valid d f =
      let p =
        set_status-ok Status.done m quiet k c w (text ":") works u valid d f (omega arith)
          done_code in
      let q =
        set_status-ok Status.failed m quiet k c w (text "f") works u valid d f (omega arith)
          failed_code in
      (
        p,
        set_status-HasChanged (flag Status.done) m quiet k c w Status.done (text ":") valid d f
            (unfold to_status in refl) done_code p,
        q,
        set_status-HasChanged (flag Status.failed) m quiet k c w Status.failed (text "f") valid d f
            (unfold to_status in refl) failed_code q,
      )
