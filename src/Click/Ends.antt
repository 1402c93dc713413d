-- ===== src/Click/Ends.antt =====
-- How a command ends when the parser or its callback raises, times out or is cancelled.
use clu.Prelude.{
  value_error, ◌≢◌, ◌≡◌, refl, sym, ap, ◌∙◌, Bool, true, false, Option, none, some, List, [], ◌∷◌,
  Text, text, Result, ok, err, Error, arith, if◌then◌else◌,
}
use clu.Value.{Value, str}
use clu.Reply.{message_code, MessageCode, warning, error, info}
use clu.Status.{CommandStatus, is_done, timedout, cancelled}
use clu.Status
use clu.Command.{Command, ActorCall, Kwargs, no_message, flag, set_status}
use clu.Keys.Reads.{some_inj}
use clu.Handler.{split_lines}
use clu.Command.{complete, StatusArg, MessageArg}
use clu.Command.Lifecycle.{Change, same, warns, changes, set_status-Change}
use clu.Command.Ends.{call_ok}
use clu.Command.Open.{IsOpen, HasEnded, set_status-HasEnded, fail-HasEnded, running-IsOpen}
use clu.Click.{
  Failure, click_error, leaves, uncaught, Problem, unknown, aborted, crashed, timed_out,
  was_cancelled, plain, with_keyword, and_write, after_write, warnings, show_help, write_only,
  fail_with, raising, handle_exception, Ending, returns, times_out, is_cancelled, fails,
  end_callback, handled, in_context, run_parser, after_running, parse_command, with_help,
  command_args, lines_value,
}
use clu.Click

pub warning-code : message_code (text "w") ≡ ok MessageCode.warning
unfolding message_code clu.Prelude.text_eq clu.Reply.code_value
warning-code = refl

error-code : message_code (text "e") ≡ ok MessageCode.error
unfolding message_code clu.Prelude.text_eq clu.Reply.code_value
error-code = refl

pub info-code : message_code (text "i") ≡ ok MessageCode.info
unfolding message_code clu.Prelude.text_eq clu.Reply.code_value
info-code = refl

timedout-code : Status.code timedout ≡ some (text "f")
unfolding Status.code
timedout-code = refl

cancelled-code : Status.code cancelled ≡ some (text "f")
unfolding Status.code
cancelled-code = refl

timedout-done : is_done timedout ≡ true
unfolding is_done
timedout-done = refl

cancelled-done : is_done cancelled ≡ true
unfolding is_done
cancelled-done = refl

-- What is raised again, once the command has ended.
abbrev pub raised : Bool → Failure → Result (Unit {0})
raised b (click_error message) = ok tt
raised b leaves = ok tt
raised b (uncaught e) = if b then err e else ok tt

-- The status that an ending gives to a command that has not ended, and what is raised.
abbrev pub status_of : Ending → Option CommandStatus
status_of returns = none
status_of times_out = some timedout
status_of is_cancelled = some cancelled
status_of (fails f) = some Status.failed

abbrev pub raised_at : Bool → Ending → Result (Unit {0})
raised_at b returns = ok tt
raised_at b times_out = ok tt
raised_at b is_cancelled = ok tt
raised_at b (fails f) = raised b f

has_actor-complete : (v : CommandStatus) (c : Command) → (complete v c).has_actor ≡ c.has_actor
unfolding complete
has_actor-complete v c = ground arith

kept : {c d : Command} → Change c d → d.has_actor ≡ c.has_actor
kept same = refl
kept warns = refl
kept {c} (changes v t a e) = has_actor-complete v c

pub and_write-ok :
    {W : Type 0} (r : Result (Unit {0}) × W) (f : W → Result (Unit {0}) × W)
    → r.0 ≡ ok tt
    → ((w : W) → (f w).0 ≡ ok tt)
    → (and_write r f).0 ≡ ok tt
unfolding and_write
and_write-ok (ok _, w) f h g = g w
and_write-ok (err e, w) f h g = cc

pub after_write-HasEnded :
    {W : Type 0} (v : CommandStatus) (r : Result (Unit {0}) × W) (c : Command)
    (f : W → Result (Unit {0}) × Command × W)
    → r.0 ≡ ok tt
    → ((w : W) → ((f w).0 ≡ ok tt) × HasEnded v (f w).1)
    → let s = after_write r c f in (s.0 ≡ ok tt) × HasEnded v s.1
unfolding after_write
after_write-HasEnded v (ok _, w) c f h g = g w
after_write-HasEnded v (err e, w) c f h g = cc

module _ {W : Type 0} (actor_write : ActorCall → W → Result (Unit {0}) × W)
    (complain : Problem → Text)
    (works : (a : ActorCall) (x : W) → (actor_write a x).0 ≡ ok tt) where
  warning-ok :
      (v : Value) (c : Command) (w : W)
      → c.has_actor ≡ true
      → (Click.warning actor_write complain v c w).0 ≡ ok tt
  warning-ok v c w h =
      unfold Click.warning in
      call_ok actor_write c (text "w") no_message _ w MessageCode.warning works h refl warning-code

  warnings-ok :
      (ls : List Text) (c : Command) (w : W)
      → c.has_actor ≡ true
      → (warnings actor_write complain ls c w).0 ≡ ok tt
  unfolding warnings
  warnings-ok [] c w h = refl
  warnings-ok (l ∷ ls) c w h =
      and_write-ok _ (warnings actor_write complain ls c) (warning-ok (str l) c w h)
        (λ x. warnings-ok ls c x h)

  show_help-ok :
      (b : Bool) (ls : List Text) (c : Command) (w : W)
      → c.has_actor ≡ true
      → (show_help actor_write complain b ls c w).0 ≡ ok tt
  unfolding show_help
  show_help-ok true ls c w h = warning-ok _ c w h
  show_help-ok false ls c w h = warnings-ok ls c w h

  fail_with-HasEnded :
      (p : Problem) (c : Command) (w : W)
      → IsOpen c
      → let r = fail_with actor_write complain p c w in (r.0 ≡ ok tt) × HasEnded Status.failed r.1
  unfolding fail_with
  fail_with-HasEnded p c w i = fail-HasEnded actor_write works no_message false _ c w refl i

  raising-0 :
      (b : Bool) (e : Error) (r : Result (Unit {0}) × Command × W)
      → r.0 ≡ ok tt
      → ((raising actor_write complain b e r).0 ≡ raised b (uncaught e))
        × ((raising actor_write complain b e r).1 ≡ r.1)
  unfolding raising
  raising-0 b e (ok _, c, w) h = (refl, refl)
  raising-0 b e (err x, c, w) h = cc

  -- A command that has not ended is failed by any exception that reaches the handler, and what is
  -- then raised again is an exception that is not click's, where the parser is told to raise.
  pub handle_exception-HasEnded :
      (json_like raises : Bool) (f : Failure) (c : Command) (w : W)
      → c.has_actor ≡ true
      → IsOpen c
      → let r = handle_exception actor_write complain json_like raises f c w in
        (r.0 ≡ raised raises f) × HasEnded Status.failed r.1
  unfolding handle_exception
  handle_exception-HasEnded json_like raises (click_error message) c w h i =
      after_write-HasEnded Status.failed _ c _ (show_help-ok json_like (split_lines message) c w h)
        (λ x. rw i.active (fail_with-HasEnded unknown c x i))
  handle_exception-HasEnded json_like raises leaves c w h i =
      rw i.active (fail_with-HasEnded aborted c w i)
  handle_exception-HasEnded json_like raises (uncaught e) c w h i = rw i.active (
      let (p, q) = fail_with-HasEnded crashed c w i in
      let (s, t) = raising-0 raises e (fail_with actor_write complain crashed c w) p in (s, rw t q))

  -- A sound command that has not ended when its callback ends in a timeout, a cancellation or an
  -- exception is ended by it: TIMEDOUT, CANCELLED or FAILED, with its future finished, if the
  -- actor's `write` does not raise. Only an exception that is not click's is raised again, where
  -- the parser is told to raise.
  pub end_callback-HasEnded :
      (json_like raises : Bool) (e : Ending) (v : CommandStatus) (c : Command) (w : W)
      → status_of e ≡ some v
      → c.has_actor ≡ true
      → IsOpen c
      → let r = end_callback actor_write complain json_like raises e c w in
        (r.0 ≡ raised_at raises e) × HasEnded v r.1
  unfolding end_callback
  end_callback-HasEnded json_like raises returns v c w s h i = cc
  end_callback-HasEnded json_like raises times_out v c w s h i =
      rw (i.active, sym (some_inj s))
        (set_status-HasEnded actor_write works timedout (text "f") _ false plain c w timedout-code
          (omega arith) timedout-done refl i)
  end_callback-HasEnded json_like raises is_cancelled v c w s h i =
      rw (i.active, sym (some_inj s))
        (set_status-HasEnded actor_write works cancelled (text "f") _ false plain c w cancelled-code
          (omega arith) cancelled-done refl i)
  end_callback-HasEnded json_like raises (fails f) v c w s h i =
      rw (sym (some_inj s)) (handle_exception-HasEnded json_like raises f c w h i)

  has_actor-set_status :
      (s : StatusArg) (m : MessageArg) (quiet : Bool) (k : Kwargs) (c : Command) (w : W)
      → (set_status actor_write s m quiet k c w).1.has_actor ≡ c.has_actor
  has_actor-set_status s m quiet k c w = kept (set_status-Change actor_write s m quiet k c w)

  run_parser-failure :
      (json_like raises : Bool) (made : List Text → Option Error)
      (invoked : List Text → Command → W → Option Failure × Command × W) (args : List Text)
      (f : Failure) (c : Command) (w : W)
      → made args ≡ none
      → invoked args c w ≡ (some f, c, w)
      → run_parser actor_write complain json_like raises made invoked (some args) c w
        ≡ handle_exception actor_write complain json_like raises f c w
  unfolding run_parser in_context handled
  run_parser-failure json_like raises made invoked args f c w m e = rw (m, e)

  after_running-ok :
      (r : Result (Unit {0}) × Command × W) (g : Command → W → Result (Unit {0}) × Command × W)
      → r.0 ≡ ok tt
      → after_running actor_write complain r g ≡ g r.1 r.2
  unfolding after_running
  after_running-ok (ok _, c, w) g h = refl
  after_running-ok (err e, c, w) g h = cc

  -- A sound command with an actor that has not ended, and whose body is not empty: when the
  -- arguments can be split and the context made, and the parser raises for them in a command that
  -- it has left alone, the command has failed when `parse_command` ends, with its future finished.
  -- So a command that does not exist or that cannot be parsed never stays running, if the actor's
  -- `write` does not raise.
  pub parse_command-HasEnded :
      (json_like raises : Bool) (split : Text → Option (List Text))
      (made : List Text → Option Error)
      (invoked : List Text → Command → W → Option Failure × Command × W) (body : Text)
      (args : List Text) (f : Failure) (c : Command) (w : W)
      → command_args split (with_help body) ≡ some args
      → made args ≡ none
      → ((d : Command) (x : W) → invoked args d x ≡ (some f, d, x))
      → body ≢ []
      → c.has_actor ≡ true
      → IsOpen c
      → let r = parse_command actor_write complain json_like raises split made invoked body c w in
        (r.0 ≡ raised raises f) × HasEnded Status.failed r.1
  parse_command-HasEnded json_like raises split made invoked [] args f c w a m e n h i =
      absurd (n refl)
  parse_command-HasEnded json_like raises split made invoked (x ∷ s) args f c w a m e n h i =
      let k : Kwargs = record plain { internal = some true } in
      let (p, o, _) = running-IsOpen actor_write works no_message false k c w refl i in
      let r = set_status actor_write (flag Status.running) no_message false k c w in
      unfold parse_command in
      rw
        (
          after_running-ok
              (set_status actor_write (flag Status.running) no_message false
                (record plain { internal = some true }) c w)
              (run_parser actor_write complain json_like raises made invoked
                (command_args split (with_help (x ∷ s))))
              p,
          a,
        )
        (rw (run_parser-failure json_like raises made invoked args f r.1 r.2 m (e r.1 r.2)) (
          handle_exception-HasEnded json_like raises f r.1 r.2
            (has_actor-set_status (flag Status.running) no_message false k c w ∙ h) o))

  -- A sound command with an actor that has not ended, whose body `shlex.split` cannot split:
  -- `parse_command` raises its ValueError and leaves the command running, not ended.
  pub parse_command-unsplit :
      (json_like raises : Bool) (split : Text → Option (List Text))
      (made : List Text → Option Error)
      (invoked : List Text → Command → W → Option Failure × Command × W) (body : Text) (c : Command)
      (w : W)
      → command_args split (with_help body) ≡ none
      → body ≢ []
      → IsOpen c
      → let r = parse_command actor_write complain json_like raises split made invoked body c w in
        (r.0 ≡ err value_error) × IsOpen r.1 × (r.1.status ≡ Status.running)
  parse_command-unsplit json_like raises split made invoked [] c w a n i = absurd (n refl)
  parse_command-unsplit json_like raises split made invoked (x ∷ s) c w a n i =
      let (p, o, t) =
        running-IsOpen actor_write works no_message false (record plain { internal = some true }) c
          w refl i in
      unfold parse_command in
      rw
        (
          after_running-ok
              (set_status actor_write (flag Status.running) no_message false
                (record plain { internal = some true }) c w)
              (run_parser actor_write complain json_like raises made invoked
                (command_args split (with_help (x ∷ s))))
              p,
          a,
        )
        (unfold run_parser in (refl, o, t))
