-- ===== src/Click.antt =====
-- `ClickParser` of python/clu/parsers/click.py, and what `CluCommand` does with the end of a task.
-- Parameters: `split` is `shlex.split`, or `none` where it raises its ValueError; `made` is what
-- the parser's `make_context` raises for the arguments, and `invoked` what its `invoke` does;
-- `complain` gives the texts of the complaints.
pub mod Ends
pub mod Help
pub mod Tasks
pub mod BuiltIn
mod Tests
use clu.Prelude.{
  ℕ, zero, suc, ◌-◌, Bool, true, false, Option, none, some, List, [], ◌∷◌, ◌++◌, Text, text,
  text_eq, starts_with, length, drop, if◌then◌else◌, Result, ok, err, Error, value_error, not, ◌&&◌,
  ◌||◌,
}
use clu.Value.{Value, Items, str, list, nil, cons}
use clu.Reply.{Message}
use clu.Status.{is_done, timedout, cancelled}
use clu.Status
use clu.Handler.{split_lines}
use clu.Command.{
  Command, ActorCall, Kwargs, MessageArg, no_message, text_message, code_text, flag, set_status,
  finish, fail, write,
}

-- What is raised while a command is parsed or run: a ClickException with its message, click's Exit
-- or Abort, or another exception.
pub data Failure : Type 0 where
  click_error : Text → Failure
  leaves : Failure
  uncaught : Error → Failure

pub data Problem : Type 0 where
  unknown aborted crashed timed_out was_cancelled : Problem

-- How the callback of a command ends.
pub data Ending : Type 0 where
  returns times_out is_cancelled : Ending
  fails : Failure → Ending

abbrev pub plain : Kwargs
plain = record { broadcast = false; internal = none; write_to_log = none; keywords = [] }

abbrev pub with_keyword : Text → Value → Kwargs
with_keyword k v = record plain { keywords = (k, v) ∷ [] }

abbrev pub lines_value : List Text → Items
lines_value [] = nil
lines_value (l ∷ ls) = cons (str l) (lines_value ls)

-- t in s, for two texts
unfoldable pub has_text : Text → Text → Bool
has_text t [] = starts_with [] t
has_text t (c ∷ s) = starts_with (c ∷ s) t || has_text t s

-- s.replace(t, ""), with the number of characters that are still to be skipped
unfoldable pub removed : Text → ℕ → Text → Text
removed t n [] = []
removed t (suc n) (c ∷ s) = removed t n s
removed t zero (c ∷ s) =
    let found = starts_with (c ∷ s) t in
    let rest = removed t (if found then length t - 1 else 0) s in if found then rest else c ∷ rest

abbrev pub help_flag : Text
help_flag = text "--help"

-- The body of a command that holds the flag goes to the help command.
unfoldable pub with_help : Text → Text
unfolding has_text removed
with_help body =
    if has_text help_flag body && not (text_eq body help_flag)
    then removed (text " " ++ help_flag) 0 (text "help " ++ body)
    else body

abbrev pub quoted : Text → Text
quoted s = text "\"" ++ (s ++ text "\"")

-- The arguments that are given to the parser.
unfoldable pub command_args : (Text → Option (List Text)) → Text → Option (List Text)
command_args split body =
    if not (text_eq body help_flag) && not (starts_with body (text "help"))
    then split body
    else if text_eq body help_flag
    then some (text "help" ∷ quoted [] ∷ [])
    else some (text "help" ∷ quoted (drop 5 body) ∷ [])

unfoldable pub and_write :
    {W : Type 0} → Result (Unit {0}) × W → (W → Result (Unit {0}) × W) → Result (Unit {0}) × W
and_write (ok _, w) f = f w
and_write (err e, w) f = (err e, w)

unfoldable pub after_write :
    {W : Type 0}
    → Result (Unit {0}) × W
    → Command
    → (W → Result (Unit {0}) × Command × W)
    → Result (Unit {0}) × Command × W
after_write (ok _, w) c f = f w
after_write (err e, w) c f = (err e, c, w)

module _ {W : Type 0} (actor_write : ActorCall → W → Result (Unit {0}) × W)
    (complain : Problem → Text) where
  -- command.warning(help=...)
  pub warning : Value → Command → W → Result (Unit {0}) × W
  warning v c w =
      write actor_write c (code_text (text "w")) no_message (with_keyword (text "help") v) w

  pub warnings : List Text → Command → W → Result (Unit {0}) × W
  unfolding and_write warning
  warnings [] c w = (ok tt, w)
  warnings (l ∷ ls) c w = and_write (warning (str l) c w) (warnings ls c)

  -- One warning with all lines at an AMQP or JSON actor, one for each line at another.
  pub show_help : Bool → List Text → Command → W → Result (Unit {0}) × W
  unfolding warnings warning
  show_help true ls c w = warning (list (lines_value ls)) c w
  show_help false ls c w = warnings ls c w

  -- command.write(code, keyword=...) of a command that is done, which keeps it as it is
  pub write_only : Text → Text → Problem → Command → W → Result (Unit {0}) × Command × W
  unfolding after_write
  write_only code keyword p c w =
      after_write
        (write actor_write c (code_text code) no_message (with_keyword keyword (str (complain p)))
          w)
        c (λ w. (ok tt, c, w))

  pub fail_with : Problem → Command → W → Result (Unit {0}) × Command × W
  fail_with p c w =
      fail actor_write no_message false (with_keyword (text "error") (str (complain p))) c w

  pub raising : Bool → Error → Result (Unit {0}) × Command × W → Result (Unit {0}) × Command × W
  raising b e (err f, c, w) = (err f, c, w)
  raising b e (ok _, c, w) = (if b then err e else ok tt, c, w)

  -- _handle_command_exception(command, exception): whether the actor is an AMQP or JSON actor, and
  -- whether it raises on errors
  unfoldable pub handle_exception :
      Bool → Bool → Failure → Command → W → Result (Unit {0}) × Command × W
  unfolding show_help after_write write_only fail_with raising
  handle_exception json_like raises (click_error message) c w =
      after_write (show_help json_like (split_lines message) c w) c (λ w.
        if is_done c.status
        then write_only (text "e") (text "error") unknown c w
        else fail_with unknown c w)
  handle_exception json_like raises leaves c w =
      if is_done c.status then (ok tt, c, w) else fail_with aborted c w
  handle_exception json_like raises (uncaught e) c w = raising raises e (
      if is_done c.status
      then write_only (text "i") (text "text") crashed c w
      else fail_with crashed c w)

  -- The end of `_schedule_callback`, and of the task by `done_callback`.
  unfoldable pub end_callback : Bool → Bool → Ending → Command → W → Result (Unit {0}) × Command × W
  end_callback json_like raises returns c w = (ok tt, c, w)
  end_callback json_like raises times_out c w =
      if is_done c.status
      then (ok tt, c, w)
      else set_status actor_write (flag timedout) (text_message (complain timed_out)) false plain c
          w
  end_callback json_like raises is_cancelled c w =
      if is_done c.status
      then (ok tt, c, w)
      else set_status actor_write (flag cancelled) (text_message (complain was_cancelled)) false
          plain c w
  end_callback json_like raises (fails f) c w = handle_exception json_like raises f c w

  -- parser.invoke(ctx) within its `try`
  pub handled : Bool → Bool → Option Failure × Command × W → Result (Unit {0}) × Command × W
  handled json_like raises (none, c, w) = (ok tt, c, w)
  handled json_like raises (some f, c, w) = handle_exception json_like raises f c w

  -- make_context and invoke
  pub in_context :
      Bool
      → Bool
      → Option Error
      → (Command → W → Option Failure × Command × W)
      → Command
      → W
      → Result (Unit {0}) × Command × W
  unfolding handled
  in_context json_like raises none run c w = handled json_like raises (run c w)
  in_context json_like raises (some e) run c w = (err e, c, w)

  pub run_parser :
      Bool
      → Bool
      → (List Text → Option Error)
      → (List Text → Command → W → Option Failure × Command × W)
      → Option (List Text)
      → Command
      → W
      → Result (Unit {0}) × Command × W
  unfolding in_context
  run_parser json_like raises made invoked none c w = (err value_error, c, w)
  run_parser json_like raises made invoked (some args) c w =
      in_context json_like raises (made args) (invoked args) c w

  pub after_running :
      Result (Unit {0}) × Command × W
      → (Command → W → Result (Unit {0}) × Command × W)
      → Result (Unit {0}) × Command × W
  after_running (err e, c, w) f = (err e, c, w)
  after_running (ok _, c, w) f = f c w

  -- parse_command(command), of a command with this body
  unfoldable pub parse_command :
      Bool
      → Bool
      → (Text → Option (List Text))
      → (List Text → Option Error)
      → (List Text → Command → W → Option Failure × Command × W)
      → Text
      → Command
      → W
      → Result (Unit {0}) × Command × W
  unfolding run_parser after_running
  parse_command json_like raises split made invoked [] c w = (ok tt, c, w)
  parse_command json_like raises split made invoked (x ∷ s) c w =
      after_running
        (set_status actor_write (flag Status.running) no_message false
          (record plain { internal = some true }) c w)
        (run_parser json_like raises made invoked (command_args split (with_help (x ∷ s))))
