-- ===== src/Timed.antt =====
-- `TimedCommand` and `TimedCommandList` of python/clu/command.py. Times are whole ticks of a clock,
-- and delays are not negative; the tasks that the loop runs are steps of `Timed.Overlap`.
pub mod Rounds
pub mod Overlap
mod Tests
use clu.Prelude.{
  ℕ, ◌+◌, Bool, true, false, Option, none, some, List, [], ◌∷◌, ◌++◌, Text, ltb, ◌==◌,
  if◌then◌else◌, Result, ok, err, Error, runtime_error, not, ◌&&◌, ◌||◌,
}

pub record TimedCommand : Type 0 where
  pub command_string : Text
  pub delay : ℕ
  pub last_run : ℕ
  pub is_running : Bool
  pub first_silent : Bool

-- TimedCommand(command_string, delay, first_silent)
unfoldable pub new_command : Text → ℕ → Bool → TimedCommand
new_command command_string delay first_silent = record {
  command_string = command_string;
  delay = delay;
  last_run = 0;
  is_running = false;
  first_silent = first_silent;
}

-- run(actor), up to the command that it waits for: whether that command is silent, if there is one.
unfoldable pub run : TimedCommand → Option Bool × TimedCommand
run t =
    if t.is_running
    then (none, t)
    else (some (t.first_silent && t.last_run == 0), record t { is_running = true })

-- done(task), with the reading of the clock
unfoldable pub done : ℕ → TimedCommand → TimedCommand
done now t = record t { last_run = now; is_running = false }

-- A task of the loop: pending, cancelled, or ended by an exception.
pub data Task : Type 0 where
  pending cancelled : Task
  crashed : Error → Task

pub record TimedCommandList : Type 0 where
  pub resolution : ℕ
  pub commands : List TimedCommand
  pub task : Option Task

-- The variables of the poller.
pub record Poller : Type 0 where
  pub current_time : ℕ
  pub first_time : Bool

unfoldable pub add_command : Text → ℕ → Bool → TimedCommandList → TimedCommandList
unfolding new_command
add_command command_string delay first_silent l = record l {
  commands = l.commands ++ new_command command_string delay first_silent ∷ [];
}

-- first_time or elapsed > timed_command.delay
unfoldable pub is_due : Poller → TimedCommand → Bool
is_due p t = p.first_time || ltb (t.last_run + t.delay) p.current_time

-- The loop over the commands: those that a task is created for.
unfoldable pub due : Poller → List TimedCommand → List TimedCommand
unfolding is_due
due p [] = []
due p (t ∷ l) = if is_due p t then t ∷ due p l else due p l

-- The end of a round of the poller.
unfoldable pub next_round : ℕ → Poller → Poller
next_round resolution p = record { current_time = p.current_time + resolution; first_time = false }

unfoldable pub running : TimedCommandList → Bool
running l = elim l.task [
  | none ↦ false
  | some pending ↦ true
  | some cancelled ↦ false
  | some (crashed e) ↦ true
]

unfoldable pub start : TimedCommandList → Result TimedCommandList
unfolding running
start l = if running l then err runtime_error else ok (record l { task = some pending })

-- Cancelling the poller and waiting for it: a poller that has crashed raises its error again.
stop_task : Option Task → TimedCommandList → Result TimedCommandList
stop_task none l = ok l
stop_task (some pending) l = ok (record l { task = some cancelled })
stop_task (some cancelled) l = ok l
stop_task (some (crashed e)) l = err e

unfoldable pub stop : TimedCommandList → Result TimedCommandList
unfolding running stop_task
stop l = if not (running l) then ok l else stop_task l.task l
