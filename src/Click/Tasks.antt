-- ===== src/Click/Tasks.antt =====
-- The tasks of commands in python/clu/parsers/click.py: `get_running_tasks`, `cancel_command`,
-- `CluCommand.invoke` with `_cancel_command`, and the check of `unique`. The live tasks of the loop
-- are a list in the order that `asyncio.all_tasks` gives them; `is_cancelled` is set by `cancel`.
pub mod Sorted
pub mod Single
pub mod Stops
mod Tests
use clu.Prelude.{
  ℕ, ◌==◌, Bool, true, false, Option, none, some, List, [], ◌∷◌, ◌++◌, map, Text, text, text_eq,
  length, leb, if◌then◌else◌, Result, ok, err, value_error, index_error, ◌+◌, take, ◌-◌,
}
use clu.Value.{str}
use clu.Command.{Command, ActorCall, Kwargs, MessageArg, no_message, text_message, finish, fail}
use clu.Click.{plain, with_keyword}

-- The name and the date are the attributes that `invoke` gives to its task.
pub record Task : Type 0 where
  pub id : ℕ
  pub name : Option Text
  pub date : Option ℕ
  pub is_cancelled : Bool

abbrev pub is_named : Text → Option Text → Bool
is_named n none = false
is_named n (some m) = text_eq m n

-- [t for t in all_tasks if t._command_name == name]
unfoldable pub matching : Text → List Task → List Task
matching n [] = []
matching n (t ∷ ts) = let rest = matching n ts in if is_named n t.name then t ∷ rest else rest

unfoldable pub matching_dated : List Task → List (Task × ℕ)
matching_dated [] = []
matching_dated (t ∷ ts) =
    let rest = matching_dated ts in elim t.date [ none ↦ rest | some d ↦ (t, d) ∷ rest ]

unfoldable pub insert_dated : Task × ℕ → List (Task × ℕ) → List (Task × ℕ)
insert_dated x [] = x ∷ []
insert_dated x (y ∷ l) = let rest = insert_dated x l in if leb x.1 y.1 then x ∷ y ∷ l else y ∷ rest

-- sorted(matching_dated, key=lambda x: x[1]), which keeps the order of equal dates
unfoldable pub sorted : List (Task × ℕ) → List (Task × ℕ)
unfolding insert_dated
sorted [] = []
sorted (x ∷ l) = insert_dated x (sorted l)

running_of : List Task → Option (List Task)
unfolding matching_dated sorted
running_of [] = none
running_of (t ∷ ts) = some (map (λ m. m.0) (sorted (matching_dated (t ∷ ts))))

-- get_running_tasks(cmd_name)
unfoldable pub get_running_tasks : Text → List Task → Option (List Task)
unfolding matching running_of
get_running_tasks n tasks = running_of (matching n tasks)

-- task.cancel()
unfoldable pub cancel : ℕ → List Task → List Task
cancel i [] = []
cancel i (t ∷ ts) = (if i == t.id then record t { is_cancelled = true } else t) ∷ cancel i ts

unfoldable pub cancel_all : List Task → List Task → List Task
unfolding cancel
cancel_all [] tasks = tasks
cancel_all (t ∷ ts) tasks = cancel_all ts (cancel t.id tasks)

-- tasks[:-1]
abbrev pub but_last : List Task → List Task
but_last ts = take (length ts - 1) ts

cancel_found : Bool → Bool → List Task → List Task → Result Bool × List Task
unfolding cancel_all
cancel_found ok_no_exists keep_last [] tasks =
    (if ok_no_exists then ok false else err value_error, tasks)
cancel_found ok_no_exists keep_last (t ∷ ts) tasks = (ok true, cancel_all (t ∷ ts) tasks)

-- cancel_command(name, ok_no_exists, keep_last)
unfoldable pub cancel_command : Text → Bool → Bool → List Task → Result Bool × List Task
unfolding get_running_tasks cancel_found
cancel_command n ok_no_exists keep_last tasks = elim (get_running_tasks n tasks) [
  | none ↦ cancel_found ok_no_exists keep_last [] tasks
  | some ts ↦ cancel_found ok_no_exists keep_last (if keep_last then but_last ts else ts) tasks
]

-- The test of `unique`, which lets the callback run, or fails the command.
unfoldable pub unique_check : Text → List Task → Bool
unfolding get_running_tasks
unique_check n tasks = elim (get_running_tasks n tasks) [
  | none ↦ true
  | some ts ↦ leb (length ts) 1
]

-- The loop: its live tasks, the id that the next task has, and the time.
pub record Loop : Type 0 where
  pub tasks : List Task
  pub next : ℕ
  pub clock : ℕ

-- create_task, with the name and the date of the command
unfoldable pub launch : Text → Loop → Loop
launch n l = record l {
  tasks =
      l.tasks
      ++ record { id = l.next; name = some n; date = some l.clock; is_cancelled = false } ∷ [];
  next = l.next + 1;
}

-- What a command writes about the running ones of its name.
pub data Report : Type 0 where
  already_running not_running scheduled_for_cancellation : Report

module _ {W : Type 0} (actor_write : ActorCall → W → Result (Unit {0}) × W)
    (report : Report → Text) where
  -- What a helper returns, once the call for the command does.
  pub answer : Bool → Loop → Result (Unit {0}) × Command × W → Result Bool × Command × Loop × W
  answer b l (ok _, c, w) = (ok b, c, l, w)
  answer b l (err e, c, w) = (err e, c, l, w)

  pub fail_twice : Loop → Command → W → Result Bool × Command × Loop × W
  unfolding answer
  fail_twice l c w =
      answer true l (fail actor_write (text_message (report already_running)) false plain c w)

  pub fail_missing : Loop → Command → W → Result Bool × Command × Loop × W
  unfolding answer
  fail_missing l c w = answer false l (
      fail actor_write no_message false (with_keyword (text "error") (str (report not_running))) c
        w)

  pub cancel_oldest : List Task → Loop → Command → W → Result Bool × Command × Loop × W
  unfolding answer
  cancel_oldest [] l c w = (err index_error, c, l, w)
  cancel_oldest (t ∷ ts) l c w =
      answer true (record l { tasks = cancel t.id l.tasks })
        (finish actor_write no_message false
          (with_keyword (text "text") (str (report scheduled_for_cancellation))) c w)

  pub check_running :
      Bool → Option (List Task) → Loop → Command → W → Result Bool × Command × Loop × W
  unfolding fail_twice fail_missing cancel_oldest
  check_running false none l c w = (ok false, c, l, w)
  check_running false (some ts) l c w = fail_twice l c w
  check_running true none l c w = fail_missing l c w
  check_running true (some ts) l c w = cancel_oldest ts l c w

  -- _cancel_command(ctx): whether the command was invoked with --stop, and its full path
  pub cancel_running : Bool → Text → Loop → Command → W → Result Bool × Command × Loop × W
  unfolding check_running
  cancel_running stop n l c w = check_running stop (get_running_tasks n l.tasks) l c w

  pub launch_unless :
      Text → Result Bool × Command × Loop × W → Result (Unit {0}) × Command × Loop × W
  launch_unless n (ok true, c, l, w) = (ok tt, c, l, w)
  launch_unless n (ok false, c, l, w) = (ok tt, c, launch n l, w)
  launch_unless n (err e, c, l, w) = (err e, c, l, w)

  -- CluCommand.invoke(ctx): whether it has a callback, is cancellable and was given --stop, and its
  -- full path
  unfoldable pub invoke :
      Bool → Bool → Bool → Text → Loop → Command → W → Result (Unit {0}) × Command × Loop × W
  unfolding launch_unless cancel_running
  invoke false cancellable stop n l c w = (ok tt, c, l, w)
  invoke true false stop n l c w = launch_unless n (ok false, c, l, w)
  invoke true true stop n l c w = launch_unless n (cancel_running stop n l c w)

  -- The wrapper of `unique` around the callback.
  unfoldable pub unique :
      Text
      → List Task
      → (Command → W → Result (Unit {0}) × Command × W)
      → Command
      → W
      → Result (Unit {0}) × Command × W
  unfolding unique_check
  unique n tasks callback c w =
      if unique_check n tasks
      then callback c w
      else fail actor_write no_message false
          (with_keyword (text "error") (str (report already_running))) c w
