-- ===== src/Click/Tasks/Tests.antt =====
-- The properties of the tasks at a loop with two tasks of one command, of which one is older.
use mathlib.Core.List.{Perm, Pairwise}
use clu.Prelude.{
  ℕ, ◌≡◌, ◌↔◌, refl, Bool, true, false, none, some, List, [], ◌∷◌, ◌++◌, map, Text, text, ok,
  Result,
}
use clu.Status.{is_done}
use clu.Command.{Command, ActorCall, new}
use clu.Command.Open.{IsOpen}
use clu.Command.Trace.{new-IsSound}
use clu.Click.Tasks.{Task, Loop, Report, matching, get_running_tasks, invoke}
use clu.Click.Tasks.Sorted.{Before, any_named, dated_tasks, get_running_tasks-Pairwise}
use clu.Click.Tasks.Single.{AtMostOne, invokes, here, next, Reach-AtMostOne}
use clu.Click.Tasks.Stops.{Invoked, invoke-Invoked}

abbrev record_call : ActorCall → List ActorCall → Result (Unit {0}) × List ActorCall
record_call a l = (ok tt, l ++ a ∷ [])

abbrev report : Report → Text
report p = text "report"

abbrev fresh : Command
fresh = new 5 none true [] false (text "text") false false true none

fresh-IsOpen : IsOpen fresh
unfolding new is_done
fresh-IsOpen = record {
  sound = new-IsSound 5 none true [] false (text "text") false false true none;
  active = refl;
  unfinished = refl;
}

abbrev expose : Text
expose = text "actor_expose"

abbrev task_at : ℕ → ℕ → Task
task_at i d = record { id = i; name = some expose; date = some d; is_cancelled = false }

abbrev busy : Loop
busy = record { tasks = task_at 1 9 ∷ task_at 2 4 ∷ []; next = 3; clock = 10 }

abbrev idle : Loop
idle = record { tasks = []; next = 0; clock = 0 }

get_running_tasks-Pairwise_example :
    (get_running_tasks expose busy.tasks ≡ none ↔ any_named expose busy.tasks ≡ false)
    × ((ts : List Task)
        → get_running_tasks expose busy.tasks ≡ some ts
        → (l : List (Task × ℕ)) × Perm l (dated_tasks expose busy.tasks)
          × Pairwise Before l
          × (ts ≡ map (λ m. m.0) l))
get_running_tasks-Pairwise_example = get_running_tasks-Pairwise expose busy.tasks

invoke-Invoked_example :
    Invoked expose busy fresh true (invoke record_call report true true true expose busy fresh [])
invoke-Invoked_example =
    invoke-Invoked record_call report (λ a x. refl) true expose busy fresh [] fresh-IsOpen

abbrev every : Text → Bool
every n = true

abbrev twice : Loop
twice =
    (invoke record_call report true true false expose
      (invoke record_call report true true false expose idle fresh []).2 fresh []).2

Reach-AtMostOne_example : AtMostOne record_call report every twice
Reach-AtMostOne_example =
    Reach-AtMostOne record_call report every {l = idle} (λ n. unfold matching in refl)
      (next (next here (invokes false expose fresh [])) (invokes false expose fresh []))
