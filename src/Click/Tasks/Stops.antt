-- ===== src/Click/Tasks/Stops.antt =====
-- What the invocation of a cancellable command does to the command and to the loop.
use mathlib.Core.List.{Perm, Pairwise, Mem}
use clu.Prelude.{
  ℕ, ◌+◌, ◌≤◌, ◌==◌, ◌||◌, ◌≡◌, refl, ap, ◌∙◌, Bool, true, false, none, some, List, [], ◌∷◌, ◌++◌,
  map, Text, Result, ok, err, index_error, Bool-cases, Option-cases, inl, inr,
}
use clu.Status.{CommandStatus}
use clu.Status
use clu.Command.{Command, ActorCall, no_message}
use clu.Command.Open.{IsOpen, HasEnded, fail-HasEnded, finish-HasEnded}
use clu.Click.{plain}
use clu.Click.Tasks.{
  Task, Loop, Report, get_running_tasks, cancel, launch, answer, fail_twice, fail_missing,
  cancel_oldest, check_running, cancel_running, launch_unless, invoke,
}
use clu.Click.Tasks.Sorted.{Before, any_named, dated_tasks, get_running_tasks-Pairwise}

-- The loop has one more task, with the name and the time of the loop for its date.
pub record HasNewTask (n : Text) (l k : Loop) : Type 0 where
  pub tasks :
      k.tasks
      ≡ l.tasks
        ++ record { id = l.next; name = some n; date = some l.clock; is_cancelled = false } ∷ []
  pub next : k.next ≡ l.next + 1
  pub clock : k.clock ≡ l.clock

-- A task, cancelled if it has the id.
abbrev pub cancelled_at : ℕ → Task → Task
cancelled_at i u = record u { is_cancelled = (i == u.id) || u.is_cancelled }

-- The tasks with an id are cancelled, and nothing else changes.
pub record HasCancelled (i : ℕ) (l k : Loop) : Type 0 where
  pub tasks : k.tasks ≡ map (cancelled_at i) l.tasks
  pub next : k.next ≡ l.next
  pub clock : k.clock ≡ l.clock

-- What comes of an invocation, with --stop or without.
pub data Invoked {W : Type 0} (n : Text) (l : Loop) (c : Command)
    : Bool → Result (Unit {0}) × Command × Loop × W → Type 0 where
  started :
      {k : Loop} {w : W}
      → any_named n l.tasks ≡ false
      → HasNewTask n l k
      → Invoked n l c false (ok tt, c, k, w)
  refused :
      {d : Command} {w : W}
      → any_named n l.tasks ≡ true
      → HasEnded Status.failed d
      → Invoked n l c false (ok tt, d, l, w)
  stopped :
      {t : Task} {x : ℕ} {rest : List (Task × ℕ)} {d : Command} {k : Loop} {w : W}
      → Perm ((t, x) ∷ rest) (dated_tasks n l.tasks)
      → ((u : Task × ℕ) → Mem u rest → x ≤ u.1)
      → HasCancelled t.id l k
      → HasEnded Status.done d
      → Invoked n l c true (ok tt, d, k, w)
  undated :
      {w : W}
      → any_named n l.tasks ≡ true
      → Perm [] (dated_tasks n l.tasks)
      → Invoked n l c true (err index_error, c, l, w)
  missing :
      {d : Command} {k : Loop} {w : W}
      → any_named n l.tasks ≡ false
      → HasNewTask n l k
      → HasEnded Status.failed d
      → Invoked n l c true (ok tt, d, k, w)

launch-HasNewTask : (n : Text) (l : Loop) → HasNewTask n l (launch n l)
unfolding launch
launch-HasNewTask n l = record { tasks = refl; next = refl; clock = refl }

cancel_lem : (i : ℕ) (ts : List Task) → cancel i ts ≡ map (cancelled_at i) ts
unfolding cancel
cancel_lem i [] = refl
cancel_lem i (t ∷ ts) = elim (Bool-cases (i == t.id)) [
  | inl e ↦ rw e (ap (λ r. record t { is_cancelled = true } ∷ r) (cancel_lem i ts))
  | inr e ↦ rw e (ap (λ r. t ∷ r) (cancel_lem i ts))
]

cancel-HasCancelled : (i : ℕ) (l : Loop) → HasCancelled i l (record l { tasks = cancel i l.tasks })
cancel-HasCancelled i l = record { tasks = cancel_lem i l.tasks; next = refl; clock = refl }

module _ {W : Type 0} (actor_write : ActorCall → W → Result (Unit {0}) × W) (report : Report → Text)
    (works : (a : ActorCall) (x : W) → (actor_write a x).0 ≡ ok tt) where
  answered :
      (n : Text) (b : Bool) (v : CommandStatus) (l k : Loop) (c : Command) (stop : Bool)
      (r : Result (Unit {0}) × Command × W)
      → (r.0 ≡ ok tt) × HasEnded v r.1
      → ((d : Command) (w : W)
          → HasEnded v d
          → Invoked n l c stop (launch_unless actor_write report n (ok b, d, k, w)))
      → Invoked n l c stop (launch_unless actor_write report n (answer actor_write report b k r))
  unfolding answer
  answered n b v l k c stop (ok _, d, w) h f = f d w h.1
  answered n b v l k c stop (err e, d, w) h f = absurd (cc h.0)

  none_running :
      (stop : Bool) (n : Text) (l : Loop) (c : Command) (w : W)
      → IsOpen c
      → any_named n l.tasks ≡ false
      → Invoked n l c stop
          (launch_unless actor_write report n (check_running actor_write report stop none l c w))
  unfolding check_running launch_unless fail_missing
  none_running false n l c w i e = started e (launch-HasNewTask n l)
  none_running true n l c w i e =
      answered n false Status.failed l l c true _
        (fail-HasEnded actor_write works no_message false _ c w refl i)
        (λ d w h. missing e (launch-HasNewTask n l) h)

  some_running :
      (stop : Bool) (n : Text) (m : List (Task × ℕ)) (l : Loop) (c : Command) (w : W)
      → IsOpen c
      → any_named n l.tasks ≡ true
      → Perm m (dated_tasks n l.tasks)
      → Pairwise Before m
      → Invoked n l c stop (
          launch_unless actor_write report n
            (check_running actor_write report stop (some (map (λ q. q.0) m)) l c w))
  unfolding check_running launch_unless fail_twice cancel_oldest
  some_running false n m l c w i e p q =
      answered n true Status.failed l l c false _
        (fail-HasEnded actor_write works _ false plain c w refl i) (λ d w h. refused e h)
  some_running true n [] l c w i e p q = undated e p
  some_running true n ((t, x) ∷ rest) l c w i e p (Pairwise.cons h _) =
      answered n true Status.done l (record l { tasks = cancel t.id l.tasks }) c true _
        (finish-HasEnded actor_write works no_message false _ c w refl i)
        (λ d w g. stopped p h (cancel-HasCancelled t.id l) g)

  -- A sound command that has not ended and is cancellable, with an actor whose `write` does not
  -- raise. Without --stop, it is left alone and the loop gets one task, with its name and the
  -- time, if no live task has its name, and else it fails and the loop is as it was. With --stop:
  -- if live tasks have its name, one of those with the earliest date is cancelled and the command
  -- is done, or, if none of them has a date, an IndexError is raised; if none has its name, the
  -- command fails, and all the same the loop gets a task with its name.
  pub invoke-Invoked :
      (stop : Bool) (n : Text) (l : Loop) (c : Command) (w : W)
      → IsOpen c
      → Invoked n l c stop (invoke actor_write report true true stop n l c w)
  unfolding invoke cancel_running
  invoke-Invoked stop n l c w i =
      let (f, g) = get_running_tasks-Pairwise n l.tasks in
      elim (Option-cases (get_running_tasks n l.tasks)) [
        | inl e ↦ rw e (none_running stop n l c w i (f.0 e))
        | inr (ts, e) ↦
            let (m, p, q, s) = g ts e in
            rw (e ∙ ap some s) (some_running stop n m l c w i (named e f.1) p q)
      ]
    where
      named :
          {ts : List Task}
          → get_running_tasks n l.tasks ≡ some ts
          → (any_named n l.tasks ≡ false → get_running_tasks n l.tasks ≡ none)
          → any_named n l.tasks ≡ true
      named e f = elim (Bool-cases (any_named n l.tasks)) [
        | inl h ↦ h
        | inr h ↦ absurd (cc (e, f h))
      ]
