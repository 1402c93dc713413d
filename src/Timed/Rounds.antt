-- ===== src/Timed/Rounds.antt =====
-- When the poller runs a command, and what `start` and `stop` do to it.
use clu.Prelude.{
  ℕ, zero, suc, ◌+◌, ◌<◌, ◌≤◌, ◌≡◌, refl, true, false, some, ok, err, runtime_error, arith,
}
use clu.Timed.{
  TimedCommand, TimedCommandList, Poller, pending, cancelled, is_due, next_round, running, start,
  stop, stop_task,
}

-- The variables of the poller after a number of rounds.
pub rounds : ℕ → ℕ → Poller → Poller
rounds resolution zero p = p
rounds resolution (suc n) p = rounds resolution n (next_round resolution p)

rounds_time :
    (resolution n : ℕ) (p : Poller)
    → 0 < resolution
    → p.current_time + n ≤ (rounds resolution n p).current_time
unfolding rounds next_round
rounds_time resolution zero p h = omega arith
rounds_time resolution (suc n) p h =
    omega (arith, rounds_time resolution n (next_round resolution p) h)

pub is_due-late :
    (p : Poller) (t : TimedCommand) → t.last_run + t.delay < p.current_time → is_due p t ≡ true
unfolding is_due
is_due-late p t h = ground arith

-- The first round of a poller runs every command, and a command that does not run in between is due
-- again after at most as many rounds as the time it last ran at and its delay together, and one
-- more, if the resolution is not 0.
pub is_due-rounds :
    (resolution now : ℕ) (t : TimedCommand)
    → 0 < resolution
    → let p : Poller = record { current_time = now; first_time = true } in
      (is_due p t ≡ true) × (is_due (rounds resolution (t.last_run + t.delay + 1) p) t ≡ true)
is_due-rounds resolution now t h =
    let p : Poller = record { current_time = now; first_time = true } in
    (
      unfold is_due in refl,
      is_due-late (rounds resolution (t.last_run + t.delay + 1) p) t
          (omega (arith, rounds_time resolution (t.last_run + t.delay + 1) p h)),
    )

-- A list that is not running can be started; starting it twice is a RuntimeError; it can be
-- stopped, is then not running, and can be started again to the same state.
pub start-stop :
    (l : TimedCommandList)
    → running l ≡ false
    → (m n : TimedCommandList) × (start l ≡ ok m)
      × (start m ≡ err runtime_error)
      × (stop m ≡ ok n)
      × (running n ≡ false)
      × (start n ≡ ok m)
unfolding start stop running stop_task
start-stop l h = (
  record l { task = some pending },
  record l { task = some cancelled },
  rw h,
  refl,
  refl,
  refl,
  refl,
)
