-- ===== src/Timed/Overlap.antt =====
-- One timed command, the rounds of the poller and the tasks that it creates for the command, as
-- steps of the event loop.
use clu.Prelude.{
  ℕ, zero, suc, ◌+◌, ◌<◌, ◌≤◌, ◌≡◌, refl, subst, Bool, true, false, none, some, inl, inr,
  Bool-cases, arith,
}
use clu.Timed.{TimedCommand, Poller, run, done, is_due, next_round}
use clu.Timed.Rounds.{is_due-late}

-- The clock, the variables of the poller and when its sleep ends, the command, whether a task has
-- been created for it that has not begun, the tasks in which its `run` waits for the `Command`, and
-- the tasks that have ended and whose call of `done` is still to come.
pub record State : Type 0 where
  pub clock : ℕ
  pub poller : Poller
  pub wakes : ℕ
  pub command : TimedCommand
  pub created : Bool
  pub in_flight : ℕ
  pub ended : ℕ

-- A round of the poller: a task is created for the command if it is due.
unfoldable pub poll : ℕ → State → State
poll resolution s = record s {
  created = is_due s.poller s.command;
  poller = next_round resolution s.poller;
  wakes = s.clock + resolution;
}

-- The start of a task that the poller has created.
unfoldable pub begin : State → State
unfolding run
begin s = elim (run s.command).0 [
  | none ↦ record s { created = false; ended = s.ended + 1 }
  | some silent ↦ record s {
    created = false;
    command = (run s.command).1;
    in_flight = s.in_flight + 1;
  }
]

-- A task is begun before the poller, which created it before it slept, goes on.
pub data Step (resolution : ℕ) (s : State) : State → Type 0 where
  passes : (d : ℕ) → Step resolution s (record s { clock = s.clock + d })
  polls : s.wakes ≤ s.clock → s.created ≡ false → Step resolution s (poll resolution s)
  begins : s.created ≡ true → Step resolution s (begin s)
  -- the `Command` of a task ends
  ends :
      (n : ℕ)
      → s.in_flight ≡ suc n
      → Step resolution s (record s { in_flight = n; ended = s.ended + 1 })
  -- `done` is called for a task that has ended
  calls_done :
      (n : ℕ)
      → s.ended ≡ suc n
      → Step resolution s (record s { command = done s.clock s.command; ended = n })

pub data Reach (resolution : ℕ) (s : State) : State → Type 0 where
  here : Reach resolution s s
  next : {t u : State} → Reach resolution s t → Step resolution t u → Reach resolution s u

Reach-trans : {r : ℕ} {s t u : State} → Reach r s t → Reach r t u → Reach r s u
Reach-trans q here = q
Reach-trans q (next m e) = next (Reach-trans q m) e

-- Between two rounds, with the clock at the poller's time and every task in flight.
abbrev pub between : ℕ → Bool → TimedCommand → ℕ → State
between now first c n = record {
  clock = now;
  poller = record { current_time = now; first_time = first };
  wakes = now;
  command = c;
  created = false;
  in_flight = n;
  ended = 0;
}

-- The poller starts.
abbrev pub start_of : ℕ → TimedCommand → State
start_of now t = between now true t 0

abbrev polled : ℕ → ℕ → Bool → TimedCommand → ℕ → State
polled resolution now b c n = record {
  clock = now;
  poller = record { current_time = now + resolution; first_time = false };
  wakes = now + resolution;
  command = c;
  created = b;
  in_flight = n;
  ended = 0;
}

poll-between :
    (r now : ℕ) (first b : Bool) (c : TimedCommand) (n : ℕ)
    → is_due (record { current_time = now; first_time = first }) c ≡ b
    → Step r (between now first c n) (polled r now b c n)
unfolding poll next_round
poll-between r now first b c n e =
    subst (λ (x : Bool). Step r (between now first c n) (polled r now x c n)) e
      (polls (omega arith) refl)

-- A round in which the command is not due.
skip :
    (r now : ℕ) (first : Bool) (c : TimedCommand) (n : ℕ)
    → is_due (record { current_time = now; first_time = first }) c ≡ false
    → Reach r (between now first c n) (between (now + r) false c n)
skip r now first c n e = next (next here (poll-between r now first false c n e)) (passes r)

begin-free :
    (s : State)
    → s.command.is_running ≡ false
    → begin s ≡ record s {
      created = false;
      command = record s.command { is_running = true };
      in_flight = s.in_flight + 1;
    }
unfolding begin run
begin-free s h = rw h

begin-busy :
    (s : State)
    → s.command.is_running ≡ true
    → begin s ≡ record s { created = false; ended = s.ended + 1 }
unfolding begin run
begin-busy s h = rw h

-- A round in which the command is due and does not run: it is in flight once more.
launch :
    (r now : ℕ) (first : Bool) (c : TimedCommand) (n : ℕ)
    → is_due (record { current_time = now; first_time = first }) c ≡ true
    → c.is_running ≡ false
    → Reach r
        (between now first c n)
        (between (now + r) false (record c { is_running = true }) (n + 1))
launch r now first c n e h =
    let s = polled r now true c n in
    let b = subst (Step r s) (begin-free s h) (begins refl) in
    next (next (next here (poll-between r now first true c n e)) b) (passes r)

-- A round in which the command is due and runs: the call of `done` for the new task, which ends at
-- once, marks the command as not running.
clear :
    (r now : ℕ) (first : Bool) (c : TimedCommand) (n : ℕ)
    → is_due (record { current_time = now; first_time = first }) c ≡ true
    → c.is_running ≡ true
    → Reach r (between now first c n) (between (now + r) false (done now c) n)
clear r now first c n e h =
    let s = polled r now true c n in
    let b = subst (Step r s) (begin-busy s h) (begins refl) in
    next
      (next (next (next here (poll-between r now first true c n e)) b) (calls_done 0 (omega arith)))
      (passes r)

pub record DueAt (r : ℕ) (s : State) (c : TimedCommand) (n : ℕ) : Type 0 where
  pub now : ℕ
  pub first : Bool
  pub reached : Reach r s (between now first c n)
  pub due : is_due (record { current_time = now; first_time = first }) c ≡ true

until_due :
    (r k now : ℕ) (first : Bool) (c : TimedCommand) (n : ℕ)
    → 0 < r
    → c.last_run + c.delay < now + k
    → DueAt r (between now first c n) c n
until_due r zero now first c n h l = record {
  now = now;
  first = first;
  reached = here;
  due = is_due-late (record { current_time = now; first_time = first }) c (omega (arith, l));
}
until_due r (suc k) now first c n h l =
    elim (Bool-cases (is_due (record { current_time = now; first_time = first }) c)) [
      | inl e ↦ record { now = now; first = first; reached = here; due = e }
      | inr e ↦
          let d = until_due r k (now + r) false c n h (omega (arith, h, l)) in
          record {
            now = d.now;
            first = d.first;
            reached = Reach-trans (skip r now first c n e) d.reached;
            due = d.due;
          }
    ]

-- A round in which a command that is in flight is run a second time: after it, the command is due
-- while it is marked as not running.
relaunch :
    (r now : ℕ) (first : Bool) (c : TimedCommand) (n : ℕ)
    → 0 < r
    → is_due (record { current_time = now; first_time = first }) c ≡ true
    → c.is_running ≡ true
    → DueAt r (between now first c n) (done now c) n
unfolding done
relaunch r now first c n h e g =
    let d = until_due r (c.delay + 1) (now + r) false (done now c) n h (omega (arith, h)) in
    record {
      now = d.now;
      first = d.first;
      reached = Reach-trans (clear r now first c n e g) d.reached;
      due = d.due;
    }

-- A time between two rounds with the command running and a number of its `Command`s in flight.
pub record Running (r : ℕ) (s : State) (n : ℕ) : Type 0 where
  pub now : ℕ
  pub first : Bool
  pub command : TimedCommand
  pub is_running : command.is_running ≡ true
  pub in_flight : ℕ
  pub number : in_flight ≡ n
  pub reached : Reach r s (between now first command in_flight)

once_more : (r : ℕ) (s : State) (n : ℕ) → 0 < r → Running r s n → Running r s (suc n)
unfolding done
once_more r s n h w =
    let c = w.command in
    let k = c.last_run + c.delay + 1 in
    let d = until_due r k w.now w.first c w.in_flight h (omega arith) in
    let e = relaunch r d.now d.first c w.in_flight h d.due w.is_running in
    record {
      now = e.now + r;
      first = false;
      command = record (done d.now c) { is_running = true };
      is_running = refl;
      in_flight = w.in_flight + 1;
      number = omega (arith, w.number);
      reached =
          Reach-trans (Reach-trans (Reach-trans w.reached d.reached) e.reached)
            (launch r e.now e.first (done d.now c) w.in_flight e.due refl);
    }

stays_running :
    (r now : ℕ) (t : TimedCommand) (n : ℕ)
    → 0 < r
    → t.is_running ≡ false
    → Running r (start_of now t) (suc n)
unfolding is_due
stays_running r now t zero h e = record {
  now = now + r;
  first = false;
  command = record t { is_running = true };
  is_running = refl;
  in_flight = 0 + 1;
  number = omega arith;
  reached = launch r now true t 0 refl e;
}
stays_running r now t (suc n) h e =
    once_more r (start_of now t) (suc n) h (stays_running r now t n h e)

-- If the resolution of the poller is not 0, then, from the start of the poller with a timed command
-- that is not running, rounds of the poller and the tasks that it creates when the command is due
-- can lead to n + 1 `Command`s of it in flight at once, for every n, with the command marked as
-- running.
pub overlap :
    (resolution now : ℕ) (t : TimedCommand) (n : ℕ)
    → 0 < resolution
    → t.is_running ≡ false
    → (s : State) × Reach resolution (start_of now t) s
      × (s.in_flight ≡ suc n)
      × (s.command.is_running ≡ true)
overlap resolution now t n h e =
    let w = stays_running resolution now t n h e in
    (between w.now w.first w.command w.in_flight, w.reached, w.number, w.is_running)
