-- ===== src/Click/Tasks/Single.antt =====
-- A cancellable command runs at most once at a time.
use clu.Prelude.{
  ℕ, ◌≤◌, ◌≡◌, ◌+◌, refl, sym, subst, ap, ◌∙◌, Bool, true, false, Option, none, some, List, [], ◌∷◌,
  ◌++◌, Text, text_eq, text_eq_iff, length, length-append, arith, if◌then◌else◌, Result, ok, err,
  ◌==◌,
}
use clu.Command.{Command, ActorCall}
use clu.Click.Tasks.{
  Task, Loop, Report, matching, get_running_tasks, running_of, cancel, launch, answer, fail_twice,
  fail_missing, cancel_oldest, check_running, cancel_running, launch_unless, invoke,
}

-- How many live tasks have a name.
abbrev pub running : Text → List Task → ℕ
running n tasks = length (matching n tasks)

running-cancel :
    (n : Text) (i : ℕ) (tasks : List Task) → running n (cancel i tasks) ≡ running n tasks
unfolding matching cancel
running-cancel n i [] = refl
running-cancel n i (t ∷ ts) = ground (arith, running-cancel n i ts)

matching-append :
    (n : Text) (ts us : List Task) → matching n (ts ++ us) ≡ matching n ts ++ matching n us
unfolding matching
matching-append n [] us = refl
matching-append n (t ∷ ts) us = ground (arith, matching-append n ts us)

running-one :
    (n m : Text) (i d : ℕ)
    → running n (record { id = i; name = some m; date = some d; is_cancelled = false } ∷ [])
      ≡ (if text_eq m n then 1 else 0)
unfolding matching
running-one n m i d = ground arith

running-launch :
    (n m : Text) (l : Loop)
    → running n (launch m l).tasks ≡ running n l.tasks + (if text_eq m n then 1 else 0)
unfolding launch
running-launch n m l =
    ap length (matching-append n l.tasks _)
    ∙ length-append (matching n l.tasks) _
    ∙ ap (λ k. running n l.tasks + k) (running-one n m l.next l.clock)

none-running :
    (n : Text) (tasks : List Task) → get_running_tasks n tasks ≡ none → running n tasks ≡ 0
unfolding get_running_tasks running_of
none-running n tasks h = by_matching (matching n tasks) h
  where
    by_matching : (m : List Task) → running_of m ≡ none → length m ≡ 0
    by_matching [] h = refl
    by_matching (t ∷ m) h = cc

-- A new task of a cancellable command comes only where there is none.
data Guarded (n : Text) (l : Loop) : Loop → Type 0 where
  kept : {k : Loop} → ((m : Text) → running m k.tasks ≡ running m l.tasks) → Guarded n l k
  first : running n l.tasks ≡ 0 → Guarded n l (launch n l)

module _ {W : Type 0} (actor_write : ActorCall → W → Result (Unit {0}) × W)
    (report : Report → Text) where
  fails-Guarded :
      (n : Text) (b : Bool) (l k : Loop) (r : Result (Unit {0}) × Command × W)
      → ((m : Text) → running m k.tasks ≡ running m l.tasks)
      → (b ≡ false → (running n l.tasks ≡ 0) × (k ≡ l))
      → Guarded n l (launch_unless actor_write report n (answer actor_write report b k r)).2
  unfolding launch_unless answer
  fails-Guarded n true l k (ok _, c, w) h g = kept h
  fails-Guarded n false l k (ok _, c, w) h g =
      let (z, e) = g refl in subst (λ q. Guarded n l (launch n q)) (sym e) (first z)
  fails-Guarded n true l k (err e, c, w) h g = kept h
  fails-Guarded n false l k (err e, c, w) h g = kept h

  check_running-Guarded :
      (n : Text) (stop : Bool) (o : Option (List Task)) (l : Loop) (c : Command) (w : W)
      → (o ≡ none → running n l.tasks ≡ 0)
      → Guarded n l
          (launch_unless actor_write report n (check_running actor_write report stop o l c w)).2
  unfolding launch_unless check_running fail_twice fail_missing cancel_oldest
  check_running-Guarded n false none l c w h = first (h refl)
  check_running-Guarded n false (some ts) l c w h = fails-Guarded n true l l _ (λ m. refl) (λ e. cc)
  check_running-Guarded n true none l c w h =
      fails-Guarded n false l l _ (λ m. refl) (λ e. (h refl, refl))
  check_running-Guarded n true (some []) l c w h = kept (λ m. refl)
  check_running-Guarded n true (some (t ∷ ts)) l c w h =
      fails-Guarded n true l (record l { tasks = cancel t.id l.tasks }) _
        (λ m. running-cancel m t.id l.tasks) (λ e. cc)

  invoke-Guarded :
      (stop : Bool) (n : Text) (l : Loop) (c : Command) (w : W)
      → Guarded n l (invoke actor_write report true true stop n l c w).2
  unfolding invoke cancel_running
  invoke-Guarded stop n l c w =
      check_running-Guarded n stop (get_running_tasks n l.tasks) l c w (none-running n l.tasks)

pub without : ℕ → List Task → List Task
without i [] = []
without i (t ∷ ts) = let rest = without i ts in if i == t.id then rest else t ∷ rest

running-without :
    (n : Text) (i : ℕ) (tasks : List Task) → running n (without i tasks) ≤ running n tasks
unfolding matching without
running-without n i [] = omega arith
running-without n i (t ∷ ts) = ground (arith, running-without n i ts)

module _ {W : Type 0} (actor_write : ActorCall → W → Result (Unit {0}) × W) (report : Report → Text)
    (is_cancellable : Text → Bool) where
  -- What happens to the loop: a command is invoked, a task is cancelled or ends, or time passes.
  pub data Step (l : Loop) : Loop → Type 0 where
    invokes :
        (stop : Bool) (n : Text) (c : Command) (w : W)
        → Step l (invoke actor_write report true (is_cancellable n) stop n l c w).2
    cancels : (i : ℕ) → Step l (record l { tasks = cancel i l.tasks })
    ends : (i : ℕ) → Step l (record l { tasks = without i l.tasks })
    waits : (d : ℕ) → Step l (record l { clock = l.clock + d })

  pub data Reach (l : Loop) : Loop → Type 0 where
    here : Reach l l
    next : {k m : Loop} → Reach l k → Step k m → Reach l m

  -- No cancellable command has two tasks.
  pub AtMostOne : Loop → Type 0
  AtMostOne l = (n : Text) → is_cancellable n ≡ true → running n l.tasks ≤ 1

  Guarded-AtMostOne : {n : Text} {l k : Loop} → Guarded n l k → AtMostOne l → AtMostOne k
  unfolding AtMostOne
  Guarded-AtMostOne (kept e) h m c = rw (e m) (h m c)
  Guarded-AtMostOne {n} {l} (first z) h m c = rw (running-launch m n l) (by_name (text_eq n m) refl)
    where
      by_name : (b : Bool) → text_eq n m ≡ b → running m l.tasks + (if b then 1 else 0) ≤ 1
      by_name true e =
          let q : running m l.tasks ≡ 0 =
            subst (λ t. running t l.tasks ≡ 0) ((text_eq_iff n m).0 e) z in
          omega (arith, q)
      by_name false e = omega (arith, h m c)

  launch-AtMostOne :
      (n : Text) (l : Loop) → is_cancellable n ≡ false → AtMostOne l → AtMostOne (launch n l)
  unfolding AtMostOne
  launch-AtMostOne n l f h m c = rw (running-launch m n l) (by_name (text_eq n m) refl)
    where
      by_name : (b : Bool) → text_eq n m ≡ b → running m l.tasks + (if b then 1 else 0) ≤ 1
      by_name true e = absurd (cc (ap is_cancellable ((text_eq_iff n m).0 e), c, f))
      by_name false e = omega (arith, h m c)

  invoke-AtMostOne :
      (b stop : Bool) (n : Text) (l : Loop) (c : Command) (w : W)
      → is_cancellable n ≡ b
      → AtMostOne l
      → AtMostOne (invoke actor_write report true b stop n l c w).2
  invoke-AtMostOne true stop n l c w e h =
      Guarded-AtMostOne (invoke-Guarded actor_write report stop n l c w) h
  invoke-AtMostOne false stop n l c w e h = unfold invoke launch_unless in launch-AtMostOne n l e h

  Step-AtMostOne : {l k : Loop} → Step l k → AtMostOne l → AtMostOne k
  unfolding AtMostOne
  Step-AtMostOne {l} (invokes stop n c w) h =
      invoke-AtMostOne (is_cancellable n) stop n l c w refl h
  Step-AtMostOne {l} (cancels i) h = λ m c. rw (running-cancel m i l.tasks) (h m c)
  Step-AtMostOne {l} (ends i) h = λ m c. omega (arith, running-without m i l.tasks, h m c)
  Step-AtMostOne (waits d) h = h

  -- From a loop in which no command has a task, whatever commands are invoked, with or without
  -- --stop, and whatever tasks are cancelled and end, no command that is cancellable has two live
  -- tasks at a time.
  pub Reach-AtMostOne :
      {l k : Loop} → ((n : Text) → matching n l.tasks ≡ []) → Reach l k → AtMostOne k
  unfolding AtMostOne
  Reach-AtMostOne e here = λ m c. ground (arith, e m)
  Reach-AtMostOne e (next r s) = Step-AtMostOne s (Reach-AtMostOne e r)
