-- ===== src/Command/Trace.antt =====
-- Histories of a command: calls of `set_status` with any arguments, its own time limit included,
-- by any code that holds the command, and cancellations of the future from outside.
use clu.Prelude.{
  ℕ, ◌≡◌, refl, ap, subst, ◌∙◌, Bool, true, false, Option, some, List, [], ◌∷◌, ◌++◌, map, Text,
  text, Result, arith, if◌then◌else◌,
}
use clu.Status.{CommandStatus, is_done, ready}
use clu.Status
use clu.Command.{
  Command, MessageArg, Kwargs, ActorCall, StatusArg, set_status, complete, new, CommandRef,
}
use clu.Command.Lifecycle.{
  IsValid, Change, same, warns, changes, set_status-Change, complete-IsValid, nonzero,
}

-- The calls that were scheduled with a status that is done, in order.
pub done_calls : List (ℕ × CommandStatus) → List (ℕ × CommandStatus)
done_calls [] = []
done_calls ((f, v) ∷ l) = let rest = done_calls l in if is_done v then (f, v) ∷ rest else rest

-- Each of the callbacks once, with a status.
pub each_with : CommandStatus → List ℕ → List (ℕ × CommandStatus)
each_with v [] = []
each_with v (f ∷ fs) = (f, v) ∷ each_with v fs

done_calls-append :
    (l m : List (ℕ × CommandStatus)) → done_calls (l ++ m) ≡ done_calls l ++ done_calls m
unfolding done_calls
done_calls-append [] m = refl
done_calls-append ((f, v) ∷ l) m = ground (arith, done_calls-append l m)

done_calls-map :
    (v : CommandStatus) (fs : List ℕ)
    → done_calls (map (λ f. (f, v)) fs) ≡ (if is_done v then each_with v fs else [])
unfolding done_calls each_with
done_calls-map v [] = ground arith
done_calls-map v (f ∷ fs) = ground (arith, done_calls-map v fs)

-- The invariant of a history: the command is valid, and the calls that are scheduled with a status
-- that is done are one of each callback, in order and with the command's status, if the command is
-- done, and none otherwise.
pub record IsSound (c : Command) : Type 0 where
  pub valid : IsValid c
  pub notified :
      done_calls c.scheduled ≡ (if is_done c.status then each_with c.status c.callbacks else [])

-- Two commands between which nothing that ends a command has happened.
pub record SameEnd (c d : Command) : Type 0 where
  pub status : d.status ≡ c.status
  pub scheduled : d.scheduled ≡ c.scheduled

complete-notified :
    (c : Command) (v : CommandStatus) (t : Text)
    → IsSound c
    → is_done c.status ≡ false
    → Status.code v ≡ some t
    → done_calls (complete v c).scheduled ≡ (
        if is_done (complete v c).status
        then each_with (complete v c).status (complete v c).callbacks
        else [])
unfolding complete
complete-notified c v t s d e = ground (
  arith,
  nonzero v t e,
  done_calls-append c.scheduled (map (λ f. (f, v)) c.callbacks),
  done_calls-map v c.callbacks,
  s.notified,
)

Change-IsSound : {c d : Command} → Change c d → IsSound c → IsSound d
Change-IsSound same s = s
Change-IsSound warns s = record {
  valid = record {
    has_code = s.valid.has_code;
    coded = s.valid.coded;
    done_finished = s.valid.done_finished;
  };
  notified = s.notified;
}
Change-IsSound {c} (changes v t d e) s = record {
  valid = complete-IsValid c v t s.valid e;
  notified = complete-notified c v t s d e;
}

Change-SameEnd : {c d : Command} → Change c d → is_done c.status ≡ true → SameEnd c d
Change-SameEnd same h = record { status = refl; scheduled = refl }
Change-SameEnd warns h = record { status = refl; scheduled = refl }
Change-SameEnd (changes v t d e) h = absurd (ground (arith, d, h))

is_done-ready : is_done Status.ready ≡ false
unfolding is_done
is_done-ready = refl

code-ready : Status.code Status.ready ≡ some (text "i")
unfolding Status.code
code-ready = refl

-- A new command is sound.
pub new-IsSound :
    (ref : CommandRef) (parent : Option CommandRef) (has_actor : Bool) (callbacks : List ℕ)
    (call_now : Bool) (keyword : Text) (silent internal to_log : Bool) (limit : Option ℕ)
    → IsSound (new ref parent has_actor callbacks call_now keyword silent internal to_log limit)
unfolding new
new-IsSound ref parent has_actor callbacks true keyword silent internal to_log limit = record {
  valid = record { has_code = text "i"; coded = code-ready; done_finished = rw is_done-ready };
  notified = rw (done_calls-map Status.ready callbacks) (rw is_done-ready);
}
new-IsSound ref parent has_actor callbacks false keyword silent internal to_log limit = record {
  valid = record { has_code = text "i"; coded = code-ready; done_finished = rw is_done-ready };
  notified = rw is_done-ready (unfold done_calls in refl);
}

module _ {W : Type 0} (actor_write : ActorCall → W → Result (Unit {0}) × W) where
  -- One event of the command's life.
  pub data Step (c : Command) : Command → Type 0 where
    calls :
        {d : Command} (s : StatusArg) (m : MessageArg) (quiet : Bool) (k : Kwargs) (w : W)
        → (set_status actor_write s m quiet k c w).1 ≡ d
        → Step c d
    cancels : Step c (record c { finished = true })

  pub data Reach (c : Command) : Command → Type 0 where
    here : Reach c c
    next : {d e : Command} → Reach c d → Step d e → Reach c e

  Step-IsSound : {c d : Command} → Step c d → IsSound c → IsSound d
  Step-IsSound {c} (calls s m quiet k w e) h =
      subst IsSound e (Change-IsSound (set_status-Change actor_write s m quiet k c w) h)
  Step-IsSound cancels s = record {
    valid = record {
      has_code = s.valid.has_code;
      coded = s.valid.coded;
      done_finished = ground arith;
    };
    notified = s.notified;
  }

  -- Whatever happens to a command for which this holds, it goes on to hold: its status keeps a
  -- code, its future is finished if its status is done, and the calls scheduled with a done status
  -- are one of each callback, in order and with the command's status, if the command is done, and
  -- none otherwise.
  pub Reach-IsSound : {c d : Command} → IsSound c → Reach c d → IsSound d
  Reach-IsSound s here = s
  Reach-IsSound s (next r m) = Step-IsSound m (Reach-IsSound s r)

  Step-SameEnd : {c d : Command} → Step c d → is_done c.status ≡ true → SameEnd c d
  Step-SameEnd {c} (calls s m quiet k w e) h =
      subst (SameEnd c) e (Change-SameEnd (set_status-Change actor_write s m quiet k c w) h)
  Step-SameEnd cancels h = record { status = refl; scheduled = refl }

  -- A command that is done keeps its status, and no callback is scheduled again, whatever happens
  -- to it.
  pub Reach-SameEnd : {c d : Command} → is_done c.status ≡ true → Reach c d → SameEnd c d
  Reach-SameEnd h here = record { status = refl; scheduled = refl }
  Reach-SameEnd h (next r m) =
      let s = Reach-SameEnd h r in
      let t = Step-SameEnd m (ap is_done s.status ∙ h) in
      record { status = t.status ∙ s.status; scheduled = t.scheduled ∙ s.scheduled }
