-- ===== src/Command/Lifecycle.antt =====
-- The life of a command: what `set_status` changes, and what it leaves alone.
use clu.Prelude.{
  implies, ◌+◌, ◌≡◌, refl, Bool, true, false, Option, none, some, Text, Result, ok, err, Error,
  arith, ◌&&◌, if◌then◌else◌, ◌==◌, inl, inr, Bool-cases,
}
use clu.Status.{CommandStatus, done, failed, timedout, ready, is_done, is_in}
use clu.Status
use clu.Command.{
  Command, MessageArg, Kwargs, ActorCall, StatusArg, set_status, complete, change_to, with_code,
  finish_with, to_status, is_timedout,
}

-- The status has a code, and the future of a command that is done has its result.
pub record IsValid (c : Command) : Type 0 where
  pub has_code : Text
  pub coded : Status.code c.status ≡ some has_code
  pub done_finished : implies (is_done c.status) c.finished ≡ true

code_zero : Status.code 0 ≡ none
unfolding Status.code
code_zero = refl

pub nonzero : (v : CommandStatus) (t : Text) → Status.code v ≡ some t → (v == 0) ≡ false
nonzero v t e = elim (Bool-cases (v == 0)) [
  | inl z ↦ let p : v ≡ 0 = ground arith in absurd (cc (code_zero, p, e))
  | inr n ↦ n
]

pub complete-IsValid :
    (c : Command) (v : CommandStatus) (t : Text)
    → IsValid c
    → Status.code v ≡ some t
    → IsValid (complete v c)
unfolding complete
complete-IsValid c v t valid e = record {
  has_code = t;
  coded = ground (arith, nonzero v t e);
  done_finished = ground (arith, nonzero v t e);
}

-- The three things that a call of `set_status` does to a command: nothing, a warning, or the change
-- of a command that is not done to a status with a code.
pub data Change (c : Command) : Command → Type 0 where
  same : Change c c
  warns : Change c (record c { warned = c.warned + 1 })
  changes :
      (v : CommandStatus) (t : Text)
      → is_done c.status ≡ false
      → Status.code v ≡ some t
      → Change c (complete v c)

module _ {W : Type 0} (actor_write : ActorCall → W → Result (Unit {0}) × W) where
  -- A valid command that is done keeps its status, its callbacks are not scheduled, and the actor
  -- is not called: `set_status` warns, except for a timeout, and returns.
  pub set_status-done :
      (s : StatusArg) (m : MessageArg) (quiet : Bool) (k : Kwargs) (c : Command) (w : W)
      → IsValid c
      → is_done c.status ≡ true
      → set_status actor_write s m quiet k c w
        ≡ (ok tt, (if is_timedout s then c else record c { warned = c.warned + 1 }), w)
  unfolding set_status
  set_status-done s m quiet k c w v h = ground (arith, nonzero c.status v.has_code v.coded)

  -- A `set_status` that raises has changed nothing of the command.
  pub set_status-err :
      (s : StatusArg) (m : MessageArg) (quiet : Bool) (k : Kwargs) (c : Command) (w : W) (e : Error)
      → (set_status actor_write s m quiet k c w).0 ≡ err e
      → (set_status actor_write s m quiet k c w).1 ≡ c
  unfolding set_status
  set_status-err s m quiet k c w e h = ground arith

  finish_with-Change :
      (v : CommandStatus) (t : Text) (c : Command) (r : Result (Unit {0}) × W)
      → is_done c.status ≡ false
      → Status.code v ≡ some t
      → Change c (finish_with actor_write v c r).1
  unfolding finish_with
  finish_with-Change v t c (ok _, w) d e = changes v t d e
  finish_with-Change v t c (err _, w) d e = same

  with_code-Change :
      (v : CommandStatus) (o : Option Text) (m : MessageArg) (quiet : Bool) (k : Kwargs)
      (c : Command) (w : W)
      → is_done c.status ≡ false
      → Status.code v ≡ o
      → Change c (with_code actor_write v o m quiet k c w).1
  unfolding with_code
  with_code-Change v none m quiet k c w d e = same
  with_code-Change v (some t) m quiet k c w d e = finish_with-Change v t c _ d e

  change_to-Change :
      (r : Result CommandStatus) (m : MessageArg) (quiet : Bool) (k : Kwargs) (c : Command) (w : W)
      → is_done c.status ≡ false
      → Change c (change_to actor_write r m quiet k c w).1
  unfolding change_to
  change_to-Change (err e) m quiet k c w d = same
  change_to-Change (ok v) m quiet k c w d = elim (Bool-cases (v == c.status)) [
    | inl e ↦ rw e same
    | inr n ↦ rw n (with_code-Change v (Status.code v) m quiet k c w d refl)
  ]

  -- What one call of `set_status` does to a command.
  pub set_status-Change :
      (s : StatusArg) (m : MessageArg) (quiet : Bool) (k : Kwargs) (c : Command) (w : W)
      → Change c (set_status actor_write s m quiet k c w).1
  unfolding set_status
  set_status-Change s m quiet k c w = elim (Bool-cases (c.status == 0)) [
    | inl z ↦ rw z same
    | inr n ↦ rw n (elim (Bool-cases (is_timedout s && c.finished)) [
      | inl t ↦ rw t same
      | inr t ↦ rw t (elim (Bool-cases (is_done c.status)) [
        | inl d ↦ rw d warns
        | inr d ↦ rw d (change_to-Change (to_status s) m quiet k c w d)
      ])
    ])
  ]
