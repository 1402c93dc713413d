-- ===== src/Command/Open.antt =====
-- Commands that have not ended, and the calls that end them.
use clu.Prelude.{◌<◌, ◌≡◌, refl, ap, ◌∙◌, Bool, true, false, some, Text, text, Result, ok, arith}
use clu.Status.{CommandStatus, is_done}
use clu.Status
use clu.Command.{Command, MessageArg, Kwargs, ActorCall, flag, set_status, finish, fail, to_status}
use clu.Command.Written.{unsupported_message}
use clu.Command.Ends.{HasChanged, set_status-ok, set_status-HasChanged}
use clu.Command.Trace.{IsSound, Reach-IsSound, next, here, calls}

-- A sound command that is neither done nor finished.
pub record IsOpen (c : Command) : Type 0 where
  pub sound : IsSound c
  pub active : is_done c.status ≡ false
  pub unfinished : c.finished ≡ false

-- A sound command that has ended with a status.
pub record HasEnded (v : CommandStatus) (d : Command) : Type 0 where
  pub sound : IsSound d
  pub status : d.status ≡ v
  pub finished : d.finished ≡ true

pub running-done : is_done Status.running ≡ false
unfolding is_done
running-done = refl

pub failed-done : is_done Status.failed ≡ true
unfolding is_done
failed-done = refl

pub done-done : is_done Status.done ≡ true
unfolding is_done
done-done = refl

pub failed-code : Status.code Status.failed ≡ some (text "f")
unfolding Status.code
failed-code = refl

pub done-code : Status.code Status.done ≡ some (text ":")
unfolding Status.code
done-code = refl

pub running-code : Status.code Status.running ≡ some (text ">")
unfolding Status.code
running-code = refl

module _ {W : Type 0} (actor_write : ActorCall → W → Result (Unit {0}) × W)
    (works : (a : ActorCall) (x : W) → (actor_write a x).0 ≡ ok tt) where
  -- The call returns and leaves a sound command with the status.
  pub set_status-IsSound :
      (v : CommandStatus) (t : Text) (m : MessageArg) (quiet : Bool) (k : Kwargs) (c : Command)
      (w : W)
      → Status.code v ≡ some t
      → v < 512
      → unsupported_message m ≡ false
      → IsOpen c
      → let r = set_status actor_write (flag v) m quiet k c w in
        (r.0 ≡ ok tt) × IsSound r.1 × HasChanged c v r.1
  set_status-IsSound v t m quiet k c w e b u i =
      let p =
        set_status-ok actor_write v m quiet k c w t works u i.sound.valid i.active i.unfinished b
          e in
      (
        p,
        Reach-IsSound actor_write i.sound (next here (calls (flag v) m quiet k w refl)),
        set_status-HasChanged actor_write (flag v) m quiet k c w v t i.sound.valid i.active
            i.unfinished (unfold to_status in refl) e p,
      )

  pub set_status-HasEnded :
      (v : CommandStatus) (t : Text) (m : MessageArg) (quiet : Bool) (k : Kwargs) (c : Command)
      (w : W)
      → Status.code v ≡ some t
      → v < 512
      → is_done v ≡ true
      → unsupported_message m ≡ false
      → IsOpen c
      → let r = set_status actor_write (flag v) m quiet k c w in (r.0 ≡ ok tt) × HasEnded v r.1
  set_status-HasEnded v t m quiet k c w e b d u i =
      let (p, s, h) = set_status-IsSound v t m quiet k c w e b u i in
      (p, record { sound = s; status = h.status; finished = h.finished ∙ d })

  pub fail-HasEnded :
      (m : MessageArg) (quiet : Bool) (k : Kwargs) (c : Command) (w : W)
      → unsupported_message m ≡ false
      → IsOpen c
      → let r = fail actor_write m quiet k c w in (r.0 ≡ ok tt) × HasEnded Status.failed r.1
  unfolding fail
  fail-HasEnded m quiet k c w u i =
      set_status-HasEnded Status.failed (text "f") m quiet k c w failed-code (omega arith)
        failed-done u i

  pub finish-HasEnded :
      (m : MessageArg) (quiet : Bool) (k : Kwargs) (c : Command) (w : W)
      → unsupported_message m ≡ false
      → IsOpen c
      → let r = finish actor_write m quiet k c w in (r.0 ≡ ok tt) × HasEnded Status.done r.1
  unfolding finish
  finish-HasEnded m quiet k c w u i =
      set_status-HasEnded Status.done (text ":") m quiet k c w done-code (omega arith) done-done u i

  pub running-IsOpen :
      (m : MessageArg) (quiet : Bool) (k : Kwargs) (c : Command) (w : W)
      → unsupported_message m ≡ false
      → IsOpen c
      → let r = set_status actor_write (flag Status.running) m quiet k c w in
        (r.0 ≡ ok tt) × IsOpen r.1 × (r.1.status ≡ Status.running)
  running-IsOpen m quiet k c w u i =
      let (p, s, h) =
        set_status-IsSound Status.running (text ">") m quiet k c w running-code (omega arith) u i in
      (
        p,
        record {
          sound = s;
          active = ap is_done h.status ∙ running-done;
          unfinished = h.finished ∙ running-done;
        },
        h.status,
      )
