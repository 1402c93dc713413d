-- ===== src/JsonParser/Outcomes.antt =====
-- How a command ends, or goes on, when it is parsed as JSON.
use clu.Prelude.{
  ℕ, ◌⊎◌, inl, inr, ◌≡◌, refl, ap, ◌∙◌, Bool, true, false, Option, none, some, [], ◌∷◌, Text, text,
  Result, ok, err, arith, if◌then◌else◌,
}
use clu.Prelude.Dict.{Dict, lookup}
use clu.Value.{str}
use clu.Reply.{Message}
use clu.Status.{is_done}
use clu.Status
use clu.Command.{Command, ActorCall, no_message, flag, set_status, to_status}
use clu.Command.Ends.{set_status-ok, set_status-HasChanged, finish-fail}
use clu.Command.Trace.{IsSound, Reach-IsSound, next, here, calls}
use clu.JsonParser.{
  Json, object, Problem, no_json, no_command, no_callback, no_coroutine, not_scheduled, Outcome,
  without, plain, outcome, fail_with, dispatch, by_verb, by_payload, after_running, parse_command,
}

-- The call that a verb of the payload asks for, if it is a coroutine function that can be called.
pub request : Dict Bool → (Text → Message → Bool) → Text → Message → Option (Text × Message)
request callbacks schedules verb payload = elim (lookup verb callbacks) [
  | none ↦ none
  | some false ↦ none
  | some true ↦ if schedules verb payload then some (verb, payload) else none
]

-- A command whose call was accepted runs, and one whose call was not has failed.
pub record IsAnswered {W : Type 0} (asked : Option (Text × Message)) (r : Outcome W) : Type 0 where
  pub returned : r.result ≡ ok tt
  pub task : r.task ≡ asked
  pub status : r.command.status ≡ (elim asked [ none ↦ Status.failed | some _ ↦ Status.running ])
  pub finished : r.command.finished ≡ (elim asked [ none ↦ true | some _ ↦ false ])

running_done : is_done Status.running ≡ false
unfolding is_done
running_done = refl

failed_done : is_done Status.failed ≡ true
unfolding is_done
failed_done = refl

code_running : Status.code Status.running ≡ some (text ">")
unfolding Status.code
code_running = refl

module _ {W : Type 0} (actor_write : ActorCall → W → Result (Unit {0}) × W)
    (loads : Text → Option Json) (callbacks : Dict Bool) (schedules : Text → Message → Bool)
    (complain : Problem → Text)
    (works : (a : ActorCall) (x : W) → (actor_write a x).0 ≡ ok tt) where
  -- A command that runs.
  record IsRunning (c : Command) : Type 0 where
    pub sound : IsSound c
    pub status : c.status ≡ Status.running
    pub finished : c.finished ≡ false

  fail_with-IsAnswered :
      (p : Problem) (c : Command) (w : W)
      → IsRunning c
      → IsAnswered none (fail_with actor_write loads callbacks schedules complain p c w)
  unfolding fail_with outcome
  fail_with-IsAnswered p c w i =
      let (_, _, q, h) =
        finish-fail actor_write no_message false
          (record plain { keywords = (text "error", str (complain p)) ∷ [] }) c w works refl
          i.sound.valid (ap is_done i.status ∙ running_done) i.finished in
      record { returned = q; task = refl; status = h.status; finished = h.finished ∙ failed_done }

  dispatch-IsAnswered :
      (verb : Text) (payload : Message) (c : Command) (w : W)
      → IsRunning c
      → IsAnswered
          (request callbacks schedules verb payload)
          (dispatch actor_write loads callbacks schedules complain verb payload c w)
  unfolding dispatch request
  dispatch-IsAnswered verb payload c w i = at (lookup verb callbacks)
    where
      chosen :
          (b : Bool)
          → IsAnswered (if b then some (verb, payload) else none) (
              if b
              then record { result = ok tt; command = c; world = w; task = some (verb, payload) }
              else fail_with actor_write loads callbacks schedules complain
                  (not_scheduled verb)
                  c
                  w)
      chosen true = record {
        returned = refl;
        task = refl;
        status = i.status;
        finished = i.finished;
      }
      chosen false = fail_with-IsAnswered (not_scheduled verb) c w i

      at :
          (o : Option Bool)
          → IsAnswered
              (elim o [
                | none ↦ none
                | some false ↦ none
                | some true ↦ if schedules verb payload then some (verb, payload) else none
              ])
              (elim o [
                | none ↦
                    fail_with actor_write loads callbacks schedules complain
                      (no_callback (str verb))
                      c
                      w
                | some false ↦
                    fail_with actor_write loads callbacks schedules complain (no_coroutine verb) c w
                | some true ↦
                    if schedules verb payload
                    then record {
                      result = ok tt;
                      command = c;
                      world = w;
                      task = some (verb, payload);
                    }
                    else fail_with actor_write loads callbacks schedules complain
                        (not_scheduled verb)
                        c
                        w
              ])
      at none = fail_with-IsAnswered (no_callback (str verb)) c w i
      at (some false) = fail_with-IsAnswered (no_coroutine verb) c w i
      at (some true) = chosen (schedules verb payload)

  start_running :
      (c : Command) (w : W)
      → IsSound c
      → is_done c.status ≡ false
      → c.finished ≡ false
      → let r = set_status actor_write (flag Status.running) no_message false plain c w in
        (r.0 ≡ ok tt) × IsRunning r.1
  start_running c w sound d f =
      let p =
        set_status-ok actor_write Status.running no_message false plain c w (text ">") works refl
          sound.valid d f (omega arith) code_running in
      let h =
        set_status-HasChanged actor_write (flag Status.running) no_message false plain c w
          Status.running (text ">") sound.valid d f (unfold to_status in refl) code_running p in
      (
        p,
        record {
          sound =
              Reach-IsSound actor_write sound
                (next here (calls (flag Status.running) no_message false plain w refl));
          status = h.status;
          finished = h.finished ∙ running_done;
        },
      )

  -- A command that is sound, not done and not finished, with a body that is a JSON dictionary whose
  -- verb is a text, is set to run; if a coroutine function of that name takes the payload, its
  -- task is created and the command goes on running, and if not, the command has failed. The call
  -- returns, if the actor's `write` does not raise.
  pub parse_command-IsAnswered :
      (x : ℕ) (body : Text) (m : Message) (verb : Text) (c : Command) (w : W)
      → loads (x ∷ body) ≡ some (object m)
      → lookup (text "command") m ≡ some (str verb)
      → IsSound c
      → is_done c.status ≡ false
      → c.finished ≡ false
      → IsAnswered
          (request callbacks schedules verb (without (text "command") m))
          (parse_command actor_write loads callbacks schedules complain (x ∷ body) c w)
  unfolding parse_command
  parse_command-IsAnswered x body m verb c w e v sound d f =
      let (p, i) = start_running c w sound d f in
      answered (set_status actor_write (flag Status.running) no_message false plain c w) p i
    where
      answered :
          (r : Result (Unit {0}) × Command × W)
          → r.0 ≡ ok tt
          → IsRunning r.1
          → IsAnswered
              (request callbacks schedules verb (without (text "command") m))
              (after_running actor_write loads callbacks schedules complain (x ∷ body) r)
      answered (ok _, c, w) p i =
          unfold after_running by_payload by_verb in
          rw (e, v) (dispatch-IsAnswered verb (without (text "command") m) c w i)
      answered (err _, c, w) p i = absurd (cc p)

  -- A command that is sound, not done and not finished, with a body that is no JSON, or a JSON
  -- dictionary with no verb, has failed after the call, and no task is created, if the actor's
  -- `write` does not raise.
  pub parse_command-unreadable :
      (x : ℕ) (body : Text) (c : Command) (w : W)
      → (loads (x ∷ body) ≡ none)
        ⊎ ((m : Message) × (loads (x ∷ body) ≡ some (object m))
            × (lookup (text "command") m ≡ none))
      → IsSound c
      → is_done c.status ≡ false
      → c.finished ≡ false
      → IsAnswered none
          (parse_command actor_write loads callbacks schedules complain (x ∷ body) c w)
  unfolding parse_command
  parse_command-unreadable x body c w h sound d f =
      let (p, i) = start_running c w sound d f in
      answered (set_status actor_write (flag Status.running) no_message false plain c w) p i h
    where
      answered :
          (r : Result (Unit {0}) × Command × W)
          → r.0 ≡ ok tt
          → IsRunning r.1
          → (loads (x ∷ body) ≡ none)
            ⊎ ((m : Message) × (loads (x ∷ body) ≡ some (object m))
                × (lookup (text "command") m ≡ none))
          → IsAnswered none
              (after_running actor_write loads callbacks schedules complain (x ∷ body) r)
      answered (ok _, c, w) p i (inl e) =
          unfold after_running by_payload in rw e (fail_with-IsAnswered no_json c w i)
      answered (ok _, c, w) p i (inr (m, e, v)) =
          unfold after_running by_payload by_verb in
          rw (e, v) (fail_with-IsAnswered no_command c w i)
      answered (err _, c, w) p i h = absurd (cc p)
