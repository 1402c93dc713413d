-- ===== src/Command/Tests.antt =====
-- The properties of commands at a new command with an actor whose `write` keeps what it is given.
use clu.Prelude.{
  ℕ, ◌≡◌, ◌≢◌, refl, true, false, Option, none, some, List, [], ◌∷◌, ◌++◌, text, text_eq, ok,
  Result,
}
use clu.Value.{str}
use clu.Status.{CommandStatus, is_done, ready}
use clu.Status
use clu.Reply.{started, critical, MessageCode, info, warning, done, message_code, code_value}
use clu.Command.{
  Command, text_message, no_message, Kwargs, ActorCall, flag, member, code_text, set_status, finish,
  fail, written, new, complete, to_code, to_message, to_status,
}
use clu.Command.Written.{ends, written-child}
use clu.Command.Ends.{HasChanged, finish-fail}
use clu.Command.Trace.{
  IsSound, SameEnd, Step, here, next, calls, cancels, new-IsSound, Reach-IsSound, Reach-SameEnd,
}

abbrev record_call : ActorCall → List ActorCall → Result (Unit {0}) × List ActorCall
record_call a l = (ok tt, l ++ a ∷ [])

abbrev plain : Kwargs
plain = record { broadcast = false; internal = none; write_to_log = none; keywords = [] }

abbrev made : Option ℕ → Command
made parent = new 5 parent true (1 ∷ 2 ∷ []) false (text "text") false false true (some 10)

abbrev fresh : Command
fresh = made none

fresh-IsSound : IsSound fresh
fresh-IsSound = new-IsSound 5 none true (1 ∷ 2 ∷ []) false (text "text") false false true (some 10)

fresh-is_done : is_done fresh.status ≡ false
unfolding is_done new
fresh-is_done = refl

fresh-finished : fresh.finished ≡ false
unfolding new
fresh-finished = refl

finish-fail_example :
    let r = finish record_call (text_message (text "all good")) false plain fresh [] in
    let s = fail record_call (text_message (text "all good")) false plain fresh [] in
    (r.0 ≡ ok tt)
    × HasChanged fresh Status.done r.1
    × (s.0 ≡ ok tt)
    × HasChanged fresh Status.failed s.1
finish-fail_example =
    finish-fail record_call (text_message (text "all good")) false plain fresh [] (λ a x. refl) refl
      fresh-IsSound.valid fresh-is_done fresh-finished

abbrev ended : Command
ended = (finish record_call no_message true plain fresh []).1

ended-changed : Step record_call fresh ended
unfolding finish
ended-changed = calls (flag Status.done) no_message true plain [] refl

Reach-IsSound_example : IsSound (record ended { finished = true })
Reach-IsSound_example =
    Reach-IsSound record_call fresh-IsSound (next (next here ended-changed) cancels)

ended-is_done : is_done ended.status ≡ true
unfolding finish set_status new is_done Status.code to_status complete
ended-is_done = refl

Reach-SameEnd_example : SameEnd ended (record ended { finished = true })
Reach-SameEnd_example = Reach-SameEnd record_call ended-is_done (next here cancels)

abbrev child : Command
child = made (some 4)

abbrev child_call : ActorCall
child_call = record {
  code = info;
  message = (text "text", str (text "hi")) ∷ [];
  command = 4;
  broadcast = false;
  silent = false;
  internal = false;
  write_to_log = true;
  keywords = [];
}

child-parent : child.parent ≡ some 4
unfolding new
child-parent = refl

child-written : written child (member done) (text_message (text "hi")) plain ≡ ok (some child_call)
unfolding written new to_code to_message clu.Reply.code_eq
child-written = refl

written-child_example :
    (child_call.command ≡ 4)
    × (child_call.code ≢ started)
    × (ends child_call.code ≡ true
        → (child_call.code ≡ critical) × (to_code (member done) ≡ ok critical))
written-child_example =
    written-child child 4 (member done) (text_message (text "hi")) plain child_call child-parent
      child-written

fresh-parent : fresh.parent ≡ none
unfolding new
fresh-parent = refl

abbrev own_call : ActorCall
own_call = record child_call { code = warning; command = 5 }

fresh-written :
    written fresh (code_text (text "w")) (text_message (text "hi")) plain ≡ ok (some own_call)
unfolding written new to_code to_message clu.Reply.message_code clu.Reply.code_value text_eq
fresh-written = refl
