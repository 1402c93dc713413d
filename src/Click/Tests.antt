-- ===== src/Click/Tests.antt =====
-- The properties of the click parser at an actor that keeps what it is given.
use clu.Prelude.{
  ◌≡◌, refl, true, false, Option, none, some, List, [], ◌∷◌, ◌++◌, Text, text, text_eq, starts_with,
  ok, err, Result, Error, value_error, has_char,
}
use clu.Status.{is_done, timedout}
use clu.Status
use clu.Command.{Command, ActorCall, new}
use clu.Command.Open.{IsOpen, HasEnded}
use clu.Command.Trace.{new-IsSound}
use clu.Click.{
  Problem, Failure, click_error, end_callback, times_out, parse_command, command_args, with_help,
  has_text, removed,
}
use clu.Click.Ends.{end_callback-HasEnded, parse_command-HasEnded, parse_command-unsplit}
use clu.Click.Help.{command_args-help}

abbrev record_call : ActorCall → List ActorCall → Result (Unit {0}) × List ActorCall
record_call a l = (ok tt, l ++ a ∷ [])

abbrev complain : Problem → Text
complain p = text "problem"

abbrev fresh : Command
fresh = new 5 none true [] false (text "text") false false true none

fresh-IsOpen : IsOpen fresh
unfolding new is_done
fresh-IsOpen = record {
  sound = new-IsSound 5 none true [] false (text "text") false false true none;
  active = refl;
  unfinished = refl;
}

fresh-has_actor : fresh.has_actor ≡ true
unfolding new
fresh-has_actor = refl

end_callback-HasEnded_example :
    let r = end_callback record_call complain true false times_out fresh [] in
    (r.0 ≡ ok tt) × HasEnded timedout r.1
end_callback-HasEnded_example =
    end_callback-HasEnded record_call complain (λ a x. refl) true false times_out timedout fresh []
      refl fresh-has_actor fresh-IsOpen

-- A split that knows no quotes, and that fails where there is one.
abbrev one_word : Text → Option (List Text)
one_word s = elim (has_char 39 s) [ true ↦ none | false ↦ some (s ∷ []) ]

abbrev no_such_command :
    List Text → Command → List ActorCall → Option Failure × Command × List ActorCall
no_such_command args c w = (some (click_error (text "UsageError: No such command")), c, w)

abbrev no_error : List Text → Option Error
no_error args = none

expose-args : command_args one_word (with_help (text "expose")) ≡ some (text "expose" ∷ [])
unfolding command_args with_help has_text removed starts_with text_eq has_char
expose-args = refl

parse_command-HasEnded_example :
    let r =
      parse_command record_call complain true false one_word no_error no_such_command
        (text "expose")
        fresh
        [] in
    (r.0 ≡ ok tt) × HasEnded Status.failed r.1
parse_command-HasEnded_example =
    parse_command-HasEnded record_call complain (λ a x. refl) true false one_word no_error
      no_such_command (text "expose") (text "expose" ∷ [])
      (click_error (text "UsageError: No such command")) fresh [] expose-args refl (λ d x. refl)
      (λ e. cc) fresh-has_actor fresh-IsOpen

quote-args : command_args one_word (with_help (text "say 'hi")) ≡ none
unfolding command_args with_help has_text removed starts_with text_eq has_char
quote-args = refl

parse_command-unsplit_example :
    let r =
      parse_command record_call complain true false one_word no_error no_such_command
        (text "say 'hi")
        fresh
        [] in
    (r.0 ≡ err value_error) × IsOpen r.1 × (r.1.status ≡ Status.running)
parse_command-unsplit_example =
    parse_command-unsplit record_call complain (λ a x. refl) true false one_word no_error
      no_such_command (text "say 'hi") fresh [] quote-args (λ e. cc) fresh-IsOpen

no_dash : has_char 45 (text "expose") ≡ false
unfolding has_char
no_dash = refl

command_args-help_example :
    (command_args one_word (with_help (text "expose" ++ text " --help"))
      ≡ some (text "help" ∷ text "\"expose\"" ∷ []))
    × (command_args one_word (with_help (text "help expose"))
        ≡ some (text "help" ∷ text "\"expose\"" ∷ []))
command_args-help_example = command_args-help one_word (text "expose") no_dash
