-- ===== src/Timed/Tests.antt =====
-- The properties of timed commands at one command.
use clu.Prelude.{◌≡◌, refl, arith, true, false, text}
use clu.Timed.{TimedCommand}
use clu.Timed.Overlap.{State, start_of, Reach, overlap}

abbrev status : TimedCommand
status = record {
  command_string = text "status";
  delay = 5;
  last_run = 100;
  is_running = false;
  first_silent = true;
}

overlap_example :
    (s : State) × Reach 1 (start_of 200 status) s
    × (s.in_flight ≡ 3)
    × (s.command.is_running ≡ true)
overlap_example = overlap 1 200 status 2 (omega arith) refl
