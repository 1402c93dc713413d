-- ===== src/Tron/Tests.antt =====
-- The properties of the Tron connection at a few pieces of data.
use clu.Prelude.{
  ℕ, ◌≡◌, refl, Bool, true, false, List, [], ◌∷◌, ◌++◌, Text, text, text_eq, ok, has_char, Option,
  none, some, if◌then◌else◌, subst, zero, suc, ◌<◌, ◌^◌, ◌==◌, lower, lower_char,
}
use clu.Prelude.Dict.{lookup}
use clu.Callbacks.{Callbacks}
use clu.Keys.{Wrapping, Conversion, converts, Cell, single, Key}
use clu.Keys.Reads.{some_inj}
use clu.Keys.Matches.{AreResolved}
use clu.Keys.Dictionary.{KeysDictionary}
use clu.Tron.Model.{TronModel, KeyChange, Parsed, parse_reply}
use clu.Tron.Values.{Covers, HasRead}
use clu.Tron.Created.{new_model-Covers}
use clu.Tron.Parsing.{parse_reply-HasRead}
use clu.Status.{code_to_status, is_done}
use clu.Reply.{message_code, code_value, failed}
use clu.Command.{new}
use clu.Command.Trace.{IsSound, new-IsSound}
use clu.Tron.Connection.{
  Running, TronReply, Connection, find, commanding, send_command, handle_reply,
}
use clu.Tron.Commands.{all_differ, HasAnswered, send_command_lem, handle_reply-HasAnswered}
use clu.Tron.Buffer.{feed}
use clu.Tron.Lines.{feed_lem, feed-concat, unlines, AreLines, concat, is_full}

-- A reply in two pieces, with the start of the next one.
abbrev pieces : List (List ℕ)
pieces = text "ab" ∷ (99 ∷ 10 ∷ 100 ∷ []) ∷ []

abbrev whole : List (List ℕ)
whole = (97 ∷ 98 ∷ 99 ∷ 10 ∷ 100 ∷ []) ∷ []

feed_lem_example :
    (lines : List (List ℕ)) × (rest : List ℕ) × (feed (text "x") pieces ≡ ok (lines, rest))
    × (unlines lines rest ≡ text "x" ++ concat pieces)
    × AreLines lines
    × (has_char 10 rest ≡ false)
unfolding has_char concat is_full
feed_lem_example = feed_lem (text "x") pieces (refl, (refl, tt)) refl refl

feed-concat_example : feed (text "x") pieces ≡ feed (text "x") whole
unfolding has_char concat is_full
feed-concat_example =
    feed-concat (text "x") pieces whole (refl, (refl, tt)) (refl, tt) refl refl refl

-- A carriage return at the end of a piece is lost.
joined : feed [] ((97 ∷ 13 ∷ []) ∷ (98 ∷ 10 ∷ []) ∷ []) ≡ ok (text "ab" ∷ [], [])
unfolding feed
joined = refl

split : feed [] ((97 ∷ 13 ∷ 98 ∷ 10 ∷ []) ∷ []) ≡ ok (text "a" ∷ text "b" ∷ [], [])
unfolding feed
split = refl

-- A model with one key, whose values are the numbers that are given.
abbrev same_number : ℕ → ℕ → Conversion ℕ
same_number t n = converts n

abbrev airmass : Key ℕ
airmass = record { name = text "AirMass"; vtypes = single 0 ∷ []; unique = none }

abbrev tcc_keys : KeysDictionary ℕ
tcc_keys = record { keys = (text "airmass", airmass) ∷ []; named_types = [] }

airmass_only :
    (k : Key ℕ) (b : Bool) → (if b then some airmass else none) ≡ some k → AreResolved k.vtypes
airmass_only k true h = subst (λ (k : Key ℕ). AreResolved k.vtypes) (some_inj h) tt
airmass_only k false h = absurd (cc h)

tcc_resolved : (x : Text) (k : Key ℕ) → lookup x tcc_keys.keys ≡ some k → AreResolved k.vtypes
unfolding lookup
tcc_resolved x k h = airmass_only k (text_eq (text "airmass") x) h

abbrev any_values : Wrapping ℕ ℕ
any_values = some (λ ts cs. none)

abbrev made_of : List (Cell ℕ) → Option ℕ
made_of cs = some 0

abbrev no_hooks : Callbacks (KeyChange ℕ)
no_hooks = record { registered = []; running = []; called = [] }

abbrev tcc_model : TronModel ℕ ℕ ℕ ℕ
tcc_model =
    (new_model-Covers same_number any_values (λ n. n) made_of (text "tcc") tcc_keys no_hooks
      tcc_resolved).0

abbrev tcc_covers : Covers same_number any_values (λ n. n) made_of tcc_model
tcc_covers =
    (new_model-Covers same_number any_values (λ n. n) made_of (text "tcc") tcc_keys no_hooks
      tcc_resolved).3

abbrev start : Parsed same_number any_values (λ n. n) made_of
start = record { model = tcc_model; parsed = []; keywords = [] }

parse_reply-HasRead_example :
    (q : Parsed same_number any_values (λ n. n) made_of) × (parse_reply same_number any_values
        (λ n. n)
        made_of
        4
        ((text "AIRMASS", 7 ∷ []) ∷ [])
        start
      ≡ ok q)
    × HasRead same_number any_values (λ n. n) made_of ((text "AIRMASS", 7 ∷ []) ∷ []) start q
parse_reply-HasRead_example =
    parse_reply-HasRead same_number any_values (λ n. n) made_of 4 ((text "AIRMASS", 7 ∷ []) ∷ [])
      start ((λ ts cs. refl), (λ cs. refl)) tcc_covers

abbrev marks : ℕ → Text
marks zero = []
marks (suc n) = text "1" ++ marks n

abbrev idle : Connection
idle = record {
  commander = text "apo.apo";
  mid = 3;
  running_commands = [];
  written = [];
  called = [];
}

send_command_lem_example :
    (s : Running) × (n : ℕ) × (d : Connection) × (send_command marks 8
        (text "tcc")
        (text "status")
        []
        none
        (some 7)
        none
        none
        idle
      ≡ (n, d))
    × (n < 2 ^ 32)
    × (s.commander_id ≡ commanding none (text "apo.apo"))
    × IsSound s.command
    × ((m : ℕ) → find m d.running_commands ≡ (if n == m then some s else none))
    × (all_differ d.running_commands ≡ true)
unfolding find
send_command_lem_example =
    send_command_lem marks 8 (text "tcc") (text "status") [] none (some 7) none none idle refl

abbrev asked : Running
asked = record {
  command = new 8 none false [] false (text "text") false false true none;
  commander_id = text "apo.apo";
  reply_callback = none;
  replies = [];
}

abbrev busy : Connection
busy = record idle { running_commands = (3, asked) ∷ [] }

abbrev last_reply : TronReply
last_reply = record { commander = text "apo.apo"; command_id = 3; code = text "F"; parsed = [] }

failed-code : message_code (lower (text "F")) ≡ ok failed
unfolding message_code code_value text_eq lower lower_char
failed-code = refl

handle_reply-HasAnswered_example :
    (t : Running) × (d : Connection) × (handle_reply last_reply busy ≡ ok d)
    × HasAnswered last_reply (code_to_status (lower (text "F")) none) asked t busy d
unfolding find text_eq new is_done
handle_reply-HasAnswered_example =
    handle_reply-HasAnswered last_reply asked failed busy refl refl failed-code
      (new-IsSound 8 none false [] false (text "text") false false true none) refl refl refl

abbrev stray : TronReply
stray = record last_reply { commander = text "apo.bob" }
