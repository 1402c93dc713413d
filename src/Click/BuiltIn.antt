-- ===== src/Click/BuiltIn.antt =====
-- The commands that every click parser has (python/clu/parsers/click.py): ping, version,
-- get_schema, help and keyword. `get_help` of click is the text that a group or a command holds;
-- the texts that `json.dumps` makes are parameters.
pub mod Leads
pub mod Walks
mod Tests
use clu.Prelude.{
  ℕ, zero, suc, ◌-◌, Bool, true, false, Option, none, some, List, [], ◌∷◌, ◌++◌, drop, Text, text,
  text_eq, starts_with, length, leb, ◌==◌, if◌then◌else◌, Result, ok, err, Error, ◌>>=◌,
  value_error, attribute_error, not, ◌&&◌, ◌||◌,
}
use clu.Prelude.Dict.{Dict, lookup}
use clu.Value.{Value, str, list}
use clu.Status
use clu.Handler.{split_lines}
use clu.Tcp.{is_space, is_empty}
use clu.Command.{
  Command, ActorCall, Kwargs, no_message, text_message, code_text, flag, set_status, finish, fail,
  write,
}
use clu.Click.{plain, with_keyword, lines_value, and_write, after_write}

-- A command of click, or a group with its commands, each with its help.
mutual
  pub data Node : Type 0 where
    command : Text → Node
    group : Text → Nodes → Node

  pub data Nodes : Type 0 where
    no_more : Nodes
    more : Text → Node → Nodes → Nodes

abbrev pub get_help : Node → Text
get_help (command h) = h
get_help (group h cs) = h

unfoldable pub find : Text → Nodes → Option Node
find x no_more = none
find x (more n c cs) = let rest = find x cs in if text_eq n x then some c else rest

-- The help that is found, or the name that is not; a command that is no group has no `commands`.
pub data Found : Type 0 where
  help_of not_found : Text → Found
  no_commands : Found

-- The loop over the words of the argument, from the group of the parser; without words, its help.
unfoldable pub walk : Node → List Text → Found
unfolding find
walk c [] = help_of (get_help c)
walk (command h) (x ∷ xs) = no_commands
walk (group h cs) (x ∷ xs) = elim (find x cs) [ none ↦ not_found x | some c ↦ walk c xs ]

-- parser_command.strip('"')
unfoldable pub strip_quotes : Text → Text
strip_quotes [] = []
strip_quotes (c ∷ s) = let rest = strip_quotes s in if c == 34 then rest else c ∷ s

unfoldable pub strip_last_quotes : Text → Text
strip_last_quotes [] = []
strip_last_quotes (c ∷ s) =
    let rest = strip_last_quotes s in if is_empty rest && c == 34 then [] else c ∷ rest

abbrev add_word : Text → List Text → List Text
add_word [] ws = ws
add_word (c ∷ s) ws = (c ∷ s) ∷ ws

-- The first word, and those after it.
words_from : Text → Text × List Text
words_from [] = ([], [])
words_from (c ∷ s) =
    let r = words_from s in if is_space c then ([], add_word r.0 r.1) else (c ∷ r.0, r.1)

-- text.split()
unfoldable pub words : Text → List Text
unfolding words_from
words s = let r = words_from s in add_word r.0 r.1

-- parser_command.strip('"').split(); an argument that is not given is None, which has no `strip`
unfoldable pub help_words : Option Text → Result (List Text)
unfolding words strip_last_quotes strip_quotes
help_words none = err attribute_error
help_words (some s) = ok (words (strip_last_quotes (strip_quotes s)))

-- s.replace(t, u), with the number of characters that are still to be skipped; for an empty t,
-- which is never given, s itself
unfoldable pub replaced : Text → Text → ℕ → Text → Text
replaced t u n [] = []
replaced t u (suc n) (c ∷ s) = replaced t u n s
replaced t u zero (c ∷ s) =
    let found = starts_with (c ∷ s) t && not (is_empty t) in
    let rest = replaced t u (if found then length t - 1 else 0) s in
    if found then u ++ rest else c ∷ rest

-- [A-Za-z-_]
abbrev is_name_char : ℕ → Bool
is_name_char c = (leb 65 c && leb c 90) || (leb 97 c && leb c 122) || (c == 45) || (c == 95)

name_of : Text → Text
name_of [] = []
name_of (c ∷ s) = let rest = name_of s in if is_name_char c then c ∷ rest else []

-- The line of the usage, with the name of the command.
unfoldable pub usage_line : Text → Text → Text
unfolding name_of replaced
usage_line name line =
    if starts_with line (text "Usage: ") then replaced (name_of (drop 7 line)) name 0 line else line

-- The name that the help gives to the command: that of the actor, and the words so far.
unfoldable pub command_name : Text → List Text → Text
command_name name [] = name
command_name name (x ∷ xs) = command_name (name ++ text " " ++ x) xs

abbrev quiet_keyword : Text → Value → Kwargs
quiet_keyword k v = record (with_keyword k v) { write_to_log = some false }

abbrev usage_lines : Text → List Text → List Text
usage_lines name [] = []
usage_lines name (l ∷ ls) = usage_line name l ∷ usage_lines name ls

-- " " repeated
abbrev spaces : ℕ → Text
spaces zero = []
spaces (suc n) = 32 ∷ spaces n

-- s.ljust(n, " ")
unfoldable pub ljust : Text → ℕ → Text
ljust s n = s ++ spaces (n - length s)

-- max([len(line) for line in lines])
unfoldable pub max_length : List Text → Result ℕ
max_length [] = err value_error
max_length (l ∷ []) = ok (length l)
max_length (l ∷ m ∷ ls) = do n ← max_length (m ∷ ls); ok (if leb n (length l) then length l else n)

-- line.replace('"', "")
abbrev unquoted : Text → Text
unquoted [] = []
unquoted (c ∷ s) = if c == 34 then unquoted s else c ∷ unquoted s

unfoldable pub padded : ℕ → List Text → List Text
unfolding ljust
padded n [] = []
padded n (l ∷ ls) = ljust (unquoted l) n ∷ padded n ls

-- The lines that `keyword` writes, from those of the schema without the first.
unfoldable pub keyword_lines : Text → List Text → Result (List Text)
unfolding max_length padded ljust
keyword_lines k lines = do n ← max_length lines; ok (ljust (k ++ text " = {") n ∷ padded n lines)

module _ {W : Type 0} (actor_write : ActorCall → W → Result (Unit {0}) × W) where
  -- ping
  unfoldable pub ping : Command → W → Result (Unit {0}) × Command × W
  ping c w = set_status actor_write (flag Status.done) (text_message (text "Pong.")) false plain c w

  -- version, of an actor with this version
  unfoldable pub version : Value → Command → W → Result (Unit {0}) × Command × W
  version v c w =
      set_status actor_write (flag Status.done) no_message false (with_keyword (text "version") v) c
        w

  -- get_schema, of an actor with this schema, as `json.dumps` writes it, or with none
  unfoldable pub get_schema : Option Text → Command → W → Result (Unit {0}) × Command × W
  get_schema none c w =
      fail actor_write no_message false
        (with_keyword (text "error") (str (text "The actor does not know its own schema."))) c w
  get_schema (some schema) c w =
      finish actor_write no_message false (with_keyword (text "schema") (str schema)) c w

  pub quiet_lines : Text → Text → List Text → Command → W → Result (Unit {0}) × W
  quiet_lines code k [] c w = (ok tt, w)
  quiet_lines code k (l ∷ ls) c w =
      and_write (write actor_write c (code_text code) no_message (quiet_keyword k (str l)) w)
        (quiet_lines code k ls c)

  pub show_lines : Bool → List Text → Command → W → Result (Unit {0}) × Command × W
  unfolding quiet_lines
  show_lines true ls c w =
      finish actor_write no_message false (quiet_keyword (text "help") (list (lines_value ls))) c w
  show_lines false ls c w =
      after_write (quiet_lines (text "w") (text "help") ls c w) c
        (finish actor_write no_message false plain c)

  pub show_found : Bool → Text → Found → Command → W → Result (Unit {0}) × Command × W
  unfolding show_lines
  show_found json_like name (help_of h) c w =
      show_lines json_like (usage_lines name (split_lines h)) c w
  show_found json_like name (not_found x) c w =
      fail actor_write no_message false
        (with_keyword (text "error") (str (text "command " ++ x ++ text " not found."))) c w
  show_found json_like name no_commands c w = (err attribute_error, c, w)

  pub help_for :
      Bool → Text → Node → Result (List Text) → Command → W → Result (Unit {0}) × Command × W
  unfolding show_found walk command_name
  help_for json_like name root (err e) c w = (err e, c, w)
  help_for json_like name root (ok ws) c w =
      show_found json_like (command_name name ws) (walk root ws) c w

  -- help_: whether the actor is an AMQP or JSON actor, its name, the group of the parser and the
  -- argument
  unfoldable pub help_ :
      Bool → Text → Node → Option Text → Command → W → Result (Unit {0}) × Command × W
  unfolding help_for help_words
  help_ json_like name root argument c w = help_for json_like name root (help_words argument) c w

  pub end_lines : Result (List Text) → Command → W → Result (Unit {0}) × Command × W
  unfolding quiet_lines
  end_lines (err e) c w = (err e, c, w)
  end_lines (ok ls) c w =
      after_write (quiet_lines (text "i") (text "text") ls c w) c
        (finish actor_write no_message false plain c)

  pub keyword_of :
      {J : Type 0} → (J → Text) → Text → Option J → Command → W → Result (Unit {0}) × Command × W
  unfolding end_lines keyword_lines
  keyword_of dumps k none c w =
      fail actor_write no_message false
        (with_keyword (text "error") (str (text "Keyword is not part of the data model."))) c w
  keyword_of dumps k (some schema) c w =
      end_lines (keyword_lines k (drop 1 (split_lines (dumps schema)))) c w

  -- keyword, of an actor with these properties in the schema of its model, or with none; `dumps` is
  -- `json.dumps(schema, indent=2)`
  unfoldable pub keyword :
      {J : Type 0}
      → (J → Text)
      → Option (Dict J)
      → Text
      → Command
      → W
      → Result (Unit {0}) × Command × W
  unfolding keyword_of
  keyword dumps none k c w =
      fail actor_write no_message false
        (with_keyword (text "error") (str (text "Actor does not have a data model."))) c w
  keyword dumps (some properties) k c w = keyword_of dumps k (lookup k properties) c w
