-- ===== src/Handler.antt =====
-- `ActorHandler` of python/clu/tools.py: log records written to an actor. What `emit` calls the
-- actor's `write` with is returned. The match with `WARNING_REGEX` is a parameter: the category
-- and the text of a message that it matches.
pub mod Lines
use clu.Prelude.{
  ℕ, Bool, true, false, Option, none, some, List, [], ◌∷◌, ◌++◌, map, Text, text, text_eq, leb,
  ◌==◌, if◌then◌else◌, ◌||◌, ◌&&◌,
}
use clu.Prelude.Dict.{elem}
use clu.Value.{str}
use clu.Reply.{Message}

-- A record of `logging`: getMessage(), the level, and the name of the class and the text of the
-- exception, if it has one.
pub record LogRecord : Type 0 where
  pub message : Text
  pub levelno : ℕ
  pub exc_info : Option (Text × Text)

-- `code_mapping` holds the codes given, before those of the defaults; `filter_warnings` are the
-- names of the classes.
pub record ActorHandler : Type 0 where
  pub keyword : Text
  pub code_mapping : List (ℕ × Text)
  pub filter_warnings : Option (List Text)

-- logging.DEBUG, INFO, WARNING and ERROR, with their codes
abbrev default_codes : List (ℕ × Text)
default_codes = (10, text "d") ∷ (20, text "i") ∷ (30, text "w") ∷ (40, text "e") ∷ []

find_code : List (ℕ × Text) → ℕ → Text
find_code [] level = text "w"
find_code ((l, c) ∷ m) level = if l == level then c else find_code m level

-- self.code_mapping[level], for a level of the defaults
unfoldable pub mapped_code : ActorHandler → ℕ → Text
unfolding find_code
mapped_code h level = find_code (h.code_mapping ++ default_codes) level

-- The code of a record of this level.
unfoldable pub level_code : ActorHandler → ℕ → Text
level_code h n =
    if leb n 10
    then mapped_code h 10
    else if leb n 20
    then mapped_code h 20
    else if leb n 30
    then mapped_code h 30
    else if leb 40 n
    then mapped_code h 40
    else text "w"

-- The characters that `str.splitlines` splits at.
unfoldable pub is_break : ℕ → Bool
is_break c =
    (leb 10 c && leb c 13) || ((leb 28 c && leb c 30) || (c == 133 || (c == 8232 || c == 8233)))

unfoldable pub add_char : ℕ → List Text → List Text
add_char c [] = (c ∷ []) ∷ []
add_char c (l ∷ ls) = (c ∷ l) ∷ ls

starts_line_feed : Text → Bool
starts_line_feed [] = false
starts_line_feed (c ∷ _) = c == 10

-- s.splitlines()
unfoldable pub split_lines : Text → List Text
unfolding starts_line_feed
split_lines [] = []
split_lines (c ∷ s) =
    let rest = split_lines s in
    if c == 13 && starts_line_feed s
    then rest
    else if is_break c
    then [] ∷ rest
    else add_char c rest

exc_lines : Option (Text × Text) → List Text
exc_lines none = []
exc_lines (some (name, value)) = (name ++ (text ": " ++ value)) ∷ []

unfoldable pub is_listed : Option (List Text) → Text → Bool
is_listed none category = false
is_listed (some l) category = elem category l

-- _filter_warning(groups)
unfoldable pub filter_warning : ActorHandler → Text × Text → List Text
unfolding is_listed
filter_warning h (category, warning) =
    if is_listed h.filter_warnings category
    then (warning ++ (text " (" ++ (category ++ text ")"))) ∷ []
    else []

filtered : ActorHandler → Option (Text × Text) → List Text → List Text
filtered h none lines = lines
filtered h (some groups) lines = filter_warning h groups

module _ (warning_match : Text → Option (Text × Text)) where
  unfoldable pub record_lines : ActorHandler → LogRecord → List Text
  unfolding exc_lines filtered
  record_lines h r =
      let lines = split_lines r.message ++ exc_lines r.exc_info in
      if leb r.levelno 20
      then lines
      else if leb r.levelno 30
      then filtered h (warning_match r.message) lines
      else lines

  -- emit(record)
  unfoldable pub emit : ActorHandler → LogRecord → List (Text × Message)
  emit h r =
      map (λ (l : Text). (level_code h r.levelno, (h.keyword, str l) ∷ [])) (record_lines h r)
