-- ===== src/Handler/Lines.antt =====
-- The lines that `ActorHandler.emit` writes.
use clu.Prelude.{
  ℕ, ◌<◌, ◌≤◌, ◌≡◌, refl, ap, ◌∙◌, Bool, true, false, Option, none, some, List, [], ◌∷◌, ◌++◌, map,
  Text, text, leb, ◌==◌, if◌then◌else◌, ◌||◌, ◌&&◌, not, arith, append-nil, Bool-cases, inl, inr,
  ◌⊎◌,
}
use clu.Value.{str}
use clu.Reply.{Message}
use clu.Handler.{
  LogRecord, ActorHandler, level_code, is_break, add_char, starts_line_feed, split_lines, exc_lines,
  is_listed, filter_warning, filtered, record_lines, emit,
}

abbrev pub no_breaks : Text → Bool
no_breaks [] = true
no_breaks (c ∷ s) = not (is_break c) && no_breaks s

abbrev pub all_whole : List Text → Bool
all_whole [] = true
all_whole (l ∷ ls) = no_breaks l && all_whole ls

abbrev pub concat : List Text → Text
concat [] = []
concat (l ∷ ls) = l ++ concat ls

abbrev pub without_breaks : Text → Text
without_breaks [] = []
without_breaks (c ∷ s) = if is_break c then without_breaks s else c ∷ without_breaks s

add_char-whole :
    (c : ℕ) (ls : List Text) → is_break c ≡ false → all_whole (add_char c ls) ≡ all_whole ls
unfolding add_char
add_char-whole c [] h = rw h
add_char-whole c (l ∷ ls) h = rw h

concat-add_char : (c : ℕ) (ls : List Text) → concat (add_char c ls) ≡ c ∷ concat ls
unfolding add_char
concat-add_char c [] = refl
concat-add_char c (l ∷ ls) = refl

carriage_return : (c : ℕ) (b : Bool) → (c == 13 && b) ≡ true → is_break c ≡ true
unfolding is_break
carriage_return c b h = ground arith

-- The lines of a text have no line break, and together they are the text without its breaks.
split_lines-whole :
    (s : Text) → (all_whole (split_lines s) ≡ true) × (concat (split_lines s) ≡ without_breaks s)
unfolding split_lines
split_lines-whole [] = (refl, refl)
split_lines-whole (c ∷ s) =
    let (a, b) = split_lines-whole s in
    elim (Bool-cases (c == 13 && starts_line_feed s)) [
      | inl e ↦ rw (e, carriage_return c (starts_line_feed s) e) (a, b)
      | inr e ↦ rw e (elim (Bool-cases (is_break c)) [
        | inl k ↦ rw k (a, b)
        | inr k ↦ rw k (
          add_char-whole c (split_lines s) k ∙ a,
          concat-add_char c (split_lines s) ∙ ap (◌∷◌ c) b,
        )
      ])
    ]

-- The values that a list of calls writes.
abbrev pub written_with : ActorHandler → ℕ → List Text → List (Text × Message)
written_with h n ls = map (λ (l : Text). (level_code h n, (h.keyword, str l) ∷ [])) ls

module _ (warning_match : Text → Option (Text × Text)) where
  record_lines-plain :
      (h : ActorHandler) (m : Text) (n : ℕ)
      → ((leb n 20 || not (leb n 30)) ≡ true) ⊎ (warning_match m ≡ none)
      → record_lines warning_match h (record { message = m; levelno = n; exc_info = none })
        ≡ split_lines m
  unfolding record_lines exc_lines filtered
  record_lines-plain h m n (inl e) = ground (arith, append-nil (split_lines m))
  record_lines-plain h m n (inr e) = rw (e, append-nil) (ground arith)

  -- A record with no exception that is below or above the level of warnings, or whose message is no
  -- warning, is written under the code of its level, a line at a time: no line has a line break,
  -- and the lines together are the message without its breaks.
  pub emit-whole :
      (h : ActorHandler) (m : Text) (n : ℕ)
      → ((leb n 20 || not (leb n 30)) ≡ true) ⊎ (warning_match m ≡ none)
      → (ls : List Text) × (emit warning_match h
            (record { message = m; levelno = n; exc_info = none })
          ≡ written_with h n ls)
        × (all_whole ls ≡ true)
        × (concat ls ≡ without_breaks m)
  unfolding emit
  emit-whole h m n p =
      let (a, b) = split_lines-whole m in
      (split_lines m, ap (written_with h n) (record_lines-plain h m n p), a, b)

  -- A warning that is recognised is written, under the code of warnings, as one line if its class
  -- is listed, and not at all if it is not, whatever exception comes with it.
  pub emit-warning :
      (h : ActorHandler) (r : LogRecord) (category warning : Text)
      → 20 < r.levelno
      → r.levelno ≤ 30
      → warning_match r.message ≡ some (category, warning)
      → emit warning_match h r ≡ (
          if is_listed h.filter_warnings category
          then written_with h r.levelno ((warning ++ (text " (" ++ (category ++ text ")"))) ∷ [])
          else [])
  unfolding emit record_lines filtered filter_warning
  emit-warning h r category warning a b e = rw e (ground arith)
