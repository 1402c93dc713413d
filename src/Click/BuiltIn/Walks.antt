-- ===== src/Click/BuiltIn/Walks.antt =====
-- How the commands that every click parser has end.
use clu.Prelude.{
  ◌≡◌, refl, true, false, Option, none, some, List, [], ◌∷◌, ◌++◌, Text, text, Result, ok, err,
  value_error, attribute_error, ℕ, drop, length, leb, if◌then◌else◌,
}
use clu.Prelude.Dict.{Dict, lookup}
use clu.Handler.{split_lines}
use clu.Reply.{message_code, MessageCode}
use clu.Status
use clu.Status.{CommandStatus}
use clu.Command.{Command, ActorCall, Kwargs, no_message, fail}
use clu.Command.Ends.{call_ok}
use clu.Command.Open.{IsOpen, HasEnded, fail-HasEnded, finish-HasEnded}
use clu.Click.{plain}
use clu.Click.Ends.{and_write-ok, after_write-HasEnded, info-code}
use clu.Click.BuiltIn.Leads.{Leads, has_child}
use clu.Click.BuiltIn.{
  Nodes, command, group, Node, Found, help_of, not_found, no_commands, quiet_lines, keyword_lines,
  end_lines, keyword_of, keyword, max_length, ljust, padded,
}

-- How the command is left, for what the walk finds.
data EndsFor {W : Type 0} (c : Command) : Found → Result (Unit {0}) × Command × W → Type 0 where
  done_for :
      {h : Text} {d : Command} {w : W}
      → HasEnded Status.done d
      → EndsFor c (help_of h) (ok tt, d, w)
  failed_for :
      {x : Text} {d : Command} {w : W}
      → HasEnded Status.failed d
      → EndsFor c (not_found x) (ok tt, d, w)
  raised_for : {w : W} → EndsFor c no_commands (err attribute_error, c, w)

-- What `help` comes to, from a group or command, for the words of its argument.
pub data Helped {W : Type 0} (root : Node) (c : Command)
    : Result (List Text) → Result (Unit {0}) × Command × W → Type 0 where
  shown :
      {ws : List Text} {d : Command} {w : W} (g : Node)
      → Leads root ws g
      → HasEnded Status.done d
      → Helped root c (ok ws) (ok tt, d, w)
  missing :
      {ws : List Text} {d : Command} {w : W} (ys zs : List Text) (x h : Text) (cs : Nodes)
      → ws ≡ ys ++ x ∷ zs
      → Leads root ys (group h cs)
      → has_child x cs ≡ false
      → HasEnded Status.failed d
      → Helped root c (ok ws) (ok tt, d, w)
  broken :
      {ws : List Text} {w : W} (ys zs : List Text) (x h : Text)
      → ws ≡ ys ++ x ∷ zs
      → Leads root ys (command h)
      → Helped root c (ok ws) (err attribute_error, c, w)
  absent : {w : W} → Helped root c (err attribute_error) (err attribute_error, c, w)

-- What `keyword` comes to, for the schema that the model has under the keyword.
pub data Described {W : Type 0} (c : Command)
    : Option (List Text) → Result (Unit {0}) × Command × W → Type 0 where
  unknown : {d : Command} {w : W} → HasEnded Status.failed d → Described c none (ok tt, d, w)
  empty : {w : W} → Described c (some []) (err value_error, c, w)
  described :
      {l : Text} {ls : List Text} {d : Command} {w : W}
      → HasEnded Status.done d
      → Described c (some (l ∷ ls)) (ok tt, d, w)

module _ {W : Type 0} (actor_write : ActorCall → W → Result (Unit {0}) × W)
    (works : (a : ActorCall) (x : W) → (actor_write a x).0 ≡ ok tt) where
  quiet_lines-ok :
      (code k : Text) (mc : MessageCode) (ls : List Text) (c : Command) (w : W)
      → message_code code ≡ ok mc
      → c.has_actor ≡ true
      → (quiet_lines actor_write code k ls c w).0 ≡ ok tt
  unfolding quiet_lines
  quiet_lines-ok code k mc [] c w e h = refl
  quiet_lines-ok code k mc (l ∷ ls) c w e h =
      and_write-ok _ (quiet_lines actor_write code k ls c)
        (call_ok actor_write c code no_message _ w mc works h refl e)
        (λ x. quiet_lines-ok code k mc ls c x e h)

-- The lines of a schema after its first one, or none where the model has no such keyword.
abbrev pub schema_lines : {J : Type 0} → (J → Text) → Option J → Option (List Text)
schema_lines dumps none = none
schema_lines dumps (some schema) = some (drop 1 (split_lines (dumps schema)))

abbrev pub looked_up : {J : Type 0} → Option (Dict J) → Text → Option J
looked_up none k = none
looked_up (some properties) k = lookup k properties

max_length-ok : (l : Text) (ls : List Text) → (n : ℕ) × (max_length (l ∷ ls) ≡ ok n)
unfolding max_length
max_length-ok l [] = (length l, refl)
max_length-ok l (m ∷ ls) =
    let (n, e) = max_length-ok m ls in ((if leb n (length l) then length l else n), rw e)

keyword_lines-ok :
    (k l : Text) (ls : List Text) → (ms : List Text) × (keyword_lines k (l ∷ ls) ≡ ok ms)
unfolding keyword_lines
keyword_lines-ok k l ls =
    let (n, e) = max_length-ok l ls in (ljust (k ++ text " = {") n ∷ padded n (l ∷ ls), rw e refl)

keyword_lines-err : (k : Text) → keyword_lines k [] ≡ err value_error
unfolding keyword_lines max_length
keyword_lines-err k = refl

module _ {W : Type 0} (actor_write : ActorCall → W → Result (Unit {0}) × W)
    (works : (a : ActorCall) (x : W) → (actor_write a x).0 ≡ ok tt) where
  by_result :
      (c : Command) (o : Option (List Text)) (v : CommandStatus)
      (r : Result (Unit {0}) × Command × W)
      → (r.0 ≡ ok tt) × HasEnded v r.1
      → ((d : Command) (w : W) → HasEnded v d → Described c o (ok tt, d, w))
      → Described c o r
  by_result c o v (ok _, d, w) h g = g d w h.1
  by_result c o v (err e, d, w) h g = absurd (cc h.0)

  end_lines-HasEnded :
      (ls : List Text) (c : Command) (w : W)
      → c.has_actor ≡ true
      → IsOpen c
      → let r = end_lines actor_write (ok ls) c w in (r.0 ≡ ok tt) × HasEnded Status.done r.1
  unfolding end_lines
  end_lines-HasEnded ls c w h i =
      after_write-HasEnded Status.done _ c _
        (quiet_lines-ok actor_write works (text "i") (text "text") MessageCode.info ls c w info-code
          h)
        (λ x. finish-HasEnded actor_write works no_message false plain c x refl i)

  by_lines :
      (k : Text) (ls : List Text) (c : Command) (w : W)
      → c.has_actor ≡ true
      → IsOpen c
      → Described c (some ls) (end_lines actor_write (keyword_lines k ls) c w)
  by_lines k [] c w h i = rw (keyword_lines-err k) (unfold end_lines in empty)
  by_lines k (l ∷ ls) c w h i =
      let (ms, e) = keyword_lines-ok k l ls in
      rw e (
        by_result c (some (l ∷ ls)) Status.done _ (end_lines-HasEnded ms c w h i)
          (λ d w e. described e))

  unknown_keyword :
      (k : Kwargs) (c : Command) (w : W)
      → IsOpen c
      → Described c none (fail actor_write no_message false k c w)
  unknown_keyword k c w i =
      by_result c none Status.failed _
        (fail-HasEnded actor_write works no_message false k c w refl i) (λ d w e. unknown e)

  by_schema :
      {J : Type 0} (dumps : J → Text) (k : Text) (o : Option J) (c : Command) (w : W)
      → c.has_actor ≡ true
      → IsOpen c
      → Described c (schema_lines dumps o) (keyword_of actor_write dumps k o c w)
  unfolding keyword_of
  by_schema dumps k none c w h i = unknown_keyword _ c w i
  by_schema dumps k (some schema) c w h i = by_lines k (drop 1 (split_lines (dumps schema))) c w h i

  -- `keyword` of a sound command that has not ended, with an actor whose `write` does not raise: it
  -- fails if the actor has no model or the model no such keyword; else it is done if the schema has
  -- more than one line, and if it has one line the call raises a ValueError and leaves the command
  -- as it is.
  pub keyword-Described :
      {J : Type 0} (dumps : J → Text) (properties : Option (Dict J)) (k : Text) (c : Command)
      (w : W)
      → c.has_actor ≡ true
      → IsOpen c
      → Described c
          (schema_lines dumps (looked_up properties k))
          (keyword actor_write dumps properties k c w)
  unfolding keyword
  keyword-Described dumps none k c w h i = unknown_keyword _ c w i
  keyword-Described dumps (some properties) k c w h i =
      by_schema dumps k (lookup k properties) c w h i
