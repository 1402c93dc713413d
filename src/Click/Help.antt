-- ===== src/Click/Help.antt =====
-- The bodies that `parse_command` sends to the help command.
use clu.Prelude.{
  ℕ, ◌≡◌, refl, ap, ◌∙◌, true, false, Option, some, List, [], ◌∷◌, ◌++◌, Text, text, text_eq,
  has_char, starts_with, arith, subst, append-nil, append_assoc,
}
use clu.Click.{has_text, removed, help_flag, with_help, command_args, quoted}

-- The character `-`.
abbrev dash : ℕ
dash = 45

abbrev spaced_flag : Text
spaced_flag = text " " ++ help_flag

starts_with_self : (s t : Text) → starts_with (t ++ s) t ≡ true
unfolding starts_with
starts_with_self s [] = refl
starts_with_self s (c ∷ t) = ground (arith, starts_with_self s t)

append_nil-starts : (t : Text) → starts_with t t ≡ true
append_nil-starts t = subst (λ s. starts_with s t ≡ true) (append-nil t) (starts_with_self [] t)

has_text-append : (x t : Text) → has_text t (x ++ t) ≡ true
unfolding has_text
has_text-append [] [] = unfold starts_with in refl
has_text-append [] (c ∷ t) = rw (append_nil-starts (c ∷ t)) refl
has_text-append (c ∷ x) t = ground (arith, has_text-append x t)

-- Without a dash, the flag after a text stands nowhere before its end.
not_yet :
    (c : ℕ) (x : Text)
    → has_char dash (c ∷ x) ≡ false
    → starts_with (c ∷ (x ++ spaced_flag)) spaced_flag ≡ false
unfolding has_char starts_with
not_yet c [] h = ground arith
not_yet c (d ∷ x) h = ground arith

removed-append : (x : Text) → has_char dash x ≡ false → removed spaced_flag 0 (x ++ spaced_flag) ≡ x
unfolding removed
removed-append [] h = unfold starts_with in refl
removed-append (c ∷ x) h =
    rw (not_yet c x h) (ap (λ r. c ∷ r) (removed-append x (unfold has_char in ground arith)))

no_flag : (s : Text) → has_char dash s ≡ false → has_text help_flag s ≡ false
unfolding has_text has_char starts_with
no_flag [] h = refl
no_flag (c ∷ s) h = ground (arith, no_flag s)

not_flag : (x : Text) → has_char dash x ≡ false → text_eq (x ++ spaced_flag) help_flag ≡ false
unfolding has_char text_eq
not_flag [] h = refl
not_flag (c ∷ x) h = ground arith

with_help-flag :
    (x : Text) → has_char dash x ≡ false → with_help (x ++ spaced_flag) ≡ text "help " ++ x
unfolding with_help
with_help-flag x h =
    rw
      (
        subst (λ s. has_text help_flag s ≡ true) (append_assoc x (text " ") help_flag)
            (has_text-append (x ++ text " ") help_flag),
        not_flag x h,
      )
      (removed-append (text "help " ++ x) (unfold has_char in h))

with_help-plain : (x : Text) → has_char dash x ≡ false → with_help x ≡ x
unfolding with_help
with_help-plain x h = rw (no_flag x h)

args_help :
    (split : Text → Option (List Text)) (x : Text)
    → command_args split (text "help " ++ x) ≡ some (text "help" ∷ quoted x ∷ [])
unfolding command_args text_eq starts_with
args_help split x = refl

-- For a text x without a dash, the bodies `x --help` and `help x` are both given to the parser as
-- the command `help` with x, in double quotes, as its one argument; `shlex.split` is not used.
pub command_args-help :
    (split : Text → Option (List Text)) (x : Text)
    → has_char 45 x ≡ false
    → (command_args split (with_help (x ++ text " --help"))
        ≡ some (text "help" ∷ (text "\"" ++ (x ++ text "\"")) ∷ []))
      × (command_args split (with_help (text "help " ++ x))
          ≡ some (text "help" ∷ (text "\"" ++ (x ++ text "\"")) ∷ []))
command_args-help split x h = (
  ap (command_args split) (with_help-flag x h) ∙ args_help split x,
  ap (command_args split) (with_help-plain (text "help " ++ x) (unfold has_char in h))
      ∙ args_help split x,
)
