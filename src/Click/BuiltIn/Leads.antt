-- ===== src/Click/BuiltIn/Leads.antt =====
-- Where the words of a help request lead, in a tree of groups and commands.
use clu.Prelude.{
  ◌≡◌, refl, ap, Bool, true, false, Option, none, some, List, [], ◌∷◌, ◌++◌, Text, text_eq,
  Bool-cases, subst, inl, inr, ◌||◌,
}
use clu.Keys.Reads.{some_inj}
use clu.Click.BuiltIn.{
  Node, Nodes, command, group, no_more, more, get_help, find, Found, help_of, not_found,
  no_commands, walk,
}

-- The first of the commands of a group that has a name.
pub data IsChild (x : Text) (c : Node) : Nodes → Type 0 where
  first : {n : Text} {cs : Nodes} → text_eq n x ≡ true → IsChild x c (more n c cs)
  later :
      {n : Text} {d : Node} {cs : Nodes}
      → text_eq n x ≡ false
      → IsChild x c cs
      → IsChild x c (more n d cs)

-- Whether a group has a command with a name.
pub has_child : Text → Nodes → Bool
has_child x no_more = false
has_child x (more n c cs) = text_eq n x || has_child x cs

-- The words lead from one group or command to another, each to a child of the group before.
pub data Leads : Node → List Text → Node → Type 0 where
  stays : {c : Node} → Leads c [] c
  enters :
      {h x : Text} {cs : Nodes} {xs : List Text} {c d : Node}
      → IsChild x c cs
      → Leads c xs d
      → Leads (group h cs) (x ∷ xs) d

-- What a walk finds.
pub data Walked (root : Node) (ws : List Text) : Found → Type 0 where
  leads : {d : Node} → Leads root ws d → Walked root ws (help_of (get_help d))
  lost :
      {h : Text} {cs : Nodes} (ys zs : List Text) (x : Text)
      → ws ≡ ys ++ x ∷ zs
      → Leads root ys (group h cs)
      → has_child x cs ≡ false
      → Walked root ws (not_found x)
  beyond :
      {h : Text} (ys zs : List Text) (x : Text)
      → ws ≡ ys ++ x ∷ zs
      → Leads root ys (command h)
      → Walked root ws no_commands

find-IsChild : (x : Text) (cs : Nodes) (c : Node) → find x cs ≡ some c → IsChild x c cs
unfolding find
find-IsChild x no_more c h = cc
find-IsChild x (more n d cs) c h = elim (Bool-cases (text_eq n x)) [
  | inl e ↦ subst (λ (q : Node). IsChild x q (more n d cs)) (some_inj (rw e at h)) (first e)
  | inr e ↦ later e (find-IsChild x cs c (rw e at h))
]

find-has_child : (x : Text) (cs : Nodes) → find x cs ≡ none → has_child x cs ≡ false
unfolding find has_child
find-has_child x no_more h = refl
find-has_child x (more n c cs) h = elim (Bool-cases (text_eq n x)) [
  | inl e ↦ absurd (cc (rw e at h))
  | inr e ↦ rw e (find-has_child x cs (rw e at h))
]

enters-Walked :
    {h x : Text} {cs : Nodes} {xs : List Text} {c : Node} {f : Found}
    → IsChild x c cs
    → Walked c xs f
    → Walked (group h cs) (x ∷ xs) f
enters-Walked i (leads l) = leads (enters i l)
enters-Walked {x} i (lost ys zs y e l n) = lost (x ∷ ys) zs y (ap (◌∷◌ x) e) (enters i l) n
enters-Walked {x} i (beyond ys zs y e l) = beyond (x ∷ ys) zs y (ap (◌∷◌ x) e) (enters i l)

pub walk-Walked : (root : Node) (ws : List Text) → Walked root ws (walk root ws)
unfolding walk
walk-Walked root [] = leads stays
walk-Walked (command h) (x ∷ xs) = beyond [] xs x refl stays
walk-Walked (group h cs) (x ∷ xs) =
    by_child (find x cs) (find-has_child x cs) (λ c e. find-IsChild x cs c e)
      (λ c. walk-Walked c xs)
  where
    by_child :
        (o : Option Node)
        → (o ≡ none → has_child x cs ≡ false)
        → ((c : Node) → o ≡ some c → IsChild x c cs)
        → ((c : Node) → Walked c xs (walk c xs))
        → Walked (group h cs) (x ∷ xs) (elim o [ none ↦ not_found x | some c ↦ walk c xs ])
    by_child none f g w = lost [] xs x refl stays (f refl)
    by_child (some c) f g w = enters-Walked (g c refl) (w c)
