-- ===== src/Click/Tasks/Sorted.antt =====
-- The order in which `get_running_tasks` gives the tasks of a command.
use mathlib.Core.List.{Perm, Pairwise, Mem, forall_mem-cons, Pairwise-singleton}
use mathlib.Core.List.Perm
use native.Mathlib.Bridge.{le_prop}
use native.Mathlib.Nat.{le_trans}
use clu.Prelude.{
  ℕ, ◌≤◌, ◌≡◌, ◌++◌, ◌||◌, subst, Bool, true, Option, text_eq, if◌then◌else◌, refl, sym, ◌↔◌, false,
  none, some, List, [], ◌∷◌, map, Text, leb, leb→le, arith, Bool-cases, inl, inr,
}
use clu.Keys.Reads.{some_inj}
use clu.Click.Tasks.{
  Task, is_named, matching, matching_dated, insert_dated, sorted, get_running_tasks, running_of,
}

-- Not a later date.
abbrev pub Before : Task × ℕ → Task × ℕ → Type 0
Before a b = a.1 ≤ b.1

insert_dated-perm : (x : Task × ℕ) (l : List (Task × ℕ)) → Perm (insert_dated x l) (x ∷ l)
unfolding insert_dated
insert_dated-perm x [] = Perm.rfl
insert_dated-perm x (y ∷ l) = elim (Bool-cases (leb x.1 y.1)) [
  | inl e ↦ rw e Perm.rfl
  | inr e ↦ rw e (Perm.trans (Perm.cons y (insert_dated-perm x l)) (Perm.swap x y l))
]

sorted-perm : (l : List (Task × ℕ)) → Perm (sorted l) l
unfolding sorted
sorted-perm [] = Perm.rfl
sorted-perm (x ∷ l) = Perm.trans (insert_dated-perm x (sorted l)) (Perm.cons x (sorted-perm l))

-- What stands before all of a list stands before a task in front of it too.
below_cons :
    {d : ℕ} {x : Task × ℕ} {l : List (Task × ℕ)}
    → d ≤ x.1
    → ((z : Task × ℕ) → Mem z l → d ≤ z.1)
    → (z : Task × ℕ) → Mem z (x ∷ l)
    → d ≤ z.1
below_cons p h = (forall_mem-cons (λ z. le_prop)).1 (p, h)

head_below :
    {d : ℕ} {x : Task × ℕ} {l : List (Task × ℕ)}
    → d ≤ x.1
    → Pairwise Before (x ∷ l)
    → (z : Task × ℕ) → Mem z (x ∷ l)
    → d ≤ z.1
head_below p (Pairwise.cons h _) = below_cons p λ z m. le_trans p (h z m)

later : {a b : ℕ} → leb a b ≡ false → b ≤ a
later h = ground arith

insert_dated-Pairwise :
    (x : Task × ℕ) {l : List (Task × ℕ)} → Pairwise Before l → Pairwise Before (insert_dated x l)
unfolding insert_dated
insert_dated-Pairwise x Pairwise.nil = Pairwise-singleton _ x
insert_dated-Pairwise x (Pairwise.cons {a = y} {l = l} below s) = elim (Bool-cases (leb x.1 y.1)) [
  | inl e ↦
      let whole = Pairwise.cons below s in
      rw e (Pairwise.cons (head_below (leb→le x.1 y.1 e) whole) whole)
  | inr e ↦ rw e (
      Pairwise.cons
        (λ z m. below_cons (later e) below z ((Perm.mem_iff (insert_dated-perm x l)).0 m))
        (insert_dated-Pairwise x s))
]

sorted-Pairwise : (l : List (Task × ℕ)) → Pairwise Before (sorted l)
unfolding sorted
sorted-Pairwise [] = Pairwise.nil
sorted-Pairwise (x ∷ l) = insert_dated-Pairwise x (sorted-Pairwise l)

-- Whether a task has a name.
abbrev bears : Text → Option Text → Bool
bears n none = false
bears n (some m) = text_eq m n

-- Whether any of the live tasks has a name.
pub any_named : Text → List Task → Bool
any_named n [] = false
any_named n (t ∷ ts) = bears n t.name || any_named n ts

-- A task with its date, if it has the name and a date.
pub dated_task : Text → Task → List (Task × ℕ)
dated_task n t = elim t.date [ none ↦ [] | some d ↦ if bears n t.name then (t, d) ∷ [] else [] ]

-- The live tasks that have a name and a date, with their dates.
pub dated_tasks : Text → List Task → List (Task × ℕ)
dated_tasks n [] = []
dated_tasks n (t ∷ ts) = dated_task n t ++ dated_tasks n ts

is_named-bears : (n : Text) (o : Option Text) → is_named n o ≡ bears n o
is_named-bears n none = refl
is_named-bears n (some m) = refl

matching-dated_tasks :
    (n : Text) (ts : List Task) → matching_dated (matching n ts) ≡ dated_tasks n ts
unfolding matching matching_dated dated_tasks dated_task
matching-dated_tasks n [] = refl
matching-dated_tasks n (t ∷ ts) = ground (arith, matching-dated_tasks n ts)

matching-any_named : (n : Text) (ts : List Task) → (matching n ts ≡ []) ↔ (any_named n ts ≡ false)
unfolding matching any_named
matching-any_named n [] = ((λ _. refl), (λ _. refl))
matching-any_named n (t ∷ ts) =
    let (f, g) = matching-any_named n ts in
    by_name (is_named n t.name) (is_named-bears n t.name) f g
  where
    by_name :
        (b : Bool)
        → b ≡ bears n t.name
        → (matching n ts ≡ [] → any_named n ts ≡ false)
        → (any_named n ts ≡ false → matching n ts ≡ [])
        → ((if b then t ∷ matching n ts else matching n ts) ≡ [])
          ↔ ((bears n t.name || any_named n ts) ≡ false)
    by_name true e f g = rw (sym e) ((λ h. cc), (λ h. cc))
    by_name false e f g = rw (sym e) (f, g)

running_of-Pairwise :
    (m : List Task)
    → (running_of m ≡ none ↔ m ≡ [])
      × ((ts : List Task)
          → running_of m ≡ some ts
          → (l : List (Task × ℕ)) × Perm l (matching_dated m)
            × Pairwise Before l
            × (ts ≡ map (λ m. m.0) l))
unfolding running_of
running_of-Pairwise [] = ((λ _. refl, λ _. refl), λ ts h. cc)
running_of-Pairwise (t ∷ m) =
    let l = sorted (matching_dated (t ∷ m)) in
    (
      (λ h. cc, λ h. cc),
      λ ts h. (
        l,
        sorted-perm (matching_dated (t ∷ m)),
        sorted-Pairwise (matching_dated (t ∷ m)),
        sym (some_inj h),
      ),
    )

-- `get_running_tasks` gives None exactly if no live task has the name. Else it gives the live tasks
-- that have the name and a date, each as often as it is live, and none of them stands behind one
-- with a later date.
pub get_running_tasks-Pairwise :
    (n : Text) (tasks : List Task)
    → (get_running_tasks n tasks ≡ none ↔ any_named n tasks ≡ false)
      × ((ts : List Task)
          → get_running_tasks n tasks ≡ some ts
          → (l : List (Task × ℕ)) × Perm l (dated_tasks n tasks)
            × Pairwise Before l
            × (ts ≡ map (λ m. m.0) l))
unfolding get_running_tasks
get_running_tasks-Pairwise n tasks =
    let ((a, b), f) = running_of-Pairwise (matching n tasks) in
    let (c, d) = matching-any_named n tasks in
    (
      ((λ h. c (a h)), (λ h. b (d h))),
      λ ts h.
          let (l, p, q, e) = f ts h in (l, subst (Perm l) (matching-dated_tasks n tasks) p, q, e),
    )
