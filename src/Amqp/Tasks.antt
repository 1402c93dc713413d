-- ===== src/Amqp/Tasks.antt =====
-- The tasks that an AMQP actor receives.
use clu.Prelude.{
  ℕ, ◌≡◌, refl, ◌∙◌, true, Option, none, some, [], ◌∷◌, ◌++◌, Text, text, text_eq, text_eq_iff,
  text_eq_refl, if◌then◌else◌, arith,
}
use clu.Prelude.Dict.{Dict, lookup, insert, lookup-insert, lookup-none, keys, all_different}
use clu.Amqp.{TaskActor, without, find_handler, task_name, call_handler, add_task_handler, new_task}

module _ {J : Type 0} where
  -- A key that is taken out is gone, and the others stay.
  lookup-without :
      (k j : Text) (m : Dict J)
      → all_different (keys m) ≡ true
      → lookup j (without k m) ≡ (if text_eq k j then none else lookup j m)
  unfolding lookup without all_different
  lookup-without k j [] h = ground arith
  lookup-without k j ((i, v) ∷ m) h = ground (
    arith,
    lookup-without k j m,
    lookup-none i m,
    text_eq_iff i k,
    text_eq_iff i j,
    text_eq_iff k j,
    h,
  )

  -- What a handler is called with: the body without the name of the task, and the actor.
  abbrev pub payload_at : J → Dict J → Text → Option J
  payload_at actor body j =
      if text_eq (text "__actor__") j
      then some actor
      else if text_eq (text "task") j
      then none
      else lookup j body

  -- A task under a name that has just been given a handler: the handler is called once, after
  -- those that were, with the actor and with what the body holds but for the name; no name is
  -- unknown. No key of the body stands twice.
  pub new_task-add_task_handler :
      (actor : J) (name_of : J → Option Text) (body : Dict J) (a : TaskActor J) (v : J)
      (name : Text) (f : ℕ)
      → lookup (text "task") body ≡ some v
      → name_of v ≡ some name
      → all_different (keys body) ≡ true
      → let b = new_task actor name_of body (add_task_handler name f a) in
        (payload : Dict J) × (b.gathered ≡ a.gathered ++ (f, payload) ∷ [])
        × ((j : Text) → lookup j payload ≡ payload_at actor body j)
        × (b.unknown ≡ a.unknown)
  unfolding new_task add_task_handler task_name find_handler call_handler
  new_task-add_task_handler actor name_of body a v name f l n d =
      let payload = insert (text "__actor__") actor (without (text "task") body) in
      let e : lookup name (insert name f a.task_handlers) ≡ some f =
        lookup-insert name name f a.task_handlers ∙ rw (text_eq_refl name) refl in
      (
        payload,
        rw (l, n, e) refl,
        λ j.
            rw
              (
                lookup-insert (text "__actor__") j actor (without (text "task") body),
                lookup-without (text "task") j body d,
              )
              refl,
        rw (l, n, e) refl,
      )
