-- ===== src/Callbacks.antt =====
-- `CallbackMixIn` of python/clu/tools.py. A callback is known by its identity and by whether it is
-- a coroutine function; what a callback does when it runs is not modelled. Calls are recorded with
-- what they were given: those made at once, and those that run as tasks.
pub mod Notified
use clu.Prelude.{
  ℕ, Bool, true, false, List, [], ◌∷◌, ◌++◌, ◌==◌, ◌||◌, if◌then◌else◌, Result, ok, err, Error,
  assertion_error,
}

pub record Callback : Type 0 where
  pub id : ℕ
  pub is_coroutine : Bool

pub record Callbacks (A : Type 0) : Type 0 where
  pub registered : List Callback
  pub running : List (Callback × A)
  pub called : List (Callback × A)

unfoldable pub is_registered : Callback → List Callback → Bool
is_registered cb [] = false
is_registered cb (d ∷ l) = d.id == cb.id || is_registered cb l

-- l.remove(cb): the first that is equal
remove_first : Callback → List Callback → List Callback
remove_first cb [] = []
remove_first cb (d ∷ l) = if d.id == cb.id then l else d ∷ remove_first cb l

module _ {A : Type 0} where
  unfoldable pub register_callback : Callback → Callbacks A → Callbacks A
  register_callback cb s = record s { registered = s.registered ++ cb ∷ [] }

  unfoldable pub new : List Callback → Callbacks A
  new callbacks = record { registered = callbacks; running = []; called = [] }

  unfoldable pub remove_callback : Callback → Callbacks A → Result (Callbacks A)
  unfolding is_registered remove_first
  remove_callback cb s =
      if is_registered cb s.registered
      then ok (record s { registered = remove_first cb s.registered })
      else err assertion_error

  -- one round of the loop of `notify`
  call_one : A → Callback → Callbacks A → Callbacks A
  call_one a cb s =
      if cb.is_coroutine
      then record s { running = s.running ++ (cb, a) ∷ [] }
      else record s { called = s.called ++ (cb, a) ∷ [] }

  call_all : A → List Callback → Callbacks A → Callbacks A
  unfolding call_one
  call_all a [] s = s
  call_all a (cb ∷ l) s = call_all a l (call_one a cb s)

  -- notify(*args)
  unfoldable pub notify : A → Callbacks A → Callbacks A
  unfolding call_all
  notify a s = call_all a s.registered s
