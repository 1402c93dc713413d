-- ===== src/Callbacks/Notified.antt =====
-- Which callbacks a notification reaches.
use clu.Prelude.{
  ◌≡◌, refl, sym, ◌∙◌, Bool, true, false, List, [], ◌∷◌, ◌++◌, if◌then◌else◌, ok, arith, append-nil,
  append_assoc, Bool-cases, inl, inr, not,
}
use clu.Callbacks.{
  Callback, Callbacks, register_callback, remove_callback, call_one, call_all, notify, remove_first,
  is_registered,
}

registered-append : (cb : Callback) (l : List Callback) → is_registered cb (l ++ cb ∷ []) ≡ true
unfolding is_registered
registered-append cb [] = ground arith
registered-append cb (d ∷ l) = ground (arith, registered-append cb l)

remove_first-append :
    (cb : Callback) (l : List Callback)
    → is_registered cb l ≡ false
    → remove_first cb (l ++ cb ∷ []) ≡ l
unfolding remove_first is_registered
remove_first-append cb [] h = ground arith
remove_first-append cb (d ∷ l) h = ground (arith, remove_first-append cb l)

module _ {A : Type 0} where
  -- The calls of the callbacks of one kind, in their order.
  pub calls_of : Bool → A → List Callback → List (Callback × A)
  calls_of kind a [] = []
  calls_of kind a (cb ∷ l) =
      if (if kind then cb.is_coroutine else not cb.is_coroutine)
      then (cb, a) ∷ calls_of kind a l
      else calls_of kind a l

  registered-call_all :
      (a : A) (l : List Callback) (s : Callbacks A) → (call_all a l s).registered ≡ s.registered
  unfolding call_all call_one
  registered-call_all a [] s = refl
  registered-call_all a (cb ∷ l) s = registered-call_all a l (call_one a cb s) ∙ ground arith

  called-call_all :
      (a : A) (l : List Callback) (s : Callbacks A)
      → (call_all a l s).called ≡ s.called ++ calls_of false a l
  unfolding call_all calls_of
  called-call_all a [] s = sym (append-nil s.called)
  called-call_all a (cb ∷ l) s =
      called-call_all a l (call_one a cb s)
      ∙ (unfold call_one in
          elim (Bool-cases (cb.is_coroutine)) [
            | inl e ↦ ground (arith, e)
            | inr e ↦ ground (arith, e, append_assoc s.called ((cb, a) ∷ []) (calls_of false a l))
          ])

  running-call_all :
      (a : A) (l : List Callback) (s : Callbacks A)
      → (call_all a l s).running ≡ s.running ++ calls_of true a l
  unfolding call_all calls_of
  running-call_all a [] s = sym (append-nil s.running)
  running-call_all a (cb ∷ l) s =
      running-call_all a l (call_one a cb s)
      ∙ (unfold call_one in
          elim (Bool-cases (cb.is_coroutine)) [
            | inl e ↦ ground (arith, e, append_assoc s.running ((cb, a) ∷ []) (calls_of true a l))
            | inr e ↦ ground (arith, e)
          ])

  -- A notification calls each callback that is registered once and in order: the coroutines as
  -- tasks and the others at once. The callbacks that are registered stay the same.
  pub notify_lem :
      (a : A) (s : Callbacks A)
      → ((notify a s).registered ≡ s.registered)
        × ((notify a s).called ≡ s.called ++ calls_of false a s.registered)
        × ((notify a s).running ≡ s.running ++ calls_of true a s.registered)
  unfolding notify
  notify_lem a s = (
    registered-call_all a s.registered s,
    called-call_all a s.registered s,
    running-call_all a s.registered s,
  )

  -- A callback that was not registered is removed again to the same state.
  pub remove-register :
      (cb : Callback) (s : Callbacks A)
      → is_registered cb s.registered ≡ false
      → remove_callback cb (register_callback cb s) ≡ ok s
  unfolding remove_callback register_callback
  remove-register cb s h = rw (registered-append, remove_first-append cb s.registered h)
