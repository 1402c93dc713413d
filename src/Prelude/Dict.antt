-- ===== src/Prelude/Dict.antt =====
-- Python's `dict` with text keys, in the order of insertion.
use mathlib.Core.Path.{◌≡◌, refl, ◌∙◌}
use mathlib.Core.Bool.{Bool, true, false, ◌||◌, ◌&&◌, not}
use mathlib.Core.List.{List, [], ◌∷◌, ◌++◌}
use mathlib.Core.Option.{Option, none, some}
use native.Mathlib.Omega.{arith}
use clu.Prelude.Tests.{if◌then◌else◌}
use clu.Prelude.Texts.{Text, text_eq, text_eq_iff}

abbrev pub Dict {ℓ} : Type ℓ → Type ℓ
Dict V = List (Text × V)

-- k in l, for a list l of texts
unfoldable pub elem : Text → List Text → Bool
elem k [] = false
elem k (j ∷ l) = text_eq j k || elem k l

-- len(set(l)) == len(l)
unfoldable pub all_different : List Text → Bool
all_different [] = true
all_different (k ∷ l) = not (elem k l) && all_different l

pub elem-append : (k j : Text) (l : List Text) → elem k (l ++ j ∷ []) ≡ (elem k l || text_eq j k)
unfolding elem
elem-append k j [] = ground arith
elem-append k j (i ∷ l) = ground (arith, elem-append k j l)

pub different-append :
    (k : Text) (l : List Text)
    → all_different l ≡ true
    → elem k l ≡ false
    → all_different (l ++ k ∷ []) ≡ true
unfolding all_different elem
different-append k [] h e = refl
different-append k (j ∷ l) h e =
    ground (arith, different-append k l, elem-append j k l, text_eq_iff j k, text_eq_iff k j)

module _ {ℓ} {V : Type ℓ} where
  -- d.get(k)
  unfoldable pub lookup : Text → Dict V → Option V
  lookup k [] = none
  lookup k ((j, v) ∷ m) = if text_eq j k then some v else lookup k m

  -- d[k] = v: a new key goes last, an old one keeps its place
  unfoldable pub insert : Text → V → Dict V → Dict V
  insert k v [] = (k, v) ∷ []
  insert k v ((j, w) ∷ m) = if text_eq j k then (j, v) ∷ m else (j, w) ∷ insert k v m

  -- d.update(e)
  unfoldable pub update : Dict V → Dict V → Dict V
  update d [] = d
  update d ((k, v) ∷ e) = update (insert k v d) e

  -- list(d)
  abbrev pub keys : Dict V → List Text
  keys [] = []
  keys ((k, _) ∷ m) = k ∷ keys m

  pub lookup-insert :
      (k j : Text) (v : V) (m : Dict V)
      → lookup j (insert k v m) ≡ (if text_eq k j then some v else lookup j m)
  unfolding lookup insert
  lookup-insert k j v [] = refl
  lookup-insert k j v ((i, w) ∷ m) =
      ground (arith, text_eq_iff k j, text_eq_iff i k, text_eq_iff i j, lookup-insert k j v m)

  pub elem-insert :
      (k j : Text) (v : V) (m : Dict V)
      → elem j (keys (insert k v m)) ≡ (text_eq k j || elem j (keys m))
  unfolding elem insert
  elem-insert k j v [] = refl
  elem-insert k j v ((i, w) ∷ m) = ground (arith, text_eq_iff i k, elem-insert k j v m)

  pub insert-different :
      (k : Text) (v : V) (m : Dict V)
      → all_different (keys m) ≡ true
      → all_different (keys (insert k v m)) ≡ true
  unfolding all_different insert elem
  insert-different k v [] h = refl
  insert-different k v ((i, w) ∷ m) h =
      ground (arith, text_eq_iff i k, text_eq_iff k i, elem-insert k i v m, insert-different k v m)

  pub update-different :
      (m e : Dict V) → all_different (keys m) ≡ true → all_different (keys (update m e)) ≡ true
  unfolding update
  update-different m [] h = h
  update-different m ((k, v) ∷ e) h = update-different (insert k v m) e (insert-different k v m h)

  pub lookup-none : (k : Text) (m : Dict V) → elem k (keys m) ≡ false → lookup k m ≡ none
  unfolding elem lookup
  lookup-none k [] h = refl
  lookup-none k ((j, v) ∷ m) h = ground (arith, lookup-none k m)

  -- A value if there is one, else another.
  abbrev pub over : Option V → Option V → Option V
  over none o = o
  over (some v) o = some v

  update_step :
      (m e : Dict V) (j k : Text) (v : V)
      → elem j (keys e) ≡ false
      → over (lookup k e) (lookup k (insert j v m)) ≡ over (lookup k ((j, v) ∷ e)) (lookup k m)
  unfolding lookup
  update_step m e j k v h =
      ground (arith, text_eq_iff j k, lookup-insert j k v m, lookup-none j e h)

  -- A dictionary updated by another answers from the other first.
  pub lookup-update :
      (m e : Dict V) (k : Text)
      → all_different (keys e) ≡ true
      → lookup k (update m e) ≡ over (lookup k e) (lookup k m)
  unfolding update all_different
  lookup-update m [] k h = unfold lookup in refl
  lookup-update m ((j, v) ∷ e) k h =
      lookup-update (insert j v m) e k (ground arith) ∙ update_step m e j k v (ground arith)
