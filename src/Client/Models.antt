-- ===== src/Client/Models.antt =====
-- The models of the client after a reply.
use clu.Prelude.{
  ℕ, ◌≡◌, refl, ap, sym, ◌∙◌, Bool, true, false, Option, none, some, [], ◌∷◌, Text, text_eq,
  text_eq_iff, if◌then◌else◌, ok, arith, Option-cases, Bool-cases, inl, inr,
}
use clu.Prelude.Dict.{Dict, lookup, insert, lookup-insert}
use clu.Reply.{Message}
use clu.CaseDict.{get_item}
use clu.CaseDict.Laws.{IsValid}
use clu.Model.{Model}
use clu.Model.Update.{View, update_model_view, apply_all}
use clu.Client.{AmqpReply, Client, find, update_found, update_sender}

-- Every model of the client is valid.
abbrev pub ModelsValid : Dict Model → Type 0
ModelsValid [] = Unit
ModelsValid ((_, m) ∷ l) = IsValid m.props × ModelsValid l

module _ (k : Text) where
  lookup-ModelsValid :
      (l : Dict Model) (m : Model) → ModelsValid l → lookup k l ≡ some m → IsValid m.props
  unfolding lookup
  lookup-ModelsValid [] m v e = absurd (cc e)
  lookup-ModelsValid ((j, n) ∷ l) m v e = elim (Bool-cases (text_eq j k)) [
    | inl q ↦ let p : n ≡ m = ground (arith, q) in rw (← p) v.0
    | inr q ↦ lookup-ModelsValid l m v.1 (rw q at e)
  ]

  insert-ModelsValid :
      (l : Dict Model) (m : Model) → ModelsValid l → IsValid m.props → ModelsValid (insert k m l)
  unfolding insert
  insert-ModelsValid [] m v e = (e, tt)
  insert-ModelsValid ((j, n) ∷ l) m v e = elim (Bool-cases (text_eq j k)) [
    | inl q ↦ rw q (e, v.1)
    | inr q ↦ rw q (v.0, insert-ModelsValid l m v.1 e)
  ]

-- What the client reads of a model: none if it has none, else what each text returns.
abbrev pub view_of : Option Model → Option View
view_of none = none
view_of (some m) = some (get_item m.props)

abbrev pub view : Dict Model → Text → Option View
view l j = view_of (lookup j l)

abbrev pub is_named : Option Text → Text → Bool
is_named none j = false
is_named (some k) j = text_eq k j

abbrev pub applied : (Text → ℕ) → Message → Option View → Option View
applied now m none = none
applied now m (some f) = some (apply_all now m f)

-- The models after a reply: that of the sender has taken its body, and the others are as before.
pub record HasUpdated (now : Text → ℕ) (r : AmqpReply) (c d : Client) : Type 0 where
  pub valid : ModelsValid d.models
  pub views :
      (j : Text)
      → view d.models j
        ≡ (if is_named r.sender j then applied now r.body (view c.models j) else view c.models j)

module _ (time : ℕ) (now : Text → ℕ) where
  pub update_sender-HasUpdated :
      (r : AmqpReply) (c : Client)
      → ModelsValid c.models
      → (d : Client) × (update_sender time now r c ≡ ok d)
        × HasUpdated now r c d
        × (d.running_commands ≡ c.running_commands)
  unfolding update_sender update_found find
  update_sender-HasUpdated r c valid = by_sender r.sender refl
    where
      by_sender :
          (o : Option Text)
          → r.sender ≡ o
          → (d : Client) × (update_found time now (find o c.models) r.body c ≡ ok d)
            × HasUpdated now r c d
            × (d.running_commands ≡ c.running_commands)
      by_sender none e = (c, refl, record { valid = valid; views = λ j. rw e }, refl)
      by_sender (some k) e = elim (Option-cases (lookup k c.models)) [
        | inl q ↦ (
          c,
          rw (q, update_found),
          record { valid = valid; views = λ j. ground (arith, e, q, text_eq_iff k j) },
          refl,
        )
        | inr (m, q) ↦
            let (n, p, good, reads, _) =
              update_model_view time now r.body m (lookup-ModelsValid k c.models m valid q) in
            (
              record c { models = insert k n c.models },
              rw (q, update_found, p),
              record {
                valid = insert-ModelsValid k c.models n valid good;
                views = λ j. rw (e, lookup-insert) (pick j (text_eq k j) refl m n q reads);
              },
              refl,
            )
      ]
        where
          pick :
              (j : Text) (b : Bool)
              → text_eq k j ≡ b
              → (m n : Model) → lookup k c.models ≡ some m
              → get_item n.props ≡ apply_all now r.body (get_item m.props)
              → view_of (if b then some n else lookup j c.models)
                ≡ (if b then applied now r.body (view c.models j) else view c.models j)
          pick j false t m n q reads = refl
          pick j true t m n q reads =
              ap some reads
              ∙ ap (applied now r.body) {x = some (get_item m.props)} {y = view c.models j}
                  (sym (rw (← (text_eq_iff k j).0 t) (ap view_of q)))
