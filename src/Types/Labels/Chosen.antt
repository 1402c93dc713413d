-- ===== src/Types/Labels/Chosen.antt =====
-- Labels and their indices stand for the same values.
use clu.Prelude.{
  ℕ, zero, suc, ◌≡◌, refl, sym, ap, ◌∙◌, Bool, true, false, some, List, [], ◌∷◌, map, Text, text_eq,
  text_eq_iff, lower, ok, Bool-cases, inl, inr, get_elem?, arith, not, ◌&&◌,
}
use clu.Prelude.Dict.{elem, all_different}
use clu.Keys.Reads.{some_inj}
use clu.Types.{Given, pos, text_given, int_given}
use clu.Types.Labels.{find_label, at_index, label_of, new_enum}

elem-get_elem? :
    (ls : List Text) (i : ℕ) (l : Text)
    → get_elem? ls i ≡ some l
    → elem (lower l) (map lower ls) ≡ true
unfolding elem
elem-get_elem? [] i l h = cc
elem-get_elem? (m ∷ ls) zero l h =
    ground (arith, (text_eq_iff (lower m) (lower l)).1 (ap lower (some_inj h)))
elem-get_elem? (m ∷ ls) (suc i) l h = ground (arith, elem-get_elem? ls i l h)

both : (a b : Bool) → (not a && b) ≡ true → (a ≡ false) × (b ≡ true)
both true b h = cc
both false b h = (refl, h)

not_equal : (s t : Text) → ¬ (s ≡ t) → text_eq s t ≡ false
not_equal s t n = elim (Bool-cases (text_eq s t)) [
  | inl e ↦ absurd (n ((text_eq_iff s t).0 e))
  | inr e ↦ e
]

find_label-get_elem? :
    (ls : List Text) (i : ℕ) (l t : Text)
    → all_different (map lower ls) ≡ true
    → get_elem? ls i ≡ some l
    → lower t ≡ lower l
    → find_label t ls ≡ ok l
unfolding find_label all_different
find_label-get_elem? [] i l t d h e = cc
find_label-get_elem? (m ∷ ls) zero l t d h e =
    let q = some_inj h in rw ((text_eq_iff (lower t) (lower m)).1 (e ∙ ap lower (sym q))) (ap ok q)
find_label-get_elem? (m ∷ ls) (suc i) l t d h e =
    let (n, r) = both (elem (lower m) (map lower ls)) (all_different (map lower ls)) d in
    let q : text_eq (lower t) (lower m) ≡ false =
      not_equal (lower t) (lower m)
        (λ k. cc (n, elem-get_elem? ls i l h, ap (λ x. elem x (map lower ls)) (sym e ∙ k))) in
    rw q (find_label-get_elem? ls i l t r h e)

module _ (is_invalid : Given → Bool) (labels : List Text) where
  -- With labels that differ up to case, the index of a label and every spelling of it are made into
  -- the same value, the label as it is spelled in the list, where they are not invalid.
  pub new_enum_lem :
      (i : ℕ) (l t : Text)
      → all_different (map lower labels) ≡ true
      → get_elem? labels i ≡ some l
      → lower t ≡ lower l
      → is_invalid (int_given (pos i)) ≡ false
      → is_invalid (text_given t) ≡ false
      → (new_enum is_invalid labels (int_given (pos i)) ≡ ok l)
        × (new_enum is_invalid labels (text_given t) ≡ ok l)
  unfolding new_enum label_of
  new_enum_lem i l t d h e a b = (
    rw a (ap at_index h ∙ (unfold at_index in refl)),
    rw b (find_label-get_elem? labels i l t d h e),
  )
