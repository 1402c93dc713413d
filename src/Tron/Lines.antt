-- ===== src/Tron/Lines.antt =====
-- The lines that `_handle_reply` finds do not depend on how the data comes in.
use clu.Prelude.{
  ℕ, ◌≡◌, refl, sym, ap, ◌∙◌, Bool, true, false, List, [], ◌∷◌, ◌++◌, append_assoc, append-nil,
  if◌then◌else◌, ok, ◌==◌, ◌||◌, arith, Bool-cases, inl, inr, has_char, ==_iff,
}
use clu.Tron.Buffer.{split_from, mark, last_line, ends_line, pop, receive, feed}

-- The lines that a text completes after the start of a line, and what is left of it.
pub cut : List ℕ → List ℕ → List (List ℕ) × List ℕ
cut line [] = ([], line)
cut line (c ∷ l) = if c == 10 then (line ∷ (cut [] l).0, (cut [] l).1) else cut (line ++ c ∷ []) l

-- A text is its lines, each with a line feed after it, and what is left.
abbrev pub unlines : List (List ℕ) → List ℕ → List ℕ
unlines [] rest = rest
unlines (l ∷ ls) rest = l ++ (10 ∷ unlines ls rest)

cut-append :
    (line x y : List ℕ)
    → cut line (x ++ y) ≡ ((cut line x).0 ++ (cut (cut line x).1 y).0, (cut (cut line x).1 y).1)
unfolding cut
cut-append line [] y = refl
cut-append line (c ∷ x) y = elim (Bool-cases (c == 10)) [
  | inl e ↦ rw (e, cut-append [] x y) refl
  | inr e ↦ rw (e, cut-append (line ++ c ∷ []) x y) refl
]

append_swap : (line : List ℕ) (c : ℕ) (l : List ℕ) → (line ++ c ∷ []) ++ l ≡ line ++ (c ∷ l)
append_swap line c l = append_assoc line (c ∷ []) l

unlines-cut : (line l : List ℕ) → unlines (cut line l).0 (cut line l).1 ≡ line ++ l
unfolding cut
unlines-cut line [] = sym (append-nil line)
unlines-cut line (c ∷ l) = elim (Bool-cases (c == 10)) [
  | inl e ↦ rw (e, unlines-cut [] l, (==_iff c 10).0 e) refl
  | inr e ↦ rw e (unlines-cut (line ++ c ∷ []) l ∙ append_swap line c l)
]

split_from-plain :
    (line : List ℕ) (c : ℕ) (l : List ℕ)
    → (c == 10) ≡ false
    → (c == 13) ≡ false
    → split_from false line (c ∷ l) ≡ split_from false (line ++ c ∷ []) l
unfolding split_from mark
split_from-plain line c l e f = ground (arith, e, f)

split_from-line_feed :
    (line : List ℕ) (c : ℕ) (l : List ℕ)
    → (c == 10) ≡ true
    → split_from false line (c ∷ l) ≡ line ∷ split_from false [] l
unfolding split_from mark
split_from-line_feed line c l e = ground (arith, e)

-- With no carriage return, the lines are split at the line feeds.
split_from-cut :
    (line l : List ℕ)
    → has_char 13 l ≡ false
    → split_from false line l ≡ (cut line l).0 ++ last_line (cut line l).1
unfolding cut has_char
split_from-cut line [] h = unfold split_from in refl
split_from-cut line (c ∷ l) h =
    let r : has_char 13 l ≡ false = ground (arith, h) in
    elim (Bool-cases (c == 10)) [
      | inl e ↦ split_from-line_feed line c l e ∙ rw (e, split_from-cut [] l r) refl
      | inr e ↦
          split_from-plain line c l e (ground (arith, h))
          ∙ rw (e, split_from-cut (line ++ c ∷ []) l r) refl
    ]

last_line-cons : (line : List ℕ) (c : ℕ) → last_line (line ++ c ∷ []) ≡ (line ++ c ∷ []) ∷ []
unfolding last_line
last_line-cons [] c = refl
last_line-cons (d ∷ line) c = refl

-- Whether nothing is left tells whether the text ends with a line feed.
data Rest (b : Bool) (rest : List ℕ) : Type 0 where
  complete : b ≡ true → rest ≡ [] → Rest b rest
  partial : b ≡ false → last_line rest ≡ rest ∷ [] → Rest b rest

ends_line-cut : (line : List ℕ) (c : ℕ) (l : List ℕ) → Rest (ends_line (c ∷ l)) (cut line (c ∷ l)).1
unfolding ends_line cut
ends_line-cut line c [] = elim (Bool-cases (c == 10)) [
  | inl e ↦ complete e (rw e refl)
  | inr e ↦ partial e (rw e (last_line-cons line c))
]
ends_line-cut line c (d ∷ l) = elim (Bool-cases (c == 10)) [
  | inl e ↦ rw e (ends_line-cut [] d l)
  | inr e ↦ rw e (ends_line-cut (line ++ c ∷ []) d l)
]

pop-append : (ls : List (List ℕ)) (x : List ℕ) → pop (ls ++ x ∷ []) ≡ ok (ls, x)
unfolding pop
pop-append [] x = refl
pop-append (l ∷ []) x = refl
pop-append (l ∷ (m ∷ ls)) x = rw (pop-append (m ∷ ls) x) refl

unfoldable pub is_full : List ℕ → Bool
is_full [] = false
is_full (_ ∷ _) = true

receive-cut :
    (buffer d : List ℕ)
    → is_full (buffer ++ d) ≡ true
    → has_char 13 (buffer ++ d) ≡ false
    → receive buffer d ≡ ok (cut [] (buffer ++ d))
unfolding receive is_full last_line
receive-cut buffer d f h = of_text (buffer ++ d) f h
  where
    of_text :
        (b : List ℕ)
        → is_full b ≡ true
        → has_char 13 b ≡ false
        → (if ends_line b then ok (split_from false [] b, []) else pop (split_from false [] b))
          ≡ ok (cut [] b)
    of_text [] f h = absurd (cc f)
    of_text (c ∷ l) f h = elim (ends_line-cut [] c l) [
      | complete e g ↦
          let p = cut [] (c ∷ l) in
          let k : split_from false [] (c ∷ l) ≡ p.0 =
            split_from-cut [] (c ∷ l) h ∙ rw g (append-nil p.0) in
          let q : ok (split_from false [] (c ∷ l), []) ≡ ok p =
            ap (λ ls. ok (ls, [])) k ∙ ap (λ r. ok (p.0, r)) (sym g) in
          rw e q
      | partial e g ↦
          rw (e, split_from-cut [] (c ∷ l) h, g) (pop-append (cut [] (c ∷ l)).0 (cut [] (c ∷ l)).1)
    ]

unfoldable pub concat : List (List ℕ) → List ℕ
concat [] = []
concat (d ∷ ds) = d ++ concat ds

-- No piece of data is empty.
abbrev pub AreFull : List (List ℕ) → Type 0
AreFull [] = Unit
AreFull (d ∷ ds) = (is_full d ≡ true) × AreFull ds

is_full-append : (x y : List ℕ) → is_full y ≡ true → is_full (x ++ y) ≡ true
unfolding is_full
is_full-append [] y h = h
is_full-append (_ ∷ _) y h = refl

has_char-append : (c : ℕ) (x y : List ℕ) → has_char c (x ++ y) ≡ (has_char c x || has_char c y)
unfolding has_char
has_char-append c [] y = refl
has_char-append c (d ∷ x) y = ground (arith, has_char-append c x y)

has_char-unlines :
    (ls : List (List ℕ)) (rest : List ℕ)
    → has_char 13 (unlines ls rest) ≡ false
    → has_char 13 rest ≡ false
unfolding has_char
has_char-unlines [] rest h = h
has_char-unlines (l ∷ ls) rest h =
    has_char-unlines ls rest (ground (arith, has_char-append 13 l (10 ∷ unlines ls rest), h))

-- The end of a line that has begun holds no line feed, so it is cut no further.
cut-rest : (line l : List ℕ) → has_char 10 line ≡ false → has_char 10 (cut line l).1 ≡ false
unfolding cut has_char
cut-rest line [] h = h
cut-rest line (c ∷ l) h = elim (Bool-cases (c == 10)) [
  | inl e ↦ rw e (cut-rest [] l refl)
  | inr e ↦
      rw e (cut-rest (line ++ c ∷ []) l (ground (arith, has_char-append 10 line (c ∷ []), h, e)))
]

abbrev pub AreLines : List (List ℕ) → Type 0
AreLines [] = Unit
AreLines (l ∷ ls) = (has_char 10 l ≡ false) × AreLines ls

cut-AreLines : (line l : List ℕ) → has_char 10 line ≡ false → AreLines (cut line l).0
unfolding cut has_char
cut-AreLines line [] h = tt
cut-AreLines line (c ∷ l) h = elim (Bool-cases (c == 10)) [
  | inl e ↦ rw e (h, cut-AreLines [] l refl)
  | inr e ↦
      rw e
        (cut-AreLines (line ++ c ∷ []) l (ground (arith, has_char-append 10 line (c ∷ []), h, e)))
]

cut-start : (line x y : List ℕ) → has_char 10 x ≡ false → cut line (x ++ y) ≡ cut (line ++ x) y
unfolding cut has_char
cut-start line [] y h = rw (append-nil line) refl
cut-start line (c ∷ x) y h =
    let e : (c == 10) ≡ false = ground (arith, h) in
    rw e (
      cut-start (line ++ c ∷ []) x y (ground (arith, h)) ∙ ap (λ l. cut l y) (append_swap line c x))

feed-cut :
    (buffer : List ℕ) (ds : List (List ℕ))
    → AreFull ds
    → has_char 10 buffer ≡ false
    → has_char 13 (buffer ++ concat ds) ≡ false
    → feed buffer ds ≡ ok (cut buffer (concat ds))
unfolding feed concat
feed-cut buffer [] a h g = unfold cut in refl
feed-cut buffer (d ∷ ds) a h g =
    let p = cut buffer d in
    let g' = has_char-append 13 (buffer ++ d) (concat ds) in
    let k : has_char 13 (buffer ++ (d ++ concat ds))
        ≡ (has_char 13 (buffer ++ d) || has_char 13 (concat ds)) =
      ap (has_char 13) (sym (append_assoc buffer d (concat ds))) ∙ g' in
    let now : has_char 13 (buffer ++ d) ≡ false = ground (arith, k, g) in
    let later : has_char 13 (concat ds) ≡ false = ground (arith, k, g) in
    let left : has_char 13 p.1 ≡ false =
      has_char-unlines p.0 p.1 (ap (has_char 13) (unlines-cut buffer d) ∙ now) in
    let r : receive buffer d ≡ ok p =
      receive-cut buffer d (is_full-append buffer d a.0) now ∙ ap ok (cut-start [] buffer d h) in
    let t : feed p.1 ds ≡ ok (cut p.1 (concat ds)) =
      feed-cut p.1 ds a.1 (cut-rest buffer d h)
        (has_char-append 13 p.1 (concat ds) ∙ ground (arith, left, later)) in
    rw (r, t, cut-append buffer d (concat ds)) refl

-- Whatever pieces the data comes in, when none is empty, the buffer holds no line feed and there
-- is no carriage return: nothing is raised, and the lines that have been completed, each with its
-- line feed, and the buffer at the end are the data after the old buffer; no line has a line feed,
-- nor has the buffer.
pub feed_lem :
    (buffer : List ℕ) (ds : List (List ℕ))
    → AreFull ds
    → has_char 10 buffer ≡ false
    → has_char 13 (buffer ++ concat ds) ≡ false
    → (lines : List (List ℕ)) × (rest : List ℕ) × (feed buffer ds ≡ ok (lines, rest))
      × (unlines lines rest ≡ buffer ++ concat ds)
      × AreLines lines
      × (has_char 10 rest ≡ false)
feed_lem buffer ds a h g =
    let p = cut buffer (concat ds) in
    (
      p.0,
      p.1,
      feed-cut buffer ds a h g,
      unlines-cut buffer (concat ds),
      cut-AreLines buffer (concat ds) h,
      cut-rest buffer (concat ds) h,
    )

-- The same data in other pieces, none of them empty, gives the same lines and the same buffer, when
-- the buffer holds no line feed and there is no carriage return.
pub feed-concat :
    (buffer : List ℕ) (ds es : List (List ℕ))
    → AreFull ds
    → AreFull es
    → concat ds ≡ concat es
    → has_char 10 buffer ≡ false
    → has_char 13 (buffer ++ concat ds) ≡ false
    → feed buffer ds ≡ feed buffer es
feed-concat buffer ds es a b e h g =
    feed-cut buffer ds a h g
    ∙ ap (λ l. ok (cut buffer l)) e
    ∙ sym (feed-cut buffer es b h (ap (λ l. has_char 13 (buffer ++ l)) (sym e) ∙ g))
