-- ===== src/Store/History.antt =====
-- The store against the history of replies: what it holds for a keyword, and what `head` and
-- `tail` return of it.
use clu.Prelude.{
  ℕ, ◌-◌, ◌≤◌, ◌<◌, ◌≡◌, refl, ap, sym, ◌∙◌, Bool, true, false, Option, none, some, List, [], ◌∷◌,
  ◌++◌, Text, length, take, if◌then◌else◌, arith, append-nil, append_assoc, text_eq, text_eq_iff,
  ◌==◌, Bool-cases, inl, inr, take-append-drop, length-drop, ◌&&◌,
}
use clu.Prelude.Dict.{Dict, lookup, insert, elem, keys, all_different, lookup-insert, lookup-none}
use clu.Value.{Value}
use clu.Reply.{MessageCode, Message, Reply}
use clu.Store.{
  KeywordOutput, KeywordStore, tracks, or_empty, append_output, add_keyword, add_message, add_reply,
  get_item, last_slice, head, tail,
}

-- The outputs that the store holds for a keyword.
pub outputs_of : Text → KeywordStore → List KeywordOutput
outputs_of k s = or_empty (lookup k s.outputs)

module _ (now : Text → ℕ) where
  entry : MessageCode → Text → Option Value → List KeywordOutput
  entry code k none = []
  entry code k (some v) = record { name = k; message_code = code; date = now k; value = v } ∷ []

  -- What a reply says of a keyword, if the keyword is tracked.
  pub said : Option (List Text) → Text → Reply → List KeywordOutput
  said filter k r = if tracks filter k then entry r.message_code k (lookup k r.message) else []

  filter-add_message :
      (c : MessageCode) (m : Message) (s : KeywordStore) → (add_message now c m s).filter ≡ s.filter
  unfolding add_message add_keyword
  filter-add_message c [] s = refl
  filter-add_message c ((k, v) ∷ m) s =
      filter-add_message c m (add_keyword now c k v s) ∙ ground arith

  said_one : KeywordStore → MessageCode → Text → Value → List KeywordOutput
  said_one s c k v = if tracks s.filter k then entry c k (some v) else []

  -- The list of a keyword after an output of `j` has been written to the dictionary.
  or_empty-insert :
      (o : KeywordOutput) (j k : Text) (d : Dict (List KeywordOutput))
      → or_empty (lookup k (insert j (append_output (lookup j d) o) d))
        ≡ or_empty (lookup k d) ++ (if text_eq j k then o ∷ [] else [])
  unfolding or_empty append_output
  or_empty-insert o j k d = rw lookup-insert (elim (Bool-cases (text_eq j k)) [
    | inl e ↦ rw (e, ← (text_eq_iff j k).0 e) (append-cases (lookup j d))
    | inr e ↦ rw (e, append-nil)
  ])
    where
      append-cases : (l : Option (List KeywordOutput)) → append_output l o ≡ or_empty l ++ o ∷ []
      append-cases none = refl
      append-cases (some l) = refl

  outputs-add_keyword :
      (c : MessageCode) (j : Text) (v : Value) (s : KeywordStore) (k : Text)
      → outputs_of k (add_keyword now c j v s)
        ≡ outputs_of k s ++ (if text_eq j k then said_one s c k v else [])
  unfolding add_keyword outputs_of entry said_one
  outputs-add_keyword c j v s k = elim (Bool-cases (tracks s.filter j)) [
    | inl e ↦ rw e (
        or_empty-insert (record { name = j; message_code = c; date = now j; value = v }) j k
          s.outputs
        ∙ ap (λ (l : List KeywordOutput). or_empty (lookup k s.outputs) ++ l)
            (ground (arith, text_eq_iff j k, e)))
    | inr e ↦ rw e (
        sym (append-nil _)
        ∙ ap (λ (l : List KeywordOutput). or_empty (lookup k s.outputs) ++ l)
            (ground (arith, text_eq_iff j k, e)))
  ]

  filter-add_keyword :
      (c : MessageCode) (j : Text) (v : Value) (s : KeywordStore)
      → (add_keyword now c j v s).filter ≡ s.filter
  unfolding add_keyword
  filter-add_keyword c j v s = ground arith

  said_in : KeywordStore → MessageCode → Text → Message → List KeywordOutput
  said_in s c k m = if tracks s.filter k then entry c k (lookup k m) else []

  said_in-cons :
      (s : KeywordStore) (c : MessageCode) (k j : Text) (v : Value) (m : Message)
      → elem j (keys m) ≡ false
      → (if text_eq j k then said_one s c k v else []) ++ said_in s c k m
        ≡ said_in s c k ((j, v) ∷ m)
  unfolding said_in said_one entry lookup
  said_in-cons s c k j v m h = ground (arith, text_eq_iff j k, lookup-none j m h)

  said_in-nil : (s : KeywordStore) (c : MessageCode) (k : Text) → said_in s c k [] ≡ []
  unfolding said_in entry lookup
  said_in-nil s c k = ground arith

  said_in-add_keyword :
      (s : KeywordStore) (c d : MessageCode) (k j : Text) (v : Value) (m : Message)
      → said_in (add_keyword now c j v s) d k m ≡ said_in s d k m
  unfolding said_in
  said_in-add_keyword s c d k j v m = rw filter-add_keyword

  -- One message: a keyword that is tracked gains its value, and others gain nothing.
  outputs-add_message :
      (c : MessageCode) (m : Message) (s : KeywordStore) (k : Text)
      → all_different (keys m) ≡ true
      → outputs_of k (add_message now c m s) ≡ outputs_of k s ++ said_in s c k m
  unfolding add_message all_different
  outputs-add_message c [] s k h = rw (said_in-nil, append-nil)
  outputs-add_message c ((j, v) ∷ m) s k h =
      outputs-add_message c m (add_keyword now c j v s) k (ground arith)
      ∙ rw (outputs-add_keyword, said_in-add_keyword, append_assoc)
          (ap (λ (l : List KeywordOutput). outputs_of k s ++ l)
            (said_in-cons s c k j v m (ground arith)))

  -- The store after a sequence of replies.
  pub add_replies : List Reply → KeywordStore → KeywordStore
  add_replies [] s = s
  add_replies (r ∷ rs) s = add_replies rs (add_reply now r s)

  pub history : Option (List Text) → Text → List Reply → List KeywordOutput
  history filter k [] = []
  history filter k (r ∷ rs) = said filter k r ++ history filter k rs

  abbrev pub all_dicts : List Reply → Bool
  all_dicts [] = true
  all_dicts (r ∷ rs) = all_different (keys r.message) && all_dicts rs

  outputs-add_reply :
      (r : Reply) (s : KeywordStore) (k : Text)
      → all_different (keys r.message) ≡ true
      → outputs_of k (add_reply now r s) ≡ outputs_of k s ++ said s.filter k r
  unfolding add_reply said said_in
  outputs-add_reply r s k h = outputs-add_message r.message_code r.message s k h

  filter-add_reply : (r : Reply) (s : KeywordStore) → (add_reply now r s).filter ≡ s.filter
  unfolding add_reply
  filter-add_reply r s = filter-add_message r.message_code r.message s

  -- After any replies the store holds for each keyword what it held, followed by one output for
  -- each reply that carries the keyword, in their order, if the filter lets the keyword through;
  -- for any other keyword it holds what it held. Each reply's message has each keyword once.
  pub outputs-add_replies :
      (rs : List Reply) (s : KeywordStore) (k : Text)
      → all_dicts rs ≡ true
      → outputs_of k (add_replies rs s) ≡ outputs_of k s ++ history s.filter k rs
  unfolding add_replies history
  outputs-add_replies [] s k h = rw append-nil
  outputs-add_replies (r ∷ rs) s k h =
      outputs-add_replies rs (add_reply now r s) k (ground arith)
      ∙ rw (outputs-add_reply r s k (ground arith), filter-add_reply, append_assoc)

get_item-outputs_of : (k : Text) (s : KeywordStore) → (get_item k s).0 ≡ outputs_of k s
unfolding get_item outputs_of or_empty
get_item-outputs_of k s = ground arith

outputs-get_item : (k j : Text) (s : KeywordStore) → outputs_of j (get_item k s).1 ≡ outputs_of j s
unfolding get_item outputs_of or_empty
outputs-get_item k j s = ground (arith, text_eq_iff k j, lookup-insert k j [] s.outputs)

last_slice_lem :
    (n : ℕ) (l : List KeywordOutput)
    → 0 < n
    → (take (length l - n) l ++ last_slice n l ≡ l) × (length (last_slice n l) ≤ n)
unfolding last_slice
last_slice_lem n l h =
    let e : (n == 0) ≡ false = ground arith in
    (rw e (take-append-drop (length l - n) l), rw e (omega (arith, length-drop (length l - n) l)))

-- `head` returns the first n outputs that the store holds for the keyword, and `tail`, for n that
-- is not 0, the last ones: at most n, and those that remain when as many as exceed n are left out
-- from the front. Neither changes what the store holds for any keyword.
pub head-tail :
    (k j : Text) (n : ℕ) (s : KeywordStore)
    → 0 < n
    → let l = outputs_of k s in
      ((head k n s).0 ≡ take n l)
      × (take (length l - n) l ++ (tail k n s).0 ≡ l)
      × (length (tail k n s).0 ≤ n)
      × (outputs_of j (head k n s).1 ≡ outputs_of j s)
      × (outputs_of j (tail k n s).1 ≡ outputs_of j s)
unfolding head tail
head-tail k j n s h =
    let (whole, short) = last_slice_lem n (outputs_of k s) h in
    (
      rw get_item-outputs_of,
      rw get_item-outputs_of whole,
      rw get_item-outputs_of short,
      outputs-get_item k j s,
      outputs-get_item k j s,
    )

-- With n equal to 0, `tail` returns every output of the keyword, and `head` returns none.
pub tail_zero :
    (k : Text) (s : KeywordStore) → ((tail k 0 s).0 ≡ outputs_of k s) × ((head k 0 s).0 ≡ [])
unfolding head tail last_slice
tail_zero k s = (get_item-outputs_of k s, refl)
