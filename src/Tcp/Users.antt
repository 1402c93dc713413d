-- ===== src/Tcp/Users.antt =====
-- The users of a TCP actor and the replies that reach them.
use clu.Prelude.{
  ℕ, ◌≡◌, refl, ap, sym, ◌∙◌, Bool, true, false, none, some, List, [], ◌∷◌, ◌++◌, Text, text_eq,
  text_eq_refl, ok, arith, append_assoc, append-nil,
}
use clu.Prelude.Dict.{Dict, insert, elem, keys}
use clu.Tcp.{
  TcpActor, TcpOutput, FullReply, pop, attribute, new_user, connect, disconnect, send_to_transport,
  send_to_all, full_reply, is_multiline, write_internal, recipient_of, send,
}

pop-insert :
    {V : Type 0} (k : Text) (v : V) (m : Dict V)
    → elem k (keys m) ≡ false
    → pop k (insert k v m) ≡ ok m
unfolding pop insert elem
pop-insert k v [] h = rw (text_eq_refl k) refl
pop-insert k v ((j, w) ∷ m) h =
    let e : text_eq j k ≡ false = ground (arith, h) in
    rw (e, e, pop-insert k v m (ground (arith, h))) refl

insert-new :
    {V : Type 0} (k : Text) (v : V) (m : Dict V)
    → elem k (keys m) ≡ false
    → insert k v m ≡ m ++ (k, v) ∷ []
unfolding insert elem
insert-new k v [] h = refl
insert-new k v ((j, w) ∷ m) h =
    let e : text_eq j k ≡ false = ground (arith, h) in
    rw (e, insert-new k v m (ground (arith, h))) refl

module _ (dumps : Bool → FullReply → Text) where
  -- What is written to one transport after another.
  abbrev pub lines_to : FullReply → List (ℕ × Bool) → Dict ℕ → List (ℕ × Text)
  lines_to r multilines [] = []
  lines_to r multilines ((k, t) ∷ l) =
      (t, dumps (is_multiline dumps (attribute t multilines)) r ++ (10 ∷ []))
      ∷ lines_to r multilines l

  send_to_all-lines_to :
      (r : FullReply) (l : Dict ℕ) (a : TcpActor)
      → (send_to_all dumps r l a).written ≡ a.written ++ lines_to r a.multilines l
  unfolding send_to_all send_to_transport
  send_to_all-lines_to r [] a = sym (append-nil a.written)
  send_to_all-lines_to r ((k, t) ∷ l) a =
      send_to_all-lines_to r l (send_to_transport dumps r t a) ∙ append_assoc a.written _ _

  lines_to-append :
      (r : FullReply) (ms : List (ℕ × Bool)) (l : Dict ℕ) (k : Text) (t : ℕ)
      → lines_to r ms (l ++ (k, t) ∷ [])
        ≡ lines_to r ms l ++ (t, dumps (is_multiline dumps (attribute t ms)) r ++ (10 ∷ [])) ∷ []
  lines_to-append r ms [] k t = refl
  lines_to-append r ms ((j, u) ∷ l) k t =
      ap (◌∷◌ (u, dumps (is_multiline dumps (attribute u ms)) r ++ (10 ∷ [])))
        (lines_to-append r ms l k t)

  newest : {A : Type 0} (t : ℕ) (a : A) (l : List (ℕ × A)) → attribute t ((t, a) ∷ l) ≡ some a
  unfolding attribute
  newest t a l = ground arith

  -- A transport that connects as a user whose name is new: a reply to no command is then written
  -- to each transport of before, in order, and to the new one last, on one line; and when the
  -- transport closes, the users are those of before.
  pub new_user-write_internal :
      (t : ℕ) (fresh other : Text) (o : TcpOutput) (a : TcpActor)
      → elem fresh (keys a.transports) ≡ false
      → o.command ≡ none
      → (b c : TcpActor) × (new_user t false fresh a ≡ ok b)
        × ((write_internal dumps o b).written
            ≡ a.written
              ++ (lines_to (full_reply dumps a.name o) b.multilines a.transports
                  ++ (t, dumps false (full_reply dumps a.name o) ++ (10 ∷ [])) ∷ []))
        × (new_user t true other b ≡ ok c)
        × (c.transports ≡ a.transports)
  unfolding new_user connect disconnect
  new_user-write_internal t fresh other o a h e =
      let b = connect t fresh a in
      let r = full_reply dumps a.name o in
      let all : (write_internal dumps o b).written ≡ (send_to_all dumps r b.transports b).written =
        unfold write_internal send recipient_of in
        ap (λ c. (send dumps r (recipient_of dumps o.broadcast c) b).written) e in
      let one_line : is_multiline dumps (attribute t b.multilines) ≡ false =
        ap (is_multiline dumps) (newest t false a.multilines) ∙ (unfold is_multiline in refl) in
      let added : lines_to r b.multilines b.transports
          ≡ lines_to r b.multilines a.transports ++ (t, dumps false r ++ (10 ∷ [])) ∷ [] =
        ap (lines_to r b.multilines) (insert-new fresh t a.transports h)
        ∙ lines_to-append r b.multilines a.transports fresh t
        ∙ ap (λ m. lines_to r b.multilines a.transports ++ (t, dumps m r ++ (10 ∷ [])) ∷ [])
            one_line in
      (
        b,
        record b { transports = a.transports },
        refl,
        all ∙ send_to_all-lines_to r b.transports b ∙ ap (◌++◌ a.written) added,
        rw (newest t fresh a.user_ids, pop-insert fresh t a.transports h) refl,
        refl,
      )
