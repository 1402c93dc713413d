-- ===== src/Tron/Parsing.antt =====
-- The values of a Tron model after `parse_reply`.
use clu.Prelude.{
  ℕ, ◌≡◌, refl, ap, ◌∙◌, Bool, true, false, Option, none, some, List, [], ◌∷◌, ◌++◌, Text, text_eq,
  lower, lower_idem, if◌then◌else◌, Result, ok, err, attribute_error,
}
use clu.Prelude.Dict.{lookup, insert, lookup-insert}
use clu.CaseDict.{get_item}
use clu.CaseDict.Laws.{set_item-Writes, get_item-lower, is_ok}
use clu.Callbacks.{notify}
use clu.Keys.{
  Wrapping, Conversion, Cell, value, invalid_value, Slot, cell, group, raw, Keyword, Key,
  consume_key,
}
use clu.Keys.Matches.{NeverRaises, HasMatched, consume_key-HasMatched}
use clu.Keys.Dictionary.{KeysDictionary, is_some}
use clu.Tron.Model.{
  Natives, TronKey, Parsed, copied, flatten, KeyChange, natives, slots_natives, slot_native,
  update_keyword, after_consume, by_key, parse_keyword, parse_reply, unparsed,
}
use clu.Tron.Values.{if_any, news, value_in, Covers, HasRead}

module _ {T R V N : Type 0} (convert : T → R → Conversion V) (wrap : Wrapping T V) (native : V → N)
    (wrapped_native : List (Cell V) → Option N) where
  -- A compound type makes an object, which has a `native` property.
  abbrev pub HaveNatives : Type 0
  HaveNatives = NeverRaises wrap × ((cs : List (Cell V)) → is_some (wrapped_native cs) ≡ true)

  slot_native_total :
      (s : Slot V)
      → HaveNatives
      → (n : Option N) × (slot_native convert wrap native wrapped_native s ≡ ok n)
  unfolding slot_native
  slot_native_total (cell (value v)) h = (some (native v), refl)
  slot_native_total (cell invalid_value) h = (none, refl)
  slot_native_total (group cs) h = by_object (wrapped_native cs) (h.1 cs)
    where
      by_object :
          (o : Option N)
          → is_some o ≡ true
          → (n : Option N) × (elim o [ none ↦ err attribute_error | some n ↦ ok (some n) ] ≡ ok n)
      by_object none g = absurd (cc g)
      by_object (some n) g = (some n, refl)

  slots_natives_total :
      (l : List (Slot V))
      → HaveNatives
      → (ns : Natives N) × (slots_natives convert wrap native wrapped_native l ≡ ok ns)
  unfolding slots_natives
  slots_natives_total [] h = ([], refl)
  slots_natives_total (s ∷ l) h =
      let (n, e) = slot_native_total s h in
      let (ns, f) = slots_natives_total l h in (n ∷ ns, rw (e, f) refl)

  found_ok : {A : Type 0} (r : Result A) → is_ok r ≡ true → (a : A) × (r ≡ ok a)
  found_ok (ok a) h = (a, refl)
  found_ok (err e) h = absurd (cc h)

  -- A keyword that its key does not match, or that has none, changes no value.
  unparsed-HasRead :
      (k : Text × List R) (kw : Keyword R V) (p : Parsed convert wrap native wrapped_native)
      → Covers convert wrap native wrapped_native p.model
      → news convert wrap native wrapped_native p.model.keydict k ≡ none
      → HasRead convert wrap native wrapped_native
          (k ∷ [])
          p
          (unparsed convert wrap native wrapped_native kw p)
  unfolding unparsed
  unparsed-HasRead k kw p c e = record {
    covers = record { valid = c.valid; held = c.held };
    same_keys = refl;
    values_read = λ x. rw e refl;
    parsed_read = λ x. rw e refl;
  }

  -- The key after it has taken a keyword and its values.
  abbrev updated : ℕ → Keyword R V → Natives N → TronKey T R V N → TronKey T R V N
  updated now kw ns t =
      let d : TronKey T R V N = record t { keyword = some kw; value = ns; last_seen = some now } in
      record d { hooks = notify (copied d) d.hooks }

  value_in-if :
      (b : Bool) (u : TronKey T R V N) (r : Result (TronKey T R V N))
      → value_in convert wrap native wrapped_native (if b then ok u else r)
        ≡ (if b then some u.value else value_in convert wrap native wrapped_native r)
  value_in-if true u r = refl
  value_in-if false u r = refl

  is_ok-if :
      (b : Bool) (u : TronKey T R V N) (r : Result (TronKey T R V N))
      → is_ok r ≡ true
      → is_ok (if b then ok u else r) ≡ true
  is_ok-if true u r h = refl
  is_ok-if false u r h = h

  news_matched :
      (d : KeysDictionary T) (name : Text) (l : List R) (k : Key T) (kw : Keyword R V)
      (ns : Natives N)
      → lookup (lower name) d.keys ≡ some k
      → consume_key convert wrap k name l ≡ ok (true, kw)
      → natives convert wrap native wrapped_native kw.values ≡ ok ns
      → news convert wrap native wrapped_native d (name, l) ≡ some ns
  news_matched d name l k kw ns a b c = rw (a, b) (ap (if_any convert wrap native wrapped_native) c)

  matched-HasRead :
      (now : ℕ) (name : Text) (l : List R) (k : Key T) (kw : Keyword R V)
      (p : Parsed convert wrap native wrapped_native)
      → HaveNatives
      → Covers convert wrap native wrapped_native p.model
      → lookup (lower name) p.model.keydict.keys ≡ some k
      → consume_key convert wrap k name l ≡ ok (true, kw)
      → HasMatched convert wrap k name l (true, kw)
      → (q : Parsed convert wrap native wrapped_native) × (after_consume convert wrap native
            wrapped_native now
            (lower name)
            (true, kw)
            p
          ≡ ok q)
        × HasRead convert wrap native wrapped_native ((name, l) ∷ []) p q
  unfolding after_consume update_keyword natives
  matched-HasRead now name l k kw p h c look con (_, _, same, (slots, f)) =
      let (ns, g) = slots_natives_total slots h in
      let n : natives convert wrap native wrapped_native kw.values ≡ ok ns = rw f g in
      let (t, e) = found_ok (get_item p.model.items k.name) (c.held name k look).0 in
      let e' : get_item p.model.items (lower name) ≡ ok t =
        get_item-lower p.model.items (lower name) k.name c.valid (lower_idem name ∙ same) ∙ e in
      let u = updated now kw ns t in
      let (d, a, w) = set_item-Writes p.model.items (lower name) u c.valid in
      let change : KeyChange N = record { flat = flatten d.items; changed = copied u } in
      let b = news_matched p.model.keydict name l k kw ns look con n in
      (
        record {
          model = record p.model { items = d; hooks = notify change p.model.hooks };
          parsed = insert (lower name) ns p.parsed;
          keywords = p.keywords ++ kw ∷ [];
        },
        rw (n, e', a) refl,
        record {
          covers = record {
            valid = w.valid;
            held = λ x j g. (
              rw (w.reads j.name)
                  (is_ok-if (text_eq (lower (lower name)) (lower j.name)) u _ (c.held x j g).0),
              (c.held x j g).1,
            );
          };
          same_keys = refl;
          values_read = λ x.
              rw (w.reads x, b, lower_idem name) (value_in-if (text_eq (lower name) (lower x)) u _);
          parsed_read = λ x. rw b (lookup-insert (lower name) (lower x) ns p.parsed);
        },
      )

  by_key-HasRead :
      (now : ℕ) (name : Text) (l : List R) (o : Option (Key T))
      (p : Parsed convert wrap native wrapped_native)
      → lookup (lower name) p.model.keydict.keys ≡ o
      → HaveNatives
      → Covers convert wrap native wrapped_native p.model
      → (q : Parsed convert wrap native wrapped_native) × (by_key convert wrap native wrapped_native
            now name l o p
          ≡ ok q)
        × HasRead convert wrap native wrapped_native ((name, l) ∷ []) p q
  unfolding by_key
  by_key-HasRead now name l none p e h c =
      let kw : Keyword R V = record { name = name; values = raw l; matched = false } in
      (
        unparsed convert wrap native wrapped_native kw p,
        refl,
        unparsed-HasRead (name, l) kw p c (rw e refl),
      )
  by_key-HasRead now name l (some k) p e h c =
      let (r, a, m) = consume_key-HasMatched convert wrap k name l h.0 (c.held name k e).1 in
      let (q, b, d) = by_result r a m in (q, rw a b, d)
    where
      by_result :
          (r : Bool × Keyword R V)
          → consume_key convert wrap k name l ≡ ok r
          → HasMatched convert wrap k name l r
          → (q : Parsed convert wrap native wrapped_native) × (after_consume convert wrap native
                wrapped_native now
                (lower name)
                r
                p
              ≡ ok q)
            × HasRead convert wrap native wrapped_native ((name, l) ∷ []) p q
      by_result (true, kw) a m = matched-HasRead now name l k kw p h c e a m
      by_result (false, kw) a m = (
        unparsed convert wrap native wrapped_native kw p,
        unfold after_consume in refl,
        unparsed-HasRead (name, l) kw p c (rw (e, a) refl),
      )

  parse_keyword-HasRead :
      (now : ℕ) (k : Text × List R) (p : Parsed convert wrap native wrapped_native)
      → HaveNatives
      → Covers convert wrap native wrapped_native p.model
      → (q : Parsed convert wrap native wrapped_native) × (parse_keyword convert wrap native
            wrapped_native now k p
          ≡ ok q)
        × HasRead convert wrap native wrapped_native (k ∷ []) p q
  unfolding parse_keyword
  parse_keyword-HasRead now (name, l) p h c =
      let s : Parsed convert wrap native wrapped_native = record p {
        model = record p.model { last_seen = some now };
      } in
      let (q, a, r) =
        by_key-HasRead now name l (lookup (lower name) p.model.keydict.keys) s refl h
          (record { valid = c.valid; held = c.held }) in
      (
        q,
        a,
        record {
          covers = r.covers;
          same_keys = r.same_keys;
          values_read = r.values_read;
          parsed_read = r.parsed_read;
        },
      )

  -- At a model that is valid, with an item for each key of its dictionary, whose types are
  -- resolved, where compound types make objects, which have a native value, `parse_reply` raises
  -- nothing and leaves such a model: the value under a name, up to case, is that of the last
  -- keyword with the name that its key has matched, or else as it was; and the values that are
  -- returned for a name are found likewise.
  pub parse_reply-HasRead :
      (now : ℕ) (ks : List (Text × List R)) (p : Parsed convert wrap native wrapped_native)
      → HaveNatives
      → Covers convert wrap native wrapped_native p.model
      → (q : Parsed convert wrap native wrapped_native) × (parse_reply convert wrap native
            wrapped_native now ks p
          ≡ ok q)
        × HasRead convert wrap native wrapped_native ks p q
  unfolding parse_reply
  parse_reply-HasRead now [] p h c = (
    p,
    refl,
    record { covers = c; same_keys = refl; values_read = λ x. refl; parsed_read = λ x. refl },
  )
  parse_reply-HasRead now (k ∷ ks) p h c =
      let (q, a, r) = parse_keyword-HasRead now k p h c in
      let (s, b, t) = parse_reply-HasRead now ks q h r.covers in
      (
        s,
        rw (a, b) refl,
        record {
          covers = t.covers;
          same_keys = t.same_keys ∙ r.same_keys;
          values_read = λ x. rw (t.values_read x, r.same_keys, r.values_read x) refl;
          parsed_read = λ x. rw (t.parsed_read x, r.same_keys, r.parsed_read x) refl;
        },
      )
