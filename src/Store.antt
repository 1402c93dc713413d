-- ===== src/Store.antt =====
-- `KeywordStore` of python/clu/store.py: a `defaultdict(list)` of the outputs of each keyword.
pub mod History
mod Tests
use clu.Prelude.{
  ℕ, ◌-◌, Bool, true, false, Option, none, some, List, [], ◌∷◌, ◌++◌, Text, length, take, drop,
  ◌==◌, if◌then◌else◌, not,
}
use clu.Prelude.Dict.{Dict, lookup, insert, elem}
use clu.Value.{Value}
use clu.Reply.{MessageCode, Message, Reply}

pub record KeywordOutput : Type 0 where
  pub name : Text
  pub message_code : MessageCode
  pub date : ℕ
  pub value : Value

pub record KeywordStore : Type 0 where
  pub filter : Option (List Text)
  pub outputs : Dict (List KeywordOutput)

-- KeywordStore(actor, filter)
unfoldable pub new : Option (List Text) → KeywordStore
new filter = record { filter = filter; outputs = [] }

-- Whether the filter lets a keyword through.
unfoldable pub tracks : Option (List Text) → Text → Bool
tracks none keyword = true
tracks (some l) keyword = elem keyword l

or_empty : Option (List KeywordOutput) → List KeywordOutput
or_empty none = []
or_empty (some l) = l

append_output : Option (List KeywordOutput) → KeywordOutput → List KeywordOutput
append_output none o = o ∷ []
append_output (some l) o = l ++ o ∷ []

-- `now` is the reading of the clock for a keyword of the reply.
module _ (now : Text → ℕ) where
  -- one round of the loop of `add_reply`
  add_keyword : MessageCode → Text → Value → KeywordStore → KeywordStore
  unfolding append_output tracks
  add_keyword code keyword value s =
      if not (tracks s.filter keyword)
      then s
      else let key_out : KeywordOutput = record {
        name = keyword;
        message_code = code;
        date = now keyword;
        value = value;
      } in
        record s {
          outputs = insert keyword (append_output (lookup keyword s.outputs) key_out) s.outputs;
        }

  add_message : MessageCode → Message → KeywordStore → KeywordStore
  add_message code [] s = s
  add_message code ((keyword, value) ∷ m) s = add_message code m (add_keyword code keyword value s)

  unfoldable pub add_reply : Reply → KeywordStore → KeywordStore
  unfolding add_message add_keyword
  add_reply reply s = add_message reply.message_code reply.message s

-- self[keyword]: a read of a missing keyword adds it with an empty list
unfoldable pub get_item : Text → KeywordStore → List KeywordOutput × KeywordStore
unfolding or_empty
get_item keyword s = elim (lookup keyword s.outputs) [
  | none ↦ ([], record s { outputs = insert keyword [] s.outputs })
  | some l ↦ (l, s)
]

-- l[-n:], with n at least 0: -0 is 0, where the slice starts at the front
unfoldable pub last_slice {ℓ} : {A : Type ℓ} → ℕ → List A → List A
last_slice n l = if n == 0 then l else drop (length l - n) l

unfoldable pub head : Text → ℕ → KeywordStore → List KeywordOutput × KeywordStore
head keyword n s = let (l, s') = get_item keyword s in (take n l, s')

unfoldable pub tail : Text → ℕ → KeywordStore → List KeywordOutput × KeywordStore
tail keyword n s = let (l, s') = get_item keyword s in (last_slice n l, s')
