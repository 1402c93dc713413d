-- ===== src/Store/Tests.antt =====
-- The properties of the store at two replies.
use clu.Prelude.{
  ℕ, ◌≡◌, refl, true, false, none, some, List, [], ◌∷◌, ◌++◌, Text, text, length, text_eq,
}
use clu.Prelude.Dict.{all_different, elem}
use clu.Value.{str, other}
use clu.Reply.{Reply, info}
use clu.Store.{KeywordStore}
use clu.Store.History.{outputs_of, outputs-add_replies, add_replies, history, all_dicts}

abbrev clock : Text → ℕ
clock k = length k

abbrev reply_of : Text → Text → Reply
reply_of k v = record {
  message_code = info;
  message = (k, str v) ∷ (text "other", other (text "1")) ∷ [];
  command = none;
  broadcast = false;
  use_validation = false;
  validated = false;
  internal = false;
}

abbrev two_replies : List Reply
two_replies = reply_of (text "temp") (text "20") ∷ reply_of (text "temp") (text "21") ∷ []

abbrev filtered : KeywordStore
filtered = record { filter = some (text "temp" ∷ []); outputs = [] }

two_replies-dicts : all_dicts clock two_replies ≡ true
unfolding all_different elem text_eq
two_replies-dicts = refl

outputs-add_replies_example :
    outputs_of (text "temp") (add_replies clock two_replies filtered)
    ≡ outputs_of (text "temp") filtered
      ++ history clock (some (text "temp" ∷ [])) (text "temp") two_replies
outputs-add_replies_example =
    outputs-add_replies clock two_replies filtered (text "temp") two_replies-dicts

abbrev filled : KeywordStore
filled = add_replies clock two_replies filtered
