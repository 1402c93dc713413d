-- ===== src/Model/Tests.antt =====
-- The properties of models at a model with one property that holds a dictionary.
use clu.Prelude.{
  ℕ, ◌≡◌, refl, true, false, none, some, [], ◌∷◌, Text, text, text_eq, lower, lower_char, ok,
  length,
}
use clu.Prelude.Dict.{all_different, elem}
use clu.Value.{Value, str, other, dict, field, end}
use clu.Reply.{Message}
use clu.CaseDict.{CaseDict, init, get_item}
use clu.CaseDict.Laws.{IsValid, init-IsValid}
use clu.Model.{Property, Model, update_model}
use clu.Model.Views.{Applied, update_model-Applied}

abbrev status : Property
status = record {
  now = record {
    name = text "status";
    value = dict (field (text "a") (str (text "on")) end);
    last_seen = none;
    in_schema = true;
  };
  hooks = record { registered = []; running = []; called = [] };
}

abbrev props : CaseDict Property
props = record { lc = text "status" ∷ []; items = (text "Status", status) ∷ [] }

abbrev lamps : Model
lamps = record {
  name = text "lamps";
  last_seen = none;
  props = props;
  hooks = record {
    registered = record { id = 1; is_coroutine = false } ∷ [];
    running = [];
    called = [];
  };
}

init-props : init ((text "Status", status) ∷ []) ≡ ok props
unfolding init lower lower_char all_different elem text_eq
init-props = refl

props-IsValid : IsValid props
props-IsValid = (init-IsValid ((text "Status", status) ∷ []) props init-props).0

abbrev new_field : Value
new_field = dict (field (text "b") (str (text "off")) end)

abbrev clock : Text → ℕ
clock k = length k

abbrev instance_ : Message
instance_ = (text "status", new_field) ∷ (text "extra", other (text "2")) ∷ []

update_model-Applied_example :
    (n : Model) × (update_model 3 clock instance_ lamps ≡ ok n)
    × IsValid n.props
    × Applied clock instance_ (get_item props) (get_item n.props)
    × (n.last_seen ≡ some 3)
update_model-Applied_example = update_model-Applied 3 clock instance_ lamps props-IsValid
