-- ===== src/Value/Tests.antt =====
-- The properties of `format_value` at concrete values; `json.dumps` is a function that quotes.
use clu.Prelude.{◌≡◌, ◌++◌, Text, text, ok, err, value_error, if◌then◌else◌}
use clu.Value.{Value, dict, other, field, end, format_value}
use clu.Value.Format.{format_value-render, is_flat, render}

abbrev quote : Text → Text
quote s = text "\"" ++ (s ++ text "\"")

abbrev nested : Value
nested = dict (field (text "a") (dict (field (text "b") (other (text "1")) end)) end)

format_value-render_example :
    format_value quote nested
    ≡ (if is_flat nested then ok (render quote nested) else err value_error)
format_value-render_example = format_value-render quote nested
