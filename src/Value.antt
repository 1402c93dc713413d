-- ===== src/Value.antt =====
-- The values that keywords hold, and `dict_depth` and `format_value` of python/clu/tools.py.
pub mod Format
mod Tests
use Prim.Native.Nat.{max}
use clu.Prelude.{
  ℕ, ◌+◌, Bool, true, false, List, [], ◌∷◌, ◌++◌, Text, text, has_char, starts_with, ltb,
  if◌then◌else◌, Result, ok, err, Error, value_error, ◌>>=◌, not, ◌&&◌, ◌||◌,
}

-- A frame of a traceback: the name of its file, and its line as `str` writes it.
pub record Frame : Type 0 where
  pub filename : Text
  pub lineno : Text

-- An exception object: its class with the module, `str(value)`, and its traceback, outermost
-- frame first.
pub record Exc : Type 0 where
  pub module_name : Text
  pub type_name : Text
  pub message : Text
  pub frames : List Frame

-- A number, None or an object of another class is known by its `str(value)`.
mutual
  pub data Value : Type 0 where
    str : Text → Value
    bool : Bool → Value
    list : Items → Value
    dict : Fields → Value
    exc : Exc → Value
    other : Text → Value

  pub data Items : Type 0 where
    nil : Items
    cons : Value → Items → Items

  pub data Fields : Type 0 where
    end : Fields
    field : Text → Value → Fields → Fields

unfoldable mutual
  -- dict_depth(v)
  pub dict_depth : Value → ℕ
  dict_depth (dict fs) = 1 + max_depth fs
  dict_depth (str _) = 0
  dict_depth (bool _) = 0
  dict_depth (list _) = 0
  dict_depth (exc _) = 0
  dict_depth (other _) = 0

  -- max(map(dict_depth, d.values())), 0 for an empty dictionary
  pub max_depth : Fields → ℕ
  max_depth end = 0
  max_depth (field _ v fs) = max (dict_depth v) (max_depth fs)

-- ",".join(l)
unfoldable pub join : Text → List Text → Text
join sep [] = []
join sep (s ∷ []) = s
join sep (s ∷ t ∷ l) = s ++ (sep ++ join sep (t ∷ l))

-- `dumps` is `json.dumps` at a text.
module _ (dumps : Text → Text) where
  unfoldable pub escape : Text → Text
  escape s = dumps s

  unfoldable pub format_str : Text → Text
  unfolding escape
  format_str s =
      if has_char b' ' s && not (starts_with s (text "'") || starts_with s (text "\""))
      then escape s
      else s

  -- The format of a dictionary formats the list of its values, when it nests no deeper.
  unfoldable mutual
    unfolding format_str

    pub format_value : Value → Result Text
    format_value (str s) = ok (format_str s)
    format_value (bool b) = ok (if b then text "T" else text "F")
    format_value (list l) = do ts ← format_items l; ok (join (text ",") ts)
    format_value (dict fs) =
        let parts = format_fields fs in
        if ltb 1 (dict_depth (dict fs))
        then err value_error
        else do ts ← parts; ok (join (text ",") ts)
    format_value (exc e) = ok e.message
    format_value (other s) = ok s

    pub format_items : Items → Result (List Text)
    format_items nil = ok []
    format_items (cons v l) = do t ← format_value v; ts ← format_items l; ok (t ∷ ts)

    pub format_fields : Fields → Result (List Text)
    format_fields end = ok []
    format_fields (field _ v fs) = do t ← format_value v; ts ← format_fields fs; ok (t ∷ ts)
