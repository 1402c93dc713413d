-- ===== src/Value/Format.antt =====
-- What `format_value` accepts, and how a formatted list is taken apart again.
use clu.Prelude.{
  ℕ, ◌+◌, ◌<◌, ◌≡◌, refl, ap, ◌∙◌, Bool, true, false, List, [], ◌∷◌, ◌++◌, Text, text, has_char,
  starts_with, ltb, ◌==◌, if◌then◌else◌, ok, err, value_error, not, ◌&&◌, ◌||◌, arith, inl, inr,
  ◌⊎◌,
}
use clu.Value.{
  Value, Items, Fields, str, bool, list, dict, exc, other, nil, cons, end, field, dict_depth,
  max_depth, join, format_str, format_value, format_items, format_fields,
}

abbrev is_dict : Value → Bool
is_dict (dict _) = true
is_dict (str _) = false
is_dict (bool _) = false
is_dict (list _) = false
is_dict (exc _) = false
is_dict (other _) = false

abbrev no_dicts : Fields → Bool
no_dicts end = true
no_dicts (field _ v fs) = not (is_dict v) && no_dicts fs

-- No dictionary of the value has a dictionary for an entry; one inside a list is by itself.
mutual
  pub is_flat : Value → Bool
  is_flat (str _) = true
  is_flat (bool _) = true
  is_flat (list l) = flat_items l
  is_flat (dict fs) = no_dicts fs && flat_fields fs
  is_flat (exc _) = true
  is_flat (other _) = true

  flat_items : Items → Bool
  flat_items nil = true
  flat_items (cons v l) = is_flat v && flat_items l

  flat_fields : Fields → Bool
  flat_fields end = true
  flat_fields (field _ v fs) = is_flat v && flat_fields fs

depth-is_dict : (v : Value) → (dict_depth v ≡ 0) ⊎ (is_dict v ≡ true)
unfolding dict_depth
depth-is_dict (str _) = inl refl
depth-is_dict (bool _) = inl refl
depth-is_dict (list _) = inl refl
depth-is_dict (dict _) = inr refl
depth-is_dict (exc _) = inl refl
depth-is_dict (other _) = inl refl

dict-depth_pos : (v : Value) → is_dict v ≡ true → 0 < dict_depth v
unfolding dict_depth
dict-depth_pos (str _) h = cc
dict-depth_pos (bool _) h = cc
dict-depth_pos (list _) h = cc
dict-depth_pos (dict fs) h = omega arith
dict-depth_pos (exc _) h = cc
dict-depth_pos (other _) h = cc

-- The test on the depth asks for a dictionary among the entries.
max_depth-no_dicts : (fs : Fields) → ltb 1 (1 + max_depth fs) ≡ not (no_dicts fs)
unfolding max_depth
max_depth-no_dicts end = refl
max_depth-no_dicts (field k v fs) =
    ground (arith, max_depth-no_dicts fs, depth-is_dict v, dict-depth_pos v)

depth-no_dicts : (fs : Fields) → ltb 1 (dict_depth (dict fs)) ≡ not (no_dicts fs)
unfolding dict_depth
depth-no_dicts fs = max_depth-no_dicts fs

module _ (dumps : Text → Text) where
  -- The text of a value, with no test on its depth.
  mutual
    pub render : Value → Text
    render (str s) = format_str dumps s
    render (bool true) = text "T"
    render (bool false) = text "F"
    render (list l) = join (text ",") (render_items l)
    render (dict fs) = join (text ",") (render_fields fs)
    render (exc e) = e.message
    render (other s) = s

    render_items : Items → List Text
    render_items nil = []
    render_items (cons v l) = render v ∷ render_items l

    render_fields : Fields → List Text
    render_fields end = []
    render_fields (field _ v fs) = render v ∷ render_fields fs

  mutual
    unfolding format_value is_flat render

    format_value_at :
        (v : Value) → format_value dumps v ≡ (if is_flat v then ok (render v) else err value_error)
    format_value_at (str s) = refl
    format_value_at (bool true) = refl
    format_value_at (bool false) = refl
    format_value_at (list l) = ground (arith, format_items_at l)
    format_value_at (dict fs) = ground (arith, format_fields_at fs, depth-no_dicts fs)
    format_value_at (exc e) = refl
    format_value_at (other s) = refl

    format_items_at :
        (l : Items)
        → format_items dumps l ≡ (if flat_items l then ok (render_items l) else err value_error)
    format_items_at nil = refl
    format_items_at (cons v l) = ground (arith, format_value_at v, format_items_at l)

    format_fields_at :
        (fs : Fields)
        → format_fields dumps fs
          ≡ (if flat_fields fs then ok (render_fields fs) else err value_error)
    format_fields_at end = refl
    format_fields_at (field k v fs) = ground (arith, format_value_at v, format_fields_at fs)

-- A value is formatted exactly when no dictionary of it holds a dictionary directly, and the text
-- is that of the renderer without the depth test; any other value raises a ValueError.
pub format_value-render :
    (dumps : Text → Text) (v : Value)
    → format_value dumps v ≡ (if is_flat v then ok (render dumps v) else err value_error)
format_value-render dumps v = format_value_at dumps v

-- A text with a space is formatted to one that starts with a quote, if `json.dumps` quotes.
pub format_str-quoted :
    (dumps : Text → Text) (s : Text)
    → ((t : Text) → starts_with (dumps t) (text "\"") ≡ true)
    → has_char b' ' (format_str dumps s) ≡ true
    → (starts_with (format_str dumps s) (text "'") || starts_with (format_str dumps s) (text "\""))
      ≡ true
unfolding format_str
format_str-quoted dumps s q h = ground (arith, q s)

-- s.split(c), for a character c
add_first : ℕ → List Text → List Text
add_first c [] = (c ∷ []) ∷ []
add_first c (s ∷ l) = (c ∷ s) ∷ l

pub split : ℕ → Text → List Text
split c [] = [] ∷ []
split c (d ∷ s) = let rest = split c s in if d == c then [] ∷ rest else add_first d rest

abbrev is_cons : List Text → Bool
is_cons [] = false
is_cons (_ ∷ _) = true

split-join_one :
    (c : ℕ) (s rest : Text) → has_char c s ≡ false → split c (s ++ (c ∷ rest)) ≡ s ∷ split c rest
unfolding split has_char add_first
split-join_one c [] rest h = ground arith
split-join_one c (d ∷ s) rest h = ground (arith, split-join_one c s rest)

split-plain : (c : ℕ) (s : Text) → has_char c s ≡ false → split c s ≡ s ∷ []
unfolding split has_char add_first
split-plain c [] h = refl
split-plain c (d ∷ s) h = ground (arith, split-plain c s)

abbrev pub none_has : ℕ → List Text → Bool
none_has c [] = true
none_has c (s ∷ l) = not (has_char c s) && none_has c l

split-join :
    (c : ℕ) (s : Text) (l : List Text)
    → none_has c (s ∷ l) ≡ true
    → split c (join (c ∷ []) (s ∷ l)) ≡ s ∷ l
unfolding join
split-join c s [] h = split-plain c s (ground arith)
split-join c s (t ∷ l) h =
    split-join_one c s (join (c ∷ []) (t ∷ l)) (ground arith)
    ∙ ap (◌∷◌ s) (split-join c t l (ground arith))

abbrev pub str_items : List Text → Items
str_items [] = nil
str_items (s ∷ l) = cons (str s) (str_items l)

plain_items :
    (dumps : Text → Text) (l : List Text)
    → none_has b' ' l ≡ true
    → format_items dumps (str_items l) ≡ ok l
unfolding format_value format_str
plain_items dumps [] h = refl
plain_items dumps (s ∷ l) h = ground (arith, plain_items dumps l)

-- A list of texts with no space and no comma is formatted to a text that splits at its commas into
-- the same list, if the list is not empty.
pub split-format_value :
    (dumps : Text → Text) (s : Text) (l : List Text)
    → none_has b' ' (s ∷ l) ≡ true
    → none_has b',' (s ∷ l) ≡ true
    → (t : Text) × (format_value dumps (list (str_items (s ∷ l))) ≡ ok t) × (split b',' t ≡ s ∷ l)
unfolding format_value
split-format_value dumps s l h k =
    (join (text ",") (s ∷ l), rw (plain_items dumps (s ∷ l) h), split-join b',' s l k)
