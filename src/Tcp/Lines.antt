-- ===== src/Tcp/Lines.antt =====
-- The numbers and the texts of the commands that a TCP actor receives.
use clu.Prelude.{
  ℕ, ◌≡◌, refl, ap, ◌∙◌, Bool, true, false, Option, some, [], ◌∷◌, ◌++◌, Text, ◌&&◌, ◌||◌, ◌==◌,
  arith, has_char,
}
use clu.Tcp.{
  is_digit, is_space, is_empty, strip_left, strip_right, strip, digits_of, up_to_newline,
  split_last, groups, number, new_command,
}

abbrev pub all_digits : Text → Bool
all_digits [] = true
all_digits (c ∷ s) = is_digit c && all_digits s

digits_of-append :
    (d : Text) (c : ℕ) (s : Text)
    → all_digits d ≡ true
    → is_digit c ≡ false
    → digits_of (d ++ (c ∷ s)) ≡ (d, c ∷ s)
unfolding digits_of
digits_of-append [] c s h e = rw e refl
digits_of-append (b ∷ d) c s h e =
    let g : is_digit b ≡ true = ground (arith, h) in
    rw (g, digits_of-append d c s (ground (arith, h)) e) refl

digits_of-all : (d : Text) → all_digits d ≡ true → digits_of d ≡ (d, [])
unfolding digits_of
digits_of-all [] h = refl
digits_of-all (b ∷ d) h =
    let g : is_digit b ≡ true = ground (arith, h) in
    rw (g, digits_of-all d (ground (arith, h))) refl

strip_right-append :
    (x y : Text) → strip_right y ≡ y → is_empty y ≡ false → strip_right (x ++ y) ≡ x ++ y
unfolding strip_right
strip_right-append [] y h e = h
strip_right-append (c ∷ x) y h e = rw (strip_right-append x y h e, longer x y e) refl
  where
    longer : (x y : Text) → is_empty y ≡ false → is_empty (x ++ y) ≡ false
    longer [] y e = e
    longer (_ ∷ _) y e = refl

strip_left-first : (c : ℕ) (s : Text) → is_space c ≡ false → strip_left (c ∷ s) ≡ c ∷ s
unfolding strip_left
strip_left-first c s e = rw e refl

up_to_newline-all : (s : Text) → has_char 10 s ≡ false → up_to_newline s ≡ s
unfolding up_to_newline has_char
up_to_newline-all [] h = refl
up_to_newline-all (c ∷ s) h =
    let e : (c == 10) ≡ false = ground (arith, h) in
    rw (e, up_to_newline-all s (ground (arith, h))) refl

digit_space : (c : ℕ) → is_digit c ≡ true → is_space c ≡ false
digit_space c h = ground (arith, h)

-- A text that starts with neither a digit nor white space, does not end with white space, and has
-- no line feed.
pub record IsPlain (c : ℕ) (s : Text) : Type 0 where
  pub starts : (is_digit c || is_space c) ≡ false
  pub ends : strip_right (c ∷ s) ≡ c ∷ s
  pub one_line : has_char 10 (c ∷ s) ≡ false

-- A number, a space and a text that starts with neither a digit nor white space, does not end with
-- white space and has no line feed are received as the command of that text under that number, for
-- the user of the transport.
pub new_command_lem :
    (t : ℕ) (user : Option Text) (e : ℕ) (d : Text) (c : ℕ) (s : Text)
    → all_digits (e ∷ d) ≡ true
    → IsPlain c s
    → new_command t user ((e ∷ d) ++ (32 ∷ (c ∷ s)))
      ≡ some (record {
        command_string = c ∷ s;
        command_id = number 0 (e ∷ d);
        commander_id = user;
        transport = some t;
      })
new_command_lem t user e d c s h p =
    let no_space : is_space c ≡ false = let g = p.starts in ground arith in
    let no_digit : is_digit c ≡ false = let g = p.starts in ground arith in
    let message = (e ∷ d) ++ (32 ∷ (c ∷ s)) in
    let tail : strip_right (32 ∷ (c ∷ s)) ≡ 32 ∷ (c ∷ s) =
      strip_right-append (32 ∷ []) (c ∷ s) p.ends refl in
    let first : is_space e ≡ false = digit_space e (ground (arith, h)) in
    let m : strip message ≡ message =
      unfold strip in
      ap strip_right (strip_left-first e (d ++ (32 ∷ (c ∷ s))) first)
      ∙ strip_right-append (e ∷ d) (32 ∷ (c ∷ s)) tail refl in
    let spaces : strip_left (32 ∷ (c ∷ s)) ≡ c ∷ s = unfold strip_left in (rw no_space refl) in
    let g : groups message ≡ (e ∷ d, c ∷ s) =
      unfold groups in
      (rw (digits_of-append (e ∷ d) 32 (c ∷ s) h refl, spaces, up_to_newline-all (c ∷ s) p.one_line)
        refl) in
    let w : strip (c ∷ s) ≡ c ∷ s =
      unfold strip in (ap strip_right (strip_left-first c s no_space) ∙ p.ends) in
    unfold new_command in (rw (m, g, w) refl)

split_last-append : (x : Text) (f : ℕ) → split_last (x ++ f ∷ []) ≡ (x, f ∷ [])
unfolding split_last
split_last-append [] f = refl
split_last-append (c ∷ []) f = refl
split_last-append (c ∷ (d ∷ x)) f = rw (split_last-append (d ∷ x) f) refl

all_digits-append :
    (x : Text) (f : ℕ) → all_digits x ≡ true → is_digit f ≡ true → all_digits (x ++ f ∷ []) ≡ true
all_digits-append [] f h e = ground (arith, e)
all_digits-append (c ∷ x) f h e = ground (arith, all_digits-append x f, h, e)

-- Two digits or more, and nothing else, are a command whose text is the last digit, under the
-- number of the others.
pub new_command-digits :
    (t : ℕ) (user : Option Text) (e : ℕ) (d : Text) (f : ℕ)
    → all_digits (e ∷ d) ≡ true
    → is_digit f ≡ true
    → new_command t user ((e ∷ d) ++ f ∷ [])
      ≡ some (record {
        command_string = f ∷ [];
        command_id = number 0 (e ∷ d);
        commander_id = user;
        transport = some t;
      })
new_command-digits t user e d f h k =
    let message = (e ∷ d) ++ f ∷ [] in
    let last : strip_right (f ∷ []) ≡ f ∷ [] = unfold strip_right in (rw (digit_space f k) refl) in
    let m : strip message ≡ message =
      unfold strip in
      ap strip_right (strip_left-first e (d ++ f ∷ []) (digit_space e (ground (arith, h))))
      ∙ strip_right-append (e ∷ d) (f ∷ []) last refl in
    let g : groups message ≡ (e ∷ d, f ∷ []) =
      unfold groups in
      (rw (digits_of-all message (all_digits-append (e ∷ d) f h k))
        (split_last-append (e ∷ d) f)) in
    let w : strip (f ∷ []) ≡ f ∷ [] =
      unfold strip in (ap strip_right (strip_left-first f [] (digit_space f k)) ∙ last) in
    unfold new_command in (rw (m, g, w) refl)
