-- ===== src/Legacy/Users.antt =====
-- The numbers that users get.
use clu.Prelude.{
  ℕ, ◌+◌, ◌≤◌, ◌<◌, ◌≡◌, refl, Bool, true, false, Option, some, [], ◌∷◌, ◌++◌, ok, err, key_error,
  arith, ◌==◌, ◌||◌, ◌&&◌, not, if◌then◌else◌, Bool-cases, inl, inr, ◌⊎◌,
}
use clu.Legacy.{Transport, Transports, pop, max_id, next_id, new_user}

abbrev pub has_user : ℕ → Transports → Bool
has_user u [] = false
has_user u ((v, _) ∷ ts) = v == u || has_user u ts

-- Every transport is held under its own number, no number is 0, and none is held twice.
abbrev pub IsValid : Transports → Type 0
IsValid [] = Unit
IsValid ((v, t) ∷ ts) = (t.user_id ≡ v) × (0 < v) × (has_user v ts ≡ false) × IsValid ts

max_id-has_user : (u : ℕ) (ts : Transports) → has_user u ts ≡ true → u ≤ max_id ts
unfolding max_id
max_id-has_user u [] h = cc
max_id-has_user u ((v, t) ∷ ts) h = ground (arith, max_id-has_user u ts)

next_id-fresh : (ts : Transports) → (has_user (next_id ts) ts ≡ false) × (0 < next_id ts)
unfolding next_id
next_id-fresh [] = (refl, omega arith)
next_id-fresh ((v, t) ∷ ts) =
    (not_held (Bool-cases (has_user (max_id ((v, t) ∷ ts) + 1) ((v, t) ∷ ts))), omega arith)
  where
    not_held :
        (has_user (max_id ((v, t) ∷ ts) + 1) ((v, t) ∷ ts) ≡ true)
          ⊎ (has_user (max_id ((v, t) ∷ ts) + 1) ((v, t) ∷ ts) ≡ false)
        → has_user (max_id ((v, t) ∷ ts) + 1) ((v, t) ∷ ts) ≡ false
    not_held (inl h) =
        absurd (omega (arith, max_id-has_user (max_id ((v, t) ∷ ts) + 1) ((v, t) ∷ ts) h))
    not_held (inr h) = h

IsValid-append :
    (ts : Transports) (u : ℕ) (t : Transport)
    → IsValid ts
    → t.user_id ≡ u
    → 0 < u
    → has_user u ts ≡ false
    → IsValid (ts ++ (u, t) ∷ [])
IsValid-append [] u t valid e p h = (e, p, refl, tt)
IsValid-append ((v, s) ∷ ts) u t valid e p h = (
  valid.0,
  valid.1,
  still v ts (ground arith) valid.2,
  IsValid-append ts u t valid.3 e p (ground arith),
)
  where
    still :
        (w : ℕ) (l : Transports)
        → (w == u) ≡ false
        → has_user w l ≡ false
        → has_user w (l ++ (u, t) ∷ []) ≡ false
    still w [] n q = ground arith
    still w ((x, r) ∷ l) n q = ground (arith, still w l)

-- The users without the first of number u.
pub without : ℕ → Transports → Transports
without u [] = []
without u ((v, t) ∷ ts) = if v == u then ts else (v, t) ∷ without u ts

pop-without :
    (u : ℕ) (ts : Transports)
    → pop u ts ≡ (if has_user u ts then ok (without u ts) else err key_error)
unfolding pop without
pop-without u [] = refl
pop-without u ((v, t) ∷ ts) = ground (arith, pop-without u ts)

has_user-without :
    (u w : ℕ) (ts : Transports)
    → IsValid ts
    → has_user w (without u ts) ≡ (has_user w ts && not (u == w))
unfolding without
has_user-without u w [] valid = refl
has_user-without u w ((v, t) ∷ ts) valid = ground (arith, has_user-without u w ts valid.3, valid.2)

IsValid-without : (u : ℕ) (ts : Transports) → IsValid ts → IsValid (without u ts)
unfolding without
IsValid-without u [] valid = tt
IsValid-without u ((v, t) ∷ ts) valid =
    split (v == u) (
      valid.0,
      valid.1,
      rw (has_user-without u v ts valid.3, valid.2),
      IsValid-without u ts valid.3,
    )
  where
    split :
        (b : Bool)
        → IsValid ((v, t) ∷ without u ts)
        → IsValid (if b then ts else (v, t) ∷ without u ts)
    split true x = valid.3
    split false x = x

-- A new connection from a valid state gets a number that no user has, is held under it with the
-- others as they were, and leaves a valid state.
pub new_user-connect :
    (ref : ℕ) (attribute : Option ℕ) (ts : Transports)
    → IsValid ts
    → let u = next_id ts in
      let r = ts ++ (u, record { ref = ref; user_id = u }) ∷ [] in
      (new_user ref false attribute ts ≡ ok r) × IsValid r × (has_user u ts ≡ false)
unfolding new_user
new_user-connect ref attribute ts valid =
    let u = next_id ts in
    let (fresh, positive) = next_id-fresh ts in
    (refl, IsValid-append ts u (record { ref = ref; user_id = u }) valid refl positive fresh, fresh)

-- A closing connection with the number of a user takes out that user and no other, and leaves a
-- valid state; a number that no user has is a KeyError.
pub new_user-close :
    (ref u w : ℕ) (ts : Transports)
    → IsValid ts
    → (new_user ref true (some u) ts ≡ (if has_user u ts then ok (without u ts) else err key_error))
      × IsValid (without u ts)
      × (has_user w (without u ts) ≡ (has_user w ts && not (u == w)))
unfolding new_user
new_user-close ref u w ts valid =
    (pop-without u ts, IsValid-without u ts valid, has_user-without u w ts valid)
