-- ===== src/Base/Rows.antt =====
-- Tables as lists of rows, with the statements that the code sends: SELECT, UPDATE and DELETE
-- with a WHERE clause, and predicates over the rows.
pub mod First
pub mod Order
pub mod Append
use Prim.Native.Nat.{ℕ, zero, suc, ◌≤◌}
use mathlib.Core.Path.{◌≡◌, subst}
use mathlib.Core.Bool.{Bool, true, false, ◌||◌}
use mathlib.Core.Option.{Option, none, some}
use mathlib.Core.Logic.{◌⊎◌, inl, inr}
use mathlib.Core.List.{List, [], ◌∷◌, ◌++◌}
use native.Mathlib.Omega.{arith}
use minnal_labs.Base.Tests.{if◌then◌else◌, Bool-cases}

module _ {ℓ} {A : Type ℓ} where
  abbrev pub length : List A → ℕ
  length [] = 0
  length (x ∷ xs) = suc (length xs)

  abbrev pub take : ℕ → List A → List A
  take zero xs = []
  take (suc n) [] = []
  take (suc n) (x ∷ xs) = x ∷ take n xs

  -- SELECT … WHERE p
  unfoldable pub select_where : (A → Bool) → List A → List A
  select_where p [] = []
  select_where p (x ∷ xs) = let rest = select_where p xs in if p x then x ∷ rest else rest

  -- SELECT … WHERE p LIMIT 1
  unfoldable pub first_where : (A → Bool) → List A → Option A
  first_where p [] = none
  first_where p (x ∷ xs) = let rest = first_where p xs in if p x then some x else rest

  -- UPDATE … SET f WHERE p
  unfoldable pub update_where : (A → Bool) → (A → A) → List A → List A
  update_where p f [] = []
  update_where p f (x ∷ xs) = (if p x then f x else x) ∷ update_where p f xs

  -- DELETE … WHERE p
  unfoldable pub delete_where : (A → Bool) → List A → List A
  delete_where p [] = []
  delete_where p (x ∷ xs) = let rest = delete_where p xs in if p x then rest else x ∷ rest

  abbrev pub any : (A → Bool) → List A → Bool
  any p [] = false
  any p (x ∷ xs) = p x || any p xs

  pub length-take_le : (n : ℕ) (xs : List A) → length (take n xs) ≤ n
  length-take_le zero xs = omega arith
  length-take_le (suc n) [] = omega arith
  length-take_le (suc n) (x ∷ xs) = omega (arith, length-take_le n xs)

module _ {ℓ} {A : Type ℓ} (P : A → Type 0) where
  abbrev pub All : List A → Type 0
  All [] = Unit
  All (x ∷ xs) = P x × All xs

  abbrev pub Any : List A → Type 0
  Any [] = ⊥
  Any (x ∷ xs) = P x ⊎ Any xs

module _ {ℓ} {A : Type ℓ} (P : A → Type 0) where
  pub All-append : (xs ys : List A) → All P xs → All P ys → All P (xs ++ ys)
  All-append [] ys h k = k
  All-append (x ∷ xs) ys h k = (h.0, All-append xs ys h.1 k)

  pub All-select_where : (p : A → Bool) (xs : List A) → All P xs → All P (select_where p xs)
  unfolding select_where
  All-select_where p [] h = tt
  All-select_where p (x ∷ xs) h = ground (arith, All-select_where p xs h.1)

  pub All-delete_where : (p : A → Bool) (xs : List A) → All P xs → All P (delete_where p xs)
  unfolding delete_where
  All-delete_where p [] h = tt
  All-delete_where p (x ∷ xs) h = ground (arith, All-delete_where p xs h.1)

  -- the rows that the clause selects satisfy what the clause says
  pub All-selected :
      (p : A → Bool) → ((a : A) → p a ≡ true → P a) → (xs : List A) → All P (select_where p xs)
  unfolding select_where
  All-selected p h [] = tt
  All-selected p h (x ∷ xs) = ground (arith, h x, All-selected p h xs)

  pub All-deleted :
      (p : A → Bool) → ((a : A) → p a ≡ false → P a) → (xs : List A) → All P (delete_where p xs)
  unfolding delete_where
  All-deleted p h [] = tt
  All-deleted p h (x ∷ xs) = ground (arith, h x, All-deleted p h xs)

  pub All-update_where :
      (p : A → Bool) (f : A → A) (xs : List A)
      → ((a : A) → P a → p a ≡ true → P (f a))
      → All P xs
      → All P (update_where p f xs)
  unfolding update_where
  All-update_where p f [] h k = tt
  All-update_where p f (x ∷ xs) h k = ground (arith, h x k.0, All-update_where p f xs h k.1)

  pub Any-append_left : (xs ys : List A) → Any P xs → Any P (xs ++ ys)
  Any-append_left [] ys k = elim k [ ]
  Any-append_left (x ∷ xs) ys (inl k) = inl k
  Any-append_left (x ∷ xs) ys (inr k) = inr (Any-append_left xs ys k)

  pub Any-append_right : (xs ys : List A) → Any P ys → Any P (xs ++ ys)
  Any-append_right [] ys k = k
  Any-append_right (x ∷ xs) ys k = inr (Any-append_right xs ys k)

-- a row with `P` stays one where an update or a deletion respects the rows that have `P` and `Q`
module _ {ℓ} {A : Type ℓ} (P Q : A → Type 0) where
  pub Any-update_where :
      (p : A → Bool) (f : A → A) (xs : List A)
      → ((a : A) → P a → Q a → p a ≡ true → P (f a))
      → All Q xs
      → Any P xs
      → Any P (update_where p f xs)
  unfolding update_where
  Any-update_where p f [] h q k = elim k [ ]
  Any-update_where p f (x ∷ xs) h q (inl k) = inl (ground (arith, h x k q.0))
  Any-update_where p f (x ∷ xs) h q (inr k) = inr (Any-update_where p f xs h q.1 k)

  pub Any-delete_where :
      (p : A → Bool) (xs : List A)
      → ((a : A) → P a → Q a → p a ≡ false)
      → All Q xs
      → Any P xs
      → Any P (delete_where p xs)
  unfolding delete_where
  Any-delete_where p [] h q k = elim k [ ]
  Any-delete_where p (x ∷ xs) h q (inl k) = rw (h x k q.0) (inl k)
  Any-delete_where p (x ∷ xs) h q (inr k) = elim (Bool-cases (p x)) [
    | inl gone ↦ rw gone (Any-delete_where p xs h q.1 k)
    | inr left_ ↦ rw left_ (inr (Any-delete_where p xs h q.1 k))
  ]

  pub All-weaken : (xs : List A) → ((a : A) → P a → Q a) → All P xs → All Q xs
  All-weaken [] h k = tt
  All-weaken (x ∷ xs) h k = (h x k.0, All-weaken xs h k.1)

-- what holds of all rows holds of a given one
pub All-at :
    {A : Type 0} (P : A → Type 0) (a : A) (xs : List A) → All P xs → Any (λ x. x ≡ a) xs → P a
All-at P a [] h k = elim k [ ]
All-at P a (x ∷ xs) h (inl e) = subst P e h.0
All-at P a (x ∷ xs) h (inr k) = All-at P a xs h.1 k
