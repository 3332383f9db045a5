-- ===== src/Base/Rows/First.antt =====
-- The first row that fits a test, after a row was added or rows were updated.
use mathlib.Core.Path.{◌≡◌, refl}
use mathlib.Core.Bool.{Bool, true, false}
use mathlib.Core.Option.{none, some}
use mathlib.Core.Logic.{inl, inr}
use mathlib.Core.List.{List, [], ◌∷◌, ◌++◌}
use minnal_labs.Base.Tests.{Bool-cases}
use minnal_labs.Base.Rows.{first_where, update_where, any}

module _ {ℓ} {A : Type ℓ} (p : A → Bool) where
  pub first_where-fits : (xs : List A) (a : A) → first_where p xs ≡ some a → p a ≡ true
  unfolding first_where
  first_where-fits [] a e = cc
  first_where-fits (x ∷ xs) a e = elim (Bool-cases (p x)) [
    | inl t ↦ let h : some x ≡ some a = rw t at e in cc
    | inr f ↦ first_where-fits xs a (rw f at e)
  ]

  pub any-none : (xs : List A) → first_where p xs ≡ none → any p xs ≡ false
  unfolding first_where
  any-none [] e = refl
  any-none (x ∷ xs) e = elim (Bool-cases (p x)) [
    | inl t ↦ let h : some x ≡ none = rw t at e in cc
    | inr f ↦ rw f (any-none xs (rw f at e))
  ]

  pub first_where-append :
      (xs : List A) (a : A)
      → first_where p xs ≡ none
      → p a ≡ true
      → first_where p (xs ++ a ∷ []) ≡ some a
  unfolding first_where
  first_where-append [] a e fits = rw fits refl
  first_where-append (x ∷ xs) a e fits = elim (Bool-cases (p x)) [
    | inl t ↦ let h : some x ≡ none = rw t at e in cc
    | inr f ↦ rw f (first_where-append xs a (rw f at e) fits)
  ]

  pub first_where-update :
      (f : A → A)
      → ((x : A) → p (f x) ≡ p x)
      → (xs : List A) (a : A) → first_where p xs ≡ some a
      → first_where p (update_where p f xs) ≡ some (f a)
  unfolding first_where update_where
  first_where-update f keeps [] a e = cc
  first_where-update f keeps (x ∷ xs) a e = elim (Bool-cases (p x)) [
    | inl t ↦ let h : some x ≡ some a = rw t at e in rw (t, keeps x, t) cc
    | inr n ↦ rw (n, n) (first_where-update f keeps xs a (rw n at e))
  ]
