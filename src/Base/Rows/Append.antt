-- ===== src/Base/Rows/Append.antt =====
-- A row at the end of a table: what finds it and what an update leaves.
use mathlib.Core.Path.{◌≡◌, refl, ap}
use mathlib.Core.Bool.{Bool, true, false, ◌||◌}
use mathlib.Core.List.{List, [], ◌∷◌, ◌++◌}
use native.Mathlib.Omega.{arith}
use minnal_labs.Base.Rows.{update_where, any}

neither : (a b : Bool) → a || b ≡ false → (a ≡ false) × (b ≡ false)
neither a b e = ground (arith, e)

second : (a b : Bool) → b ≡ true → a || b ≡ true
second a b e = ground (arith, e)

first : (a b : Bool) → a ≡ true → a || b ≡ true
first a b e = ground (arith, e)

module _ {ℓ} {A : Type ℓ} (p : A → Bool) where
  pub update_where-snoc :
      (f : A → A) (xs : List A) (x : A)
      → any p xs ≡ false
      → p x ≡ true
      → update_where p f (xs ++ x ∷ []) ≡ xs ++ f x ∷ []
  unfolding update_where
  update_where-snoc f [] x none fits = rw fits refl
  update_where-snoc f (y ∷ ys) x none fits =
      let (a, b) = neither (p y) (any p ys) none in
      rw a (ap (λ zs. y ∷ zs) (update_where-snoc f ys x b fits))

  pub any-snoc : (xs : List A) (x : A) → p x ≡ true → any p (xs ++ x ∷ []) ≡ true
  any-snoc [] x fits = first _ _ fits
  any-snoc (y ∷ ys) x fits = second _ _ (any-snoc ys x fits)
