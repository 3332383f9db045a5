-- ===== src/World/Query.antt =====
-- A statement that reads returns what the tables hold: a rule for the code that goes on with it.
use mathlib.Core.Path.{subst₂}
use minnal_labs.Base.{ℕ, ◌≤◌, ◌≡◌, refl, sym, ap, ◌∙◌, String, Option, none, some, List, [], ◌∷◌}
use minnal_labs.Base.Exec.{Error, Outcome, ok, err, Exec, wrapped, reword, continue, gets, ◌>>=◌}
use minnal_labs.World.{World, Tables, query}
use minnal_labs.World.Commits.{Commits}
use native.Mathlib.Nat.{le_refl}

module _ {A : Type 0} (f : Tables → A) where
  -- how the statement ends; the tables are as before
  abbrev Queried : World → Outcome A × World → Type 0
  Queried w (err e, w') = (w'.tables ≡ w.tables) × (w'.next_job ≡ w.next_job)
  Queried w (ok a, w') = (w'.tables ≡ w.tables) × (w'.next_job ≡ w.next_job) × (f w.tables ≡ a)

  query-Queried :
      (w : World) (fs : List (Option String)) → Queried w (query f (record w { faults = fs }))
  unfolding query ◌>>=◌ gets
  query-Queried w [] = (refl, refl, refl)
  query-Queried w (none ∷ fs) = (refl, refl, refl)
  query-Queried w (some m ∷ fs) = (refl, refl)

module _ {A B : Type 0} {P Q : Tables → ℕ → Type 0} (e : Error → Error) (f : Tables → A)
    (g : A → Exec World B) (k : (a : A) → Commits (λ t n. P t n × (f t ≡ a)) Q (g a)) where
  continue-at :
      (r : Outcome A) (w w' : World) (b : B)
      → Queried f w (r, w')
      → P w.tables w.next_job
      → (continue (reword e r) g w').0 ≡ ok b
      → Q (continue (reword e r) g w').1.tables (continue (reword e r) g w').1.next_job
  continue-at (ok a) w w' b (p, q, d) hp x =
      (k a).at w' b (subst₂ P (sym p) (sym q) hp, ap f p ∙ d) x
  continue-at (err y) w w' b h hp x = cc

  continue-grows :
      (r : Outcome A) (w w' : World)
      → Queried f w (r, w')
      → w.next_job ≤ (continue (reword e r) g w').1.next_job
  continue-grows (ok a) w w' (p, q, d) = rw (sym q) ((k a).grows w')
  continue-grows (err y) w w' (p, q) = rw q (le_refl _)

  -- the rest may use that the value is what the tables hold
  pub Commits-query : Commits P Q (wrapped e (query f) >>= g)
  unfolding ◌>>=◌ wrapped
  Commits-query = record {
    at = λ w b hp x.
        let (r, w') = query f w in continue-at r w w' b (query-Queried f w w.faults) hp x;
    grows = λ w. let (r, w') = query f w in continue-grows r w w' (query-Queried f w w.faults);
  }

module _ {A B : Type 0} {P Q : Tables → ℕ → Type 0} (f : Tables → A) (g : A → Exec World B)
    (k : (a : A) → Commits (λ t n. P t n × (f t ≡ a)) Q (g a)) where
  plain-at :
      (r : Outcome A) (w w' : World) (b : B)
      → Queried f w (r, w')
      → P w.tables w.next_job
      → (continue r g w').0 ≡ ok b
      → Q (continue r g w').1.tables (continue r g w').1.next_job
  plain-at (ok a) = continue-at {P = P} (λ e. e) f g k (ok a)
  plain-at (err y) = continue-at {P = P} (λ e. e) f g k (err y)

  plain-grows :
      (r : Outcome A) (w w' : World)
      → Queried f w (r, w')
      → w.next_job ≤ (continue r g w').1.next_job
  plain-grows (ok a) = continue-grows {P = P} (λ e. e) f g k (ok a)
  plain-grows (err y) = continue-grows {P = P} (λ e. e) f g k (err y)

  -- the same where the error is passed on as it is
  pub Commits-query_plain : Commits P Q (query f >>= g)
  unfolding ◌>>=◌
  Commits-query_plain = record {
    at = λ w b hp x. let (r, w') = query f w in plain-at r w w' b (query-Queried f w w.faults) hp x;
    grows = λ w. let (r, w') = query f w in plain-grows r w w' (query-Queried f w w.faults);
  }
