-- ===== src/Http/Refusals.antt =====
-- Handlers that refuse: they answer with an error, and leave the tables, the cache and the broker as
-- they were, whichever calls fail.
use minnal_labs.Base.{
  ℕ, ◌≡◌, refl, String, Bool, true, false, Option, none, some, List, [], ◌∷◌, if◌then◌else◌,
}
use minnal_labs.Base.Exec.{Outcome, ok, err, pure, or_else, ◌>>=◌, gets}
use minnal_labs.World.{World, Tables, call, query, query_first}
use minnal_labs.Http.{Response, failure, success, Handler, refuse, or_refuse, present}

-- an error's answer, with nothing changed
abbrev pub Refused : {A : Type 0} → World → Outcome (Response A) × World → Type 0
Refused w (ok (failure status message), v) =
    (v.tables ≡ w.tables) × (v.cache ≡ w.cache) × (v.actions ≡ w.actions)
Refused w (ok (success status a), v) = ⊥
Refused w (err e, v) = ⊥

-- refuses in every world with the tables that `P` holds of
pub record Refuses {A : Type 0} (P : Tables → Type 0) (m : Handler A) : Type 0 where
  pub at : (w : World) → P w.tables → Refused w (m w)

module _ {A : Type 0} {P : Tables → Type 0} where
  pub Refuses-refuse : (status : ℕ) (message : String) → Refuses P (refuse {A = A} status message)
  unfolding pure
  Refuses-refuse status message = record { at = λ w p. (refl, refl, refl) }

  pub Refuses-present :
      {B : Type 0} (o : Option B) (status : ℕ) (message : String) (f : B → Handler A)
      → ((b : B) → o ≡ some b → Refuses P (f b))
      → Refuses P (present o status message f)
  Refuses-present none status message f k = Refuses-refuse status message
  Refuses-present (some b) status message f k = k b refl

  pub Refuses-if :
      (b : Bool) (m n : Handler A)
      → (b ≡ true → Refuses P m)
      → (b ≡ false → Refuses P n)
      → Refuses P (if b then m else n)
  Refuses-if true m n km kn = km refl
  Refuses-if false m n km kn = kn refl

module _ {A B : Type 0} {P : Tables → Type 0} (f : Tables → Option B) (status : ℕ)
    (message : String) (g : B → Handler A)
    (k : (b : B) → Refuses (λ t. P t × (f t ≡ some b)) (g b)) where
  looked_up :
      (w : World) (fs : List (Option String)) (o : Option B)
      → f w.tables ≡ o
      → P w.tables
      → Refused w (or_refuse (query_first f) status message g (record w { faults = fs }))
  unfolding or_else query_first query call ◌>>=◌ gets pure
  looked_up w [] none e p = rw e (refl, refl, refl)
  looked_up w [] (some b) e p = rw e ((k b).at (record w { faults = [] }) (p, e))
  looked_up w (none ∷ fs) none e p = rw e (refl, refl, refl)
  looked_up w (none ∷ fs) (some b) e p = rw e ((k b).at (record w { faults = fs }) (p, e))
  looked_up w (some x ∷ fs) o e p = (refl, refl, refl)

  -- a look-up that may fail, or find no row
  pub Refuses-lookup : Refuses P (or_refuse (query_first f) status message g)
  Refuses-lookup = record { at = λ w p. looked_up w w.faults (f w.tables) refl p }
