-- ===== src/World/Maintains.antt =====
-- Invariants of the job tables under any code: one rule for each way to build an action. Sequences
-- are not rolled back, so an invariant has to survive a counter that is ahead of the tables.
use minnal_labs.Base.{ℕ, ◌≤◌, ◌≡◌, refl, Bool, true, false, Option, if◌then◌else◌}
use minnal_labs.Base.Exec.{
  Error, Outcome, ok, err, Exec, pure, fail, wrapped, ignored, continue, branch, or_else, ◌>>=◌,
  modify, gets,
}
use minnal_labs.World.{
  World, Tables, Cache, Action, call, execute, cache_execute, query, query_first, cache_query, send,
}
use native.Mathlib.Nat.{le_refl, le_trans}

-- whatever `m` returns, it keeps `P` and takes numbers from the sequence of the jobs only upwards
pub record Maintains {A : Type 0} (P : Tables → ℕ → Type 0) (m : Exec World A) : Type 0 where
  pub at : (w : World) → P w.tables w.next_job → P (m w).1.tables (m w).1.next_job
  pub grows : (w : World) → w.next_job ≤ (m w).1.next_job

-- what a rollback needs of an invariant
pub record IsStable (P : Tables → ℕ → Type 0) : Type 0 where
  pub later : (t : Tables) (n m : ℕ) → n ≤ m → P t n → P t m

module _ {A : Type 0} {P : Tables → ℕ → Type 0} where
  pub Maintains-pure : (a : A) → Maintains P (pure a)
  unfolding pure
  Maintains-pure a = record { at = λ w h. h; grows = λ w. le_refl _ }

  pub Maintains-fail : (e : Error) → Maintains P (fail {A = A} e)
  unfolding fail
  Maintains-fail e = record { at = λ w h. h; grows = λ w. le_refl _ }

  pub Maintains-gets : (f : World → A) → Maintains P (gets f)
  unfolding gets
  Maintains-gets f = record { at = λ w h. h; grows = λ w. le_refl _ }

  pub Maintains-wrapped :
      (f : Error → Error) (m : Exec World A) → Maintains P m → Maintains P (wrapped f m)
  unfolding wrapped
  Maintains-wrapped f m k = record { at = k.at; grows = k.grows }

  pub Maintains-ignored : (m : Exec World A) → Maintains P m → Maintains P (ignored m)
  unfolding ignored
  Maintains-ignored m k = record { at = k.at; grows = k.grows }

  pub Maintains-if :
      (b : Bool) (m n : Exec World A)
      → (b ≡ true → Maintains P m)
      → (b ≡ false → Maintains P n)
      → Maintains P (if b then m else n)
  Maintains-if true m n km kn = km refl
  Maintains-if false m n km kn = kn refl

module _ {P : Tables → ℕ → Type 0} where
  pub Maintains-call : Maintains P call
  unfolding call
  Maintains-call = record { at = λ w h. h; grows = λ w. le_refl _ }

  Maintains-modify :
      (f : World → World)
      → ((w : World) → P w.tables w.next_job → P (f w).tables (f w).next_job)
      → ((w : World) → w.next_job ≤ (f w).next_job)
      → Maintains P (modify f)
  unfolding modify
  Maintains-modify f h g = record { at = h; grows = g }

module _ {A B : Type 0} {P : Tables → ℕ → Type 0} where
  Maintains-continue :
      (r : Outcome A) (f : A → Exec World B)
      → ((a : A) → Maintains P (f a))
      → Maintains P (continue r f)
  Maintains-continue (ok a) f kf = record { at = (kf a).at; grows = (kf a).grows }
  Maintains-continue (err e) f kf = record { at = λ w h. h; grows = λ w. le_refl _ }

  Maintains-branch :
      (r : Outcome A) (h : Error → Exec World B) (f : A → Exec World B)
      → ((e : Error) → Maintains P (h e))
      → ((a : A) → Maintains P (f a))
      → Maintains P (branch r h f)
  Maintains-branch (ok a) h f kh kf = record { at = (kf a).at; grows = (kf a).grows }
  Maintains-branch (err e) h f kh kf = record { at = (kh e).at; grows = (kh e).grows }

  pub Maintains-bind :
      (m : Exec World A) (f : A → Exec World B)
      → Maintains P m
      → ((a : A) → Maintains P (f a))
      → Maintains P (m >>= f)
  unfolding ◌>>=◌
  Maintains-bind m f km kf = record {
    at = λ w p. let (r, w') = m w in (Maintains-continue r f kf).at w' (km.at w p);
    grows = λ w. let (r, w') = m w in le_trans (km.grows w) ((Maintains-continue r f kf).grows w');
  }

  pub Maintains-or_else :
      (m : Exec World A) (h : Error → Exec World B) (f : A → Exec World B)
      → Maintains P m
      → ((e : Error) → Maintains P (h e))
      → ((a : A) → Maintains P (f a))
      → Maintains P (or_else m h f)
  unfolding or_else
  Maintains-or_else m h f km kh kf = record {
    at = λ w p. let (r, w') = m w in (Maintains-branch r h f kh kf).at w' (km.at w p);
    grows =
        λ w. let (r, w') = m w in le_trans (km.grows w) ((Maintains-branch r h f kh kf).grows w');
  }

module _ {P : Tables → ℕ → Type 0} where
  pub Maintains-execute :
      (f : Tables → Tables) → ((t : Tables) (n : ℕ) → P t n → P (f t) n) → Maintains P (execute f)
  unfolding execute
  Maintains-execute f h =
      Maintains-bind call _ Maintains-call
        (λ _. Maintains-modify _ (λ w p. h w.tables w.next_job p) (λ w. le_refl _))

  pub Maintains-cache_execute : (f : Cache → Cache) → Maintains P (cache_execute f)
  unfolding cache_execute
  Maintains-cache_execute f =
      Maintains-bind call _ Maintains-call (λ _. Maintains-modify _ (λ w p. p) (λ w. le_refl _))

  pub Maintains-send : (a : Action) → Maintains P (send a)
  unfolding send
  Maintains-send a =
      Maintains-bind _ _ (Maintains-modify _ (λ w p. p) (λ w. le_refl _)) (λ _. Maintains-call)

module _ {A : Type 0} {P : Tables → ℕ → Type 0} where
  pub Maintains-query : (f : Tables → A) → Maintains P (query f)
  unfolding query
  Maintains-query f = Maintains-bind call _ Maintains-call (λ _. Maintains-gets _)

  pub Maintains-cache_query : (f : Cache → A) → Maintains P (cache_query f)
  unfolding cache_query
  Maintains-cache_query f = Maintains-bind call _ Maintains-call (λ _. Maintains-gets _)

module _ {A : Type 0} {P : Tables → ℕ → Type 0} where
  pub Maintains-query_first : (f : Tables → Option A) → Maintains P (query_first f)
  unfolding query_first
  Maintains-query_first f =
      Maintains-bind (query f) _ (Maintains-query f)
        (λ o. record { at = λ w h. h; grows = λ w. le_refl _ })

pub ruleset maintains_rules = (
  Maintains-pure, Maintains-fail, Maintains-gets, Maintains-wrapped, Maintains-ignored,
  Maintains-if, Maintains-call, Maintains-bind, Maintains-or_else, Maintains-cache_execute,
  Maintains-send, Maintains-query, Maintains-cache_query, Maintains-query_first,
)
