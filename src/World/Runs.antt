-- ===== src/World/Runs.antt =====
-- Code while every service answers: what it returns and leaves, by one rule for each way to build it.
-- The rules show that the code returns a value, and not only what holds if it does.
use minnal_labs.Base.{
  ◌≡◌, refl, sym, subst, Bool, true, false, String, Option, none, some, List, [], ◌∷◌, ◌++◌,
  if◌then◌else◌,
}
use minnal_labs.Base.Exec.{
  Error, Outcome, ok, err, Exec, pure, wrapped, reword, ignored, continue, branch, or_else, ◌>>=◌,
  modify, gets,
}
use minnal_labs.World.{
  World, Tables, Cache, Action, call, execute, cache_execute, query, cache_query, query_first, send,
  not_found_error,
}

-- no service will fail, and the code has returned a value
abbrev pub Succeeds : {A : Type 0} → (A → World → Type 0) → Outcome A × World → Type 0
Succeeds Q (ok a, w) = (w.faults ≡ []) × Q a w
Succeeds Q (err e, w) = ⊥

pub record Runs {A : Type 0} (P : World → Type 0) (m : Exec World A) (Q : A → World → Type 0)
    : Type 0 where
  pub at : (w : World) → w.faults ≡ [] → P w → Succeeds Q (m w)

module _ {A : Type 0} (Q : A → World → Type 0) where
  reworded :
      (f : Error → Error) (r : Outcome A) (w : World)
      → Succeeds Q (r, w)
      → Succeeds Q (reword f r, w)
  reworded f (ok a) w h = h
  reworded f (err e) w h = h

module _ {A B : Type 0} (Q : A → World → Type 0) (R : B → World → Type 0) where
  continued :
      (r : Outcome A) (v : World) (f : A → Exec World B)
      → ((a : A) → Runs (Q a) (f a) R)
      → Succeeds Q (r, v)
      → Succeeds R (continue r f v)
  continued (ok a) v f k (q, h) = (k a).at v q h
  continued (err e) v f k h = absurd h

  branched :
      (r : Outcome A) (v : World) (h : Error → Exec World B) (f : A → Exec World B)
      → ((a : A) → Runs (Q a) (f a) R)
      → Succeeds Q (r, v)
      → Succeeds R (branch r h f v)
  branched (ok a) v h f k (q, s) = (k a).at v q s
  branched (err e) v h f k s = absurd s

module _ (P : World → Type 0) where
  no_fault :
      (w : World) (fs : List (Option String))
      → fs ≡ []
      → P (record w { faults = fs })
      → Succeeds (λ _. P) (call (record w { faults = fs }))
  unfolding call
  no_fault w [] q p = (refl, p)
  no_fault w (f ∷ fs) q p = cc

  succeeded :
      {A : Type 0} (r : Outcome A) (v : World) → Succeeds (λ _. P) (r, v) → (v.faults ≡ []) × P v
  succeeded (ok a) v h = h
  succeeded (err e) v h = absurd h

module _ {A : Type 0} {P : World → Type 0} {Q : A → World → Type 0} where
  pub Runs-pure : (a : A) → ((w : World) → P w → Q a w) → Runs P (pure a) Q
  unfolding pure
  Runs-pure a h = record { at = λ w q p. (q, h w p) }

  pub Runs-gets : (f : World → A) → ((w : World) → P w → Q (f w) w) → Runs P (gets f) Q
  unfolding gets
  Runs-gets f h = record { at = λ w q p. (q, h w p) }

  pub Runs-wrapped : (f : Error → Error) (m : Exec World A) → Runs P m Q → Runs P (wrapped f m) Q
  unfolding wrapped
  Runs-wrapped f m k = record { at = λ w q p. let (r, v) = m w in reworded Q f r v (k.at w q p) }

  pub Runs-if :
      (b : Bool) (m n : Exec World A)
      → (b ≡ true → Runs P m Q)
      → (b ≡ false → Runs P n Q)
      → Runs P (if b then m else n) Q
  Runs-if true m n km kn = km refl
  Runs-if false m n km kn = kn refl

  pub Runs-from :
      (R : World → Type 0) (m : Exec World A) → ((w : World) → P w → R w) → Runs R m Q → Runs P m Q
  Runs-from R m h k = record { at = λ w q p. k.at w q (h w p) }

module _ {A B : Type 0} {P : World → Type 0} {R : B → World → Type 0} (Q : A → World → Type 0) where
  pub Runs-bind :
      (m : Exec World A) (f : A → Exec World B)
      → Runs P m Q
      → ((a : A) → Runs (Q a) (f a) R)
      → Runs P (m >>= f) R
  unfolding ◌>>=◌
  Runs-bind m f km kf = record {
    at = λ w q p. let (r, v) = m w in continued Q R r v f kf (km.at w q p);
  }

  pub Runs-or_else :
      (m : Exec World A) (h : Error → Exec World B) (f : A → Exec World B)
      → Runs P m Q
      → ((a : A) → Runs (Q a) (f a) R)
      → Runs P (or_else m h f) R
  unfolding or_else
  Runs-or_else m h f km kf = record {
    at = λ w q p. let (r, v) = m w in branched Q R r v h f kf (km.at w q p);
  }

module _ {P : World → Type 0} where
  pub Runs-call : Runs P call (λ _. P)
  Runs-call = record { at = λ w q p. no_fault P w w.faults q p }

module _ {P Q : World → Type 0} where
  Runs-modify :
      (f : World → World)
      → ((w : World) → (f w).faults ≡ w.faults)
      → ((w : World) → P w → Q (f w))
      → Runs P (modify f) (λ _. Q)
  unfolding modify
  Runs-modify f same h = record { at = λ w q p. (rw (same w) q, h w p) }

  pub Runs-execute :
      (f : Tables → Tables)
      → ((w : World) → P w → Q (record w { tables = f w.tables }))
      → Runs P (execute f) (λ _. Q)
  unfolding execute
  Runs-execute f h = Runs-bind (λ _. P) call _ Runs-call (λ _. Runs-modify _ (λ w. refl) h)

  pub Runs-cache_execute :
      (f : Cache → Cache)
      → ((w : World) → P w → Q (record w { cache = f w.cache }))
      → Runs P (cache_execute f) (λ _. Q)
  unfolding cache_execute
  Runs-cache_execute f h = Runs-bind (λ _. P) call _ Runs-call (λ _. Runs-modify _ (λ w. refl) h)

  pub Runs-send :
      (a : Action)
      → ((w : World) → P w → Q (record w { actions = w.actions ++ a ∷ [] }))
      → Runs P (send a) (λ _. Q)
  unfolding send
  Runs-send a h = Runs-bind (λ _. Q) _ (λ _. call) (Runs-modify _ (λ w. refl) h) (λ _. Runs-call)

  pub Runs-ignored :
      {A : Type 0} (m : Exec World A) → Runs P m (λ _. Q) → Runs P (ignored m) (λ _. Q)
  unfolding ignored
  Runs-ignored m k = record { at = λ w q p. let (r, v) = m w in succeeded Q r v (k.at w q p) }

module _ {A : Type 0} {P : World → Type 0} {Q : A → World → Type 0} where
  pub Runs-query : (f : Tables → A) → ((w : World) → P w → Q (f w.tables) w) → Runs P (query f) Q
  unfolding query
  Runs-query f h = Runs-bind (λ _. P) call _ Runs-call (λ _. Runs-gets _ h)

  pub Runs-cache_query :
      (f : Cache → A) → ((w : World) → P w → Q (f w.cache) w) → Runs P (cache_query f) Q
  unfolding cache_query
  Runs-cache_query f h = Runs-bind (λ _. P) call _ Runs-call (λ _. Runs-gets _ h)

module _ {A B : Type 0} {S : World → Type 0} {R : B → World → Type 0} (b : A) (g : A → Exec World B)
    (k : Runs S (g b) R) where
  -- what goes on with a value that is known
  pub Runs-at : (a : A) → Runs (λ v. (a ≡ b) × S v) (g a) R
  Runs-at a = record { at = λ w q (e, s). subst (λ x. Succeeds R (g x w)) (sym e) (k.at w q s) }

module _ {A B : Type 0} (P : World → Type 0) (R : B → World → Type 0) (f : Tables → Option A)
    (h : Error → Exec World B) (g : A → Exec World B)
    (kh : Runs (λ w. P w × (f w.tables ≡ none)) (h not_found_error) R)
    (kg : (a : A) → Runs (λ w. P w × (f w.tables ≡ some a)) (g a) R) where
  looked_up :
      (w : World) (fs : List (Option String)) (o : Option A)
      → fs ≡ []
      → f w.tables ≡ o
      → P (record w { faults = fs })
      → Succeeds R (or_else (query_first f) h g (record w { faults = fs }))
  unfolding or_else query_first query call ◌>>=◌ gets
  looked_up w [] none q e p = rw e (kh.at (record w { faults = [] }) refl (p, e))
  looked_up w [] (some a) q e p = rw e ((kg a).at (record w { faults = [] }) refl (p, e))
  looked_up w (x ∷ fs) o q e p = cc

  -- a look-up that tells a missing row from one that is there
  pub Runs-lookup : Runs P (or_else (query_first f) h g) R
  Runs-lookup = record { at = λ w q p. looked_up w w.faults (f w.tables) q refl p }
