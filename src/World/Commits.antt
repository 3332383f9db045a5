-- ===== src/World/Commits.antt =====
-- What code that is used in transactions has done when it returns with no error. A transaction that
-- fails is rolled back, so an invariant may be broken in between.
use minnal_labs.Base.{ℕ, ◌≤◌, ◌≡◌, refl, Bool, true, false, if◌then◌else◌}
use minnal_labs.Base.Exec.{
  Error, Outcome, ok, err, Exec, pure, fail, wrapped, reword, continue, ◌>>=◌, modify,
}
use minnal_labs.World.{World, Tables, call, execute, transaction, commit, finish}
use minnal_labs.World.Maintains.{Maintains, IsStable, Maintains-call}
use native.Mathlib.Nat.{le_refl, le_trans}

-- from `P`, code that returns a value leaves `Q`
pub record Commits {A : Type 0} (P Q : Tables → ℕ → Type 0) (m : Exec World A) : Type 0 where
  pub at :
      (w : World) (a : A)
      → P w.tables w.next_job
      → (m w).0 ≡ ok a
      → Q (m w).1.tables (m w).1.next_job
  pub grows : (w : World) → w.next_job ≤ (m w).1.next_job

module _ {A : Type 0} {P : Tables → ℕ → Type 0} where
  pub Commits-Maintains : (m : Exec World A) → Maintains P m → Commits P P m
  Commits-Maintains m k = record { at = λ w a h _. k.at w h; grows = k.grows }

  pub Commits-pure : (a : A) → Commits P P (pure a)
  unfolding pure
  Commits-pure a = record { at = λ w b h _. h; grows = λ w. le_refl _ }

reword-eq-ok :
    {A : Type 0} (f : Error → Error) (r : Outcome A) (a : A) → reword f r ≡ ok a → r ≡ ok a
reword-eq-ok f (ok b) a e = e
reword-eq-ok f (err b) a e = cc

module _ {A : Type 0} {P Q : Tables → ℕ → Type 0} where
  pub Commits-wrapped :
      (f : Error → Error) (m : Exec World A) → Commits P Q m → Commits P Q (wrapped f m)
  unfolding wrapped
  Commits-wrapped f m k = record {
    at = λ w a h e. k.at w a h (reword-eq-ok f (m w).0 a e);
    grows = k.grows;
  }

  pub Commits-fail : (e : Error) → Commits P Q (fail {A = A} e)
  unfolding fail
  Commits-fail e = record { at = λ w a h x. cc; grows = λ w. le_refl _ }

  pub Commits-if :
      (b : Bool) (m n : Exec World A)
      → (b ≡ true → Commits P Q m)
      → (b ≡ false → Commits P Q n)
      → Commits P Q (if b then m else n)
  Commits-if true m n km kn = km refl
  Commits-if false m n km kn = kn refl

module _ {A B : Type 0} (Q R : Tables → ℕ → Type 0) where
  Commits-continue :
      (r : Outcome A) (f : A → Exec World B)
      → ((a : A) → Commits Q R (f a))
      → (w : World) (b : B) → ((a : A) → r ≡ ok a → Q w.tables w.next_job)
      → (continue r f w).0 ≡ ok b
      → R (continue r f w).1.tables (continue r f w).1.next_job
  Commits-continue (ok a) f kf w b h e = (kf a).at w b (h a refl) e
  Commits-continue (err x) f kf w b h e = cc

  continue-grows :
      (r : Outcome A) (f : A → Exec World B)
      → ((a : A) → Commits Q R (f a))
      → (w : World) → w.next_job ≤ (continue r f w).1.next_job
  continue-grows (ok a) f kf w = (kf a).grows w
  continue-grows (err x) f kf w = le_refl _

module _ {A B : Type 0} {P Q R : Tables → ℕ → Type 0} where
  pub Commits-bind :
      (m : Exec World A) (f : A → Exec World B)
      → Commits P Q m
      → ((a : A) → Commits Q R (f a))
      → Commits P R (m >>= f)
  unfolding ◌>>=◌
  Commits-bind m f km kf = record {
    at = λ w b h e. let (r, w') = m w in Commits-continue Q R r f kf w' b (λ a x. km.at w a h x) e;
    grows = λ w. let (r, w') = m w in le_trans (km.grows w) (continue-grows Q R r f kf w');
  }

module _ {P Q : Tables → ℕ → Type 0} where
  Commits-modify :
      (f : World → World)
      → ((w : World) → P w.tables w.next_job → Q (f w).tables (f w).next_job)
      → ((w : World) → w.next_job ≤ (f w).next_job)
      → Commits P Q (modify f)
  unfolding modify
  Commits-modify f h g = record { at = λ w a p e. h w p; grows = g }

  pub Commits-execute :
      (f : Tables → Tables) → ((t : Tables) (n : ℕ) → P t n → Q (f t) n) → Commits P Q (execute f)
  unfolding execute
  Commits-execute f h =
      Commits-bind call _ (Commits-Maintains call Maintains-call)
        (λ _. Commits-modify _ (λ w p. h w.tables w.next_job p) (λ w. le_refl _))

module _ {A : Type 0} where
  commit-next_job :
      (a : A) (t : Tables) (r : Outcome Unit) (w : World)
      → (commit a t (r, w)).1.next_job ≡ w.next_job
  unfolding commit
  commit-next_job a t (ok _) w = refl
  commit-next_job a t (err e) w = refl

  finish-next_job :
      (t : Tables) (r : Outcome A) (w : World) → (finish t (r, w)).1.next_job ≡ w.next_job
  unfolding finish
  finish-next_job t (ok a) w = commit-next_job a t (call w).0 (call w).1
  finish-next_job t (err e) w = refl

-- a fact that does not mention the tables may be assumed
pub Commits-fact :
    {A F : Type 0} {P Q : Tables → ℕ → Type 0} (m : Exec World A)
    → ((w : World) → w.next_job ≤ (m w).1.next_job)
    → (F → Commits P Q m)
    → Commits (λ t n. P t n × F) Q m
Commits-fact m grows k = record { at = λ w a h e. (k h.1).at w a h.0 e; grows = grows }

-- how a transaction ended: with a value and the tables that its body left, or with an error and the
-- tables from before
abbrev pub Settles : {A : Type 0} (P Q : Tables → ℕ → Type 0) → Outcome A × World → Type 0
Settles P Q (ok a, w) = Q w.tables w.next_job
Settles P Q (err e, w) = P w.tables w.next_job

module _ {A : Type 0} (P Q : Tables → ℕ → Type 0) (stable : IsStable P) where
  commit-Settles :
      (a : A) (t : Tables) (n : ℕ)
      → P t n
      → (r : Outcome Unit) (w : World) → Q w.tables w.next_job
      → n ≤ w.next_job
      → Settles P Q (commit a t (r, w))
  unfolding commit
  commit-Settles a t n before (ok _) w h g = h
  commit-Settles a t n before (err e) w h g = stable.later t n w.next_job g before

  finish-Settles :
      (t : Tables) (n : ℕ)
      → P t n
      → (r : Outcome A) (w : World) → ((a : A) → r ≡ ok a → Q w.tables w.next_job)
      → n ≤ w.next_job
      → Settles P Q (finish t (r, w))
  unfolding finish
  finish-Settles t n before (ok a) w h g =
      commit-Settles a t n before (call w).0 (call w).1 (h a refl) g
  finish-Settles t n before (err e) w h g = stable.later t n w.next_job g before

  begin-Settles :
      (m : Exec World A)
      → Commits P Q m
      → (r : Outcome Unit) (w : World) → P w.tables w.next_job
      → Settles P Q (continue r (λ _ w. finish w.tables (m w)) w)
  begin-Settles m k (ok _) w h =
      let (r, w') = m w in
      finish-Settles w.tables w.next_job h r w' (λ a e. k.at w a h e) (k.grows w)
  begin-Settles m k (err e) w h = h

  transaction-Settles :
      (m : Exec World A)
      → Commits P Q m
      → (w : World) → P w.tables w.next_job
      → Settles P Q (transaction m w)
  unfolding transaction ◌>>=◌
  transaction-Settles m k w h = begin-Settles m k (call w).0 (call w).1 h

  begin-grows :
      (m : Exec World A)
      → Commits P Q m
      → (r : Outcome Unit) (w : World)
      → w.next_job ≤ (continue r (λ _ w. finish w.tables (m w)) w).1.next_job
  begin-grows m k (ok _) w = let (r, w') = m w in rw (finish-next_job w.tables r w') (k.grows w)
  begin-grows m k (err e) w = le_refl _

  transaction-grows :
      (m : Exec World A) → Commits P Q m → (w : World) → w.next_job ≤ (transaction m w).1.next_job
  unfolding transaction ◌>>=◌
  transaction-grows m k w = begin-grows m k (call w).0 (call w).1

module _ {A : Type 0} (P Q : Tables → ℕ → Type 0) where
  Settles-ok :
      (r : Outcome A) (w : World) (a : A) → Settles P Q (r, w) → r ≡ ok a → Q w.tables w.next_job
  Settles-ok (ok b) w a h e = h
  Settles-ok (err x) w a h e = cc

module _ {A : Type 0} (P : Tables → ℕ → Type 0) where
  Settles-same : (r : Outcome A) (w : World) → Settles P P (r, w) → P w.tables w.next_job
  Settles-same (ok b) w h = h
  Settles-same (err x) w h = h

module _ {A : Type 0} {P Q : Tables → ℕ → Type 0} where
  pub Commits-transaction :
      IsStable P → (m : Exec World A) → Commits P Q m → Commits P Q (transaction m)
  Commits-transaction stable m k = record {
    at = λ w a h e.
        let (r, w') = transaction m w in
        Settles-ok P Q r w' a (transaction-Settles P Q stable m k w h) e;
    grows = transaction-grows P Q stable m k;
  }

module _ {A : Type 0} {P : Tables → ℕ → Type 0} where
  pub Maintains-transaction :
      IsStable P → (m : Exec World A) → Commits P P m → Maintains P (transaction m)
  Maintains-transaction stable m k = record {
    at = λ w h.
        let (r, w') = transaction m w in
        Settles-same P r w' (transaction-Settles P P stable m k w h);
    grows = transaction-grows P P stable m k;
  }

  -- the usual case: the body keeps the invariant at each step
  pub Maintains-steps :
      IsStable P → (m : Exec World A) → Maintains P m → Maintains P (transaction m)
  Maintains-steps stable m k = Maintains-transaction stable m (Commits-Maintains m k)

pub ruleset commits_rules =
    (Commits-wrapped, Commits-fail, Commits-if, Commits-bind, Commits-Maintains)
