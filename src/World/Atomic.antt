-- ===== src/World/Atomic.antt =====
-- A transaction that fails leaves the tables as they were, and so does a statement that fails.
use minnal_labs.Base.{◌≡◌, refl, String, Option, none, some, List, [], ◌∷◌}
use minnal_labs.Base.Exec.{Outcome, ok, err, Exec, ◌>>=◌, modify}
use minnal_labs.World.{World, Tables, call, execute, transaction, finish, commit}

-- an error comes with the tables `t`
abbrev pub Restores : {A : Type 0} → Tables → Outcome A × World → Type 0
Restores t (ok a, v) = Unit {0}
Restores t (err e, v) = v.tables ≡ t

module _ {A : Type 0} (t : Tables) where
  committed : (a : A) (r : Outcome Unit) (v : World) → Restores t (commit a t (r, v))
  unfolding commit
  committed a (ok _) v = tt
  committed a (err e) v = refl

  finished : (r : Outcome A) (v : World) → Restores t (finish t (r, v))
  unfolding finish
  finished (ok a) v = let (r, x) = call v in committed a r x
  finished (err e) v = refl

module _ {A : Type 0} (m : Exec World A) where
  attempted :
      (w : World) (fs : List (Option String))
      → Restores w.tables (transaction m (record w { faults = fs }))
  unfolding transaction call ◌>>=◌
  attempted w [] = let (r, v) = m (record w { faults = [] }) in finished w.tables r v
  attempted w (none ∷ fs) = let (r, v) = m (record w { faults = fs }) in finished w.tables r v
  attempted w (some x ∷ fs) = refl

  pub transaction-Restores : (w : World) → Restores w.tables (transaction m w)
  transaction-Restores w = attempted w w.faults

module _ (f : Tables → Tables) where
  executed :
      (w : World) (fs : List (Option String))
      → Restores w.tables (execute f (record w { faults = fs }))
  unfolding execute call ◌>>=◌ modify
  executed w [] = tt
  executed w (none ∷ fs) = tt
  executed w (some x ∷ fs) = refl

  pub execute-Restores : (w : World) → Restores w.tables (execute f w)
  execute-Restores w = executed w w.faults
