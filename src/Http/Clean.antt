-- ===== src/Http/Clean.antt =====
-- Handlers that answer, and leave the tables as they were when they answer with an error.
use minnal_labs.Base.{
  ℕ, ◌≡◌, refl, String, Bool, true, false, Option, none, some, List, [], ◌∷◌, if◌then◌else◌,
}
use minnal_labs.Base.Exec.{
  Error, Outcome, ok, err, Exec, pure, ignored, continue, branch, or_else, ◌>>=◌, gets,
}
use minnal_labs.World.{World, Tables, call, query, query_first}
use minnal_labs.World.Atomic.{Restores}
use minnal_labs.Http.{Response, failure, success, Handler, refuse, or_refuse, present, checked}

-- code that returns no error
abbrev Returned : {A : Type 0} → Outcome A × World → Type 0
Returned (ok a, v) = Unit {0}
Returned (err e, v) = ⊥

pub record Returns {A : Type 0} (m : Exec World A) : Type 0 where
  pub at : (w : World) → Returned (m w)

module _ {A : Type 0} where
  pub Returns-pure : (a : A) → Returns {A = A} (pure a)
  unfolding pure
  Returns-pure a = record { at = λ w. tt }

  pub Returns-ignored : (m : Exec World A) → Returns (ignored m)
  unfolding ignored
  Returns-ignored m = record { at = λ w. tt }

module _ {A B : Type 0} where
  returned :
      (r : Outcome A) (v : World) (f : A → Exec World B)
      → Returned (r, v)
      → ((a : A) → Returns (f a))
      → Returned (continue r f v)
  returned (ok a) v f h k = (k a).at v
  returned (err e) v f h k = absurd h

  pub Returns-bind :
      (m : Exec World A) (f : A → Exec World B)
      → Returns m
      → ((a : A) → Returns (f a))
      → Returns (m >>= f)
  unfolding ◌>>=◌
  Returns-bind m f km kf = record { at = λ w. let (r, v) = m w in returned r v f (km.at w) kf }

  handled :
      (r : Outcome A) (v : World) (h : Error → Exec World B) (f : A → Exec World B)
      → ((e : Error) → Returns (h e))
      → ((a : A) → Returns (f a))
      → Returned (branch r h f v)
  handled (ok a) v h f kh kf = (kf a).at v
  handled (err e) v h f kh kf = (kh e).at v

  pub Returns-or_else :
      (m : Exec World A) (h : Error → Exec World B) (f : A → Exec World B)
      → ((e : Error) → Returns (h e))
      → ((a : A) → Returns (f a))
      → Returns (or_else m h f)
  unfolding or_else
  Returns-or_else m h f kh kf = record { at = λ w. let (r, v) = m w in handled r v h f kh kf }

pub ruleset returns_rules = (Returns-pure, Returns-ignored, Returns-bind, Returns-or_else)

-- an answer; with an error's, the tables are `t`
abbrev pub Answered : {A : Type 0} → Tables → Outcome (Response A) × World → Type 0
Answered t (ok (failure status message), v) = v.tables ≡ t
Answered t (ok (success status a), v) = Unit {0}
Answered t (err e, v) = ⊥

pub record Clean {A : Type 0} (m : Handler A) : Type 0 where
  pub at : (w : World) → Answered w.tables (m w)

module _ {A : Type 0} where
  pub Clean-refuse : (status : ℕ) (message : String) → Clean (refuse {A = A} status message)
  unfolding pure
  Clean-refuse status message = record { at = λ w. refl }

  pub Clean-present :
      {B : Type 0} (o : Option B) (status : ℕ) (message : String) (f : B → Handler A)
      → ((b : B) → Clean (f b))
      → Clean (present o status message f)
  Clean-present none status message f k = Clean-refuse status message
  Clean-present (some b) status message f k = k b

  pub Clean-checked :
      {B : Type 0} (r : Outcome B) (status : ℕ) (f : B → Handler A)
      → ((b : B) → Clean (f b))
      → Clean (checked r status f)
  Clean-checked (ok b) status f k = k b
  Clean-checked (err e) status f k = Clean-refuse status e.message

  pub Clean-if : (b : Bool) (m n : Handler A) → Clean m → Clean n → Clean (if b then m else n)
  Clean-if true m n km kn = km
  Clean-if false m n km kn = kn

-- an answer with a body
abbrev Welcomed : {A : Type 0} → Outcome (Response A) × World → Type 0
Welcomed (ok (failure status message), v) = ⊥
Welcomed (ok (success status a), v) = Unit {0}
Welcomed (err e, v) = ⊥

pub record Welcomes {A : Type 0} (m : Handler A) : Type 0 where
  pub at : (w : World) → Welcomed (m w)

module _ {A : Type 0} where
  pub Welcomes-pure : (status : ℕ) (a : A) → Welcomes (pure (success status a))
  unfolding pure
  Welcomes-pure status a = record { at = λ w. tt }

  welcomed :
      {B : Type 0} (r : Outcome B) (v : World) (f : B → Handler A)
      → Returned (r, v)
      → ((b : B) → Welcomes (f b))
      → Welcomed (continue r f v)
  welcomed (ok b) v f h k = (k b).at v
  welcomed (err e) v f h k = absurd h

  pub Welcomes-bind :
      {B : Type 0} (m : Exec World B) (f : B → Handler A)
      → Returns m
      → ((b : B) → Welcomes (f b))
      → Welcomes (m >>= f)
  unfolding ◌>>=◌
  Welcomes-bind m f km kf = record { at = λ w. let (r, v) = m w in welcomed r v f (km.at w) kf }

  answered : (t : Tables) (x : Outcome (Response A) × World) → Welcomed x → Answered t x
  answered t (ok (failure status message), v) h = absurd h
  answered t (ok (success status a), v) h = tt
  answered t (err e, v) h = absurd h

module _ {A B : Type 0} (status : ℕ) (message : String) (g : B → Handler A) where
  changed :
      (t : Tables) (r : Outcome B) (v : World)
      → Restores t (r, v)
      → ((b : B) → Welcomes (g b))
      → Answered t (branch r (λ e. refuse status message) g v)
  unfolding pure
  changed t (ok b) v h k = answered t (g b v) ((k b).at v)
  changed t (err e) v h k = h

  -- a change that undoes itself when it fails, with nothing after it that can be refused
  pub Clean-change :
      (m : Exec World B)
      → ((w : World) → Restores w.tables (m w))
      → ((b : B) → Welcomes (g b))
      → Clean (or_refuse m status message g)
  unfolding or_else
  Clean-change m h k = record { at = λ w. let (r, v) = m w in changed w.tables r v (h w) k }

  module _ (f : Tables → Option B) (k : (b : B) → Clean (g b)) where
    looked_up :
        (w : World) (fs : List (Option String)) (o : Option B)
        → f w.tables ≡ o
        → Answered w.tables (or_refuse (query_first f) status message g (record w { faults = fs }))
    unfolding or_else query_first query call ◌>>=◌ gets pure
    looked_up w [] none e = rw e refl
    looked_up w [] (some b) e = rw e ((k b).at (record w { faults = [] }))
    looked_up w (none ∷ fs) none e = rw e refl
    looked_up w (none ∷ fs) (some b) e = rw e ((k b).at (record w { faults = fs }))
    looked_up w (some x ∷ fs) o e = refl

    pub Clean-lookup : Clean (or_refuse (query_first f) status message g)
    Clean-lookup = record { at = λ w. looked_up w w.faults (f w.tables) refl }
