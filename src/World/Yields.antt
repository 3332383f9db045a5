-- ===== src/World/Yields.antt =====
-- Code that only reads the cache and returns a value whichever calls fail: what the value is like.
use minnal_labs.Base.{◌≡◌, String, Option, none, some, List, [], ◌∷◌}
use minnal_labs.Base.Exec.{
  Error, Outcome, ok, err, Exec, pure, continue, branch, or_else, gets, ◌>>=◌,
}
use minnal_labs.World.{World, Cache, call, cache_query}

module _ {A : Type 0} (c : Cache) (Q : A → Type 0) where
  -- a value, and the cache is as it was
  abbrev pub Yielded : Outcome A × World → Type 0
  Yielded (ok a, v) = Q a × (v.cache ≡ c)
  Yielded (err e, v) = ⊥

  -- the same, or an error
  abbrev pub Tried : Outcome A × World → Type 0
  Tried (ok a, v) = Q a × (v.cache ≡ c)
  Tried (err e, v) = v.cache ≡ c

pub record Yields {A : Type 0} (c : Cache) (m : Exec World A) (Q : A → Type 0) : Type 0 where
  pub at : (w : World) → w.cache ≡ c → Yielded c Q (m w)

pub record Tries {A : Type 0} (c : Cache) (m : Exec World A) (Q : A → Type 0) : Type 0 where
  pub at : (w : World) → w.cache ≡ c → Tried c Q (m w)

module _ {A : Type 0} (c : Cache) (Q : A → Type 0) where
  reads :
      (f : Cache → A) (w : World) (fs : List (Option String))
      → Q (f c)
      → w.cache ≡ c
      → Tried c Q (cache_query f (record w { faults = fs }))
  unfolding cache_query call ◌>>=◌ gets
  reads f w [] q e = (rw e q, e)
  reads f w (none ∷ fs) q e = (rw e q, e)
  reads f w (some m ∷ fs) q e = e

module _ {A : Type 0} {c : Cache} {Q : A → Type 0} where
  pub Yields-pure : (a : A) → Q a → Yields c (pure a) Q
  unfolding pure
  Yields-pure a q = record { at = λ w e. (q, e) }

  pub Tries-cache_query : (f : Cache → A) → Q (f c) → Tries c (cache_query f) Q
  Tries-cache_query f q = record { at = λ w e. reads c Q f w w.faults q e }

module _ {A B : Type 0} {c : Cache} {R : B → Type 0} (Q : A → Type 0) where
  yields-continue :
      (r : Outcome A) (v : World) (f : A → Exec World B)
      → ((a : A) → Q a → Yields c (f a) R)
      → Yielded c Q (r, v)
      → Yielded c R (continue r f v)
  yields-continue (ok a) v f k (q, e) = (k a q).at v e
  yields-continue (err x) v f k h = absurd h

  pub Yields-bind :
      (m : Exec World A) (f : A → Exec World B)
      → Yields c m Q
      → ((a : A) → Q a → Yields c (f a) R)
      → Yields c (m >>= f) R
  unfolding ◌>>=◌
  Yields-bind m f km kf = record {
    at = λ w e. let (r, v) = m w in yields-continue r v f kf (km.at w e);
  }

  tries-branch :
      (r : Outcome A) (v : World) (h : Error → Exec World B) (f : A → Exec World B)
      → ((x : Error) → Yields c (h x) R)
      → ((a : A) → Q a → Yields c (f a) R)
      → Tried c Q (r, v)
      → Yielded c R (branch r h f v)
  tries-branch (ok a) v h f kh kf (q, e) = (kf a q).at v e
  tries-branch (err x) v h f kh kf e = (kh x).at v e

  pub Yields-or_else :
      (m : Exec World A) (h : Error → Exec World B) (f : A → Exec World B)
      → Tries c m Q
      → ((x : Error) → Yields c (h x) R)
      → ((a : A) → Q a → Yields c (f a) R)
      → Yields c (or_else m h f) R
  unfolding or_else
  Yields-or_else m h f km kh kf = record {
    at = λ w e. let (r, v) = m w in tries-branch r v h f kh kf (km.at w e);
  }
