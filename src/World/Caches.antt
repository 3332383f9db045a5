-- ===== src/World/Caches.antt =====
-- What code leaves of a predicate on the cache, whichever of its calls fail.
use minnal_labs.Base.{Bool, true, false, String, Option, none, some, List, [], ◌∷◌, if◌then◌else◌}
use minnal_labs.Base.Exec.{Outcome, ok, err, Exec, pure, ignored, continue, modify, ◌>>=◌}
use minnal_labs.World.{World, Cache, call, cache_execute}

pub record KeepsCache {A : Type 0} (P : Cache → Type 0) (m : Exec World A) : Type 0 where
  pub at : (w : World) → P w.cache → P (m w).1.cache

module _ {P : Cache → Type 0} where
  pub KeepsCache-pure : {A : Type 0} (a : A) → KeepsCache P (pure a)
  unfolding pure
  KeepsCache-pure a = record { at = λ w h. h }

  pub KeepsCache-if :
      {A : Type 0} (b : Bool) (m n : Exec World A)
      → KeepsCache P m
      → KeepsCache P n
      → KeepsCache P (if b then m else n)
  KeepsCache-if true m n km kn = km
  KeepsCache-if false m n km kn = kn

  continued :
      {A B : Type 0} (r : Outcome A) (f : A → Exec World B)
      → ((a : A) → KeepsCache P (f a))
      → (w : World) → P w.cache
      → P (continue r f w).1.cache
  continued (ok a) f k w h = (k a).at w h
  continued (err e) f k w h = h

  pub KeepsCache-bind :
      {A B : Type 0} (m : Exec World A) (f : A → Exec World B)
      → KeepsCache P m
      → ((a : A) → KeepsCache P (f a))
      → KeepsCache P (m >>= f)
  unfolding ◌>>=◌
  KeepsCache-bind m f km kf = record {
    at = λ w h. let (r, v) = m w in continued r f kf v (km.at w h);
  }

  executed :
      (f : Cache → Cache)
      → ((c : Cache) → P c → P (f c))
      → (w : World) (fs : List (Option String)) → P w.cache
      → P (ignored (cache_execute f) (record w { faults = fs })).1.cache
  unfolding ignored cache_execute call modify ◌>>=◌
  executed f k w [] h = k w.cache h
  executed f k w (none ∷ fs) h = k w.cache h
  executed f k w (some m ∷ fs) h = h

  pub KeepsCache-ignored :
      (f : Cache → Cache) → ((c : Cache) → P c → P (f c)) → KeepsCache P (ignored (cache_execute f))
  KeepsCache-ignored f k = record { at = λ w h. executed f k w w.faults h }
