-- ===== src/Http.antt =====
-- The answers of the HTTP handlers, as `c.JSON` sends them with gin: a status with an error's message
-- or with a body. A handler stops at its first refusal. A body is what its JSON stands for.
pub mod Refusals
pub mod Clean
pub mod Middleware
use minnal_labs.Base.{ℕ, String, Option, none, some}
use minnal_labs.Base.Exec.{Outcome, ok, err, Exec, pure, or_else}
use minnal_labs.World.{World}

pub data Response (A : Type 0) : Type 0 where
  failure : ℕ → String → Response A
  success : ℕ → A → Response A

abbrev pub Handler : Type 0 → Type 0
Handler A = Exec World (Response A)

abbrev pub refuse : {A : Type 0} → ℕ → String → Handler A
refuse status message = pure (failure status message)

module _ {A B : Type 0} where
  -- `if err := m; err != nil { c.JSON(status, …); return }`, then the rest
  abbrev pub or_refuse : Exec World A → ℕ → String → (A → Handler B) → Handler B
  or_refuse m status message f = or_else m (λ e. refuse status message) f

  -- the same for a value that is missing: no session, a body that does not bind, a parameter that is
  -- no number
  abbrev pub present : Option A → ℕ → String → (A → Handler B) → Handler B
  present none status message f = refuse status message
  present (some a) status message f = f a

  -- `if err != nil { c.JSON(status, err.Error()); return }`
  abbrev pub checked : Outcome A → ℕ → (A → Handler B) → Handler B
  checked (ok a) status f = f a
  checked (err e) status f = refuse status e.message
