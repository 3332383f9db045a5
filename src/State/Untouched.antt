-- ===== src/State/Untouched.antt =====
-- internal/state/state.go: the cache operations leave the tables alone.
use minnal_labs.Base.{ℕ, List, [], ◌∷◌}
use minnal_labs.World.{Tables}
use minnal_labs.World.Maintains.{Maintains, Maintains-pure, Maintains-bind, maintains_rules}
use minnal_labs.State.{get_product_caps, get_device, remove_device, remove_devices}

module _ {P : Tables → ℕ → Type 0} where
  pub get_product_caps-Maintains : (id : ℕ) → Maintains P (get_product_caps id)
  unfolding get_product_caps
  get_product_caps-Maintains id = search maintains_rules

  pub get_device-Maintains : (id : ℕ) → Maintains P (get_device id)
  unfolding get_device
  get_device-Maintains id = search maintains_rules

  pub remove_device-Maintains : (id : ℕ) → Maintains P (remove_device id)
  unfolding remove_device
  remove_device-Maintains id = search (maintains_rules, get_device-Maintains)

  pub remove_devices-Maintains : (ids : List ℕ) → Maintains P (remove_devices ids)
  unfolding remove_devices
  remove_devices-Maintains [] = Maintains-pure tt
  remove_devices-Maintains (id ∷ ids) =
      Maintains-bind _ _ (remove_device-Maintains id) (λ _. remove_devices-Maintains ids)
