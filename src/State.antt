-- ===== src/State.antt =====
-- internal/state/state.go: the device cache in Valkey. A failed write is logged and dropped.
pub mod Untouched
pub mod Session
pub mod Logout
pub mod Removal
pub mod Presence
pub mod Sync
pub mod Tests
use minnal_labs.Base.{str_eq, ℕ, String, Option, none, some, List, [], ◌∷◌, ◌==◌, if◌then◌else◌}
use minnal_labs.Base.Exec.{Exec, pure, ignored, or_else, ◌>>=◌, ◌>>◌}
use minnal_labs.Base.Map.{write, write_str, set_add, set_remove}
use minnal_labs.World.{
  World, Cache, CapInfo, DeviceInfo, DevicePresence, cache_execute, cache_query,
}

-- `GetProductCaps`
unfoldable pub get_product_caps : ℕ → Exec World (List (String × CapInfo))
get_product_caps product_id = cache_query (λ c. c.product_caps product_id)

-- `GetDevice`: an error of the lookup is a miss
unfoldable pub get_device : ℕ → Exec World (Option DeviceInfo)
get_device id = or_else (cache_query (λ c. c.device_meta id)) (λ e. pure none) pure

-- `GetDevicePresence`: likewise
unfoldable pub get_device_presence : ℕ → Exec World (Option DevicePresence)
get_device_presence id = or_else (cache_query (λ c. c.device_presence id)) (λ e. pure none) pure

-- what `CacheDevice` writes in its pipeline: the membership of both sets
unfoldable pub join_sets : DeviceInfo → Cache → Cache
join_sets d c = record c {
  device_ids = set_add d.id c.device_ids;
  user_device_ids = write d.user_id (set_add d.id (c.user_device_ids d.user_id)) c.user_device_ids;
}

-- `CacheDevice`
unfoldable pub cache_device : DeviceInfo → Exec World Unit
unfolding join_sets
cache_device d =
    ignored (cache_execute (λ c. record c { device_meta = write d.id (some d) c.device_meta }))
    >> ignored (cache_execute (join_sets d))

-- the condition of the second `SRem`: the owner is known
abbrev owner : Option DeviceInfo → ℕ
owner none = 0
owner (some d) = d.user_id

-- the pipeline of `RemoveDevice`
unfoldable pub drop_device : Option DeviceInfo → ℕ → Cache → Cache
drop_device device id c = record c {
  device_meta = write id none c.device_meta;
  device_presence = write id none c.device_presence;
  device_state = write id (λ _. none) c.device_state;
  device_ids = set_remove id c.device_ids;
  user_device_ids =
      if owner device == 0
      then c.user_device_ids
      else write (owner device) (set_remove id (c.user_device_ids (owner device)))
          c.user_device_ids;
}

-- `RemoveDevice`
unfoldable pub remove_device : ℕ → Exec World Unit
unfolding get_device drop_device
remove_device id = get_device id >>= λ device. ignored (cache_execute (drop_device device id))

-- `RemoveDevices`
unfoldable pub remove_devices : List ℕ → Exec World Unit
unfolding remove_device
remove_devices [] = pure tt
remove_devices (id ∷ ids) = remove_device id >> remove_devices ids

-- HGET of a hash of capabilities
unfoldable pub cap_of : String → List (String × CapInfo) → Option CapInfo
cap_of key [] = none
cap_of key ((k, cap) ∷ caps) = let rest = cap_of key caps in if str_eq k key then some cap else rest

-- `GetProductCapByKey`: an error is a miss
unfoldable pub get_product_cap_by_key : ℕ → String → Exec World (Option CapInfo)
unfolding cap_of
get_product_cap_by_key product_id key =
    or_else (cache_query (λ c. cap_of key (c.product_caps product_id))) (λ e. pure none) pure

-- `SetCapState`: a failure is logged
unfoldable pub set_cap_state : ℕ → String → String → Exec World Unit
set_cap_state id key value = ignored (
    cache_execute (λ c. record c {
      device_state = write id (write_str key (some value) (c.device_state id)) c.device_state;
    }))

abbrev text_or_empty : Option String → String
text_or_empty none = ""
text_or_empty (some s) = s

-- `GetCapState`: a field that is missing is an empty text
unfoldable pub get_cap_state : ℕ → String → Exec World String
get_cap_state id key = cache_query (λ c. text_or_empty (c.device_state id key))
