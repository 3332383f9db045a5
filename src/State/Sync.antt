-- ===== src/State/Sync.antt =====
-- internal/state/state.go: the devices that the cache lists, and the two synchronisations that fill
-- the cache from the database.
use minnal_labs.Base.{
  ℕ, String, Bool, not, Option, none, some, List, [], ◌∷◌, ◌++◌, map, ◌==◌, str_eq, is_some,
  if◌then◌else◌,
}
use minnal_labs.Base.Map.{write, is_member}
use minnal_labs.Base.Rows.{select_where}
use minnal_labs.Base.Exec.{Exec, pure, ignored, or_else, ◌>>◌}
use minnal_labs.Models.{Device, Capability, ProductCapability}
use minnal_labs.World.{World, Cache, CapInfo, DeviceInfo, query, cache_query, cache_execute}
use minnal_labs.State.{cache_device}

abbrev pub add_found : Option DeviceInfo → List DeviceInfo → List DeviceInfo
add_found none ds = ds
add_found (some d) ds = d ∷ ds

-- the answer to MGET, without what is missing
unfoldable pub found_devices : Cache → List ℕ → List DeviceInfo
found_devices c [] = []
found_devices c (id ∷ ids) = add_found (c.device_meta id) (found_devices c ids)

-- `getDevicesByIDStrings`, with the numbers that the strings stand for
unfoldable pub get_devices_by_ids : List ℕ → Exec World (List DeviceInfo)
unfolding found_devices
get_devices_by_ids [] = pure []
get_devices_by_ids (id ∷ ids) =
    or_else (cache_query (λ c. found_devices c (id ∷ ids))) (λ e. pure []) pure

-- `GetAllDevices`
unfoldable pub get_all_devices : Exec World (List DeviceInfo)
unfolding get_devices_by_ids
get_all_devices = or_else (cache_query (λ c. c.device_ids)) (λ e. pure []) get_devices_by_ids

-- `GetDevicesForUser`
unfoldable pub get_devices_for_user : ℕ → Exec World (List DeviceInfo)
unfolding get_devices_by_ids
get_devices_for_user user_id =
    or_else (cache_query (λ c. c.user_device_ids user_id)) (λ e. pure []) get_devices_by_ids

-- `GetAllCapStates`
unfoldable pub get_all_cap_states : ℕ → Exec World (String → Option String)
get_all_cap_states id = cache_query (λ c. c.device_state id)

abbrev pub device_info : Device → DeviceInfo
device_info d = record {
  id = d.id;
  user_id = d.user_id;
  home_id = d.home_id;
  product_id = d.product_id;
  name = d.name;
}

-- the loop of `SyncDevices`
unfoldable pub cache_devices : List Device → Exec World Unit
unfolding cache_device
cache_devices [] = pure tt
cache_devices (d ∷ ds) = cache_device (device_info d) >> cache_devices ds

abbrev pub is_not_deleted : Device → Bool
is_not_deleted d = not (is_some d.deleted_at)

-- `SyncDevices`
unfoldable pub sync_devices : Exec World Unit
unfolding select_where cache_devices
sync_devices =
    or_else (query (λ t. select_where is_not_deleted t.devices)) (λ e. pure tt) cache_devices

abbrev cap_info : String → Capability → CapInfo
cap_info key c = record {
  esphome_key = key;
  component = c.component;
  trait_type = c.trait_type;
  writable = c.writable;
  google_device_type = c.google_device_type;
}

-- the join of `product_capabilities` and `capabilities`
unfoldable pub capability_rows : List ProductCapability → List Capability → List (ℕ × CapInfo)
unfolding select_where
capability_rows [] cs = []
capability_rows (p ∷ ps) cs =
    map (λ c. (p.product_id, cap_info p.esphome_key c))
      (select_where (λ c. c.id == p.capability_id) cs)
    ++ capability_rows ps cs

-- `fields[key] = value`
unfoldable pub put_field : String → CapInfo → List (String × CapInfo) → List (String × CapInfo)
put_field key cap [] = (key, cap) ∷ []
put_field key cap ((k, v) ∷ fields) =
    let rest = put_field key cap fields in if str_eq k key then (k, cap) ∷ fields else (k, v) ∷ rest

-- the map `fields` of a product, the last row of a key counts
unfoldable pub fields_of :
    ℕ → List (ℕ × CapInfo) → List (String × CapInfo) → List (String × CapInfo)
unfolding put_field
fields_of product_id [] fields = fields
fields_of product_id ((p, cap) ∷ rows) fields =
    fields_of product_id rows
      (if p == product_id then put_field cap.esphome_key cap fields else fields)

-- the keys of `grouped`. Their order does not matter: each has a key of its own in the cache.
unfoldable pub product_ids : List (ℕ × CapInfo) → List ℕ
unfolding is_member
product_ids [] = []
product_ids ((p, _) ∷ rows) =
    let rest = product_ids rows in if is_member p rest then rest else p ∷ rest

-- DEL and HSET of one product
unfoldable pub write_caps : ℕ → List (String × CapInfo) → Exec World Unit
write_caps product_id fields =
    ignored (cache_execute (λ c. record c { product_caps = write product_id [] c.product_caps }))
    >> ignored
        (cache_execute (λ c. record c { product_caps = write product_id fields c.product_caps }))

-- the loop over `grouped`
unfoldable pub write_all_caps : List (ℕ × CapInfo) → List ℕ → Exec World Unit
unfolding fields_of write_caps
write_all_caps rows [] = pure tt
write_all_caps rows (p ∷ ps) = write_caps p (fields_of p rows []) >> write_all_caps rows ps

-- `SyncProductCaps`: an error of the query is dropped and leaves no rows
unfoldable pub sync_product_caps : Exec World Unit
unfolding capability_rows product_ids write_all_caps
sync_product_caps =
    or_else (query (λ t. capability_rows t.product_capabilities t.capabilities)) (λ e. pure tt)
      (λ rows. write_all_caps rows (product_ids rows))
