-- ===== src/Enrollment/Listing.antt =====
-- internal/enrollment/enrollment.go: what a user is told of the devices.
use minnal_labs.Base.{
  ℕ, String, Bool, false, not, ◌&&◌, ◌||◌, Option, none, some, List, [], ◌∷◌, ltb, leb, ◌==◌,
  str_eq, is_some, if◌then◌else◌,
}
use minnal_labs.Base.Rows.{first_where, select_where}
use minnal_labs.Base.Rows.Order.{sort_by}
use minnal_labs.Base.Text.Decimal.{parse_uint}
use minnal_labs.Base.Exec.{Exec, pure, ◌>>=◌}
use minnal_labs.Models.{Device, Product}
use minnal_labs.World.{World, Tables, DevicePresence, query, query_first}
use minnal_labs.Http.{success, Handler, refuse, or_refuse, present}
use minnal_labs.HomeJobs.Worker.{is_live_home}
use minnal_labs.State.{get_device_presence}
use minnal_labs.Ota.Reports.{DeviceRolloutInfo, get_device_rollout_info}
use minnal_labs.Oauth.Session.{SessionUser}
use minnal_labs.Enrollment.Firmware.{firmware_state, or_blank, load_device}

-- one entry of the list, and the answer for one device; a time that is left out is none
pub record DeviceItem : Type 0 where
  pub device_id : ℕ
  pub mqtt_connected : Bool
  pub mqtt_status : String
  pub firmware_version : String
  pub target_firmware_version : String
  pub update_available : Bool
  pub rollout_state : String
  pub rollout_batch_number : ℕ
  pub rollout_id : ℕ
  pub last_status_at : Option ℕ
  pub last_seen_at : Option ℕ

abbrev unless_zero_time : ℕ → Option ℕ
unless_zero_time t = if t == 0 then none else some t

-- the entry with the presence that the cache has
unfoldable pub device_item : Device → String → Option DevicePresence → DeviceItem
unfolding firmware_state
device_item d version none =
    let f = firmware_state d version none in
    record {
      device_id = d.id;
      mqtt_connected = false;
      mqtt_status = "unknown";
      firmware_version = f.current;
      target_firmware_version = f.target;
      update_available = f.update_available;
      rollout_state = "";
      rollout_batch_number = 0;
      rollout_id = 0;
      last_status_at = none;
      last_seen_at = none;
    }
device_item d version (some p) =
    let f = firmware_state d version (some p) in
    record {
      device_id = d.id;
      mqtt_connected = p.online;
      mqtt_status = p.last_status;
      firmware_version = f.current;
      target_firmware_version = f.target;
      update_available = f.update_available;
      rollout_state = "";
      rollout_batch_number = 0;
      rollout_id = 0;
      last_status_at = unless_zero_time p.last_status_at;
      last_seen_at = unless_zero_time p.last_seen_at;
    }

-- the block on `rolloutInfo`
unfoldable pub with_rollout : Option DeviceRolloutInfo → DeviceItem → DeviceItem
with_rollout none item = item
with_rollout (some r) item = record item {
  rollout_state = r.state;
  rollout_batch_number = r.batch_number;
  rollout_id = r.rollout_id;
  target_firmware_version =
      if str_eq item.target_firmware_version ""
      then r.target_version
      else item.target_firmware_version;
}

-- the body of the loop of `listHomeDevices`
unfoldable pub describe_device : Device × String → Exec World DeviceItem
unfolding get_device_presence get_device_rollout_info device_item with_rollout
describe_device (d, version) = get_device_presence d.id >>= (λ p.
    get_device_rollout_info d.id >>= (λ r. pure (with_rollout r (device_item d version p))))

unfoldable pub describe_devices : List (Device × String) → Exec World (List DeviceItem)
unfolding describe_device
describe_devices [] = pure []
describe_devices (d ∷ ds) =
    describe_device d >>= (λ item. describe_devices ds >>= (λ items. pure (item ∷ items)))

-- ORDER BY created_at DESC, id DESC
abbrev newest_first : Device → Device → Bool
newest_first a b =
    ltb b.created_at a.created_at || ((a.created_at == b.created_at) && leb b.id a.id)

-- each device with the version of its product
unfoldable pub with_products : Tables → List Device → List (Device × String)
unfolding first_where
with_products t [] = []
with_products t (d ∷ ds) =
    (d, (or_blank (first_where (λ p. p.id == d.product_id) t.products)).firmware_version)
    ∷ with_products t ds

abbrev in_home : ℕ → Device → Bool
in_home home_id d = (d.home_id == home_id) && not (is_some d.deleted_at)

-- `Preload("Product")`, which sends no query if there are no devices
unfoldable pub preload_products : List Device → Exec World (List (Device × String))
unfolding query with_products
preload_products [] = pure []
preload_products (d ∷ ds) = query (λ t. with_products t (d ∷ ds))

-- `Preload("Product").Where("home_id = ?", homeID).Find(&devices)`
unfoldable pub load_home_devices : ℕ → Exec World (List (Device × String))
unfolding query select_where sort_by preload_products
load_home_devices home_id =
    query (λ t. sort_by newest_first (select_where (in_home home_id) t.devices))
    >>= preload_products

-- `listHomeDevices`
unfoldable pub list_home_devices : Option SessionUser → String → Handler (List DeviceItem)
unfolding query_first query first_where parse_uint load_home_devices describe_devices
list_home_devices user home_param = present user 401 "unauthorized" (λ u.
    present (parse_uint home_param) 400 "invalid home id" (λ home_id.
      or_refuse (query_first (λ t. first_where (is_live_home home_id) t.homes)) 404 "home not found"
        (λ home.
          if not (home.user_id == u.user_id)
          then refuse 403 "home does not belong to user"
          else or_refuse (load_home_devices home_id) 500 "failed to load devices"
              (λ ds. describe_devices ds >>= (λ items. pure (success 200 items))))))

-- the answer of `getDeviceStatus`: the rollout is looked up if there is a presence
unfoldable pub device_status : Device → Product → Option DevicePresence → Exec World DeviceItem
unfolding device_item with_rollout get_device_rollout_info
device_status d p none = pure (device_item d p.firmware_version none)
device_status d p (some presence) = get_device_rollout_info d.id >>= (λ r. pure (
    with_rollout r (record (device_item d p.firmware_version (some presence)) {
      last_status_at = some presence.last_status_at;
      last_seen_at = some presence.last_seen_at;
    })))

-- `getDeviceStatus`
unfoldable pub get_device_status : Option SessionUser → String → Handler DeviceItem
unfolding load_device parse_uint get_device_presence device_status
get_device_status user device_param = present user 401 "unauthorized" (λ u.
    present (parse_uint device_param) 400 "invalid device id" (λ id.
      or_refuse (load_device id) 404 "device not found" (λ (d, p).
        if not (d.user_id == u.user_id)
        then refuse 403 "device does not belong to user"
        else get_device_presence id >>= device_status d p >>= (λ item. pure (success 200 item)))))
