-- ===== src/Enrollment/Firmware.antt =====
-- internal/enrollment/enrollment.go: the firmware of a device, and its update on demand.
use minnal_labs.Base.{
  ℕ, String, Bool, not, ◌&&◌, ◌||◌, Option, none, some, ◌==◌, str_eq, is_some, if◌then◌else◌,
}
use minnal_labs.Base.Rows.{first_where}
use minnal_labs.Base.Text.{trim_space}
use minnal_labs.Base.Text.Decimal.{parse_uint}
use minnal_labs.Base.Exec.{Exec, pure, ◌>>=◌, ◌>>◌}
use minnal_labs.Models.{Device, Product}
use minnal_labs.Models.Firmware.{derive_firmware_url, derive_firmware_md5_url}
use minnal_labs.World.{World, DevicePresence, query, query_first}
use minnal_labs.Http.{success, Handler, refuse, or_refuse, present}
use minnal_labs.State.{get_device_presence}
use minnal_labs.Mqtt.{publish_retained_device_firmware_update}
use minnal_labs.Ota.Reports.{mark_device_rollout_sent}
use minnal_labs.Oauth.Session.{SessionUser}

pub record FirmwareState : Type 0 where
  pub current : String
  pub target : String
  pub update_available : Bool

abbrev reported : Option DevicePresence → String
reported none = ""
reported (some p) = trim_space p.firmware_version

-- `firmwareState`, with the target version of the product
unfoldable pub firmware_state : Device → String → Option DevicePresence → FirmwareState
unfolding trim_space
firmware_state d product_version presence =
    let seen = reported presence in
    let current = if str_eq seen "" then trim_space d.firmware_version else seen in
    let target = trim_space product_version in
    record {
      current = current;
      target = target;
      update_available =
          not (str_eq current "") && not (str_eq target "") && not (str_eq current target);
    }

-- a device's product is the zero value if the row is missing
abbrev pub blank_product : Product
blank_product = record {
  id = 0;
  name = "";
  firmware_version = "";
  firmware_url = "";
  firmware_md5_url = "";
  firmware_uploaded_at = none;
  rollout_percentage = 0;
  rollout_interval_minutes = 0;
}

abbrev pub or_blank : Option Product → Product
or_blank none = blank_product
or_blank (some p) = p

abbrev pub is_live_device : ℕ → Device → Bool
is_live_device id d = (d.id == id) && not (is_some d.deleted_at)

-- `Preload("Product").First(&device, id)`
unfoldable pub load_device : ℕ → Exec World (Device × Product)
unfolding query_first query first_where
load_device id = query_first (λ t. first_where (is_live_device id) t.devices) >>= (λ d.
    query (λ t. or_blank (first_where (λ p. p.id == d.product_id) t.products))
    >>= (λ p. pure (d, p)))

-- `firmwareURL`
abbrev pub firmware_url : Product → String
firmware_url p = derive_firmware_url p.firmware_url p.id p.firmware_version

-- `firmwareMD5URL`
abbrev pub firmware_md5_url : Product → String
firmware_md5_url p =
    derive_firmware_md5_url p.firmware_url p.firmware_md5_url p.id p.firmware_version

pub record QueuedUpdate : Type 0 where
  pub device_id : ℕ
  pub product_id : ℕ
  pub firmware_version : String
  pub firmware_url : String
  pub firmware_md5_url : String

-- the handler once the device's firmware is known
unfoldable pub queue_update : ℕ → Device → Product → Option DevicePresence → Handler QueuedUpdate
unfolding firmware_state publish_retained_device_firmware_update mark_device_rollout_sent
queue_update now d p presence =
    let current = (firmware_state d p.firmware_version presence).current in
    if not (str_eq current "") && str_eq current p.firmware_version
    then refuse 400 "device already has the latest firmware"
    else or_refuse
        (publish_retained_device_firmware_update d p.firmware_version (firmware_url p)
          (firmware_md5_url p) 0 0)
        500 "failed to queue firmware update"
        (λ _.
          mark_device_rollout_sent now d.id
          >> pure (
              success 200 (record {
                device_id = d.id;
                product_id = d.product_id;
                firmware_version = p.firmware_version;
                firmware_url = firmware_url p;
                firmware_md5_url = firmware_md5_url p;
              })))

-- `triggerDeviceUpdate`
unfoldable pub trigger_device_update : ℕ → Option SessionUser → String → Handler QueuedUpdate
unfolding load_device parse_uint get_device_presence queue_update
trigger_device_update now user device_param = present user 401 "unauthorized" (λ u.
    present (parse_uint device_param) 400 "invalid device id" (λ id.
      or_refuse (load_device id) 404 "device not found" (λ (d, p).
        if not (d.user_id == u.user_id)
        then refuse 403 "device does not belong to user"
        else if str_eq p.firmware_version ""
            || str_eq (firmware_url p) ""
            || str_eq (firmware_md5_url p) ""
        then refuse 400 "no firmware uploaded for this product"
        else get_device_presence d.id >>= queue_update now d p)))
