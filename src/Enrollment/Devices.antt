-- ===== src/Enrollment/Devices.antt =====
-- internal/enrollment/enrollment.go: how a device is added and deleted. The cryptography of
-- internal/crypto is a parameter: the key that a text encodes, and the bundle for a key.
use minnal_labs.Base.{
  ℕ, suc, String, Bool, not, ◌&&◌, Option, none, some, [], ◌∷◌, ◌++◌, ◌==◌, str_eq, if◌then◌else◌,
}
use Prim.Native.String.{◌++◌ as append}
use minnal_labs.Base.Rows.{any, first_where, update_where}
use minnal_labs.Base.Text.Decimal.{decimal, parse_uint}
use minnal_labs.Base.Exec.{Error, ok, err, Exec, pure, ignored, or_else, ◌>>◌}
use minnal_labs.Models.{
  Home, Device, Product, mqtt_state, allows_device_provisioning, has_mqtt_credentials,
}
use minnal_labs.World.{World, call, execute, query, query_first, errorf}
use minnal_labs.Http.{success, Handler, refuse, or_refuse, present, checked}
use minnal_labs.Validation.{validate_required_trimmed}
use minnal_labs.Config.{AppConfig, mqtt_host_and_port}
use minnal_labs.HomeJobs.Worker.{is_live_home, on_devices}
use minnal_labs.State.{cache_device, remove_device}
use minnal_labs.State.Sync.{device_info}
use minnal_labs.Mqtt.{subscribe_device, unsubscribe_device, clear_retained_device_firmware_update}
use minnal_labs.Oauth.Session.{SessionUser}
use minnal_labs.Enrollment.Firmware.{is_live_device}

abbrev pub deleted_now : ℕ → Device → Device
deleted_now now d = record d { deleted_at = some now }

-- the end of `deleteDevice`, once the row is marked
unfoldable pub forget_device : Device → Handler ℕ
unfolding unsubscribe_device clear_retained_device_firmware_update remove_device
forget_device d =
    unsubscribe_device d
    >> ignored (clear_retained_device_firmware_update d)
    >> remove_device d.id
    >> pure (success 200 d.id)

-- `deleteDevice`
unfoldable pub delete_device : ℕ → Option SessionUser → String → Handler ℕ
unfolding query_first query first_where execute update_where parse_uint forget_device
delete_device now user device_param = present user 401 "unauthorized" (λ u.
    present (parse_uint device_param) 400 "invalid device id" (λ id.
      or_refuse (query_first (λ t. first_where (is_live_device id) t.devices)) 404
        "device not found"
        (λ d.
          if not (d.user_id == u.user_id)
          then refuse 403 "device does not belong to user"
          else or_refuse
              (execute (on_devices (update_where (is_live_device d.id) (deleted_now now)))) 500
              "failed to delete device" (λ _. forget_device d))))

pub record DeviceBody : Type 0 where
  pub home_id : ℕ
  pub name : String
  pub product_id : ℕ
  pub product_name : String
  pub device_public_key : String

-- crypto.ProvisioningPayload
pub record ProvisioningPayload : Type 0 where
  pub device_id : String
  pub user_id : String
  pub home_id : String
  pub mqtt_host : String
  pub mqtt_port : String
  pub mqtt_username : String
  pub mqtt_password : String
  pub mqtt_connect_delay_seconds : ℕ
  pub wifi_ssid : String
  pub wifi_password : String

-- homejobs.DeviceMQTTConnectDelaySeconds
abbrev pub device_mqtt_connect_delay_seconds : ℕ
device_mqtt_connect_delay_seconds = 15

abbrev pub new_device : ℕ → ℕ → ℕ → ℕ → ℕ → String → String → Device
new_device id now user_id home_id product_id name key = record {
  id = id;
  created_at = now;
  deleted_at = none;
  user_id = user_id;
  home_id = home_id;
  product_id = product_id;
  name = name;
  firmware_version = "";
  device_public_key = key;
}

-- INSERT INTO devices, with its foreign keys
unfoldable pub insert_device : ℕ → ℕ → ℕ → ℕ → String → String → Exec World Device
insert_device now user_id home_id product_id name key w =
    let row = new_device w.next_device now user_id home_id product_id name key in
    let taken = record w { next_device = suc w.next_device } in
    if any (λ u. u.id == user_id) w.tables.users
      && any (λ h. h.id == home_id) w.tables.homes
      && any (λ p. p.id == product_id) w.tables.products
    then (ok row, record taken { tables = on_devices (λ ds. ds ++ row ∷ []) w.tables })
    else (err (errorf "violates foreign key constraint"), taken)

pub record ProvisionedDevice : Type 0 where
  pub device_id : String
  pub provisioning_bundle : String

abbrev is_product : ℕ → String → Product → Bool
is_product id name p = (p.id == id) && str_eq p.name name

abbrev pub payload_for : String × String → Device → Home → ProvisioningPayload
payload_for (host, port) d home = record {
  device_id = decimal d.id;
  user_id = decimal d.user_id;
  home_id = decimal d.home_id;
  mqtt_host = host;
  mqtt_port = port;
  mqtt_username = home.mqtt_username;
  mqtt_password = home.mqtt_password;
  mqtt_connect_delay_seconds = device_mqtt_connect_delay_seconds;
  wifi_ssid = home.wifi_ssid;
  wifi_password = home.wifi_password;
}

module _ {Key : Type 0} (encrypt : Key → ProvisioningPayload → Option String)
    (cfg : AppConfig) where
  -- the end of `enrollDevice`, once the row is there
  unfoldable pub hand_over : Key → Home → Device → Handler ProvisionedDevice
  unfolding cache_device subscribe_device mqtt_host_and_port
  hand_over key home d =
      cache_device (device_info d)
      >> subscribe_device d
      >> present (encrypt key (payload_for (mqtt_host_and_port cfg) d home)) 500
          "failed to encrypt provisioning data"
          (λ bundle.
            pure (success 201 (record { device_id = decimal d.id; provisioning_bundle = bundle })))

  -- the part of `enrollDevice` that checks the home, and goes on if it is ready
  abbrev pub if_ready : {A : Type 0} → ℕ → Home → Handler A → Handler A
  if_ready user_id home rest =
      if not (home.user_id == user_id)
      then refuse 403 "home does not belong to user"
      else if not (allows_device_provisioning home)
      then refuse 409 (append "home mqtt provisioning is " (mqtt_state home))
      else if not (has_mqtt_credentials home)
      then refuse 409 "home mqtt credentials are not ready"
      else rest

  abbrev no_product : Error → Handler ProvisionedDevice
  no_product e =
      if e.not_found then refuse 404 "product not found" else refuse 500 "failed to load product"

  -- `enrollDevice` from where the home is to be loaded, with the trimmed body
  unfoldable pub add_device : ℕ → ℕ → DeviceBody → Key → Handler ProvisionedDevice
  unfolding query_first query first_where allows_device_provisioning has_mqtt_credentials mqtt_state
      insert_device call hand_over
  add_device now user_id b key =
      or_refuse (query_first (λ t. first_where (is_live_home b.home_id) t.homes)) 404
        "home not found"
        (λ home. if_ready user_id home (
          or_else
            (query_first (λ t. first_where (is_product b.product_id b.product_name) t.products))
            no_product
            (λ p.
              or_refuse
                (call >> insert_device now user_id b.home_id p.id b.name b.device_public_key) 500
                "failed to create device" (hand_over key home))))

  -- `enrollDevice`
  unfoldable pub enroll_device :
      (String → Option Key) → ℕ → Option SessionUser → Option DeviceBody → Handler ProvisionedDevice
  unfolding add_device validate_required_trimmed
  enroll_device parse_device_public_key now user body = present user 401 "unauthorized" (λ u.
      present body 400 "invalid request" (λ b.
        checked (validate_required_trimmed "name" b.name 255) 400 (λ name.
          checked (validate_required_trimmed "product_name" b.product_name 255) 400 (λ product.
            checked (validate_required_trimmed "device_public_key" b.device_public_key 4096) 400
              (λ text.
                present (parse_device_public_key text) 400 "invalid device public key" (λ key.
                  add_device now u.user_id
                    (record b { name = name; product_name = product; device_public_key = text })
                    key))))))
