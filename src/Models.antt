-- ===== src/Models.antt =====
-- internal/models/models.go: the rows of the tables and the methods on them. A string column is a
-- text, a nullable column an `Option`; a time is a number of nanoseconds, and 0 is the zero time.
pub mod Topics
pub mod Firmware
use minnal_labs.Base.{
  ltb, leb, ℕ, String, Bool, not, ◌&&◌, ◌||◌, Option, str_eq, is_some, if◌then◌else◌,
}
use minnal_labs.Base.Text.{trim_space}

pub record User : Type 0 where
  pub id : ℕ
  pub deleted_at : Option ℕ
  pub username : String
  pub password : String
  pub google_sub : String

pub record AdminUser : Type 0 where
  pub user_id : ℕ

pub record Home : Type 0 where
  pub id : ℕ
  pub updated_at : ℕ
  pub deleted_at : Option ℕ
  pub user_id : ℕ
  pub name : String
  pub wifi_ssid : String
  pub wifi_password : String
  pub mqtt_username : String
  pub mqtt_password : String
  pub mqtt_provision_state : String
  pub mqtt_provision_error : String
  pub mqtt_provisioned_at : Option ℕ

-- HomeMQTTProvisionState…
abbrev pub state_pending : String
state_pending = "pending"

abbrev pub state_ready : String
state_ready = "ready"

abbrev pub state_failed : String
state_failed = "failed"

abbrev pub state_deleting : String
state_deleting = "deleting"

-- HomeMQTTJobOperation…
abbrev pub operation_provision : String
operation_provision = "provision"

abbrev pub operation_cleanup : String
operation_cleanup = "cleanup"

-- HomeMQTTJobStatus…
abbrev pub job_pending : String
job_pending = "pending"

abbrev pub job_running : String
job_running = "running"

abbrev pub job_failed : String
job_failed = "failed"

-- the `case` of `MQTTState` that lists the four states
unfoldable pub is_known_state : String → Bool
is_known_state s =
    str_eq s state_pending
    || str_eq s state_ready
    || str_eq s state_failed
    || str_eq s state_deleting

-- `Home.HasMQTTCredentials`
unfoldable pub has_mqtt_credentials : Home → Bool
has_mqtt_credentials h =
    not (str_eq (trim_space h.mqtt_username) "") && not (str_eq (trim_space h.mqtt_password) "")

-- `Home.MQTTState`
unfoldable pub mqtt_state : Home → String
unfolding is_known_state
mqtt_state h =
    let state = trim_space h.mqtt_provision_state in
    if is_known_state state
    then state
    else if is_some h.deleted_at
    then state_deleting
    else if str_eq (trim_space h.mqtt_username) "" || str_eq (trim_space h.mqtt_password) ""
    then state_failed
    else state_ready

-- `Home.AllowsDeviceProvisioning`
unfoldable pub allows_device_provisioning : Home → Bool
unfolding mqtt_state
allows_device_provisioning h =
    str_eq (mqtt_state h) state_pending || str_eq (mqtt_state h) state_ready

pub record Device : Type 0 where
  pub id : ℕ
  pub created_at : ℕ
  pub deleted_at : Option ℕ
  pub user_id : ℕ
  pub home_id : ℕ
  pub product_id : ℕ
  pub name : String
  pub firmware_version : String
  pub device_public_key : String

pub record HomeMqttJob : Type 0 where
  pub id : ℕ
  pub home_id : ℕ
  pub operation : String
  pub status : String
  pub attempts : ℕ
  pub next_run_at : ℕ
  pub claimed_at : Option ℕ
  pub last_error : String
  pub created_at : ℕ
  pub updated_at : ℕ

-- A percentage or an interval below 0 counts as 0: the code treats both alike.
pub record Product : Type 0 where
  pub id : ℕ
  pub name : String
  pub firmware_version : String
  pub firmware_url : String
  pub firmware_md5_url : String
  pub firmware_uploaded_at : Option ℕ
  pub rollout_percentage : ℕ
  pub rollout_interval_minutes : ℕ

abbrev pub default_rollout_percentage : ℕ
default_rollout_percentage = 20

abbrev pub default_rollout_interval_minutes : ℕ
default_rollout_interval_minutes = 60

-- `EffectiveRolloutPercentage`
unfoldable pub effective_rollout_percentage : Product → ℕ
effective_rollout_percentage p =
    if leb 1 p.rollout_percentage && leb p.rollout_percentage 100
    then p.rollout_percentage
    else default_rollout_percentage

-- `EffectiveRolloutIntervalMinutes`
unfoldable pub effective_rollout_interval_minutes : Product → ℕ
effective_rollout_interval_minutes p =
    if ltb 0 p.rollout_interval_minutes
    then p.rollout_interval_minutes
    else default_rollout_interval_minutes

pub record FirmwareRollout : Type 0 where
  pub id : ℕ
  pub product_id : ℕ
  pub target_version : String
  pub batch_percentage : ℕ
  pub batch_interval_minutes : ℕ
  pub status : String
  pub next_batch_at : Option ℕ
  pub created_by_user_id : ℕ
  pub created_at : ℕ
  pub updated_at : ℕ

pub record FirmwareRolloutDevice : Type 0 where
  pub rollout_id : ℕ
  pub device_id : ℕ
  pub batch_number : ℕ
  pub state : String
  pub sent_at : Option ℕ
  pub updated_at : Option ℕ
  pub retained_cleared_at : Option ℕ
  pub last_reported_version : String

-- oauthmodels.Token of the OAuth library, by its getters; a time is 0 if it is zero, and so is a
-- duration that is not set
pub record Token : Type 0 where
  pub client_id : String
  pub user_id : String
  pub redirect_uri : String
  pub scope : String
  pub code : String
  pub code_create_at : ℕ
  pub code_expires_in : ℕ
  pub code_challenge : String
  pub code_challenge_method : String
  pub access : String
  pub access_create_at : ℕ
  pub access_expires_in : ℕ
  pub refresh : String
  pub refresh_create_at : ℕ
  pub refresh_expires_in : ℕ

-- the column `data`: empty, no JSON of a token, or the JSON of one
pub data TokenData : Type 0 where
  blank unreadable : TokenData
  json : Token → TokenData

pub record OauthToken : Type 0 where
  pub id : ℕ
  pub client_id : String
  pub user_id : String
  pub code : String
  pub access : String
  pub refresh : String
  pub data_ : TokenData
  pub expires_in : ℕ
  pub expires_at : Option ℕ
  pub created_at : ℕ

pub record Capability : Type 0 where
  pub id : ℕ
  pub component : String
  pub trait_type : String
  pub writable : Bool
  pub google_device_type : String

pub record ProductCapability : Type 0 where
  pub product_id : ℕ
  pub capability_id : ℕ
  pub esphome_key : String

pub record OauthClient : Type 0 where
  pub id : String
  pub secret : String
  pub domain : String
  pub user_id : String
