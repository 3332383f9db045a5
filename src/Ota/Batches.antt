-- ===== src/Ota/Batches.antt =====
-- internal/ota/rollout.go: the order and the size of the batches of a rollout. SHA-256 is a parameter:
-- the digest of a text, as the number that its hexadecimal digits write. The quotient of the code's
-- floating-point division is exact enough for its `math.Ceil` below 2^46.
use Prim.Native.String.{◌++◌}
use minnal_labs.Base.{
  ℕ, suc, ◌+◌, ◌-◌, ◌*◌, ◌/◌, String, Bool, Option, none, some, List, [], ◌∷◌, ltb, ◌==◌, str_eq,
  if◌then◌else◌,
}
use minnal_labs.Base.Exec.{Exec, pure, ◌>>=◌}
use minnal_labs.Base.Text.{trim_space}
use minnal_labs.Base.Text.Decimal.{decimal}
use minnal_labs.Models.{Product, Device, FirmwareRolloutDevice}
use minnal_labs.Models.Firmware.{derive_firmware_url, derive_firmware_md5_url}
use minnal_labs.World.{World, DevicePresence}
use minnal_labs.State.{get_device_presence}

abbrev pub status_pending : String
status_pending = "pending"

abbrev pub status_running : String
status_running = "running"

abbrev pub status_completed : String
status_completed = "completed"

abbrev pub status_cancelled : String
status_cancelled = "cancelled"

abbrev pub status_failed : String
status_failed = "failed"

abbrev pub device_pending : String
device_pending = "pending"

abbrev pub device_sent : String
device_sent = "sent"

abbrev pub device_updated : String
device_updated = "updated"

abbrev pub device_cancelled : String
device_cancelled = "cancelled"

abbrev pub device_skipped : String
device_skipped = "skipped"

abbrev pub device_failed : String
device_failed = "failed"

-- a version that the device reported counts more than the one in the table
abbrev pub version_of : String → Option DevicePresence → String
version_of stored none = trim_space stored
version_of stored (some p) =
    if str_eq (trim_space p.firmware_version) ""
    then trim_space stored
    else trim_space p.firmware_version

-- `currentDeviceFirmwareVersion`
unfoldable pub current_device_firmware_version : Device → Exec World String
unfolding get_device_presence
current_device_firmware_version d =
    get_device_presence d.id >>= λ presence. pure (version_of d.firmware_version presence)

-- `currentProductFirmwareURL`
abbrev pub current_product_firmware_url : Product → String
current_product_firmware_url p = derive_firmware_url p.firmware_url p.id p.firmware_version

-- `currentProductMD5URL`
abbrev pub current_product_md5_url : Product → String
current_product_md5_url p =
    derive_firmware_md5_url p.firmware_url p.firmware_md5_url p.id p.firmware_version

-- `batchSize`
unfoldable pub batch_size : ℕ → ℕ → ℕ
batch_size total percentage =
    let at_least = if ltb percentage 1 then 1 else percentage in
    let percent = if ltb 100 at_least then 100 else at_least in
    let size = (total * percent + 99) / 100 in
    if total == 0 then 0 else if ltb size 1 then 1 else size

-- the loop over the devices: those that need the firmware
unfoldable pub eligible_devices : String → List Device → Exec World (List Device)
unfolding current_device_firmware_version
eligible_devices version [] = pure []
eligible_devices version (d ∷ ds) = current_device_firmware_version d >>= λ current.
    eligible_devices version ds >>= λ rest. pure (if str_eq current version then rest else d ∷ rest)

-- `deterministicSortKey`
abbrev pub deterministic_sort_key : (String → ℕ) → ℕ → ℕ → ℕ
deterministic_sort_key sha256 rollout_id device_id =
    sha256 (decimal rollout_id ++ (":" ++ decimal device_id))

-- the comparison of `sort.Slice`
abbrev pub sorts_before : (String → ℕ) → ℕ → Device → Device → Bool
sorts_before sha256 rollout_id a b =
    let key_a = deterministic_sort_key sha256 rollout_id a.id in
    let key_b = deterministic_sort_key sha256 rollout_id b.id in
    if key_a == key_b then ltb a.id b.id else ltb key_a key_b

insert_sorted : (String → ℕ) → ℕ → Device → List Device → List Device
insert_sorted sha256 rollout_id d [] = d ∷ []
insert_sorted sha256 rollout_id d (e ∷ es) =
    let rest = insert_sorted sha256 rollout_id d es in
    if sorts_before sha256 rollout_id e d then e ∷ rest else d ∷ e ∷ es

-- the devices in the order of their digests
unfoldable pub in_rollout_order : (String → ℕ) → ℕ → List Device → List Device
unfolding insert_sorted
in_rollout_order sha256 rollout_id [] = []
in_rollout_order sha256 rollout_id (d ∷ ds) =
    insert_sorted sha256 rollout_id d (in_rollout_order sha256 rollout_id ds)

abbrev pub new_row : ℕ → ℕ → ℕ → FirmwareRolloutDevice
new_row rollout_id device_id batch_number = record {
  rollout_id = rollout_id;
  device_id = device_id;
  batch_number = batch_number;
  state = device_pending;
  sent_at = none;
  updated_at = none;
  retained_cleared_at = none;
  last_reported_version = "";
}

-- the loop that fills `rows`, from index `idx` on
unfoldable pub rollout_rows : ℕ → ℕ → ℕ → List Device → List FirmwareRolloutDevice
rollout_rows rollout_id size idx [] = []
rollout_rows rollout_id size idx (d ∷ ds) =
    new_row rollout_id d.id (idx / size + 1) ∷ rollout_rows rollout_id size (suc idx) ds

-- `totalBatches`
unfoldable pub total_batches : ℕ → ℕ → ℕ
total_batches total size = (total + (size - 1)) / size
