-- ===== src/Models/Topics.antt =====
-- internal/models/models.go: the MQTT topics of a device.
use Prim.Native.String.{◌++◌}
use minnal_labs.Base.{ℕ, String}
use minnal_labs.Base.Text.Decimal.{decimal}

-- the common front `%d/%d/%d`
abbrev pub device_path : ℕ → ℕ → ℕ → String
device_path user_id home_id device_id =
    decimal user_id ++ ("/" ++ (decimal home_id ++ ("/" ++ decimal device_id)))

-- `BuildTopic`
unfoldable pub build_topic : ℕ → ℕ → ℕ → String → String → String → String
build_topic user_id home_id device_id component esphome_key action =
    device_path user_id home_id device_id
    ++ ("/" ++ (component ++ ("/" ++ (esphome_key ++ ("/" ++ action)))))

-- `BuildStatusTopic`
unfoldable pub build_status_topic : ℕ → ℕ → ℕ → String
build_status_topic user_id home_id device_id = device_path user_id home_id device_id ++ "/status"

-- `BuildOTACommandTopic`
unfoldable pub build_ota_command_topic : ℕ → ℕ → ℕ → String
build_ota_command_topic user_id home_id device_id =
    device_path user_id home_id device_id ++ "/firmware_update"
