-- ===== src/Admin.antt =====
-- internal/admin/admin.go: what the handlers of the administration check and compute.
pub mod Products
pub mod Upload
pub mod Users
pub mod Names
pub mod Interval
pub mod Tests
use Prim.Native.Char.{Char, code}
use Prim.Native.String
use minnal_labs.Base.{
  ℕ, String, Bool, true, false, not, ◌&&◌, ◌||◌, Option, none, some, leb, ◌==◌, str_eq,
  if◌then◌else◌,
}
use minnal_labs.Base.Int.{ℤ, pos, negsuc, times}
use minnal_labs.Base.Text.{trim_space, to_lower, has_suffix}
use minnal_labs.Base.Exec.{Outcome, ok, err}
use minnal_labs.World.{errorf}
use minnal_labs.Validation.{is_word}

-- [A-Za-z0-9._-]
abbrev pub is_version_char : ℕ → Bool
is_version_char c = is_word c || (c == 46) || (c == 45)

-- `versionSanitizer.ReplaceAllString(s, "_")`, where the flag says that the run goes on which the
-- last underscore stands for
unfoldable pub squeeze : Bool → String → String
squeeze in_run String.[] = ""
squeeze in_run (String.◌∷◌ c s) =
    let kept = squeeze false s in
    let rest = squeeze true s in
    if is_version_char (code c)
    then String.◌∷◌ c kept
    else if in_run
    then rest
    else String.◌∷◌ "_" rest

-- `sanitizeVersion`
unfoldable pub sanitize_version : String → String
unfolding squeeze
sanitize_version version = squeeze false (trim_space version)

abbrev pub is_hours : String → Bool
is_hours unit = str_eq unit "hour" || str_eq unit "hours"

abbrev pub is_days : String → Bool
is_days unit = str_eq unit "day" || str_eq unit "days"

-- `normalizeBatchIntervalMinutes`
unfoldable pub normalize_batch_interval_minutes : ℤ → String → Outcome ℤ
unfolding times trim_space to_lower
normalize_batch_interval_minutes (negsuc n) unit =
    err (errorf "batch_interval_value must be at least 1")
normalize_batch_interval_minutes (pos n) unit =
    let name = to_lower (trim_space unit) in
    if not (leb 1 n)
    then err (errorf "batch_interval_value must be at least 1")
    else if is_hours name
    then ok (times n 60)
    else if is_days name
    then ok (times n 1440)
    else err (errorf "batch_interval_unit must be hours or days")

-- `validateFirmwareUploadName`
unfoldable pub validate_firmware_upload_name : String → Outcome Unit
unfolding has_suffix trim_space to_lower
validate_firmware_upload_name filename =
    let name = to_lower (trim_space filename) in
    if str_eq name ""
    then err (errorf "firmware file name is required")
    else if has_suffix name ".factory.bin"
    then err
        (errorf "upload the ESPHome OTA binary (*.ota.bin), not the factory binary (*.factory.bin)")
    else ok tt
