-- ===== src/Models/Firmware.antt =====
-- internal/models/models.go: the names and addresses of firmware files.
use Prim.Native.String.{◌++◌}
use minnal_labs.Base.{
  ℕ, ◌≡◌, refl, String, Bool, ◌||◌, Option, none, some, str_eq, ◌==◌, if◌then◌else◌,
}
use minnal_labs.Base.Text.{trim_space, trim_right_of, to_lower, has_suffix, before_last}
use minnal_labs.Base.Text.Decimal.{decimal}

-- `BuildFirmwareBaseName`
unfoldable pub build_firmware_base_name : ℕ → String → String
build_firmware_base_name product_id version = decimal product_id ++ ("_" ++ trim_space version)

-- `BuildFirmwareFilename`
unfoldable pub build_firmware_filename : ℕ → String → String
unfolding build_firmware_base_name
build_firmware_filename product_id version = build_firmware_base_name product_id version ++ ".bin"

-- `BuildFirmwareMD5Filename`
unfoldable pub build_firmware_md5_filename : ℕ → String → String
unfolding build_firmware_base_name
build_firmware_md5_filename product_id version =
    build_firmware_base_name product_id version ++ ".bin.md5"

-- the path before the last slash: none before a text without one
abbrev folder : Option String → String
folder none = ""
folder (some front) = trim_right_of b'/' front

names_a_file : String → Bool
names_a_file lower =
    has_suffix lower ".bin.md5" || has_suffix lower ".bin" || has_suffix lower ".md5"

-- `firmwareBaseDir`
unfoldable pub firmware_base_dir : String → String
unfolding names_a_file
firmware_base_dir raw_url =
    let url = trim_right_of b'/' (trim_space raw_url) in
    if str_eq url ""
    then ""
    else if names_a_file (to_lower url)
    then folder (before_last b'/' url)
    else trim_right_of b'/' url

-- the directory of a base address: it may end in `firmware` already
abbrev under_firmware : String → String
under_firmware base =
    if has_suffix (to_lower base) "/firmware" then base ++ "/" else base ++ "/firmware/"

-- `DeriveFirmwareURL`
unfoldable pub derive_firmware_url : String → ℕ → String → String
unfolding firmware_base_dir build_firmware_filename
derive_firmware_url base_url product_id version =
    let base = firmware_base_dir base_url in
    let v = trim_space version in
    if str_eq base "" || product_id == 0 || str_eq v ""
    then ""
    else under_firmware base ++ build_firmware_filename product_id v

-- `DeriveFirmwareMD5URL`
unfoldable pub derive_firmware_md5_url : String → String → ℕ → String → String
unfolding firmware_base_dir build_firmware_md5_filename derive_firmware_url
derive_firmware_md5_url firmware_url_base md5_url_base product_id version =
    let base = firmware_base_dir md5_url_base in
    let v = trim_space version in
    let firmware_url = derive_firmware_url firmware_url_base product_id v in
    if product_id == 0 || str_eq v ""
    then ""
    else if str_eq base ""
    then (if str_eq firmware_url "" then "" else firmware_url ++ ".md5")
    else under_firmware base ++ build_firmware_md5_filename product_id v

derives_addresses :
    (derive_firmware_url "https://h.example/firmware/4_1.0.bin" 4 " 1.2 "
      ≡ "https://h.example/firmware/4_1.2.bin")
    × (derive_firmware_md5_url "https://h.example/fw" "" 4 "1.2"
        ≡ "https://h.example/fw/firmware/4_1.2.bin.md5")
unfolding derive_firmware_url derive_firmware_md5_url trim_right_of trim_space has_suffix to_lower
    before_last decimal
derives_addresses = (refl, refl)
