-- ===== src/Admin/Upload.antt =====
-- internal/admin/admin.go: the upload of firmware. What the file system does is a parameter.
use minnal_labs.Base.{ℕ, String, Bool, not, Option, some, ◌==◌, str_eq, if◌then◌else◌}
use minnal_labs.Base.Rows.{first_where, update_where}
use minnal_labs.Base.Text.Decimal.{parse_uint}
use minnal_labs.Base.Exec.{pure}
use minnal_labs.Models.{Product}
use minnal_labs.Models.Firmware.{build_firmware_filename, build_firmware_md5_filename}
use minnal_labs.World.{query, query_first, execute}
use minnal_labs.Http.{success, Handler, refuse, or_refuse, present, checked}
use minnal_labs.Config.{AppConfig, firmware_storage_path}
use minnal_labs.Enrollment.Firmware.{firmware_url, firmware_md5_url}
use minnal_labs.Admin.{sanitize_version, validate_firmware_upload_name}
use minnal_labs.Admin.Products.{on_product}

-- The file system: whether the directory is there or can be made, whether the upload can be saved in
-- it under a name, the MD5 digest of the file of a name if it can be read, whether a text can be
-- written to a file of a name.
pub record Disk : Type 0 where
  pub mkdir_all : String → Bool
  pub save_uploaded_file : String → String → Bool
  pub file_md5 : String → String → Option String
  pub write_file : String → String → String → Bool

abbrev pub uploaded : ℕ → String → Product → Product
uploaded now version p = record p { firmware_version = version; firmware_uploaded_at = some now }

pub record UploadedFirmware : Type 0 where
  pub product_id : ℕ
  pub name : String
  pub firmware_version : String
  pub firmware_url : String
  pub firmware_md5_url : String
  pub firmware_uploaded_at : ℕ

abbrev pub upload_answer : ℕ → Product → UploadedFirmware
upload_answer now p = record {
  product_id = p.id;
  name = p.name;
  firmware_version = p.firmware_version;
  firmware_url = firmware_url p;
  firmware_md5_url = firmware_md5_url p;
  firmware_uploaded_at = now;
}

module _ (disk : Disk) (cfg : AppConfig) (now : ℕ) where
  -- the handler once the files are written
  unfoldable pub persist_firmware : String → Product → Handler UploadedFirmware
  unfolding execute update_where
  persist_firmware version p =
      or_refuse (execute (on_product p.id (uploaded now version))) 500
        "failed to persist firmware metadata"
        (λ _. pure (success 200 (upload_answer now (uploaded now version p))))

  -- the handler once the product is loaded
  unfoldable pub store_firmware : String → Product → Handler UploadedFirmware
  unfolding firmware_storage_path persist_firmware
  store_firmware version p =
      let dir = firmware_storage_path cfg in
      let name = build_firmware_filename p.id version in
      if not (disk.mkdir_all dir)
      then refuse 500 "failed to create firmware storage"
      else if not (disk.save_uploaded_file dir name)
      then refuse 500 "failed to save firmware file"
      else present (disk.file_md5 dir name) 500 "failed to hash firmware file" (λ md5sum.
        if not (disk.write_file dir (build_firmware_md5_filename p.id version) md5sum)
        then refuse 500 "failed to write firmware md5 file"
        else persist_firmware version p)

  -- `uploadFirmware`, with the version of the form and the name of the file
  unfoldable pub upload_firmware : String → String → Option String → Handler UploadedFirmware
  unfolding query_first query first_where parse_uint sanitize_version validate_firmware_upload_name
      store_firmware
  upload_firmware product_param form_version file =
      present (parse_uint product_param) 400 "invalid product id" (λ id.
        let version = sanitize_version form_version in
        if str_eq version ""
        then refuse 400 "version is required"
        else present file 400 "firmware file is required" (λ filename.
          checked (validate_firmware_upload_name filename) 400 (λ _.
            or_refuse (query_first (λ t. first_where (λ p. p.id == id) t.products)) 404
              "product not found" (store_firmware version))))
