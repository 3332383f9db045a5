-- ===== src/Admin/Names.antt =====
-- internal/admin/admin.go, internal/models/models.go: the names of uploaded files.
use Prim.Native.Char.{code}
use Prim.Native.String.{◌++◌ as append}
use mathlib.Core.Path.{fun_ext}
use minnal_labs.Base.{
  ℕ, ◌≡◌, refl, arith, inl, inr, String, Bool, true, false, Option, ◌==◌, Bool-cases, if◌then◌else◌,
}
use minnal_labs.Base.Text.{is_space, trim_space}
use minnal_labs.Base.Text.All.{
  all_of, joined, all_of-weaken, all_of-append, trim_space-all, has_char-all,
}
use minnal_labs.Base.Text.Parts.{has_char}
use minnal_labs.Base.Text.Decimal.{decimal, is_digit, decimal-all}
use minnal_labs.Models.Firmware.{
  build_firmware_base_name, build_firmware_filename, build_firmware_md5_filename,
}
use minnal_labs.Models.{Product}
use minnal_labs.World.{World}
use minnal_labs.Config.{AppConfig, firmware_storage_path}
use minnal_labs.Admin.Upload.{Disk, persist_firmware, store_firmware, upload_firmware}
use minnal_labs.Admin.{is_version_char, squeeze, sanitize_version}

replaced :
    (in_run : Bool) (rest : String)
    → all_of is_version_char rest ≡ true
    → all_of is_version_char (if in_run then rest else String.◌∷◌ "_" rest) ≡ true
replaced true rest h = h
replaced false rest h = h

squeeze-all : (in_run : Bool) (s : String) → all_of is_version_char (squeeze in_run s) ≡ true
unfolding squeeze
squeeze-all in_run String.[] = refl
squeeze-all in_run (String.◌∷◌ c s) = elim (Bool-cases (is_version_char (code c))) [
  | inl e ↦ rw e (joined _ _ e (squeeze-all false s))
  | inr e ↦ rw e (replaced in_run _ (squeeze-all true s))
]

digit-version : (k : ℕ) → is_digit k ≡ true → is_version_char k ≡ true
digit-version k h = ground (arith, h)

version-dense : (k : ℕ) → is_version_char k ≡ true → is_space k ≡ false
version-dense k h = ground (arith, h)

version-no_slash : (k : ℕ) → is_version_char k ≡ true → (k == 47) ≡ false
version-no_slash k h = ground (arith, h)

module _ (product_id : ℕ) (version : String) where
  base_name-all :
      all_of is_version_char (build_firmware_base_name product_id (sanitize_version version)) ≡ true
  unfolding build_firmware_base_name sanitize_version
  base_name-all =
      let kept = squeeze-all false (trim_space version) in
      all_of-append is_version_char (decimal product_id)
        (append "_" (trim_space (squeeze false (trim_space version))))
        (all_of-weaken is_digit is_version_char digit-version (decimal product_id)
          (decimal-all product_id))
        (all_of-append is_version_char "_" (trim_space (squeeze false (trim_space version))) refl
          (rw (trim_space-all is_version_char version-dense _ kept) kept))

  -- there is no slash in the name of the binary or of its digest
  build_firmware_filename-plain :
      (has_char b'/' (build_firmware_filename product_id (sanitize_version version)) ≡ false)
      × (has_char b'/' (build_firmware_md5_filename product_id (sanitize_version version)) ≡ false)
  unfolding build_firmware_filename build_firmware_md5_filename
  build_firmware_filename-plain = (
    has_char-all is_version_char 47 version-no_slash _ (
        all_of-append is_version_char
          (build_firmware_base_name product_id (sanitize_version version)) ".bin" base_name-all
          refl),
    has_char-all is_version_char 47 version-no_slash _ (
        all_of-append is_version_char
          (build_firmware_base_name product_id (sanitize_version version)) ".bin.md5" base_name-all
          refl),
  )

-- two file systems that differ at most in what they do at names with a slash
pub record AgreesOnPlain (cfg : AppConfig) (a b : Disk) : Type 0 where
  pub same_mkdir : a.mkdir_all (firmware_storage_path cfg) ≡ b.mkdir_all (firmware_storage_path cfg)
  pub same_save :
      (name : String)
      → has_char b'/' name ≡ false
      → a.save_uploaded_file (firmware_storage_path cfg) name
        ≡ b.save_uploaded_file (firmware_storage_path cfg) name
  pub same_md5 :
      (name : String)
      → has_char b'/' name ≡ false
      → a.file_md5 (firmware_storage_path cfg) name ≡ b.file_md5 (firmware_storage_path cfg) name
  pub same_write :
      (name text : String)
      → has_char b'/' name ≡ false
      → a.write_file (firmware_storage_path cfg) name text
        ≡ b.write_file (firmware_storage_path cfg) name text

module _ (cfg : AppConfig) (a b : Disk) (same : AgreesOnPlain cfg a b) (now : ℕ)
    (form_version : String) where
  stored :
      (p : Product)
      → store_firmware a cfg now (sanitize_version form_version) p
        ≡ store_firmware b cfg now (sanitize_version form_version) p
  unfolding store_firmware persist_firmware
  stored p =
      let (bin, md5) = build_firmware_filename-plain p.id form_version in
      let writes = fun_ext (λ text. same.same_write _ text md5) in
      rw (same.same_mkdir, same.same_save _ bin, same.same_md5 _ bin, writes) refl

  -- `uploadFirmware` asks the file system about the firmware's directory and names without a slash in it,
  -- and about nothing else: for two file systems that differ at most at names with a slash, it answers
  -- the same and leaves the same, whatever the form and the path of the request hold. So the binary and
  -- its digest lie in that directory itself.
  pub upload_firmware-plain :
      (product_param : String) (file : Option String) (w : World)
      → upload_firmware a cfg now product_param form_version file w
        ≡ upload_firmware b cfg now product_param form_version file w
  unfolding upload_firmware
  upload_firmware-plain product_param file w =
      let same_store = fun_ext (λ p. stored p) in rw same_store refl
