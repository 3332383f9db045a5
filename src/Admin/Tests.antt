-- ===== src/Admin/Tests.antt =====
-- Runs of internal/admin/admin.go.
use minnal_labs.Base.{◌≡◌, ◌-◌, ◌^◌, refl, arith, true, not, none, some, [], ◌∷◌}
use minnal_labs.Base.Int.{pos, negsuc, of_bits, times}
use minnal_labs.Base.Text.{trim_space, trim_left, trim_right, to_lower}
use minnal_labs.Base.Text.Parts.{has_char}
use minnal_labs.Base.Exec.{ok}
use minnal_labs.World.{World}
use minnal_labs.World.Sample.{empty_world}
use minnal_labs.Config.{AppConfig}
use minnal_labs.Config.Tests.{settings}
use minnal_labs.Admin.Upload.{Disk, upload_firmware}
use minnal_labs.Admin.{squeeze, sanitize_version, normalize_batch_interval_minutes}
use minnal_labs.Admin.Names.{AgreesOnPlain, upload_firmware-plain}
use minnal_labs.Admin.Interval.{normalize_batch_interval_minutes-exact}

replaces_runs : sanitize_version " ../1.0 beta//2 " ≡ ".._1.0_beta_2"
unfolding sanitize_version squeeze trim_space trim_left trim_right
replaces_runs = refl

-- every call succeeds
abbrev open_disk : Disk
open_disk = record {
  mkdir_all = λ dir. true;
  save_uploaded_file = λ dir name. true;
  file_md5 = λ dir name. some "d41d8cd9";
  write_file = λ dir name text. true;
}

-- nothing can be saved below the directory
abbrev flat_disk : Disk
flat_disk = record open_disk {
  save_uploaded_file = λ dir name. not (has_char b'/' name);
  write_file = λ dir name text. not (has_char b'/' name);
}

flat-AgreesOnPlain : (cfg : AppConfig) → AgreesOnPlain cfg open_disk flat_disk
flat-AgreesOnPlain cfg = record {
  same_mkdir = refl;
  same_save = λ name h. rw h refl;
  same_md5 = λ name h. refl;
  same_write = λ name text h. rw h refl;
}

abbrev with_lamp : World
with_lamp = record empty_world {
  tables = record empty_world.tables {
    products =
        record {
          id = 3;
          name = "lamp";
          firmware_version = "0.9";
          firmware_url = "";
          firmware_md5_url = "";
          firmware_uploaded_at = none;
          rollout_percentage = 20;
          rollout_interval_minutes = 60;
        }
        ∷ [];
  };
}

upload_firmware-plain_example :
    upload_firmware open_disk settings 100 "3" "../../etc/1.0" (some "lamp.bin") with_lamp
    ≡ upload_firmware flat_disk settings 100 "3" "../../etc/1.0" (some "lamp.bin") with_lamp
upload_firmware-plain_example =
    upload_firmware-plain settings open_disk flat_disk (flat-AgreesOnPlain settings) 100
      "../../etc/1.0" "3" (some "lamp.bin") with_lamp

normalize_batch_interval_minutes-exact_example :
    (normalize_batch_interval_minutes (pos 36) " Hours" ≡ ok (pos 2160))
    × (normalize_batch_interval_minutes (pos 36) "day" ≡ ok (pos 51840))
unfolding trim_space trim_left trim_right to_lower
normalize_batch_interval_minutes-exact_example =
    normalize_batch_interval_minutes-exact 36 " Hours" "day" (omega arith) (omega arith) refl refl

-- 2 ^ 62 hours are 0 minutes in 64 bits
wraps_around : normalize_batch_interval_minutes (pos (2 ^ 62)) "hours" ≡ ok (pos 0)
unfolding normalize_batch_interval_minutes times of_bits trim_space trim_left trim_right to_lower
wraps_around = refl

goes_negative : of_bits (2 ^ 64 - 16) ≡ negsuc 15
unfolding of_bits
goes_negative = refl
