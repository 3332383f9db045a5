-- ===== src/Enrollment/Tests.antt =====
-- Runs of internal/enrollment/enrollment.go with two users.
use minnal_labs.Base.{◌≡◌, ◌≢◌, refl, ap, ◌∙◌, arith, false, none, some, [], ◌∷◌}
use minnal_labs.Base.Text.{trim_space, trim_left, trim_right}
use minnal_labs.Base.Text.Decimal.{parse_uint}
use minnal_labs.Base.Exec.{ok}
use minnal_labs.Base.Rows.{first_where}
use minnal_labs.Models.{User, Home, Device}
use minnal_labs.World.{World}
use minnal_labs.World.Sample.{empty_world}
use minnal_labs.Http.{success}
use minnal_labs.Http.Refusals.{Refused}
use minnal_labs.Http.Clean.{Answered}
use minnal_labs.Validation.{validate_required_trimmed, validate_optional_trimmed}
use minnal_labs.HomeJobs.Queue.{default_config}
use minnal_labs.Oauth.Session.{SessionUser}
use minnal_labs.Enrollment.Homes.{HomeBody, new_home, enroll_home, delete_home}
use minnal_labs.Enrollment.Firmware.{trigger_device_update}
use minnal_labs.Enrollment.Devices.{delete_device}
use minnal_labs.Enrollment.Listing.{list_home_devices, get_device_status}
use minnal_labs.Enrollment.Owner.{foreign_home-refused, foreign_device-refused}
use minnal_labs.Enrollment.Atomic.{errors-change_nothing}
use minnal_labs.Enrollment.Creation.{created_answer, with_home, enroll_home-creates}

abbrev alice : User
alice = record { id = 3; deleted_at = none; username = "alice"; password = ""; google_sub = "" }

abbrev session : SessionUser
session = record { token = "t1"; user_id = 3; username = "alice"; is_admin = false }

abbrev body : HomeBody
body = record { name = " Lake house "; wifi_ssid = "lake"; wifi_password = "secret12" }

abbrev foreign_home : Home
foreign_home = new_home 2 100 4 "Office" "" ""

abbrev foreign_device : Device
foreign_device = record {
  id = 7;
  created_at = 100;
  deleted_at = none;
  user_id = 4;
  home_id = 2;
  product_id = 1;
  name = "Lamp";
  firmware_version = "1.0.0";
  device_public_key = "";
}

abbrev start : World
start = record empty_world {
  tables = record empty_world.tables {
    users = alice ∷ [];
    homes = foreign_home ∷ [];
    devices = foreign_device ∷ [];
  };
}

some-injective : {A : Type 0} {a b : A} → some a ≡ some b → a ≡ b
some-injective e = cc

enroll_home-creates_example :
    (let (r, v) =
        enroll_home default_config 200 (some "x9") (some "pw") (some session) (some body) start in
      (r
        ≡ ok (
            success 201
              (created_answer default_config 200 "x9" "pw" 3 "Lake house" "lake" "secret12" start)))
      × (v.tables ≡ with_home default_config 200 "x9" "pw" 3 "Lake house" "lake" "secret12" start))
unfolding validate_required_trimmed validate_optional_trimmed trim_space trim_left trim_right
enroll_home-creates_example =
    enroll_home-creates default_config 200 "x9" "pw" session body "Lake house" "lake" refl refl refl
      start refl refl refl refl

foreign_home-refused_example :
    Refused start (delete_home default_config 200 201 (some session) "2" start)
    × Refused start (list_home_devices (some session) "2" start)
unfolding parse_uint first_where
foreign_home-refused_example =
    foreign_home-refused session "2" 2 refl default_config 200 201 start other
  where
    other : (h : Home) → some foreign_home ≡ some h → h.user_id ≢ 3
    other h e same =
        let owner = ap (λ x. x.user_id) (some-injective e) in
        let four : 4 ≡ 3 = owner ∙ same in omega (arith, four)

foreign_device-refused_example :
    Refused start (delete_device 200 (some session) "7" start)
    × Refused start (trigger_device_update 200 (some session) "7" start)
    × Refused start (get_device_status (some session) "7" start)
unfolding parse_uint first_where
foreign_device-refused_example = foreign_device-refused session "7" 7 refl 200 start other
  where
    other : (d : Device) → some foreign_device ≡ some d → d.user_id ≢ 3
    other d e same =
        let owner = ap (λ x. x.user_id) (some-injective e) in
        let four : 4 ≡ 3 = owner ∙ same in omega (arith, four)

-- the third call of the database fails
abbrev faulty : World
faulty = record start { faults = none ∷ none ∷ some "no connection" ∷ [] }

errors-change_nothing_example :
    Answered faulty.tables
      (enroll_home default_config 200 (some "x9") none (some session) (some body) faulty)
    × Answered faulty.tables (delete_home default_config 200 201 (some session) "2" faulty)
    × Answered faulty.tables (delete_device 200 (some session) "2" faulty)
errors-change_nothing_example =
    errors-change_nothing default_config 200 201 (some "x9") none (some session) (some body) "2"
      faulty
