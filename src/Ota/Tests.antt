-- ===== src/Ota/Tests.antt =====
-- Runs of internal/ota/rollout.go at a product with three devices.
use minnal_labs.Base.{ℕ, ◌≤◌, ◌≡◌, refl, true, false, none, List, [], ◌∷◌, map, arith, ◌==◌}
use minnal_labs.Base.Rows.{All, length, select_where}
use minnal_labs.Base.Exec.{◌>>=◌, modify, gets, or_else}
use minnal_labs.Models.{
  User, Product, Device, FirmwareRollout, FirmwareRolloutDevice, effective_rollout_percentage,
  effective_rollout_interval_minutes,
}
use minnal_labs.Models.Firmware.{derive_firmware_url, derive_firmware_md5_url}
use minnal_labs.Base.Text.{trim_right_of, trim_space, has_suffix, to_lower}
use minnal_labs.Base.Text.Decimal.{decimal}
use minnal_labs.World.{World, cache_query}
use minnal_labs.Ota.Batches.{rollout_rows, total_batches, new_row, device_pending}
use minnal_labs.Ota.Rollout.{
  is_active_of, cancel_active_rollouts_for_product, create_rollout, Created, pending_rollout,
}
use minnal_labs.Ota.Dispatch.{
  has_state, earliest, batch_targets, refresh_rollout_completion, is_due_rollout,
}
use minnal_labs.Ota.Sizes.{rollout_rows-batches}
use minnal_labs.Ota.Order.{batch_targets-in_order}
use minnal_labs.Ota.Stall.{refresh_rollout_completion-stalls}
use minnal_labs.Ota.Cancel.{cancel_active-cancels}
use minnal_labs.Ota.Single.{OneActive, create_rollout-single}

abbrev admin : User
admin = record { id = 3; deleted_at = none; username = "ann"; password = ""; google_sub = "" }

abbrev switch : Product
switch = record {
  id = 2;
  name = "switch";
  firmware_version = "2.0";
  firmware_url = "https://f";
  firmware_md5_url = "";
  firmware_uploaded_at = none;
  rollout_percentage = 50;
  rollout_interval_minutes = 0;
}

abbrev device : ℕ → Device
device id = record {
  id = id;
  deleted_at = none;
  user_id = 3;
  home_id = 7;
  product_id = 2;
  name = "d";
  firmware_version = "1.0";
  device_public_key = "";
  created_at = 0;
}

abbrev devices : List Device
devices = device 11 ∷ device 12 ∷ device 13 ∷ []

abbrev running : FirmwareRollout
running = record (pending_rollout switch 3 100) { id = 4 }

abbrev rows : List FirmwareRolloutDevice
rows = new_row 4 12 2 ∷ new_row 4 11 1 ∷ []

abbrev start : World
start = record {
  tables = record {
    users = admin ∷ [];
    admin_users = [];
    homes = [];
    devices = devices;
    jobs = [];
    products = switch ∷ [];
    rollouts = running ∷ [];
    rollout_devices = rows;
    tokens = [];
    capabilities = [];
    product_capabilities = [];
    oauth_clients = [];
  };
  next_user = 9;
  next_home = 8;
  next_device = 90;
  next_job = 1;
  next_rollout = 5;
  next_token = 1;
  cache = record {
    oauth = λ _ _. none;
    sessions = λ _. none;
    user_sessions = λ _. [];
    google_csrf = λ _. none;
    device_meta = λ _. none;
    device_presence = λ _. none;
    device_state = λ _ _. none;
    device_ids = [];
    user_device_ids = λ _. [];
    product_caps = λ _. [];
  };
  actions = [];
  faults = [];
  replies = [];
}

rollout_rows-batches_example :
    (map (λ (r : FirmwareRolloutDevice). r.device_id) (rollout_rows 4 2 0 devices)
      ≡ map (λ (d : Device). d.id) devices)
    × All
        (λ r. (1 ≤ r.batch_number) × (r.batch_number ≤ total_batches 3 2))
        (rollout_rows 4 2 0 devices)
    × (length (select_where (λ r. r.batch_number == 1) (rollout_rows 4 2 0 devices)) ≤ 2)
rollout_rows-batches_example = rollout_rows-batches 4 2 (omega arith) devices 1

batch_targets-in_order_example :
    All
      (λ (x : FirmwareRolloutDevice × Device).
        ((has_state 4 device_pending x.0 ≡ true) × (x.0.batch_number ≡ 1))
        × (x.1.id ≡ x.0.device_id))
      (batch_targets 4 1 start.tables)
    × All (λ y. 1 ≤ y.batch_number) (select_where (has_state 4 device_pending) rows)
unfolding earliest select_where
batch_targets-in_order_example = batch_targets-in_order start.tables 4 (new_row 4 11 1) refl

refresh_rollout_completion-stalls_example :
    ((refresh_rollout_completion 200 4 start).1.tables.rollout_devices ≡ rows)
    × All
        (λ r. r.id ≡ 4 → is_due_rollout 9000 r ≡ false)
        (refresh_rollout_completion 200 4 start).1.tables.rollouts
unfolding refresh_rollout_completion ◌>>=◌ modify or_else gets
refresh_rollout_completion-stalls_example = refresh_rollout_completion-stalls 200 9000 4 start refl

cancel_active-cancels_example :
    All
      (λ r. is_active_of 2 r ≡ false)
      (cancel_active_rollouts_for_product 200 201 2 start).1.tables.rollouts
unfolding cancel_active_rollouts_for_product ◌>>=◌ modify or_else gets
cancel_active-cancels_example = cancel_active-cancels 2 200 201 start refl

abbrev created : Created
created = record {
  rollout = record (pending_rollout switch 3 201) { id = 5 };
  total_devices = 3;
  batches = 2;
}

create_rollout-single_example :
    OneActive switch
      (create_rollout (λ _. 0) 200 201 switch 3 start).1.tables
      (create_rollout (λ _. 0) 200 201 switch 3 start).1.next_job
unfolding create_rollout ◌>>=◌ modify gets or_else derive_firmware_url derive_firmware_md5_url
    effective_rollout_percentage effective_rollout_interval_minutes trim_right_of trim_space
    has_suffix to_lower decimal cache_query
create_rollout-single_example = create_rollout-single (λ _. 0) 200 201 switch 3 start created refl
