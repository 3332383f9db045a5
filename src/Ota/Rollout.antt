-- ===== src/Ota/Rollout.antt =====
-- internal/ota/rollout.go: creating a rollout, which cancels the product's others. `now` and `later`
-- are readings of the clock; the cancellation of several rollouts takes one reading for all of them.
use minnal_labs.Base.{
  ℕ, suc, String, Bool, not, ◌&&◌, ◌||◌, none, some, List, [], ◌∷◌, ◌++◌, map, ltb, ◌==◌, str_eq,
  is_some, if◌then◌else◌,
}
use minnal_labs.Base.Rows.{length, select_where, update_where, any}
use minnal_labs.Base.Exec.{ok, err, Exec, pure, fail, wrapped, ignored, or_else, ◌>>=◌, ◌>>◌}
use minnal_labs.Models.{
  Product, Device, FirmwareRollout, FirmwareRolloutDevice, effective_rollout_percentage,
  effective_rollout_interval_minutes,
}
use minnal_labs.World.{World, Tables, call, execute, query, transaction, wrap, errorf}
use minnal_labs.Mqtt.{clear_retained_device_firmware_update}
use minnal_labs.Ota.Batches.{
  status_pending, status_running, status_cancelled, device_pending, device_sent, device_cancelled,
  current_product_firmware_url, current_product_md5_url, batch_size, eligible_devices,
  in_rollout_order, rollout_rows, total_batches,
}

abbrev pub on_rollouts : (List FirmwareRollout → List FirmwareRollout) → Tables → Tables
on_rollouts f t = record t { rollouts = f t.rollouts }

abbrev pub on_rollout_devices :
    (List FirmwareRolloutDevice → List FirmwareRolloutDevice) → Tables → Tables
on_rollout_devices f t = record t { rollout_devices = f t.rollout_devices }

-- `status IN ('pending', 'running')`
abbrev pub is_active : FirmwareRollout → Bool
is_active r = str_eq r.status status_pending || str_eq r.status status_running

-- `state IN ('pending', 'sent')`
abbrev pub is_open : FirmwareRolloutDevice → Bool
is_open r = str_eq r.state device_pending || str_eq r.state device_sent

-- `rollout_id = ? AND device_id = ?`
abbrev pub is_row : ℕ → ℕ → FirmwareRolloutDevice → Bool
is_row rollout_id device_id r = (r.rollout_id == rollout_id) && (r.device_id == device_id)

-- JOIN devices d ON d.id = frd.device_id
unfoldable pub join_devices :
    List FirmwareRolloutDevice → List Device → List (FirmwareRolloutDevice × Device)
unfolding select_where
join_devices [] ds = []
join_devices (r ∷ rs) ds =
    map (λ d. (r, d)) (select_where (λ d. d.id == r.device_id) ds) ++ join_devices rs ds

abbrev pub row_cancelled : ℕ → FirmwareRolloutDevice → FirmwareRolloutDevice
row_cancelled now r = record r {
  state = device_cancelled;
  retained_cleared_at = some now;
  updated_at = some now;
}

-- the loop of `clearRetainedForRollout`: a device whose command cannot be cleared is passed over, and
-- the outcome of the update is dropped
unfoldable pub clear_targets : ℕ → ℕ → List (FirmwareRolloutDevice × Device) → Exec World Unit
unfolding clear_retained_device_firmware_update execute update_where
clear_targets now rollout_id [] = pure tt
clear_targets now rollout_id ((_, d) ∷ ts) =
    or_else (clear_retained_device_firmware_update d) (λ e. pure tt)
      (λ _.
        ignored (
          execute (on_rollout_devices (update_where (is_row rollout_id d.id) (row_cancelled now)))))
    >> clear_targets now rollout_id ts

-- `clearRetainedForRollout`
unfoldable pub clear_retained_for_rollout : ℕ → ℕ → Exec World Unit
unfolding query join_devices clear_targets select_where
clear_retained_for_rollout now rollout_id =
    or_else
      (query (λ t.
        join_devices
          (select_where (λ r. (r.rollout_id == rollout_id) && is_open r) t.rollout_devices)
          t.devices))
      (λ e. pure tt) (clear_targets now rollout_id)

abbrev pub rollout_cancelled : ℕ → FirmwareRollout → FirmwareRollout
rollout_cancelled now r = record r {
  status = status_cancelled;
  next_batch_at = none;
  updated_at = now;
}

-- the loop of `cancelActiveRolloutsForProduct`
unfoldable pub cancel_rollouts : ℕ → ℕ → List FirmwareRollout → Exec World Unit
unfolding execute update_where clear_retained_for_rollout
cancel_rollouts now later [] = pure tt
cancel_rollouts now later (r ∷ rs) =
    execute (on_rollouts (update_where (λ x. x.id == r.id) (rollout_cancelled now)))
    >> clear_retained_for_rollout later r.id
    >> cancel_rollouts now later rs

abbrev pub is_active_of : ℕ → FirmwareRollout → Bool
is_active_of product_id r = (r.product_id == product_id) && is_active r

-- `cancelActiveRolloutsForProduct`
unfoldable pub cancel_active_rollouts_for_product : ℕ → ℕ → ℕ → Exec World Unit
unfolding query select_where cancel_rollouts
cancel_active_rollouts_for_product now later product_id =
    query (λ t. select_where (is_active_of product_id) t.rollouts) >>= cancel_rollouts now later

-- `WHERE product_id = ? AND deleted_at IS NULL`
abbrev pub is_live_of_product : ℕ → Device → Bool
is_live_of_product product_id d = (d.product_id == product_id) && not (is_some d.deleted_at)

-- INSERT INTO firmware_rollouts, with its foreign keys; `rollout` is completed by its number
unfoldable pub insert_rollout : FirmwareRollout → Exec World FirmwareRollout
insert_rollout rollout w =
    let row = record rollout { id = w.next_rollout } in
    let known =
      any (λ p. p.id == rollout.product_id) w.tables.products
      && any (λ u. u.id == rollout.created_by_user_id) w.tables.users in
    let taken = record w { next_rollout = suc w.next_rollout } in
    if known
    then (ok row, record taken { tables = on_rollouts (λ rs. rs ++ row ∷ []) w.tables })
    else (err (errorf "violates foreign key constraint"), taken)

-- `tx.Create(rollout)`
abbrev pub create_row : FirmwareRollout → Exec World FirmwareRollout
create_row rollout = call >> insert_rollout rollout

abbrev pub load_product_devices : ℕ → Exec World (List Device)
load_product_devices product_id =
    wrapped (wrap "load rollout devices")
      (query (λ t. select_where (is_live_of_product product_id) t.devices))

abbrev pub pending_rollout : Product → ℕ → ℕ → FirmwareRollout
pending_rollout p created_by now = record {
  id = 0;
  product_id = p.id;
  target_version = p.firmware_version;
  batch_percentage = effective_rollout_percentage p;
  batch_interval_minutes = effective_rollout_interval_minutes p;
  status = status_pending;
  next_batch_at = some now;
  created_by_user_id = created_by;
  created_at = now;
  updated_at = now;
}

-- what `CreateRollout` returns
pub record Created : Type 0 where
  pub rollout : FirmwareRollout
  pub total_devices : ℕ
  pub batches : ℕ

-- `Create` sets the time of the update
abbrev pub stamped : ℕ → FirmwareRolloutDevice → FirmwareRolloutDevice
stamped now r = record r { updated_at = some now }

-- the transaction from where the eligible devices are known
unfoldable pub add_rollout : (String → ℕ) → ℕ → Product → ℕ → List Device → Exec World Created
unfolding insert_rollout execute batch_size in_rollout_order rollout_rows total_batches
add_rollout sha256 now p created_by [] = fail (errorf "no eligible devices need this firmware")
add_rollout sha256 now p created_by (d ∷ ds) = do
  rollout ← wrapped (wrap "create rollout") (create_row (pending_rollout p created_by now))
  let ordered = in_rollout_order sha256 rollout.id (d ∷ ds)
  let size = batch_size (length ordered) rollout.batch_percentage
  wrapped (wrap "create rollout devices") (
      execute (
        on_rollout_devices
          (λ rs. rs ++ map (stamped now) (rollout_rows rollout.id size 0 ordered))))
  pure (record {
    rollout = rollout;
    total_devices = length ordered;
    batches = total_batches (length ordered) size;
  })

-- no device is eligible
abbrev pub unless_empty : List Device → Exec World Unit
unless_empty [] = fail (errorf "no eligible devices need this firmware")
unless_empty (_ ∷ _) = pure tt

abbrev pub is_incomplete : Product → Bool
is_incomplete p =
    p.id == 0
    || str_eq p.firmware_version ""
    || str_eq (current_product_firmware_url p) ""
    || str_eq (current_product_md5_url p) ""

-- the transaction of `CreateRollout`
unfoldable pub create_in_transaction : (String → ℕ) → ℕ → Product → ℕ → Exec World Created
unfolding transaction query eligible_devices add_rollout
create_in_transaction sha256 now p created_by = transaction (
    load_product_devices p.id
    >>= eligible_devices p.firmware_version
    >>= add_rollout sha256 now p created_by)

-- `CreateRollout`. The checks of the percentage and of the interval always pass.
unfoldable pub create_rollout : (String → ℕ) → ℕ → ℕ → Product → ℕ → Exec World Created
unfolding query eligible_devices cancel_active_rollouts_for_product create_in_transaction
create_rollout sha256 now later p created_by =
    if is_incomplete p
    then fail (errorf "product firmware is incomplete")
    else if ltb (effective_rollout_percentage p) 1 || ltb 100 (effective_rollout_percentage p)
    then fail (errorf "batch_percentage must be between 1 and 100")
    else if ltb (effective_rollout_interval_minutes p) 1
    then fail (errorf "batch_interval_minutes must be at least 1")
    else load_product_devices p.id
      >>= eligible_devices p.firmware_version
      >>= unless_empty
      >> wrapped (wrap "cancel active rollouts") (cancel_active_rollouts_for_product now later p.id)
      >> create_in_transaction sha256 later p created_by
