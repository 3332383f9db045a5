-- ===== src/Ota/Dispatch.antt =====
-- internal/ota/rollout.go: the worker that sends the next batch of each rollout that is due. One
-- reading of the clock serves one pass, and `later` is read when a pass has failed.
use minnal_labs.Base.{
  ℕ, ◌+◌, ◌*◌, String, Bool, false, not, ◌&&◌, ◌||◌, Option, none, some, List, [], ◌∷◌, leb, ltb,
  ◌==◌, str_eq, if◌then◌else◌,
}
use minnal_labs.Base.Rows.{length, select_where, update_where, first_where}
use minnal_labs.Base.Exec.{Exec, pure, fail, wrapped, ignored, or_else, ◌>>=◌, ◌>>◌}
use minnal_labs.Models.{Device, FirmwareRollout, FirmwareRolloutDevice}
use minnal_labs.World.{World, Tables, execute, query, query_first, wrap, errorf}
use minnal_labs.State.{get_device_presence}
use minnal_labs.Mqtt.{publish_retained_device_firmware_update}
use minnal_labs.Ota.Batches.{
  status_running, status_completed, status_failed, device_pending, device_sent, device_updated,
  current_product_firmware_url, current_product_md5_url, version_of,
}
use minnal_labs.Ota.Rollout.{on_rollouts, on_rollout_devices, is_active, is_row, join_devices}

-- `rollout_id = ? AND state = ?`
abbrev pub has_state : ℕ → String → FirmwareRolloutDevice → Bool
has_state rollout_id state r = (r.rollout_id == rollout_id) && str_eq r.state state

-- `Count`, whose error is dropped: the count is 0 then
unfoldable pub count_rows : ℕ → String → Exec World ℕ
unfolding query select_where
count_rows rollout_id state =
    or_else (query (λ t. length (select_where (has_state rollout_id state) t.rollout_devices)))
      (λ e. pure 0) pure

abbrev pub refreshed : ℕ → ℕ → ℕ → FirmwareRollout → FirmwareRollout
refreshed now pending sent r = record r {
  status = if (pending == 0) && (sent == 0) then status_completed else status_running;
  next_batch_at = none;
  updated_at = now;
}

-- `refreshRolloutCompletion`
unfoldable pub refresh_rollout_completion : ℕ → ℕ → Exec World Unit
unfolding count_rows execute update_where
refresh_rollout_completion now id = do
  pending ← count_rows id device_pending
  sent ← count_rows id device_sent
  execute (on_rollouts (update_where (λ r. r.id == id) (refreshed now pending sent)))

-- ORDER BY batch_number ASC, device_id ASC
abbrev pub comes_before : FirmwareRolloutDevice → FirmwareRolloutDevice → Bool
comes_before a b =
    ltb a.batch_number b.batch_number
    || ((a.batch_number == b.batch_number) && leb a.device_id b.device_id)

abbrev pub earlier : FirmwareRolloutDevice → Option FirmwareRolloutDevice → FirmwareRolloutDevice
earlier r none = r
earlier r (some s) = if comes_before r s then r else s

-- the first row in that order
unfoldable pub earliest : List FirmwareRolloutDevice → Option FirmwareRolloutDevice
earliest [] = none
earliest (r ∷ rs) = some (earlier r (earliest rs))

-- ORDER BY device_id ASC
unfoldable pub insert_target :
    FirmwareRolloutDevice × Device
    → List (FirmwareRolloutDevice × Device)
    → List (FirmwareRolloutDevice × Device)
insert_target x [] = x ∷ []
insert_target x (y ∷ ys) =
    let rest = insert_target x ys in
    if leb x.0.device_id y.0.device_id then x ∷ y ∷ ys else y ∷ rest

unfoldable pub by_device :
    List (FirmwareRolloutDevice × Device) → List (FirmwareRolloutDevice × Device)
unfolding insert_target
by_device [] = []
by_device (x ∷ xs) = insert_target x (by_device xs)

-- the rows of a batch that are still pending
unfoldable pub batch_targets : ℕ → ℕ → Tables → List (FirmwareRolloutDevice × Device)
unfolding by_device join_devices select_where
batch_targets rollout_id batch_number t = by_device (
    join_devices
      (select_where (λ r. has_state rollout_id device_pending r && (r.batch_number == batch_number))
        t.rollout_devices)
      t.devices)

abbrev pub row_updated : ℕ → String → FirmwareRolloutDevice → FirmwareRolloutDevice
row_updated now version r = record r {
  state = device_updated;
  updated_at = some now;
  last_reported_version = version;
}

-- GORM writes `updated_at` with each update that does not name it
abbrev pub row_sent : ℕ → FirmwareRolloutDevice → FirmwareRolloutDevice
row_sent now r = record r { state = device_sent; sent_at = some now; updated_at = some now }

-- one device of a batch: it has the firmware already, or it is sent the command
unfoldable pub send_target :
    ℕ → FirmwareRollout → String → String → FirmwareRolloutDevice × Device → Exec World Unit
unfolding get_device_presence publish_retained_device_firmware_update execute update_where
send_target now rollout url md5_url (row, d) = get_device_presence d.id >>= λ presence.
    let current = version_of d.firmware_version presence in
    if not (str_eq current "") && str_eq current rollout.target_version
    then execute
        (on_rollout_devices (update_where (is_row rollout.id d.id) (row_updated now current)))
    else publish_retained_device_firmware_update d rollout.target_version url md5_url rollout.id
        row.batch_number
      >> execute (on_rollout_devices (update_where (is_row rollout.id d.id) (row_sent now)))

-- the loop over `targets`, which the first error ends
unfoldable pub send_targets :
    ℕ → FirmwareRollout → String → String → List (FirmwareRolloutDevice × Device) → Exec World Unit
unfolding send_target
send_targets now rollout url md5_url [] = pure tt
send_targets now rollout url md5_url (x ∷ xs) =
    send_target now rollout url md5_url x >> send_targets now rollout url md5_url xs

abbrev pub minute : ℕ
minute = 60000000000

abbrev pub after_batch : ℕ → FirmwareRollout → ℕ → ℕ → FirmwareRollout → FirmwareRollout
after_batch now rollout pending sent r =
    if ltb 0 pending
    then record r {
      status = status_running;
      next_batch_at = some (now + rollout.batch_interval_minutes * minute);
      updated_at = now;
    }
    else record r {
      status = if sent == 0 then status_completed else status_running;
      next_batch_at = none;
      updated_at = now;
    }

-- the end of `dispatchNextBatch`
unfoldable pub finish_batch : ℕ → FirmwareRollout → Exec World Unit
unfolding count_rows execute update_where
finish_batch now rollout = do
  pending ← count_rows rollout.id device_pending
  sent ← count_rows rollout.id device_sent
  execute
      (on_rollouts (update_where (λ r. r.id == rollout.id) (after_batch now rollout pending sent)))

-- `dispatchNextBatch` from where the next pending row is known
unfoldable pub send_batch : ℕ → FirmwareRollout → FirmwareRolloutDevice → Exec World Unit
unfolding query query_first batch_targets first_where send_targets finish_batch
send_batch now rollout next = query (batch_targets rollout.id next.batch_number) >>= λ targets.
    wrapped (wrap "load rollout product")
      (query_first (λ t. first_where (λ p. p.id == rollout.product_id) t.products))
    >>= λ p.
        if str_eq (current_product_firmware_url p) "" || str_eq (current_product_md5_url p) ""
        then fail (errorf "product firmware is incomplete")
        else send_targets now rollout (current_product_firmware_url p) (current_product_md5_url p)
            targets
          >> finish_batch now rollout

-- `dispatchNextBatch`: any error of the first query counts as no pending row
unfoldable pub dispatch_next_batch : ℕ → FirmwareRollout → Exec World Unit
unfolding query_first earliest select_where refresh_rollout_completion send_batch
dispatch_next_batch now rollout =
    or_else
      (query_first
        (λ t. earliest (select_where (has_state rollout.id device_pending) t.rollout_devices)))
      (λ e. refresh_rollout_completion now rollout.id) (send_batch now rollout)

abbrev due_by : ℕ → Option ℕ → Bool
due_by now none = false
due_by now (some t) = leb t now

-- the clause of `processDueRollouts`
abbrev pub is_due_rollout : ℕ → FirmwareRollout → Bool
is_due_rollout now r = is_active r && due_by now r.next_batch_at

abbrev at_or_zero : Option ℕ → ℕ
at_or_zero none = 0
at_or_zero (some t) = t

-- ORDER BY next_batch_at ASC, id ASC
insert_due : FirmwareRollout → List FirmwareRollout → List FirmwareRollout
insert_due r [] = r ∷ []
insert_due r (s ∷ ss) =
    let rest = insert_due r ss in
    let a = at_or_zero r.next_batch_at in
    let b = at_or_zero s.next_batch_at in
    if ltb a b || ((a == b) && leb r.id s.id) then r ∷ s ∷ ss else s ∷ rest

unfoldable pub in_due_order : List FirmwareRollout → List FirmwareRollout
unfolding insert_due
in_due_order [] = []
in_due_order (r ∷ rs) = insert_due r (in_due_order rs)

abbrev pub rollout_failed : ℕ → FirmwareRollout → FirmwareRollout
rollout_failed now r = record r { status = status_failed; updated_at = now }

unfoldable pub dispatch_rollouts : ℕ → ℕ → List FirmwareRollout → Exec World Unit
unfolding dispatch_next_batch execute update_where
dispatch_rollouts now later [] = pure tt
dispatch_rollouts now later (r ∷ rs) =
    or_else (dispatch_next_batch now r)
      (λ e.
        ignored (execute (on_rollouts (update_where (λ x. x.id == r.id) (rollout_failed later)))))
      (λ _. pure tt)
    >> dispatch_rollouts now later rs

-- `processDueRollouts`
unfoldable pub process_due_rollouts : ℕ → ℕ → Exec World Unit
unfolding query in_due_order select_where dispatch_rollouts
process_due_rollouts now later =
    or_else (query (λ t. in_due_order (select_where (is_due_rollout now) t.rollouts)))
      (λ e. pure tt) (dispatch_rollouts now later)
