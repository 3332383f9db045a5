-- ===== src/Ota/Reports.antt =====
-- internal/ota/rollout.go: what the reports of a device do to its rollouts.
use mathlib.Core.List.{flat_map}
use minnal_labs.Base.{
  ◌≡◌, refl, ℕ, String, Bool, true, false, not, ◌&&◌, ◌||◌, Option, none, some, List, [], ◌∷◌, ◌++◌,
  map, leb, ltb, ◌==◌, str_eq, is_some, if◌then◌else◌,
}
use minnal_labs.Base.Rows.{select_where, update_where, first_where}
use minnal_labs.Base.Text.{trim_space, to_lower, has_prefix, drop}
use minnal_labs.Base.Exec.{Exec, pure, ignored, or_else, ◌>>=◌, ◌>>◌}
use minnal_labs.Models.{Product, Device, FirmwareRollout, FirmwareRolloutDevice}
use minnal_labs.World.{World, execute, query, query_first}
use minnal_labs.Mqtt.{clear_retained_device_firmware_update}
use minnal_labs.Ota.Batches.{device_pending, device_updated}
use minnal_labs.Ota.Rollout.{on_rollout_devices, is_active, is_open, is_row}
use minnal_labs.Ota.Dispatch.{refresh_rollout_completion, row_sent}

-- the version in a status, if it is long enough and starts with `online_` in any case
unfoldable pub online_version : String → Option String
online_version status =
    let raw = trim_space status in
    if not (has_prefix (to_lower raw) "online_") || str_eq (drop 7 raw) ""
    then none
    else some (trim_space (drop 7 raw))

-- the closure `clearRetained`: the flag says whether the command was cleared before
unfoldable pub clear_retained_once : Bool → Device → Exec World Bool
unfolding clear_retained_device_firmware_update
clear_retained_once cleared d =
    if cleared
    then pure true
    else or_else (clear_retained_device_firmware_update d) (λ e. pure false) (λ _. pure true)

abbrev firmware_of : Option Product → String
firmware_of none = ""
firmware_of (some p) = p.firmware_version

-- `Preload("Product").First`: the device and its product's version
unfoldable pub load_with_product : ℕ → Exec World (Device × String)
unfolding query_first query first_where
load_with_product id =
    query_first (λ t. first_where (λ d. (d.id == id) && not (is_some d.deleted_at)) t.devices)
    >>= λ d. query (λ t. firmware_of (first_where (λ p. p.id == d.product_id) t.products)) >>= λ v.
        pure (d, v)

pub record Match : Type 0 where
  pub rollout_id : ℕ
  pub target_version : String
  pub device : Device

-- the rows of a device that are open in an active rollout, with the rollout and the device
unfoldable pub join_rollouts :
    List FirmwareRolloutDevice → List FirmwareRollout → List Device → List Match
unfolding select_where flat_map
join_rollouts [] rollouts devices = []
join_rollouts (r ∷ rs) rollouts devices =
    flat_map
      (λ x.
        map (λ d. record { rollout_id = x.id; target_version = x.target_version; device = d })
          (select_where (λ d. d.id == r.device_id) devices))
      (select_where (λ x. (x.id == r.rollout_id) && is_active x) rollouts)
    ++ join_rollouts rs rollouts devices

-- GORM writes `updated_at` with each update that does not name it
abbrev pub row_reported : ℕ → String → FirmwareRolloutDevice → FirmwareRolloutDevice
row_reported now version r = record r { last_reported_version = version; updated_at = some now }

abbrev pub row_done : ℕ → String → Bool → FirmwareRolloutDevice → FirmwareRolloutDevice
row_done now version cleared r = record r {
  state = device_updated;
  updated_at = some now;
  last_reported_version = version;
  retained_cleared_at = if cleared then some now else r.retained_cleared_at;
}

-- the end of the loop's body: the device runs the rollout's version
unfoldable pub complete_match : ℕ → ℕ → String → Match → Bool → Exec World Bool
unfolding execute update_where refresh_rollout_completion
complete_match now later version m cleared =
    ignored (
      execute (
        on_rollout_devices
          (update_where (is_row m.rollout_id m.device.id) (row_done now version cleared))))
    >> ignored (refresh_rollout_completion later m.rollout_id)
    >> pure cleared

-- the loop over `matches`; `later` is the clock of the refreshes
unfoldable pub report_matches : ℕ → ℕ → String → List Match → Bool → Exec World Unit
unfolding execute update_where clear_retained_once complete_match
report_matches now later version [] cleared = pure tt
report_matches now later version (m ∷ ms) cleared =
    ignored (
      execute (
        on_rollout_devices
          (update_where (is_row m.rollout_id m.device.id) (row_reported now version))))
    >> (if str_eq version m.target_version
        then clear_retained_once cleared m.device >>= complete_match now later version m
        else pure cleared)
    >>= report_matches now later version ms

-- the first use of `clearRetained`: the device runs its product's version
unfoldable pub clear_if_current : String → Device × String → Exec World Bool
unfolding clear_retained_once
clear_if_current version (d, current) =
    if not (str_eq current "") && str_eq version current
    then clear_retained_once false d
    else pure false

-- `HandleDeviceStatusUpdate` once the version is known
unfoldable pub handle_version : ℕ → ℕ → ℕ → String → Exec World Unit
unfolding load_with_product clear_if_current query select_where join_rollouts report_matches
handle_version now later id version =
    or_else (load_with_product id) (λ e. pure false) (clear_if_current version) >>= λ cleared.
    or_else
      (query (λ t.
        join_rollouts (select_where (λ r. (r.device_id == id) && is_open r) t.rollout_devices)
          t.rollouts t.devices))
      (λ e. pure tt) (λ ms. report_matches now later version ms cleared)

abbrev pub with_version : Option String → (String → Exec World Unit) → Exec World Unit
with_version none f = pure tt
with_version (some version) f = f version

-- `HandleDeviceStatusUpdate`
unfoldable pub handle_device_status_update : ℕ → ℕ → ℕ → String → Exec World Unit
unfolding online_version handle_version
handle_device_status_update now later id status =
    with_version (online_version status) (handle_version now later id)

-- ORDER BY created_at DESC, id DESC LIMIT 1
abbrev pub newer : FirmwareRollout → FirmwareRollout → Bool
newer a b = ltb b.created_at a.created_at || ((a.created_at == b.created_at) && leb b.id a.id)

abbrev newest_of :
    FirmwareRolloutDevice × FirmwareRollout
    → Option (FirmwareRolloutDevice × FirmwareRollout)
    → FirmwareRolloutDevice × FirmwareRollout
newest_of x none = x
newest_of x (some y) = if newer x.1 y.1 then x else y

unfoldable pub newest :
    List (FirmwareRolloutDevice × FirmwareRollout)
    → Option (FirmwareRolloutDevice × FirmwareRollout)
newest [] = none
newest (x ∷ xs) = some (newest_of x (newest xs))

-- the rows of a device in active rollouts
unfoldable pub active_rows :
    List FirmwareRolloutDevice
    → List FirmwareRollout
    → List (FirmwareRolloutDevice × FirmwareRollout)
unfolding select_where
active_rows [] rollouts = []
active_rows (r ∷ rs) rollouts =
    map (λ x. (r, x)) (select_where (λ x. (x.id == r.rollout_id) && is_active x) rollouts)
    ++ active_rows rs rollouts

-- DeviceRolloutInfo
pub record DeviceRolloutInfo : Type 0 where
  pub rollout_id : ℕ
  pub state : String
  pub batch_number : ℕ
  pub target_version : String

abbrev info_of : Option (FirmwareRolloutDevice × FirmwareRollout) → Option DeviceRolloutInfo
info_of none = none
info_of (some (r, x)) =
    if r.rollout_id == 0
    then none
    else some (record {
      rollout_id = r.rollout_id;
      state = r.state;
      batch_number = r.batch_number;
      target_version = x.target_version;
    })

-- `GetDeviceRolloutInfo`: an error of the query is a miss
unfoldable pub get_device_rollout_info : ℕ → Exec World (Option DeviceRolloutInfo)
unfolding query newest active_rows select_where
get_device_rollout_info id =
    or_else
      (query (λ t. info_of (
        newest (
          active_rows
            (select_where (λ r. (r.device_id == id) && (is_open r || str_eq r.state device_updated))
              t.rollout_devices)
            t.rollouts))))
      (λ e. pure none) pure

abbrev mark_row : ℕ → Option (FirmwareRolloutDevice × FirmwareRollout) → Exec World Unit
mark_row now none = pure tt
mark_row now (some (r, x)) =
    if r.rollout_id == 0
    then pure tt
    else ignored (
        execute
          (on_rollout_devices (update_where (is_row r.rollout_id r.device_id) (row_sent now))))

-- `MarkDeviceRolloutSent`
unfoldable pub mark_device_rollout_sent : ℕ → ℕ → Exec World Unit
unfolding query newest active_rows select_where execute update_where
mark_device_rollout_sent now id =
    or_else
      (query (λ t. newest (
        active_rows
          (select_where (λ r. (r.device_id == id) && str_eq r.state device_pending)
            t.rollout_devices)
          t.rollouts)))
      (λ e. pure tt) (mark_row now)

reads_versions :
    (online_version " Online_1.4.0 " ≡ some "1.4.0")
    × (online_version "online_" ≡ none)
    × (online_version "offline" ≡ none)
unfolding online_version trim_space to_lower has_prefix drop
reads_versions = (refl, refl, refl)
