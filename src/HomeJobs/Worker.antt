-- ===== src/HomeJobs/Worker.antt =====
-- internal/homejobs/homejobs.go: how a claimed job is processed. A job is handed over as the row
-- that `claimJobs` returned, a copy that later changes of the table do not touch; `failure` is
-- the text of the error that puts a job back.
use minnal_labs.Base.{
  ℕ, String, Bool, not, ◌&&◌, ◌||◌, none, some, List, [], ◌∷◌, map, leb, ◌==◌, str_eq, is_some,
  if◌then◌else◌,
}
use minnal_labs.Base.Rows.{first_where, select_where, update_where, delete_where, any}
use minnal_labs.Base.Exec.{Error, Exec, pure, wrapped, or_else, ◌>>◌}
use minnal_labs.Base.Text.Decimal.{decimal}
use minnal_labs.Models.{
  Home, Device, HomeMqttJob, mqtt_state, has_mqtt_credentials, operation_provision,
  operation_cleanup, job_pending, job_failed, state_pending, state_ready, state_failed,
  state_deleting,
}
use minnal_labs.World.{World, Tables, execute, query, query_first, transaction, wrap, errorf}
use minnal_labs.State.{remove_devices}
use minnal_labs.Mqtt.{unsubscribe_device, clear_retained_device_firmware_update}
use minnal_labs.Mqtt.Dynsec.{cleanup_home_access, provision_home_access}
use minnal_labs.HomeJobs.Queue.{Config, retry_delay, after, max_provision_attempts}

-- `WHERE id = ?` on the jobs
abbrev pub is_job : ℕ → HomeMqttJob → Bool
is_job id j = j.id == id

-- `WHERE id = ?` on the homes that are not deleted, as GORM scopes a model with `DeletedAt`
abbrev pub is_live_home : ℕ → Home → Bool
is_live_home id h = (h.id == id) && not (is_some h.deleted_at)

abbrev pub on_jobs : (List HomeMqttJob → List HomeMqttJob) → Tables → Tables
on_jobs f t = record t { jobs = f t.jobs }

abbrev pub on_homes : (List Home → List Home) → Tables → Tables
on_homes f t = record t { homes = f t.homes }

abbrev pub on_devices : (List Device → List Device) → Tables → Tables
on_devices f t = record t { devices = f t.devices }

-- `deleteJob`
unfoldable pub delete_job : ℕ → Exec World Unit
unfolding execute delete_where
delete_job id = execute (on_jobs (delete_where (is_job id)))

-- the map `jobUpdates` of `rescheduleProvision`, for the row that was claimed
abbrev pub put_back : Config → ℕ → HomeMqttJob → Error → HomeMqttJob → HomeMqttJob
put_back c now job failure j =
    if leb max_provision_attempts job.attempts
    then record j {
      status = job_failed;
      claimed_at = none;
      last_error = failure.message;
      updated_at = now;
    }
    else record j {
      status = job_pending;
      next_run_at = after now (retry_delay c job.attempts);
      claimed_at = none;
      last_error = failure.message;
      updated_at = now;
    }

abbrev pub state_after_failure : HomeMqttJob → String
state_after_failure job =
    if leb max_provision_attempts job.attempts then state_failed else state_pending

abbrev pub with_state : ℕ → String → String → Home → Home
with_state now state message h = record h {
  mqtt_provision_state = state;
  mqtt_provision_error = message;
  updated_at = now;
}

-- the update of the home in a rescheduling, left out if the home is not known
abbrev pub unless_zero : ℕ → Exec World Unit → Exec World Unit
unless_zero id m = if id == 0 then pure tt else m

-- `rescheduleProvision`
unfoldable pub reschedule_provision : Config → ℕ → HomeMqttJob → ℕ → Error → Exec World Unit
unfolding execute transaction retry_delay update_where
reschedule_provision c now job home_id failure = transaction (
    unless_zero home_id (
      wrapped (wrap "update home mqtt state") (
        execute (
          on_homes (
            update_where (is_live_home home_id)
              (with_state now (state_after_failure job) failure.message)))))
    >> wrapped (wrap "update provision job")
        (execute (on_jobs (update_where (is_job job.id) (put_back c now job failure)))))

abbrev pub retried : Config → ℕ → HomeMqttJob → Error → HomeMqttJob → HomeMqttJob
retried c now job failure j = record j {
  status = job_pending;
  claimed_at = none;
  last_error = failure.message;
  next_run_at = after now (retry_delay c job.attempts);
  updated_at = now;
}

-- `rescheduleCleanup`: `Unscoped`, so the home may be deleted already
unfoldable pub reschedule_cleanup : Config → ℕ → HomeMqttJob → ℕ → Error → Exec World Unit
unfolding execute transaction retry_delay update_where
reschedule_cleanup c now job home_id failure = transaction (
    unless_zero home_id (
      wrapped (wrap "update deleting home state") (
        execute (
          on_homes
            (update_where (λ h. h.id == home_id) (with_state now state_deleting failure.message)))))
    >> wrapped (wrap "update cleanup job")
        (execute (on_jobs (update_where (is_job job.id) (retried c now job failure)))))

abbrev pub marked_failed : ℕ → Error → HomeMqttJob → HomeMqttJob
marked_failed now failure j = record j {
  status = job_failed;
  claimed_at = none;
  last_error = failure.message;
  updated_at = now;
}

-- `markJobFailed`
unfoldable pub mark_job_failed : ℕ → HomeMqttJob → Error → Exec World Unit
unfolding execute update_where
mark_job_failed now job failure =
    execute (on_jobs (update_where (is_job job.id) (marked_failed now failure)))

abbrev pub made_ready : ℕ → Home → Home
made_ready now h = record h {
  mqtt_provision_state = state_ready;
  mqtt_provision_error = "";
  mqtt_provisioned_at = some now;
  updated_at = now;
}

-- the transaction at the end of `processProvisionJob`
unfoldable pub finish_provision : ℕ → HomeMqttJob → Home → Exec World Unit
unfolding execute transaction update_where delete_where
finish_provision now job home = transaction (
    wrapped (wrap "mark home mqtt ready")
      (execute (on_homes (update_where (is_live_home home.id) (made_ready now))))
    >> wrapped (wrap "delete provision job") (execute (on_jobs (delete_where (is_job job.id)))))

-- `processProvisionJob` from where the home is loaded: `home` is what the query returned
unfoldable pub provision_home : Config → ℕ → HomeMqttJob → Home → Exec World Unit
unfolding delete_job reschedule_provision finish_provision cleanup_home_access provision_home_access
provision_home c now job home =
    if is_some home.deleted_at || str_eq (mqtt_state home) state_deleting
    then delete_job job.id
    else if not (has_mqtt_credentials home)
    then reschedule_provision c now job home.id (errorf "home mqtt credentials are missing")
    else or_else (cleanup_home_access home.user_id home.id home.mqtt_username)
        (λ e. reschedule_provision c now job home.id (wrap "clear stale mqtt access" e))
        λ _.
          or_else (provision_home_access home.user_id home.id home.mqtt_username home.mqtt_password)
            (λ e. reschedule_provision c now job home.id (wrap "provision mqtt access" e))
            λ _. finish_provision now job home

-- what both jobs do if the home cannot be loaded
abbrev pub without_home : (Error → Exec World Unit) → HomeMqttJob → Error → Exec World Unit
without_home reschedule job e =
    if e.not_found then delete_job job.id else reschedule (wrap "load home" e)

-- `w.db.Unscoped().First(&home, job.HomeID)`
unfoldable pub load_home : ℕ → Exec World Home
unfolding query_first first_where
load_home id = query_first (λ t. first_where (λ h. h.id == id) t.homes)

-- `processProvisionJob`
unfoldable pub process_provision_job : Config → ℕ → HomeMqttJob → Exec World Unit
unfolding load_home provision_home
process_provision_job c now job =
    or_else (load_home job.home_id) (without_home (reschedule_provision c now job 0) job)
      (provision_home c now job)

abbrev pub deleted_device : ℕ → Device → Device
deleted_device now d = record d { deleted_at = some now }

abbrev pub deleted_home : ℕ → Home → Home
deleted_home now h = record h { deleted_at = some now }

abbrev pub is_listed_device : List ℕ → Device → Bool
is_listed_device ids d = any (λ id. d.id == id) ids && not (is_some d.deleted_at)

abbrev pub stripped : ℕ → Home → Home
stripped now h = record h {
  mqtt_username = "";
  mqtt_password = "";
  mqtt_provision_state = state_deleting;
  mqtt_provision_error = "";
  mqtt_provisioned_at = none;
  updated_at = now;
}

-- the update of the devices, left out if the home has none
unfoldable pub delete_devices : ℕ → List ℕ → Exec World Unit
unfolding execute update_where
delete_devices now [] = pure tt
delete_devices now (id ∷ ids) =
    wrapped (wrap "soft delete devices")
      (execute (on_devices (update_where (is_listed_device (id ∷ ids)) (deleted_device now))))

-- the transaction of `processCleanupJob`
unfoldable pub finish_cleanup : ℕ → HomeMqttJob → Home → List ℕ → Exec World Unit
unfolding execute transaction update_where delete_where delete_devices
finish_cleanup now job home device_ids = transaction (
    delete_devices now device_ids
    >> wrapped (wrap "clear home mqtt credentials")
        (execute (on_homes (update_where (λ h. h.id == home.id) (stripped now))))
    >> wrapped (wrap "soft delete home")
        (execute (on_homes (update_where (is_live_home home.id) (deleted_home now))))
    >> wrapped (wrap "delete cleanup job") (execute (on_jobs (delete_where (is_job job.id)))))

-- the loop over the devices: the first retained command that cannot be cleared ends it
unfoldable pub release_devices : List Device → Exec World Unit
unfolding unsubscribe_device clear_retained_device_firmware_update
release_devices [] = pure tt
release_devices (d ∷ ds) =
    unsubscribe_device d
    >> wrapped (wrap (Prim.Native.String.◌++◌ "clear retained ota for device " (decimal d.id)))
        (clear_retained_device_firmware_update d)
    >> release_devices ds

-- `processCleanupJob` from where the home and its devices are loaded. `now` is read before the
-- transaction, `later` by a rescheduling.
unfoldable pub clean_up_home : Config → ℕ → ℕ → HomeMqttJob → Home → List Device → Exec World Unit
unfolding reschedule_cleanup finish_cleanup release_devices cleanup_home_access remove_devices
clean_up_home c now later job home devices =
    or_else
      (if str_eq home.mqtt_username ""
        then pure tt
        else wrapped (wrap "cleanup mqtt access")
            (cleanup_home_access home.user_id home.id home.mqtt_username))
      (reschedule_cleanup c later job home.id)
      λ _. or_else (release_devices devices) (reschedule_cleanup c later job home.id) λ _.
        or_else (finish_cleanup now job home (map (λ d. d.id) devices))
          (reschedule_cleanup c later job home.id) λ _. remove_devices (map (λ d. d.id) devices)

-- `Unscoped().Where("home_id = ?", home.ID).Order("id ASC")`: the table lists its rows by id
unfoldable pub load_devices : ℕ → Exec World (List Device)
unfolding query select_where
load_devices home_id = query (λ t. select_where (λ d. d.home_id == home_id) t.devices)

-- `processCleanupJob`
unfoldable pub process_cleanup_job : Config → ℕ → ℕ → HomeMqttJob → Exec World Unit
unfolding load_home load_devices clean_up_home
process_cleanup_job c now later job =
    or_else (load_home job.home_id) (without_home (reschedule_cleanup c later job 0) job) λ home.
      or_else (load_devices home.id)
        (λ e. reschedule_cleanup c later job home.id (wrap "load home devices" e))
        (clean_up_home c now later job home)

-- the text with `%q`, for an operation with nothing to escape
abbrev pub unknown_operation : String → String
unknown_operation operation =
    Prim.Native.String.◌++◌ "unknown home mqtt job operation \""
      (Prim.Native.String.◌++◌ operation "\"")

-- `processJob`
unfoldable pub process_job : Config → ℕ → ℕ → HomeMqttJob → Exec World Unit
unfolding process_provision_job process_cleanup_job mark_job_failed
process_job c now later job =
    if str_eq job.operation operation_provision
    then process_provision_job c now job
    else if str_eq job.operation operation_cleanup
    then process_cleanup_job c now later job
    else mark_job_failed now job (errorf (unknown_operation job.operation))
