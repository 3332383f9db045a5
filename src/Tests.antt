-- ===== src/Tests.antt =====
-- Runs of the queue of internal/homejobs and of internal/deletion at concrete tables.
use minnal_labs.Base.{
  ℕ, ◌≡◌, refl, true, false, none, some, List, [], ◌∷◌, inl, ◌⊎◌, ◌≤◌, ◌*◌, arith, Bool,
}
use minnal_labs.Base.Rows.{All, Any, length, delete_where}
use minnal_labs.Base.Exec.{◌>>=◌, modify, gets}
use minnal_labs.Models.{
  User, Home, Device, HomeMqttJob, job_pending, operation_cleanup, state_ready,
}
use minnal_labs.World.{World, Cache, transaction, call, execute}
use minnal_labs.HomeJobs.Queue.{default_config, retry_delay, upsert_job, job_batch_size}
use minnal_labs.HomeJobs.Claim.{candidates, claim_jobs, is_listed, runs_before}
use minnal_labs.HomeJobs.Worker.{finish_cleanup}
use minnal_labs.HomeJobs.Fair.{candidates-fair}
use minnal_labs.HomeJobs.Exclusive.{claim_jobs-exclusive}
use minnal_labs.Base.Int.{pos}
use minnal_labs.HomeJobs.Delay.{retry_delay-bounds}
use minnal_labs.HomeJobs.Restart.{Restarted, upsert_job-restarts}
use minnal_labs.HomeJobs.Finish.{Cleaned, finish_cleanup-Cleaned}
use minnal_labs.Deletion.{schedule_home_deletion, schedule_user_deletion}
use minnal_labs.Deletion.Intent.{Intends}
use minnal_labs.Deletion.Steps.{System, claims, moves, stays, after_claim}
use minnal_labs.Deletion.Lasting.{IsSoundSystem, home_deletion-lasts, user_deletion-lasts}

abbrev ann : User
ann = record { id = 3; deleted_at = none; username = "ann"; password = ""; google_sub = "" }

abbrev flat : Home
flat = record {
  id = 7;
  updated_at = 0;
  deleted_at = none;
  user_id = 3;
  name = "flat";
  wifi_ssid = "";
  wifi_password = "";
  mqtt_username = "h7";
  mqtt_password = "secret";
  mqtt_provision_state = state_ready;
  mqtt_provision_error = "";
  mqtt_provisioned_at = none;
}

abbrev lamp : Device
lamp = record {
  id = 11;
  deleted_at = none;
  user_id = 3;
  home_id = 7;
  product_id = 2;
  name = "lamp";
  firmware_version = "1.0";
  device_public_key = "";
  created_at = 0;
}

abbrev queued : HomeMqttJob
queued = record {
  id = 1;
  home_id = 7;
  operation = operation_cleanup;
  status = job_pending;
  attempts = 0;
  next_run_at = 5;
  claimed_at = none;
  last_error = "";
  created_at = 4;
  updated_at = 4;
}

abbrev empty_cache : Cache
empty_cache = record {
  oauth = λ _ _. none;
  sessions = λ _. none;
  user_sessions = λ _. [];
  google_csrf = λ _. none;
  device_meta = λ _. none;
  device_presence = λ _. none;
  device_state = λ _ _. none;
  device_ids = [];
  user_device_ids = λ _. [];
  product_caps = λ _. [];
}

abbrev start : List HomeMqttJob → World
start jobs = record {
  tables = record {
    users = ann ∷ [];
    admin_users = [];
    homes = flat ∷ [];
    devices = lamp ∷ [];
    jobs = jobs;
    products = [];
    rollouts = [];
    rollout_devices = [];
    tokens = [];
    capabilities = [];
    product_capabilities = [];
    oauth_clients = [];
  };
  next_user = 9;
  next_home = 8;
  next_device = 90;
  next_job = 2;
  next_rollout = 1;
  next_token = 1;
  cache = empty_cache;
  actions = [];
  faults = [];
  replies = [];
}

abbrev unlocked : ℕ → Bool
unlocked _ = false

abbrev idle : System
idle = record { world = start []; known = [] }

idle-IsSound : IsSoundSystem idle
idle-IsSound = record { fresh = tt; known_fresh = tt; copies = tt; unique = tt }

abbrev home_deleted : World
home_deleted = (transaction (schedule_home_deletion default_config 100 101 7) (start [])).1

-- the cleanup job is claimed when it is due
home_deletion-lasts_example :
    Intends 7
      (after_claim unlocked 3000000000 (record { world = home_deleted; known = [] })).world.tables
unfolding schedule_home_deletion transaction execute call upsert_job ◌>>=◌ modify delete_where
home_deletion-lasts_example =
    home_deletion-lasts default_config 100 101 idle idle-IsSound 7 home_deleted _ refl
      (moves _ _ _ (claims unlocked 3000000000 _) (stays _))

abbrev user_deleted : World
user_deleted = (schedule_user_deletion default_config 100 101 3 (start [])).1

user_deletion-lasts_example :
    Intends 7
      (after_claim unlocked 3000000000 (record { world = user_deleted; known = [] })).world.tables
unfolding schedule_user_deletion transaction execute call upsert_job ◌>>=◌ gets modify
user_deletion-lasts_example =
    user_deletion-lasts default_config 100 101 idle idle-IsSound 3
      (record { user_id = 3; home_ids = 7 ∷ [] }) user_deleted _ flat refl (inl refl) refl
      (moves _ _ _ (claims unlocked 3000000000 _) (stays _))

retry_delay-bounds_example :
    (x : ℕ) × (y : ℕ) × (retry_delay default_config 2 ≡ pos x)
    × (retry_delay default_config 9 ≡ pos y)
    × (5000000000 ≤ x)
    × (x ≤ y)
    × (y ≤ 6 * 5000000000)
retry_delay-bounds_example =
    retry_delay-bounds default_config 2 9 (omega arith) (omega arith) (omega arith)

candidates-fair_example :
    Any (λ x. x ≡ queued) (candidates unlocked 9 (queued ∷ []))
    ⊎ ((length (candidates unlocked 9 (queued ∷ [])) ≡ job_batch_size)
        × All (λ k. runs_before k queued ≡ true) (candidates unlocked 9 (queued ∷ [])))
candidates-fair_example = candidates-fair unlocked 9 (queued ∷ []) queued (inl refl) refl refl

abbrev taken : List HomeMqttJob
taken = record queued { status = "running"; claimed_at = some 9; attempts = 1; updated_at = 9 } ∷ []

claim_jobs-exclusive_example : All (λ j. is_listed taken j ≡ false) []
unfolding claim_jobs call ◌>>=◌
claim_jobs-exclusive_example =
    claim_jobs-exclusive unlocked unlocked 9 10 (start (queued ∷ [])) taken [] refl refl

upsert_job-restarts_example :
    Restarted 7 operation_cleanup 1000000009 taken
      (upsert_job default_config 9 7 operation_cleanup (start taken)).1.tables.jobs
unfolding upsert_job call ◌>>=◌
upsert_job-restarts_example =
    upsert_job-restarts default_config 9 7 operation_cleanup (start taken) refl

finish_cleanup-Cleaned_example :
    Cleaned 1 7 (11 ∷ []) (finish_cleanup 9 queued flat (11 ∷ []) (start (queued ∷ []))).1.tables
unfolding finish_cleanup transaction execute call ◌>>=◌ modify
finish_cleanup-Cleaned_example =
    finish_cleanup-Cleaned 9 queued flat (11 ∷ []) (start (queued ∷ [])) refl
