-- ===== src/HomeJobs/Queue.antt =====
-- internal/homejobs/homejobs.go: the scheduling constants, and how a job is put into the queue.
use minnal_labs.Base.{
  ℕ, suc, ◌+◌, ◌-◌, ◌*◌, String, Bool, ◌&&◌, none, List, [], ◌∷◌, ◌++◌, ltb, ◌==◌, str_eq,
  if◌then◌else◌,
}
use minnal_labs.Base.Int.{ℤ, pos, negsuc, times}
use minnal_labs.Base.Rows.{update_where, delete_where, any}
use minnal_labs.Base.Exec.{ok, err, Exec, wrapped, ◌>>◌}
use minnal_labs.Models.{HomeMqttJob, operation_provision, operation_cleanup, job_pending}
use minnal_labs.World.{World, Tables, call, execute, wrap, errorf}

-- the package's variables, in nanoseconds
pub record Config : Type 0 where
  pub initial_delay : ℕ
  pub retry_base_delay : ℕ
  pub retry_max_multiplier : ℕ

abbrev pub second : ℕ
second = 1000000000

abbrev pub default_config : Config
default_config = record {
  initial_delay = second;
  retry_base_delay = 5 * second;
  retry_max_multiplier = 6;
}

-- a setting of the environment counts if it is positive
abbrev override : ℕ → ℕ → ℕ
override value default_ = if ltb 0 value then value else default_

-- `InitHomeJobs`, with 0 for a setting that is not positive
unfoldable pub init_home_jobs : Config → Config → Config
init_home_jobs cfg c = record {
  initial_delay = override cfg.initial_delay c.initial_delay;
  retry_base_delay = override cfg.retry_base_delay c.retry_base_delay;
  retry_max_multiplier = override cfg.retry_max_multiplier c.retry_max_multiplier;
}

abbrev pub job_batch_size : ℕ
job_batch_size = 128

abbrev pub stale_claim_after : ℕ
stale_claim_after = 120 * second

abbrev pub max_provision_attempts : ℕ
max_provision_attempts = 6

-- `retryDelay`, in the 64 bits of a duration: the product wraps around
unfoldable pub retry_delay : Config → ℕ → ℤ
unfolding times
retry_delay c attempts =
    let at_least = if ltb attempts 1 then 1 else attempts in
    let at_most =
      if ltb c.retry_max_multiplier at_least then c.retry_max_multiplier else at_least in
    times at_most c.retry_base_delay

-- `now.Add(delay)`
abbrev pub after : ℕ → ℤ → ℕ
after now (pos n) = now + n
after now (negsuc n) = now - suc n

-- the columns of the unique index `idx_home_mqtt_jobs_home_operation`
abbrev pub has_key : ℕ → String → HomeMqttJob → Bool
has_key home_id operation j = (j.home_id == home_id) && str_eq j.operation operation

-- the assignments of `ON CONFLICT … DO UPDATE`
abbrev pub restarted : ℕ → ℕ → HomeMqttJob → HomeMqttJob
restarted next_run_at now j = record j {
  status = job_pending;
  attempts = 0;
  next_run_at = next_run_at;
  claimed_at = none;
  last_error = "";
  updated_at = now;
}

abbrev pub new_job : ℕ → ℕ → String → ℕ → ℕ → HomeMqttJob
new_job id home_id operation next_run_at now = record {
  id = id;
  home_id = home_id;
  operation = operation;
  status = job_pending;
  attempts = 0;
  next_run_at = next_run_at;
  claimed_at = none;
  last_error = "";
  created_at = now;
  updated_at = now;
}

abbrev pub home_exists : ℕ → Tables → Bool
home_exists home_id t = any (λ h. h.id == home_id) t.homes

-- INSERT … ON CONFLICT (home_id, operation) DO UPDATE, with the foreign key on `homes`. The
-- sequence of the primary key is read on both ways.
unfoldable pub upsert_row : Config → ℕ → ℕ → String → Exec World Unit
upsert_row c now home_id operation w =
    let run_at = now + c.initial_delay in
    let jobs = w.tables.jobs in
    let updated = update_where (has_key home_id operation) (restarted run_at now) jobs in
    let inserted = jobs ++ new_job w.next_job home_id operation run_at now ∷ [] in
    let set_jobs = λ (js : List HomeMqttJob). record w {
      tables = record w.tables { jobs = js };
      next_job = suc w.next_job;
    } in
    if any (has_key home_id operation) jobs
    then (ok tt, set_jobs updated)
    else if home_exists home_id w.tables
    then (ok tt, set_jobs inserted)
    else (err (errorf "violates foreign key constraint"), set_jobs jobs)

-- `upsertJob`
unfoldable pub upsert_job : Config → ℕ → ℕ → String → Exec World Unit
unfolding upsert_row call
upsert_job c now home_id operation = call >> upsert_row c now home_id operation

-- `EnqueueProvision`
unfoldable pub enqueue_provision : Config → ℕ → ℕ → Exec World Unit
unfolding upsert_job
enqueue_provision c now home_id = upsert_job c now home_id operation_provision

-- `ReplaceWithCleanupJob`
unfoldable pub replace_with_cleanup_job : Config → ℕ → ℕ → Exec World Unit
unfolding upsert_job execute
replace_with_cleanup_job c now home_id =
    wrapped (wrap "clear existing home mqtt jobs")
      (execute (λ t. record t { jobs = delete_where (λ j. j.home_id == home_id) t.jobs }))
    >> upsert_job c now home_id operation_cleanup
