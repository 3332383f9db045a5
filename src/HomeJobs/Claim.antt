-- ===== src/HomeJobs/Claim.antt =====
-- internal/homejobs/homejobs.go: how the worker takes jobs from the queue, and back from a worker
-- that was lost.
use minnal_labs.Base.{
  ℕ, ◌+◌, Bool, false, not, ◌&&◌, ◌||◌, Option, none, some, List, [], ◌∷◌, ltb, leb, ◌==◌, str_eq,
  if◌then◌else◌,
}
use minnal_labs.Base.Rows.{take, select_where, update_where, any}
use minnal_labs.Base.Exec.{ok, Exec, ◌>>◌}
use minnal_labs.Models.{HomeMqttJob, job_pending, job_running}
use minnal_labs.World.{World, call, execute}
use minnal_labs.HomeJobs.Queue.{job_batch_size, stale_claim_after}

abbrev claimed_before : ℕ → Option ℕ → Bool
claimed_before now none = false
claimed_before now (some t) = ltb (t + stale_claim_after) now

abbrev pub is_stale : ℕ → HomeMqttJob → Bool
is_stale now j = str_eq j.status job_running && claimed_before now j.claimed_at

abbrev pub requeued : ℕ → HomeMqttJob → HomeMqttJob
requeued now j = record j {
  status = job_pending;
  claimed_at = none;
  next_run_at = now;
  updated_at = now;
}

-- `requeueStaleClaims`
unfoldable pub requeue_stale_claims : ℕ → Exec World Unit
unfolding execute
requeue_stale_claims now =
    execute (λ t. record t { jobs = update_where (is_stale now) (requeued now) t.jobs })

-- ORDER BY next_run_at ASC, id ASC
unfoldable pub runs_before : HomeMqttJob → HomeMqttJob → Bool
runs_before a b =
    ltb a.next_run_at b.next_run_at || ((a.next_run_at == b.next_run_at) && leb a.id b.id)

unfoldable pub insert_in_order : HomeMqttJob → List HomeMqttJob → List HomeMqttJob
insert_in_order j [] = j ∷ []
insert_in_order j (k ∷ ks) =
    let rest = insert_in_order j ks in if runs_before j k then j ∷ k ∷ ks else k ∷ rest

unfoldable pub in_order : List HomeMqttJob → List HomeMqttJob
unfolding insert_in_order runs_before
in_order [] = []
in_order (j ∷ js) = insert_in_order j (in_order js)

abbrev pub is_due : ℕ → HomeMqttJob → Bool
is_due now j = str_eq j.status job_pending && leb j.next_run_at now

-- the rows of `candidate_jobs`: FOR UPDATE SKIP LOCKED passes over a locked row
unfoldable pub candidates : (ℕ → Bool) → ℕ → List HomeMqttJob → List HomeMqttJob
unfolding select_where in_order
candidates locked now jobs =
    take job_batch_size (in_order (select_where (λ j. is_due now j && not (locked j.id)) jobs))

abbrev pub is_listed : List HomeMqttJob → HomeMqttJob → Bool
is_listed cs j = any (λ c. j.id == c.id) cs

abbrev pub claimed : ℕ → HomeMqttJob → HomeMqttJob
claimed now j = record j {
  status = job_running;
  claimed_at = some now;
  attempts = j.attempts + 1;
  updated_at = now;
}

-- UPDATE … FROM candidate_jobs … RETURNING, the rows in the table's order
unfoldable pub claim_rows : (ℕ → Bool) → ℕ → Exec World (List HomeMqttJob)
unfolding candidates update_where select_where
claim_rows locked now w =
    let jobs =
      update_where (is_listed (candidates locked now w.tables.jobs)) (claimed now) w.tables.jobs in
    (
      ok (select_where (is_listed (candidates locked now w.tables.jobs)) jobs),
      record w { tables = record w.tables { jobs = jobs } },
    )

-- `claimJobs`
unfoldable pub claim_jobs : (ℕ → Bool) → ℕ → Exec World (List HomeMqttJob)
unfolding claim_rows call
claim_jobs locked now = call >> claim_rows locked now
