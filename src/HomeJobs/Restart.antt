-- ===== src/HomeJobs/Restart.antt =====
-- internal/homejobs/homejobs.go, `upsertJob`: what the queue holds after a job is put into it.
use minnal_labs.Base.{
  ◌≢◌, true≢false, ℕ, ◌+◌, ◌≡◌, refl, ◌∙◌, String, Bool, true, false, not, inl, inr, none, List, [],
  ◌∷◌, ◌++◌, arith, ==_refl, eq_iff, Bool-cases,
}
use minnal_labs.Base.Rows.{All, All-append, any, update_where, select_where}
use minnal_labs.Base.Exec.{Error, ok, err, Outcome, ◌>>=◌, continue}
use minnal_labs.Models.{HomeMqttJob, job_pending}
use minnal_labs.World.{World, call, errorf}
use minnal_labs.HomeJobs.Queue.{
  Config, has_key, restarted, new_job, upsert_row, upsert_job, home_exists,
}

abbrev pub IsFresh : ℕ → HomeMqttJob → Type 0
IsFresh run_at j =
    (j.status ≡ job_pending) × (j.attempts ≡ 0) × (j.next_run_at ≡ run_at) × (j.claimed_at ≡ none)

abbrev pub other_rows : ℕ → String → List HomeMqttJob → List HomeMqttJob
other_rows id operation = select_where (λ j. not (has_key id operation j))

-- the jobs after a job was put into the queue, against those before
pub record Restarted (id : ℕ) (operation : String) (run_at : ℕ) (before after : List HomeMqttJob)
    : Type 0 where
  pub present : any (has_key id operation) after ≡ true
  pub fresh : All (λ j. has_key id operation j ≡ true → IsFresh run_at j) after
  pub others : other_rows id operation after ≡ other_rows id operation before

module _ (id : ℕ) (operation : String) (run_at now : ℕ) where
  update-present :
      (js : List HomeMqttJob)
      → any (has_key id operation) (update_where (has_key id operation) (restarted run_at now) js)
        ≡ any (has_key id operation) js
  unfolding update_where
  update-present [] = refl
  update-present (j ∷ js) = elim (Bool-cases (has_key id operation j)) [
    | inl e ↦ rw e (rw e refl)
    | inr e ↦ rw e (rw (e, update-present js) refl)
  ]

  update-IsFresh :
      (js : List HomeMqttJob)
      → All
          (λ j. has_key id operation j ≡ true → IsFresh run_at j)
          (update_where (has_key id operation) (restarted run_at now) js)
  unfolding update_where
  update-IsFresh [] = tt
  update-IsFresh (j ∷ js) = elim (Bool-cases (has_key id operation j)) [
    | inl e ↦ rw e ((λ _. (refl, refl, refl, refl)), update-IsFresh js)
    | inr e ↦ rw e ((λ t. absurd (true≢false t e)), update-IsFresh js)
  ]

  update-others :
      (js : List HomeMqttJob)
      → other_rows id operation (update_where (has_key id operation) (restarted run_at now) js)
        ≡ other_rows id operation js
  unfolding update_where select_where
  update-others [] = refl
  update-others (j ∷ js) = elim (Bool-cases (has_key id operation j)) [
    | inl e ↦ rw e (rw (e, update-others js) refl)
    | inr e ↦ rw e (rw (e, update-others js) refl)
  ]

  absent-IsFresh :
      (js : List HomeMqttJob)
      → any (has_key id operation) js ≡ false
      → All (λ j. has_key id operation j ≡ true → IsFresh run_at j) js
  absent-IsFresh [] e = tt
  absent-IsFresh (j ∷ js) e =
      ((λ t. absurd (ground (arith, t, e))), absent-IsFresh js (ground (arith, e)))

  module _ (k : HomeMqttJob) (key : has_key id operation k ≡ true) where
    append-present : (js : List HomeMqttJob) → any (has_key id operation) (js ++ k ∷ []) ≡ true
    append-present [] = rw key refl
    append-present (j ∷ js) = elim (Bool-cases (has_key id operation j)) [
      | inl e ↦ rw e refl
      | inr e ↦ rw (e, append-present js) refl
    ]

    append-others :
        (js : List HomeMqttJob)
        → other_rows id operation (js ++ k ∷ []) ≡ other_rows id operation js
    unfolding select_where
    append-others [] = rw key refl
    append-others (j ∷ js) = rw (append-others js) refl

new_job-has_key :
    (n id : ℕ) (operation : String) (run_at now : ℕ)
    → has_key id operation (new_job n id operation run_at now) ≡ true
new_job-has_key n id operation run_at now = ground (arith, ==_refl id, eq_iff operation operation)

err-ne-ok : (e : Error) (a : Unit) → err e ≢ ok a
err-ne-ok e a x = cc

module _ (c : Config) (now id : ℕ) (operation : String) where
  choose-Restarted :
      (w : World) (b e : Bool) (a : Unit)
      → any (has_key id operation) w.tables.jobs ≡ b
      → home_exists id w.tables ≡ e
      → (upsert_row c now id operation w).0 ≡ ok a
      → Restarted id operation
          (now + c.initial_delay)
          w.tables.jobs
          (upsert_row c now id operation w).1.tables.jobs
  unfolding upsert_row
  choose-Restarted w true e a p q r = rw p (record {
    present = update-present id operation (now + c.initial_delay) now w.tables.jobs ∙ p;
    fresh = update-IsFresh id operation (now + c.initial_delay) now w.tables.jobs;
    others = update-others id operation (now + c.initial_delay) now w.tables.jobs;
  })
  choose-Restarted w false true a p q r =
      let k = new_job w.next_job id operation (now + c.initial_delay) now in
      let key = new_job-has_key w.next_job id operation (now + c.initial_delay) now in
      rw (p, q)
        (record {
          present = append-present id operation (now + c.initial_delay) now k key w.tables.jobs;
          fresh =
              All-append _ w.tables.jobs (k ∷ [])
                (absent-IsFresh id operation (now + c.initial_delay) now w.tables.jobs p)
                ((λ _. (refl, refl, refl, refl)), tt);
          others = append-others id operation (now + c.initial_delay) now k key w.tables.jobs;
        })
  choose-Restarted w false false a p q r =
      absurd (err-ne-ok (errorf "violates foreign key constraint") a (rw (p, q) at r))

  continue-Restarted :
      (r : Outcome Unit) (w : World)
      → (continue r (λ _. upsert_row c now id operation) w).0 ≡ ok tt
      → Restarted id operation
          (now + c.initial_delay)
          w.tables.jobs
          (continue r (λ _. upsert_row c now id operation) w).1.tables.jobs
  continue-Restarted (ok _) w e = choose-Restarted w _ _ tt refl refl e
  continue-Restarted (err x) w e = cc

  -- When `upsertJob` returns no error, the queue holds a job for the home and the operation; each such
  -- job is pending, unclaimed, with no attempts and due after the initial delay, even if an earlier one
  -- had failed or was running; and the other jobs, in their order, are those from before.
  pub upsert_job-restarts :
      (w : World)
      → (upsert_job c now id operation w).0 ≡ ok tt
      → Restarted id operation
          (now + c.initial_delay)
          w.tables.jobs
          (upsert_job c now id operation w).1.tables.jobs
  unfolding upsert_job ◌>>=◌
  upsert_job-restarts w e = let (r, v) = call w in continue-Restarted r v e
