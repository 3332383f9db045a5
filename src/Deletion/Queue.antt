-- ===== src/Deletion/Queue.antt =====
-- internal/homejobs/homejobs.go, internal/deletion/deletion.go: putting a job into the queue keeps every
-- intent to delete a home, and scheduling a deletion makes one.
use native.Mathlib.Decide.{ℕ_discrete}
use minnal_labs.Base.{
  ℕ, suc, ◌<◌, ◌+◌, ◌≡◌, ◌≢◌, refl, subst, String, Bool, true, inl, inr, List, [], ◌∷◌, ◌++◌, arith,
  eq_iff, ◌==◌, Bool-cases,
}
use minnal_labs.Base.Rows.{
  Any, any, update_where, Any-append_left, Any-append_right, Any-update_where,
}
use minnal_labs.Base.Exec.{Exec}
use minnal_labs.Models.{HomeMqttJob, operation_cleanup}
use minnal_labs.World.{World, Tables}
use minnal_labs.World.Maintains.{Maintains-call}
use minnal_labs.World.Commits.{
  Commits, Commits-Maintains, Commits-execute, Commits-bind, Commits-wrapped,
}
use minnal_labs.HomeJobs.Queue.{
  Config, has_key, restarted, new_job, home_exists, upsert_row, upsert_job,
  replace_with_cleanup_job,
}
use minnal_labs.HomeJobs.Worker.{on_jobs}
use minnal_labs.Deletion.Copies.{
  IsSound, IsSound-later, IsSound-update, IsSound-delete, IsSound-insert,
}
use minnal_labs.Deletion.Intent.{IsCleanupOf, Tracks, Tracks-delete}

module _ (c : Config) (now id : ℕ) (operation : String) {P Q : Tables → ℕ → Type 0} where
  -- the two ways in which an upsert succeeds
  upsert_row-Commits :
      ((t : Tables) (n : ℕ)
        → P t n
        → any (has_key id operation) t.jobs ≡ true
        → Q
            (on_jobs
              (update_where (has_key id operation) (restarted (now + c.initial_delay) now))
              t)
            (suc n))
      → ((t : Tables) (n : ℕ)
          → P t n
          → Q
              (on_jobs (λ jobs. jobs ++ new_job n id operation (now + c.initial_delay) now ∷ []) t)
              (suc n))
      → Commits P Q (upsert_row c now id operation)
  unfolding upsert_row
  upsert_row-Commits old new = record {
    at = λ w a h e. elim (Bool-cases (any (has_key id operation) w.tables.jobs)) [
      | inl present ↦ rw present (old w.tables w.next_job h present)
      | inr absent ↦ elim (Bool-cases (home_exists id w.tables)) [
        | inl exists ↦ rw (absent, exists) (new w.tables w.next_job h)
        | inr missing ↦ absurd (ground (arith, absent, missing, e))
      ]
    ];
    grows = λ w. ground arith;
  }

IsSound-restart :
    {known : List HomeMqttJob} {t : Tables} {n : ℕ}
    → IsSound known t n
    → (p : HomeMqttJob → Bool) (run_at now : ℕ)
    → IsSound known (on_jobs (update_where p (restarted run_at now)) t) (suc n)
IsSound-restart {n = n} h p run_at now =
    IsSound-later (IsSound-update h p (restarted run_at now) (λ j. (refl, refl, refl))) (suc n)
      (omega arith)

-- the row that an upsert of a cleanup job updates is a cleanup job that waits
update-IsCleanupOf :
    (id run_at now : ℕ) (jobs : List HomeMqttJob)
    → any (has_key id operation_cleanup) jobs ≡ true
    → Any (IsCleanupOf id) (update_where (has_key id operation_cleanup) (restarted run_at now) jobs)
unfolding update_where
update-IsCleanupOf id run_at now [] e = cc
update-IsCleanupOf id run_at now (j ∷ jobs) e = elim (Bool-cases (has_key id operation_cleanup j)) [
  | inl here ↦ inl (rw here (ground (arith, here, eq_iff j.operation operation_cleanup)))
  | inr there ↦ inr (update-IsCleanupOf id run_at now jobs (ground (arith, there, e)))
]

module _ {known : List HomeMqttJob} (c : Config) (now id : ℕ) where
  pub upsert_job-Tracks :
      {home : ℕ} (operation : String)
      → Commits (Tracks known home) (Tracks known home) (upsert_job c now id operation)
  unfolding upsert_job
  upsert_job-Tracks {home} operation = Commits-bind _ _ (Commits-Maintains _ Maintains-call) (λ _.
      upsert_row-Commits c now id operation
        (λ t n h _. record {
          sound = IsSound-restart h.sound (has_key id operation) (now + c.initial_delay) now;
          intent = elim h.intent [
            | inl j ↦ inl (
                Any-update_where (IsCleanupOf home) (λ j. j.id < n) (has_key id operation)
                  (restarted (now + c.initial_delay) now) t.jobs (λ j a _ _. (a.0, a.1, inl refl))
                  h.sound.fresh j)
            | inr g ↦ inr g
          ];
        })
        (λ t n h. record {
          sound = IsSound-insert h.sound id operation (now + c.initial_delay) now;
          intent = elim h.intent [
            | inl j ↦ inl (Any-append_left (IsCleanupOf home) t.jobs _ j)
            | inr g ↦ inr g
          ];
        }))

  upsert_job-Intends :
      Commits (IsSound known) (Tracks known id) (upsert_job c now id operation_cleanup)
  unfolding upsert_job
  upsert_job-Intends = Commits-bind _ _ (Commits-Maintains _ Maintains-call) (λ _.
      upsert_row-Commits c now id operation_cleanup
        (λ t n h present. record {
          sound = IsSound-restart h (has_key id operation_cleanup) (now + c.initial_delay) now;
          intent = inl (update-IsCleanupOf id (now + c.initial_delay) now t.jobs present);
        })
        (λ t n h. record {
          sound = IsSound-insert h id operation_cleanup (now + c.initial_delay) now;
          intent = inl (Any-append_right (IsCleanupOf id) t.jobs _ (inl (refl, refl, inl refl)));
        }))

  -- the old jobs of the home go, and a cleanup job takes their place
  pub replace_with_cleanup_job-Intends :
      Commits (IsSound known) (Tracks known id) (replace_with_cleanup_job c now id)
  unfolding replace_with_cleanup_job
  replace_with_cleanup_job-Intends =
      Commits-bind _ _
        (Commits-wrapped _ _ (Commits-execute _ (λ t n h. IsSound-delete h (λ j. j.home_id == id))))
        (λ _. upsert_job-Intends)

  replace_with_cleanup_job-ne :
      {home : ℕ}
      → id ≢ home
      → Commits (Tracks known home) (Tracks known home) (replace_with_cleanup_job c now id)
  unfolding replace_with_cleanup_job
  replace_with_cleanup_job-ne {home} ne =
      Commits-bind _ _
        (Commits-wrapped _ _ (
          Commits-execute _ (λ t n h.
            Tracks-delete h _ (λ j. j.home_id == id) (λ j a _. ground (arith, a, ne)) h.fresh)))
        (λ _. upsert_job-Tracks operation_cleanup)

  weaken-Commits :
      {A : Type 0} {home : ℕ} {m : Exec World A}
      → Commits (IsSound known) (Tracks known home) m
      → Commits (Tracks known home) (Tracks known home) m
  weaken-Commits k = record { at = λ w a h e. k.at w a h.sound e; grows = k.grows }

  pub replace_with_cleanup_job-Tracks :
      (home : ℕ)
      → Commits (Tracks known home) (Tracks known home) (replace_with_cleanup_job c now id)
  replace_with_cleanup_job-Tracks home = elim (ℕ_discrete id home) [
    | yes e ↦
        subst (λ i. Commits (Tracks known i) (Tracks known i) (replace_with_cleanup_job c now id)) e
          (weaken-Commits replace_with_cleanup_job-Intends)
    | no ne ↦ replace_with_cleanup_job-ne ne
  ]
