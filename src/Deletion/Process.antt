-- ===== src/Deletion/Process.antt =====
-- internal/homejobs/homejobs.go: `processJob` as a whole keeps every intent to delete a home. A cleanup
-- job whose home is not found may go: there is nothing left to delete.
use native.Mathlib.Decide.{ℕ_discrete}
use minnal_labs.Base.{
  ℕ, ◌≡◌, ◌≢◌, sym, subst, ◌∙◌, inl, inr, none, List, arith, eq_iff, str_eq, ==_iff, Bool-cases,
}
use minnal_labs.Base.Rows.{All, Any, first_where}
use minnal_labs.Models.{HomeMqttJob, operation_provision, operation_cleanup}
use minnal_labs.World.{wrap, errorf}
use minnal_labs.World.Maintains.{
  Maintains, Maintains-execute, Maintains-if, Maintains-or_else, Maintains-query,
  Maintains-query_first,
}
use minnal_labs.HomeJobs.Queue.{Config}
use minnal_labs.HomeJobs.Worker.{
  is_job, delete_job, process_provision_job, process_cleanup_job, process_job, unknown_operation,
}
use minnal_labs.Deletion.Copies.{Agrees}
use minnal_labs.Deletion.Intent.{IsGone, Tracks, Tracks-delete, Tracks-delete_gone}
use minnal_labs.Deletion.Worker.{
  distinct_operations, agree, delete_job-Maintains, mark_job_failed-Maintains,
}
use minnal_labs.Deletion.Provision.{reschedule_provision-Maintains, provision_home-Maintains}
use minnal_labs.Deletion.Cleanup.{reschedule_cleanup-Maintains, clean_up_home-Maintains}
use minnal_labs.Deletion.Load.{is_home, missing-IsGone, Maintains-load_home}

module _ {known : List HomeMqttJob} {home : ℕ} (k : HomeMqttJob)
    (claimed : Any (λ x. x ≡ k) known) where
  process_provision_job-Maintains :
      (c : Config) (now : ℕ)
      → k.operation ≢ operation_cleanup
      → Maintains (Tracks known home) (process_provision_job c now k)
  unfolding process_provision_job
  process_provision_job-Maintains c now other =
      Maintains-or_else _ _ _ (Maintains-query_first _)
        (λ e.
          Maintains-if e.not_found _ _ (λ _. delete_job-Maintains k claimed other)
            (λ _. reschedule_provision-Maintains k claimed other c now 0 (wrap "load home" e)))
        (provision_home-Maintains k claimed other c now)

  -- the job of a home that has no row may be deleted
  delete_orphan-Maintains :
      Maintains
        (λ t n. Tracks known home t n × (first_where (is_home k.home_id) t.homes ≡ none))
        (delete_job k.id)
  unfolding delete_job
  delete_orphan-Maintains = Maintains-execute _ (λ t n (h, o). (
    elim (ℕ_discrete k.home_id home) [
      | yes e ↦
          Tracks-delete_gone h (is_job k.id)
            (subst (λ i. All (IsGone i) t.homes) e (missing-IsGone k.home_id t.homes o))
      | no ne ↦
          Tracks-delete h (Agrees k) (is_job k.id)
            (λ j p a. elim (Bool-cases (is_job k.id j)) [
              | inl m ↦ absurd (ne (sym (a ((==_iff j.id k.id).0 m)).0 ∙ p.0))
              | inr m ↦ m
            ])
            (agree k claimed h)
    ],
    o,
  ))

  process_cleanup_job-Maintains :
      (c : Config) (now later : ℕ)
      → Maintains (Tracks known home) (process_cleanup_job c now later k)
  unfolding process_cleanup_job
  process_cleanup_job-Maintains c now later =
      Maintains-load_home k.home_id _ _
        (λ e d. rw d (reschedule_cleanup-Maintains k claimed c later 0 (wrap "load home" e)))
        delete_orphan-Maintains
        (λ x own.
          Maintains-or_else _ _ _ (Maintains-query _)
            (λ e. reschedule_cleanup-Maintains k claimed c later x.id (wrap "load home devices" e))
            (clean_up_home-Maintains k claimed x own c now later))

  pub process_job-Maintains :
      (c : Config) (now later : ℕ) → Maintains (Tracks known home) (process_job c now later k)
  unfolding process_job
  process_job-Maintains c now later =
      Maintains-if (str_eq k.operation operation_provision) _ _
        (λ e.
          process_provision_job-Maintains c now
            (λ x. distinct_operations (sym ((eq_iff k.operation operation_provision).0 e) ∙ x)))
        (λ _.
          Maintains-if (str_eq k.operation operation_cleanup) _ _
            (λ _. process_cleanup_job-Maintains c now later)
            (λ e.
              mark_job_failed-Maintains k claimed
                (λ x. absurd (ground (arith, x, e, eq_iff k.operation operation_cleanup))) now
                (errorf (unknown_operation k.operation))))
