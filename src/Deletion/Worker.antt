-- ===== src/Deletion/Worker.antt =====
-- internal/homejobs/homejobs.go: no operation of the worker loses the intent to delete a home, whatever
-- fails and whichever rows it read earlier.
use minnal_labs.Base.{
  true≢false, ℕ, ◌≡◌, ◌≢◌, refl, sym, ◌∙◌, String, false, inl, inr, List, arith, eq_iff, ==_iff,
  Bool-cases,
}
use minnal_labs.Base.Rows.{All, Any, All-at}
use minnal_labs.Base.Exec.{Error}
use minnal_labs.Models.{HomeMqttJob, operation_provision, operation_cleanup}
use minnal_labs.World.{Tables}
use minnal_labs.World.Maintains.{Maintains, Maintains-execute}
use minnal_labs.HomeJobs.Claim.{requeue_stale_claims, is_stale, requeued}
use minnal_labs.HomeJobs.Worker.{is_job, delete_job, mark_job_failed, marked_failed}
use minnal_labs.Deletion.Copies.{Agrees}
use minnal_labs.Deletion.Intent.{IsCleanupOf, Tracks, Tracks-update, Tracks-delete}

pub distinct_operations : ◌≢◌ {A = String} operation_provision operation_cleanup
distinct_operations = ground (arith, eq_iff operation_provision operation_cleanup)

-- a copy that is no cleanup job names no row that is one
pub not-is_job :
    {home : ℕ} (k j : HomeMqttJob)
    → k.operation ≢ operation_cleanup
    → IsCleanupOf home j
    → Agrees k j
    → is_job k.id j ≡ false
not-is_job k j other c a = elim (Bool-cases (is_job k.id j)) [
  | inl e ↦ absurd (other (sym (a ((==_iff j.id k.id).0 e)).1 ∙ c.1))
  | inr e ↦ e
]

module _ {known : List HomeMqttJob} {home : ℕ} where
  pub requeue-Maintains : (now : ℕ) → Maintains (Tracks known home) (requeue_stale_claims now)
  unfolding requeue_stale_claims
  requeue-Maintains now = Maintains-execute _ (λ t n h.
      Tracks-update h _ (is_stale now) (requeued now) (λ j. (refl, refl, refl))
        (λ j c _ _. (c.0, c.1, inl refl)) h.fresh)

  module _ (k : HomeMqttJob) (claimed : Any (λ x. x ≡ k) known) where
    pub agree : {t : Tables} {n : ℕ} → Tracks known home t n → All (Agrees k) t.jobs
    agree h = All-at (λ x. All (Agrees x) _) k known h.copies claimed

    module _ (other : k.operation ≢ operation_cleanup) where
      pub delete_job-Maintains : Maintains (Tracks known home) (delete_job k.id)
      unfolding delete_job
      delete_job-Maintains = Maintains-execute _ (λ t n h.
          Tracks-delete h (Agrees k) (is_job k.id) (λ j c a. not-is_job k j other c a) (agree h))

      pub mark_job_failed-Maintains :
          (now : ℕ) (e : Error) → Maintains (Tracks known home) (mark_job_failed now k e)
      unfolding mark_job_failed
      mark_job_failed-Maintains now e = Maintains-execute _ (λ t n h.
          Tracks-update h (Agrees k) (is_job k.id) (marked_failed now e) (λ j. (refl, refl, refl))
            (λ j c a m. absurd (true≢false m (not-is_job k j other c a))) (agree h))
