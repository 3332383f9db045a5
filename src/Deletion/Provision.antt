-- ===== src/Deletion/Provision.antt =====
-- internal/homejobs/homejobs.go: a provisioning job, run on whatever copy of its home, does not lose the
-- intent to delete a home.
use minnal_labs.Base.{true≢false, ℕ, ◌≡◌, ◌≢◌, String, List, arith}
use minnal_labs.Base.Rows.{Any, update_where, delete_where}
use minnal_labs.Base.Exec.{Error}
use minnal_labs.Models.{Home, HomeMqttJob, operation_cleanup}
use minnal_labs.World.{execute}
use minnal_labs.World.Maintains.{Maintains, Maintains-execute, maintains_rules}
use minnal_labs.World.Commits.{Maintains-steps}
use minnal_labs.Mqtt.Untouched.{provision_home_access-Maintains, cleanup_home_access-Maintains}
use minnal_labs.HomeJobs.Queue.{Config}
use minnal_labs.HomeJobs.Worker.{
  is_job, is_live_home, on_jobs, on_homes, put_back, with_state, reschedule_provision,
  finish_provision, provision_home, made_ready,
}
use minnal_labs.Deletion.Copies.{Agrees}
use minnal_labs.Deletion.Intent.{Tracks, Tracks-stable, Tracks-update, Tracks-delete, Tracks-homes}
use minnal_labs.Deletion.Worker.{not-is_job, agree, delete_job-Maintains}

put_back_key :
    (c : Config) (now : ℕ) (k : HomeMqttJob) (e : Error) (j : HomeMqttJob)
    → ((put_back c now k e j).id ≡ j.id)
      × ((put_back c now k e j).home_id ≡ j.home_id)
      × ((put_back c now k e j).operation ≡ j.operation)
put_back_key c now k e j = ground arith

module _ {known : List HomeMqttJob} {home : ℕ} (k : HomeMqttJob) (claimed : Any (λ x. x ≡ k) known)
    (other : k.operation ≢ operation_cleanup) where
  set_home-Maintains :
      (id now : ℕ) (state message : String)
      → Maintains
          (Tracks known home)
          (execute (on_homes (update_where (is_live_home id) (with_state now state message))))
  set_home-Maintains id now state message =
      Maintains-execute _
        (λ t n h. Tracks-homes h (is_live_home id) (with_state now state message) (λ x g _. g))

  put_back-Maintains :
      (c : Config) (now : ℕ) (e : Error)
      → Maintains
          (Tracks known home)
          (execute (on_jobs (update_where (is_job k.id) (put_back c now k e))))
  put_back-Maintains c now e = Maintains-execute _ (λ t n h.
      Tracks-update h (Agrees k) (is_job k.id) (put_back c now k e) (put_back_key c now k e)
        (λ j p a m. absurd (true≢false m (not-is_job k j other p a))) (agree k claimed h))

  pub reschedule_provision-Maintains :
      (c : Config) (now id : ℕ) (e : Error)
      → Maintains (Tracks known home) (reschedule_provision c now k id e)
  unfolding reschedule_provision
  reschedule_provision-Maintains c now id e =
      search
        (maintains_rules, Maintains-steps, Tracks-stable, set_home-Maintains, put_back-Maintains)
        depth 9

  ready-Maintains :
      (id now : ℕ)
      → Maintains
          (Tracks known home)
          (execute (on_homes (update_where (is_live_home id) (made_ready now))))
  ready-Maintains id now =
      Maintains-execute _ (λ t n h. Tracks-homes h (is_live_home id) (made_ready now) (λ y g _. g))

  drop-Maintains : Maintains (Tracks known home) (execute (on_jobs (delete_where (is_job k.id))))
  drop-Maintains = Maintains-execute _ (λ t n h.
      Tracks-delete h (Agrees k) (is_job k.id) (λ j p a. not-is_job k j other p a)
        (agree k claimed h))

  finish_provision-Maintains :
      (now : ℕ) (x : Home) → Maintains (Tracks known home) (finish_provision now k x)
  unfolding finish_provision
  finish_provision-Maintains now x =
      search (maintains_rules, Maintains-steps, Tracks-stable, ready-Maintains, drop-Maintains)
        depth 9

  pub provision_home-Maintains :
      (c : Config) (now : ℕ) (x : Home) → Maintains (Tracks known home) (provision_home c now k x)
  unfolding provision_home
  provision_home-Maintains c now x = search (
    maintains_rules,
    delete_job-Maintains k claimed other,
    reschedule_provision-Maintains,
    finish_provision-Maintains,
    provision_home_access-Maintains,
    cleanup_home_access-Maintains,
  )
