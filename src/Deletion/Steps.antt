-- ===== src/Deletion/Steps.antt =====
-- internal/homejobs/homejobs.go, internal/deletion/deletion.go: workers and handlers that share the
-- tables, as a relation on states. Several workers may run: each claims what it finds, and later
-- processes one of its copies, whatever the others did in between.
use minnal_labs.Base.{ℕ, ◌≡◌, refl, Bool, List, [], ◌++◌, inr, sym, ◌∙◌}
use minnal_labs.Base.Rows.{Any}
use minnal_labs.Base.Exec.{Outcome, ok, err, continue, ◌>>=◌}
use minnal_labs.Models.{Home, Device, HomeMqttJob, operation_provision, operation_cleanup}
use minnal_labs.World.{World, call, transaction}
use minnal_labs.World.Maintains.{Maintains, Maintains-call}
use minnal_labs.World.Commits.{Maintains-transaction}
use minnal_labs.HomeJobs.Queue.{Config, enqueue_provision}
use minnal_labs.HomeJobs.Claim.{
  requeue_stale_claims, claim_jobs, claim_rows, candidates, is_listed, claimed,
}
use minnal_labs.HomeJobs.Worker.{provision_home, clean_up_home, process_job}
use minnal_labs.Deletion.{schedule_home_deletion, schedule_user_deletion}
use minnal_labs.Deletion.Copies.{IsSound-claim}
use minnal_labs.Deletion.Intent.{Tracks, Tracks-stable, Tracks-update}
use minnal_labs.Deletion.Worker.{requeue-Maintains, distinct_operations}
use minnal_labs.Deletion.Queue.{upsert_job-Tracks}
use minnal_labs.Deletion.Provision.{provision_home-Maintains}
use minnal_labs.Deletion.Cleanup.{clean_up_home-Maintains}
use minnal_labs.Deletion.Process.{process_job-Maintains}
use minnal_labs.Deletion.Schedule.{schedule_home_deletion-Tracks, schedule_user_deletion-Maintains}

-- `known` are the copies of jobs that some worker has claimed since the start
pub record System : Type 0 where
  pub world : World
  pub known : List HomeMqttJob

abbrev pub returned : Outcome (List HomeMqttJob) → List HomeMqttJob
returned (ok rows) = rows
returned (err e) = []

abbrev pub after_claim : (ℕ → Bool) → ℕ → System → System
after_claim locked now s =
    let (r, w) = claim_jobs locked now s.world in
    record { world = w; known = returned r ++ s.known }

-- One step of a worker or a handler. A job may be resumed after its home was loaded, with a copy of
-- the home that may be out of date: an arbitrary one for a provisioning job, one with the home's
-- number for a cleanup job.
pub data Step (c : Config) : System → System → Type 0 where
  requeues :
      (now : ℕ) (s : System) → Step c s (record s { world = (requeue_stale_claims now s.world).1 })
  claims : (locked : ℕ → Bool) (now : ℕ) (s : System) → Step c s (after_claim locked now s)
  processes :
      (now later : ℕ) (k : HomeMqttJob) (s : System)
      → Any (λ x. x ≡ k) s.known
      → Step c s (record s { world = (process_job c now later k s.world).1 })
  resumes_provision :
      (now : ℕ) (k : HomeMqttJob) (x : Home) (s : System)
      → Any (λ y. y ≡ k) s.known
      → k.operation ≡ operation_provision
      → Step c s (record s { world = (provision_home c now k x s.world).1 })
  resumes_cleanup :
      (now later : ℕ) (k : HomeMqttJob) (x : Home) (ds : List Device) (s : System)
      → Any (λ y. y ≡ k) s.known
      → k.operation ≡ operation_cleanup
      → x.id ≡ k.home_id
      → Step c s (record s { world = (clean_up_home c now later k x ds s.world).1 })
  enqueues :
      (now id : ℕ) (s : System)
      → Step c s (record s { world = (transaction (enqueue_provision c now id) s.world).1 })
  deletes_home :
      (now later id : ℕ) (s : System)
      → Step c s
          (record s { world = (transaction (schedule_home_deletion c now later id) s.world).1 })
  deletes_user :
      (now later id : ℕ) (s : System)
      → Step c s (record s { world = (schedule_user_deletion c now later id s.world).1 })

pub data Reaches (c : Config) : System → System → Type 0 where
  stays : (s : System) → Reaches c s s
  moves : (s t u : System) → Step c s t → Reaches c t u → Reaches c s u

abbrev pub Holds : ℕ → System → Type 0
Holds home s = Tracks s.known home s.world.tables s.world.next_job

module _ (locked : ℕ → Bool) (now home : ℕ) (known : List HomeMqttJob) where
  ran : Outcome (List HomeMqttJob) × World → System
  ran (r, w) = record { world = w; known = returned r ++ known }

  claim_rows-Holds :
      (w : World)
      → Tracks known home w.tables w.next_job
      → Holds home (ran (claim_rows locked now w))
  unfolding claim_rows ran
  claim_rows-Holds w h =
      let cs = candidates locked now w.tables.jobs in
      let k =
        Tracks-update h _ (is_listed cs) (claimed now) (λ j. (refl, refl, refl))
          (λ j c _ _. (c.0, c.1, inr refl)) h.fresh in
      record { sound = IsSound-claim k.sound (is_listed cs); intent = k.intent }

  continue-Holds :
      (r : Outcome Unit) (w : World)
      → Tracks known home w.tables w.next_job
      → Holds home (ran (continue r (λ _. claim_rows locked now) w))
  unfolding ran
  continue-Holds (ok _) w h = claim_rows-Holds w h
  continue-Holds (err e) w h = h

claim-Holds :
    (locked : ℕ → Bool) (now home : ℕ) (s : System)
    → Holds home s
    → Holds home (after_claim locked now s)
unfolding claim_jobs ◌>>=◌ ran
claim-Holds locked now home s h =
    let (r, w) = call s.world in
    continue-Holds locked now home s.known r w
      ((Maintains-call {P = Tracks s.known home}).at s.world h)

module _ (c : Config) (home : ℕ) where
  enqueue-Maintains :
      (now id : ℕ) (s : System)
      → Maintains (Tracks s.known home) (transaction (enqueue_provision c now id))
  unfolding enqueue_provision
  enqueue-Maintains now id s =
      Maintains-transaction (Tracks-stable s.known home) _
        (upsert_job-Tracks c now id operation_provision)

  Step-Holds : (s t : System) → Step c s t → Holds home s → Holds home t
  Step-Holds s _ (requeues now _) h = (requeue-Maintains now).at s.world h
  Step-Holds s _ (claims locked now _) h = claim-Holds locked now home s h
  Step-Holds s _ (processes now later k _ m) h =
      (process_job-Maintains k m c now later).at s.world h
  Step-Holds s _ (resumes_provision now k x _ m e) h =
      (provision_home-Maintains k m (λ o. distinct_operations (sym e ∙ o)) c now x).at s.world h
  Step-Holds s _ (resumes_cleanup now later k x ds _ m e own) h =
      (clean_up_home-Maintains k m x own c now later ds).at s.world h
  Step-Holds s _ (enqueues now id _) h = (enqueue-Maintains now id s).at s.world h
  Step-Holds s _ (deletes_home now later id _) h =
      (Maintains-transaction (Tracks-stable s.known home) _
          (schedule_home_deletion-Tracks c now later home id)).at
        s.world h
  Step-Holds s _ (deletes_user now later id _) h =
      (schedule_user_deletion-Maintains c now later id home).at s.world h

  pub Reaches-Holds : (s t : System) → Reaches c s t → Holds home s → Holds home t
  Reaches-Holds s _ (stays _) h = h
  Reaches-Holds s u (moves _ t _ step rest) h = Reaches-Holds t u rest (Step-Holds s t step h)
