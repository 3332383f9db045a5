-- ===== src/Deletion/Intent.antt =====
-- internal/homejobs/homejobs.go, internal/deletion/deletion.go: once a home's deletion is committed,
-- the queue holds its cleanup job until the home is deleted, whatever the worker does meanwhile.
use minnal_labs.Base.{ℕ, ◌≡◌, Bool, true, false, ◌⊎◌, inl, inr, List, is_some}
use minnal_labs.Base.Rows.{
  All, Any, update_where, delete_where, All-update_where, Any-update_where, Any-delete_where,
}
use minnal_labs.Models.{Home, HomeMqttJob, operation_cleanup, job_pending, job_running}
use minnal_labs.World.{Tables}
use minnal_labs.World.Maintains.{IsStable}
use minnal_labs.Deletion.Copies.{IsSound, KeepsKey, IsSound-later, IsSound-update, IsSound-delete}
use minnal_labs.HomeJobs.Worker.{on_jobs, on_homes}

-- a cleanup job of the home that the worker has still to do
abbrev pub IsCleanupOf : ℕ → HomeMqttJob → Type 0
IsCleanupOf home j =
    (j.home_id ≡ home)
    × (j.operation ≡ operation_cleanup)
    × ((j.status ≡ job_pending) ⊎ (j.status ≡ job_running))

abbrev pub IsGone : ℕ → Home → Type 0
IsGone home h = h.id ≡ home → is_some h.deleted_at ≡ true

-- the intent to delete `home`: it waits in the queue, or the home is deleted
abbrev pub Intends : ℕ → Tables → Type 0
Intends home t = Any (IsCleanupOf home) t.jobs ⊎ All (IsGone home) t.homes

pub record Tracks (known : List HomeMqttJob) (home : ℕ) (t : Tables) (next_job : ℕ) : Type 0 where
  pub sound : IsSound known t next_job
  pub open sound use *
  pub intent : Intends home t

module _ (known : List HomeMqttJob) (home : ℕ) where
  pub Tracks-stable : IsStable (Tracks known home)
  Tracks-stable = record {
    later = λ t n m le h. record { sound = IsSound-later h.sound m le; intent = h.intent };
  }

module _ {known : List HomeMqttJob} {home : ℕ} {t : Tables} {n : ℕ}
    (h : Tracks known home t n) where
  -- an update of jobs that a fact `Q` about all jobs shows to leave cleanup jobs to be done
  pub Tracks-update :
      (Q : HomeMqttJob → Type 0) (p : HomeMqttJob → Bool) (f : HomeMqttJob → HomeMqttJob)
      → KeepsKey f
      → ((j : HomeMqttJob) → IsCleanupOf home j → Q j → p j ≡ true → IsCleanupOf home (f j))
      → All Q t.jobs
      → Tracks known home (on_jobs (update_where p f) t) n
  Tracks-update Q p f key keeps q = record {
    sound = IsSound-update h.sound p f key;
    intent = elim h.intent [
      | inl c ↦ inl (Any-update_where (IsCleanupOf home) Q p f t.jobs keeps q c)
      | inr g ↦ inr g
    ];
  }

  -- a deletion of jobs that are no cleanup jobs of the home
  pub Tracks-delete :
      (Q : HomeMqttJob → Type 0) (p : HomeMqttJob → Bool)
      → ((j : HomeMqttJob) → IsCleanupOf home j → Q j → p j ≡ false)
      → All Q t.jobs
      → Tracks known home (on_jobs (delete_where p) t) n
  Tracks-delete Q p keeps q = record {
    sound = IsSound-delete h.sound p;
    intent = elim h.intent [
      | inl c ↦ inl (Any-delete_where (IsCleanupOf home) Q p t.jobs keeps q c)
      | inr g ↦ inr g
    ];
  }

  -- any deletion, once the home is gone
  pub Tracks-delete_gone :
      (p : HomeMqttJob → Bool)
      → All (IsGone home) t.homes
      → Tracks known home (on_jobs (delete_where p) t) n
  Tracks-delete_gone p gone = record { sound = IsSound-delete h.sound p; intent = inr gone }

  -- an update of homes that brings none back
  pub Tracks-homes :
      (p : Home → Bool) (f : Home → Home)
      → ((x : Home) → IsGone home x → p x ≡ true → IsGone home (f x))
      → Tracks known home (on_homes (update_where p f) t) n
  Tracks-homes p f keeps = record {
    sound = record {
      fresh = h.fresh;
      known_fresh = h.known_fresh;
      copies = h.copies;
      unique = h.unique;
    };
    intent = elim h.intent [
      | inl c ↦ inl c
      | inr g ↦ inr (All-update_where (IsGone home) p f t.homes keeps g)
    ];
  }
