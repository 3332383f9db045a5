-- ===== src/Deletion/Copies.antt =====
-- internal/homejobs/homejobs.go: the worker processes copies of rows, which the table may have changed
-- or lost since. A number of a job is used once, so a copy is never taken for another row.
use native.Mathlib.Nat.{le_refl, le_trans}
use minnal_labs.Base.{ℕ, suc, ◌≤◌, ◌<◌, ◌≡◌, refl, String, Bool, List, [], ◌∷◌, ◌++◌, arith}
use minnal_labs.Base.Rows.{
  All, update_where, delete_where, select_where, All-update_where, All-delete_where, All-weaken,
  All-append, All-select_where,
}
use minnal_labs.Models.{HomeMqttJob}
use minnal_labs.World.{Tables}
use minnal_labs.HomeJobs.Queue.{new_job}
use minnal_labs.HomeJobs.Worker.{on_jobs}

-- a row with the number of `k` is the row that `k` is a copy of
abbrev pub Agrees : HomeMqttJob → HomeMqttJob → Type 0
Agrees k j = j.id ≡ k.id → (j.home_id ≡ k.home_id) × (j.operation ≡ k.operation)

abbrev pub AgreesAll : List HomeMqttJob → HomeMqttJob → Type 0
AgreesAll jobs k = All (Agrees k) jobs

-- the jobs of the table and the copies in `known`, which the worker has claimed
pub record IsSound (known : List HomeMqttJob) (t : Tables) (next_job : ℕ) : Type 0 where
  pub fresh : All (λ j. j.id < next_job) t.jobs
  pub known_fresh : All (λ k. k.id < next_job) known
  pub copies : All (AgreesAll t.jobs) known
  pub unique : All (AgreesAll t.jobs) t.jobs

-- an update of the jobs leaves alone what identifies a row
abbrev pub KeepsKey : (HomeMqttJob → HomeMqttJob) → Type 0
KeepsKey f =
    (j : HomeMqttJob)
    → ((f j).id ≡ j.id) × ((f j).home_id ≡ j.home_id) × ((f j).operation ≡ j.operation)

module _ (p : HomeMqttJob → Bool) (f : HomeMqttJob → HomeMqttJob) (jobs : List HomeMqttJob)
    (key : KeepsKey f) where
  AgreesAll-update : (k : HomeMqttJob) → AgreesAll jobs k → AgreesAll (update_where p f jobs) k
  AgreesAll-update k h =
      All-update_where (Agrees k) p f jobs (λ j a _ e. ground (arith, key j, a)) h

  Agrees-updated : (k j : HomeMqttJob) → Agrees k j → Agrees (f k) j
  Agrees-updated k j a e = ground (arith, key k, a)

  copies-update :
      (ks : List HomeMqttJob) → All (AgreesAll jobs) ks → All (AgreesAll (update_where p f jobs)) ks
  copies-update ks h = All-weaken _ _ ks AgreesAll-update h

  unique-update :
      All (AgreesAll jobs) jobs → All (AgreesAll (update_where p f jobs)) (update_where p f jobs)
  unique-update h =
      All-update_where (AgreesAll (update_where p f jobs)) p f jobs
        (λ k a _. All-weaken _ _ (update_where p f jobs) (Agrees-updated k) a)
        (copies-update jobs h)

module _ {known : List HomeMqttJob} {t : Tables} {n : ℕ} (h : IsSound known t n) where
  pub IsSound-later : (m : ℕ) → n ≤ m → IsSound known t m
  IsSound-later m le = record {
    fresh = All-weaken _ _ t.jobs (λ j p. le_trans p le) h.fresh;
    known_fresh = All-weaken _ _ known (λ j p. le_trans p le) h.known_fresh;
    copies = h.copies;
    unique = h.unique;
  }

  pub IsSound-update :
      (p : HomeMqttJob → Bool) (f : HomeMqttJob → HomeMqttJob)
      → KeepsKey f
      → IsSound known (on_jobs (update_where p f) t) n
  IsSound-update p f key = record {
    fresh = All-update_where _ p f t.jobs (λ j a _. ground (arith, key j, a)) h.fresh;
    known_fresh = h.known_fresh;
    copies = copies-update p f t.jobs key known h.copies;
    unique = unique-update p f t.jobs key h.unique;
  }

  pub IsSound-delete : (p : HomeMqttJob → Bool) → IsSound known (on_jobs (delete_where p) t) n
  IsSound-delete p = record {
    fresh = All-delete_where _ p t.jobs h.fresh;
    known_fresh = h.known_fresh;
    copies = All-weaken _ _ known (λ k a. All-delete_where (Agrees k) p t.jobs a) h.copies;
    unique =
        All-delete_where _ p t.jobs
          (All-weaken _ _ t.jobs (λ k a. All-delete_where (Agrees k) p t.jobs a) h.unique);
  }

  pub IsSound-insert :
      (id : ℕ) (operation : String) (run_at now : ℕ)
      → IsSound known (on_jobs (λ jobs. jobs ++ new_job n id operation run_at now ∷ []) t) (suc n)
  IsSound-insert id operation run_at now = record {
    fresh =
        All-append _ t.jobs (j ∷ []) (All-weaken _ _ t.jobs (λ j a. omega arith) h.fresh)
          (le_refl _, tt);
    known_fresh = All-weaken _ _ known (λ j a. omega arith) h.known_fresh;
    copies = added known h.known_fresh h.copies;
    unique = All-append _ t.jobs (j ∷ []) (added t.jobs h.fresh h.unique) (
      All-append (Agrees j) t.jobs (j ∷ [])
          (All-weaken _ _ t.jobs (λ i a e. absurd (omega (arith, e, a))) h.fresh)
          ((λ e. (refl, refl)), tt),
      tt,
    );
  }
    where
      j : HomeMqttJob
      j = new_job n id operation run_at now

      added :
          (ks : List HomeMqttJob)
          → All (λ k. k.id < n) ks
          → All (AgreesAll t.jobs) ks
          → All (AgreesAll (t.jobs ++ j ∷ [])) ks
      added [] f a = tt
      added (k ∷ ks) f a = (
        All-append (Agrees k) t.jobs (j ∷ []) a.0 ((λ e. absurd (omega (arith, e, f.0))), tt),
        added ks f.1 a.1,
      )

  -- rows that a claim returns join the copies
  pub IsSound-claim : (p : HomeMqttJob → Bool) → IsSound (select_where p t.jobs ++ known) t n
  IsSound-claim p = record {
    fresh = h.fresh;
    known_fresh =
        All-append _ (select_where p t.jobs) known (All-select_where _ p t.jobs h.fresh)
          h.known_fresh;
    copies =
        All-append _ (select_where p t.jobs) known (All-select_where _ p t.jobs h.unique) h.copies;
    unique = h.unique;
  }
