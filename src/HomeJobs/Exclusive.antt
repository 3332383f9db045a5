-- ===== src/HomeJobs/Exclusive.antt =====
-- internal/homejobs/homejobs.go, `claimJobs`: a job that one claim returned is not returned again.
use mathlib.Core.Path.{subst₂}
use minnal_labs.Base.{
  true≢false, ℕ, String, ◌≢◌, ◌≡◌, refl, sym, subst, ◌∙◌, inl, inr, Bool, true, false, List, [],
  ◌∷◌, arith, eq_iff, ◌==◌, ==_iff, Bool-cases,
}
use minnal_labs.Base.Rows.{All, All-selected, select_where, update_where}
use minnal_labs.Base.Exec.{Error, Outcome, ok, err, continue, ◌>>=◌}
use minnal_labs.Models.{HomeMqttJob, job_pending, job_running}
use minnal_labs.World.{World, call}
use minnal_labs.HomeJobs.Fair.{All-candidates, candidates-All}
use minnal_labs.HomeJobs.Claim.{is_due, is_listed, claimed, candidates, claim_rows, claim_jobs}

-- what a claim leaves in the table: each job that it picked runs
abbrev IsRunning : List HomeMqttJob → HomeMqttJob → Type 0
IsRunning cs j = is_listed cs j ≡ true → j.status ≡ job_running

update-IsRunning :
    (cs : List HomeMqttJob) (now : ℕ) (jobs : List HomeMqttJob)
    → All (IsRunning cs) (update_where (is_listed cs) (claimed now) jobs)
unfolding update_where
update-IsRunning cs now [] = tt
update-IsRunning cs now (j ∷ js) = elim (Bool-cases (is_listed cs j)) [
  | inl e ↦ rw e ((λ _. refl), update-IsRunning cs now js)
  | inr e ↦ rw e ((λ t. absurd (ground (arith, t, e))), update-IsRunning cs now js)
]

distinct_states : ◌≢◌ {A = String} job_pending job_running
distinct_states = ground (arith, eq_iff job_pending job_running)

module _ (locked : ℕ → Bool) (now : ℕ) (cs : List HomeMqttJob) where
  -- a due job is not running, so it is none of those
  unlisted : (j : HomeMqttJob) → IsRunning cs j → is_due now j ≡ true → is_listed cs j ≡ false
  unlisted j r due = elim (Bool-cases (is_listed cs j)) [
    | inl e ↦
        absurd (distinct_states (sym ((eq_iff j.status job_pending).0 (ground (arith, due))) ∙ r e))
    | inr e ↦ e
  ]

  candidates-unlisted :
      (jobs : List HomeMqttJob)
      → All (IsRunning cs) jobs
      → All (λ j. is_listed cs j ≡ false) (candidates locked now jobs)
  candidates-unlisted jobs h =
      both (candidates locked now jobs) (candidates-All locked now jobs (IsRunning cs) h)
        (All-candidates locked now jobs (λ j. is_due now j ≡ true) (λ j e. ground (arith, e)))
    where
      both :
          (js : List HomeMqttJob)
          → All (IsRunning cs) js
          → All (λ j. is_due now j ≡ true) js
          → All (λ j. is_listed cs j ≡ false) js
      both [] r d = tt
      both (j ∷ js) r d = (unlisted j r.0 d.0, both js r.1 d.1)

module _ (cs : List HomeMqttJob) (j : HomeMqttJob) where
  same_id-listed : (k : HomeMqttJob) → j.id ≡ k.id → is_listed cs k ≡ is_listed cs j
  same_id-listed k e = rw e refl

  unlisted_of_candidates :
      (ds : List HomeMqttJob)
      → All (λ d. is_listed cs d ≡ false) ds
      → is_listed ds j ≡ true
      → is_listed cs j ≡ false
  unlisted_of_candidates [] h e = absurd (ground (arith, e))
  unlisted_of_candidates (d ∷ ds) h e = elim (Bool-cases (j.id == d.id)) [
    | inl t ↦ sym (same_id-listed d ((==_iff j.id d.id).0 t)) ∙ h.0
    | inr t ↦ unlisted_of_candidates ds h.1 (ground (arith, e, t))
  ]

  unlisted_of_rows :
      is_listed cs j ≡ false
      → (rows : List HomeMqttJob) → All (λ r. is_listed cs r ≡ true) rows
      → is_listed rows j ≡ false
  unlisted_of_rows e [] h = refl
  unlisted_of_rows e (r ∷ rs) h = elim (Bool-cases (j.id == r.id)) [
    | inl t ↦ absurd (true≢false h.0 (same_id-listed r ((==_iff j.id r.id).0 t) ∙ e))
    | inr t ↦ rw t (unlisted_of_rows e rs h.1)
  ]

ok-inj : {x y : List HomeMqttJob} → ok x ≡ ok y → x ≡ y
ok-inj e = cc

module _ (locked locked' : ℕ → Bool) (now now' : ℕ) where
  Exclude : Outcome (List HomeMqttJob) → Outcome (List HomeMqttJob) → Type 0
  Exclude (ok rows) (ok rows') = All (λ j. is_listed rows j ≡ false) rows'
  Exclude (ok rows) (err e) = Unit
  Exclude (err e) _ = Unit

  claim_rows-exclusive :
      (w v : World)
      → v.tables ≡ (claim_rows locked now w).1.tables
      → Exclude (claim_rows locked now w).0 (claim_rows locked' now' v).0
  unfolding claim_rows Exclude
  claim_rows-exclusive w v e =
      let cs = candidates locked now w.tables.jobs in
      let running = update-IsRunning cs now w.tables.jobs in
      let jobs = update_where (is_listed cs) (claimed now) w.tables.jobs in
      let ds = candidates locked' now' v.tables.jobs in
      All-selected _ (is_listed ds)
        (λ j d.
          unlisted_of_rows cs j
            (unlisted_of_candidates cs j ds
              (candidates-unlisted locked' now' cs v.tables.jobs
                (subst (λ t. All (IsRunning cs) t.jobs) (sym e) running))
              d)
            (select_where (is_listed cs) jobs) (All-selected _ (is_listed cs) (λ k t. t) jobs))
        _

  rows_of_claim : Outcome Unit → World → Outcome (List HomeMqttJob) × World
  rows_of_claim r w = continue r (λ _. claim_rows locked now) w

  Exclude-err : (r : Outcome (List HomeMqttJob)) (e : Error) → Exclude r (err e)
  unfolding Exclude
  Exclude-err (ok rows) e = tt
  Exclude-err (err x) e = tt

  after-exclusive :
      (r r' : Outcome Unit) (w v : World)
      → v.tables ≡ (rows_of_claim r w).1.tables
      → Exclude (rows_of_claim r w).0 (continue r' (λ _. claim_rows locked' now') v).0
  unfolding Exclude rows_of_claim
  after-exclusive (err e) r' w v t = tt
  after-exclusive (ok _) (ok _) w v t = claim_rows-exclusive w v t
  after-exclusive (ok _) (err e) w v t = Exclude-err (claim_rows locked now w).0 e

  call-tables : (w : World) → (call w).1.tables ≡ w.tables
  unfolding call
  call-tables w = refl

  claim_jobs-Exclude :
      (w : World)
      → Exclude (claim_jobs locked now w).0 (claim_jobs locked' now' (claim_jobs locked now w).1).0
  unfolding claim_jobs ◌>>=◌ rows_of_claim
  claim_jobs-Exclude w =
      let (r, v) = call w in
      let (a, u) = rows_of_claim r v in
      let (r', u') = call u in after-exclusive r r' v u' (call-tables u)

  Exclude-ok :
      (a b : Outcome (List HomeMqttJob)) (rows rows' : List HomeMqttJob)
      → Exclude a b
      → a ≡ ok rows
      → b ≡ ok rows'
      → All (λ j. is_listed rows j ≡ false) rows'
  unfolding Exclude
  Exclude-ok (ok x) (ok y) rows rows' h p q =
      subst₂ (λ c d. All (λ j. is_listed c j ≡ false) d) (ok-inj p) (ok-inj q) h
  Exclude-ok (ok x) (err y) rows rows' h p q = cc
  Exclude-ok (err x) b rows rows' h p q = cc

  -- Two claims, one right after the other, with whatever clocks and locks: no job that the second one
  -- returns was returned by the first.
  pub claim_jobs-exclusive :
      (w : World) (rows rows' : List HomeMqttJob)
      → (claim_jobs locked now w).0 ≡ ok rows
      → (claim_jobs locked' now' (claim_jobs locked now w).1).0 ≡ ok rows'
      → All (λ j. is_listed rows j ≡ false) rows'
  claim_jobs-exclusive w rows rows' = Exclude-ok _ _ rows rows' (claim_jobs-Exclude w)
