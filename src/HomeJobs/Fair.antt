-- ===== src/HomeJobs/Fair.antt =====
-- internal/homejobs/homejobs.go, `claimJobs`: which jobs a claim picks when there are more than fit.
use minnal_labs.Base.{
  ℕ, zero, suc, ◌≤◌, ◌≡◌, refl, sym, subst, ap, Bool, true, false, not, ◌&&◌, ◌⊎◌, inl, inr, List,
  [], ◌∷◌, arith, Bool-cases,
}
use minnal_labs.Base.Rows.{
  All, Any, All-at, All-weaken, length, take, select_where, length-take_le, All-selected,
  All-select_where,
}
use minnal_labs.Models.{HomeMqttJob}
use minnal_labs.HomeJobs.Queue.{job_batch_size}
use minnal_labs.HomeJobs.Claim.{runs_before, insert_in_order, in_order, is_due, candidates}

abbrev IsBefore : HomeMqttJob → HomeMqttJob → Type 0
IsBefore a b = runs_before a b ≡ true

runs_before-total : (a b : HomeMqttJob) → runs_before a b ≡ false → IsBefore b a
unfolding runs_before
runs_before-total a b e = ground (arith, e)

IsBefore-trans : (a b c : HomeMqttJob) → IsBefore a b → IsBefore b c → IsBefore a c
unfolding runs_before
IsBefore-trans a b c p q = ground (arith, p, q)

abbrev IsOrdered : List HomeMqttJob → Type 0
IsOrdered [] = Unit
IsOrdered (j ∷ js) = All (IsBefore j) js × IsOrdered js

All-insert :
    (P : HomeMqttJob → Type 0) (j : HomeMqttJob) (ks : List HomeMqttJob)
    → P j
    → All P ks
    → All P (insert_in_order j ks)
unfolding insert_in_order
All-insert P j [] p h = (p, tt)
All-insert P j (k ∷ ks) p h = elim (Bool-cases (runs_before j k)) [
  | inl e ↦ rw e (p, (h.0, h.1))
  | inr e ↦ rw e (h.0, All-insert P j ks p h.1)
]

insert-IsOrdered :
    (j : HomeMqttJob) (ks : List HomeMqttJob) → IsOrdered ks → IsOrdered (insert_in_order j ks)
unfolding insert_in_order
insert-IsOrdered j [] h = (tt, tt)
insert-IsOrdered j (k ∷ ks) h = elim (Bool-cases (runs_before j k)) [
  | inl e ↦ rw e ((e, All-weaken _ _ ks (λ x p. IsBefore-trans j k x e p) h.0), (h.0, h.1))
  | inr e ↦
      rw e (All-insert (IsBefore k) j ks (runs_before-total j k e) h.0, insert-IsOrdered j ks h.1)
]

in_order-IsOrdered : (js : List HomeMqttJob) → IsOrdered (in_order js)
unfolding in_order
in_order-IsOrdered [] = tt
in_order-IsOrdered (j ∷ js) = insert-IsOrdered j (in_order js) (in_order-IsOrdered js)

All-in_order : (P : HomeMqttJob → Type 0) (js : List HomeMqttJob) → All P js → All P (in_order js)
unfolding in_order
All-in_order P [] h = tt
All-in_order P (j ∷ js) h = All-insert P j (in_order js) h.0 (All-in_order P js h.1)

module _ (P : HomeMqttJob → Type 0) where
  Any-insert_new : (j : HomeMqttJob) (ks : List HomeMqttJob) → P j → Any P (insert_in_order j ks)
  unfolding insert_in_order
  Any-insert_new j [] p = inl p
  Any-insert_new j (k ∷ ks) p = elim (Bool-cases (runs_before j k)) [
    | inl e ↦ rw e (inl p)
    | inr e ↦ rw e (inr (Any-insert_new j ks p))
  ]

  Any-insert_old :
      (j : HomeMqttJob) (ks : List HomeMqttJob) → Any P ks → Any P (insert_in_order j ks)
  unfolding insert_in_order
  Any-insert_old j [] m = elim m [ ]
  Any-insert_old j (k ∷ ks) m = elim (Bool-cases (runs_before j k)) [
    | inl e ↦ rw e (inr m)
    | inr e ↦ rw e (elim m [ inl p ↦ inl p | inr n ↦ inr (Any-insert_old j ks n) ])
  ]

  Any-in_order : (js : List HomeMqttJob) → Any P js → Any P (in_order js)
  unfolding in_order
  Any-in_order [] m = elim m [ ]
  Any-in_order (j ∷ js) (inl p) = Any-insert_new j (in_order js) p
  Any-in_order (j ∷ js) (inr m) = Any-insert_old j (in_order js) (Any-in_order js m)

Any-select_where :
    (p : HomeMqttJob → Bool) (j : HomeMqttJob) (js : List HomeMqttJob)
    → p j ≡ true
    → Any (λ x. x ≡ j) js
    → Any (λ x. x ≡ j) (select_where p js)
unfolding select_where
Any-select_where p j [] e m = elim m [ ]
Any-select_where p j (k ∷ ks) e (inl s) = rw (subst (λ x. p x ≡ true) (sym s) e) (inl s)
Any-select_where p j (k ∷ ks) e (inr m) = elim (Bool-cases (p k)) [
  | inl t ↦ rw t (inr (Any-select_where p j ks e m))
  | inr t ↦ rw t (Any-select_where p j ks e m)
]

-- what a limit leaves out comes after everything that it lets through
take-order :
    (n : ℕ) (j : HomeMqttJob) (js : List HomeMqttJob)
    → IsOrdered js
    → Any (λ x. x ≡ j) js
    → Any (λ x. x ≡ j) (take n js)
      ⊎ ((length (take n js) ≡ n) × All (λ k. IsBefore k j) (take n js))
take-order zero j js o m = inr (refl, tt)
take-order (suc n) j [] o m = elim m [ ]
take-order (suc n) j (k ∷ ks) o (inl e) = inl (inl e)
take-order (suc n) j (k ∷ ks) o (inr m) = elim (take-order n j ks o.1 m) [
  | inl t ↦ inl (inr t)
  | inr t ↦ inr (ap suc t.0, (All-at (IsBefore k) j ks o.0 m, t.1))
]

All-take : (P : HomeMqttJob → Type 0) (n : ℕ) (js : List HomeMqttJob) → All P js → All P (take n js)
All-take P zero js h = tt
All-take P (suc n) [] h = tt
All-take P (suc n) (j ∷ js) h = (h.0, All-take P n js h.1)

module _ (locked : ℕ → Bool) (now : ℕ) (jobs : List HomeMqttJob) where
  pub All-candidates :
      (P : HomeMqttJob → Type 0)
      → ((j : HomeMqttJob) → (is_due now j && not (locked j.id)) ≡ true → P j)
      → All P (candidates locked now jobs)
  unfolding candidates
  All-candidates P h =
      All-take P job_batch_size _
        (All-in_order P _ (All-selected P (λ j. is_due now j && not (locked j.id)) h jobs))

  pub candidates-All : (P : HomeMqttJob → Type 0) → All P jobs → All P (candidates locked now jobs)
  unfolding candidates
  candidates-All P h = All-take P job_batch_size _ (All-in_order P _ (All-select_where P _ jobs h))

  -- A claim picks at most 128 jobs, and each of them is pending, due and not locked by another worker.
  candidates-bounds :
      (length (candidates locked now jobs) ≤ job_batch_size)
      × All (λ j. (is_due now j ≡ true) × (locked j.id ≡ false)) (candidates locked now jobs)
  unfolding candidates
  candidates-bounds = (length-take_le job_batch_size _, All-candidates _ (λ j e. ground (arith, e)))

  -- A job of the table that is pending, due and not locked is picked by a claim, or else the claim is
  -- full and every job in it runs before that one, by `next_run_at` and then by the number.
  pub candidates-fair :
      (j : HomeMqttJob)
      → Any (λ x. x ≡ j) jobs
      → is_due now j ≡ true
      → locked j.id ≡ false
      → Any (λ x. x ≡ j) (candidates locked now jobs)
        ⊎ ((length (candidates locked now jobs) ≡ job_batch_size)
            × All (λ k. runs_before k j ≡ true) (candidates locked now jobs))
  unfolding candidates
  candidates-fair j m due free =
      take-order job_batch_size j _
        (in_order-IsOrdered (select_where (λ j. is_due now j && not (locked j.id)) jobs))
        (Any-in_order _ _ (
          Any-select_where (λ j. is_due now j && not (locked j.id)) j jobs
            (ground (arith, due, free)) m))
