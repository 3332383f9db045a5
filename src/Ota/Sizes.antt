-- ===== src/Ota/Sizes.antt =====
-- internal/ota/rollout.go: the batches of a rollout are neither too large nor too many.
use native.Mathlib.Nat.{mul-le-mul_left, div-mul-le_self, lt-div-mul-add, le-div_iff_mul-le}
use minnal_labs.Base.{
  ℕ, suc, ◌+◌, ◌*◌, ◌/◌, ◌≤◌, ◌<◌, ◌≡◌, refl, ap, List, [], ◌∷◌, map, arith, ◌==◌, inl, inr,
  Bool-cases, ==_iff, ◌⊎◌,
}
use minnal_labs.Base.Rows.{All, length, select_where}
use minnal_labs.Models.{Device, FirmwareRolloutDevice}
use minnal_labs.Ota.Batches.{batch_size, rollout_rows, total_batches}

-- For a rollout to at least one device at 1 to 100 percent, the size of a batch is at least 1 and at
-- most the number of devices, and a batch covers at least the percentage.
batch_size-bounds :
    (total percentage : ℕ)
    → 1 ≤ total
    → 1 ≤ percentage
    → percentage ≤ 100
    → (1 ≤ batch_size total percentage)
      × (batch_size total percentage ≤ total)
      × (total * percentage ≤ 100 * batch_size total percentage)
unfolding batch_size
batch_size-bounds total percentage a b c =
    let low = mul-le-mul_left total b in
    let high = mul-le-mul_left total c in ground (arith, a, b, c, low, high)

-- the facts on a quotient that the batches need
quotient-bounds :
    (idx size : ℕ)
    → 0 < size
    → (idx / size * size ≤ idx)
      × (idx < idx / size * size + size)
      × ((idx / size + 1) * size ≡ idx / size * size + size)
quotient-bounds idx size p = (div-mul-le_self idx size, lt-div-mul-add p, distribute (idx / size))
  where
    distribute : (q : ℕ) → (q + 1) * size ≡ q * size + size
    distribute q = omega arith

number-le : (idx n size : ℕ) → 0 < size → idx < n → idx / size + 1 ≤ total_batches n size
unfolding total_batches
number-le idx n size p q =
    let b = quotient-bounds idx size p in
    (le-div_iff_mul-le {x = idx / size + 1} p).1 (omega (arith, b.0, b.2, p, q))

module _ (rollout_id size : ℕ) (pos : 0 < size) where
  rows-device_id :
      (idx : ℕ) (ds : List Device)
      → map (λ (r : FirmwareRolloutDevice). r.device_id) (rollout_rows rollout_id size idx ds)
        ≡ map (λ (d : Device). d.id) ds
  unfolding rollout_rows
  rows-device_id idx [] = refl
  rows-device_id idx (d ∷ ds) = ap (λ is. d.id ∷ is) (rows-device_id (suc idx) ds)

  All-numbers :
      (n idx : ℕ) (ds : List Device)
      → idx + length ds ≤ n
      → All
          (λ r. (1 ≤ r.batch_number) × (r.batch_number ≤ total_batches n size))
          (rollout_rows rollout_id size idx ds)
  unfolding rollout_rows
  All-numbers n idx [] h = tt
  All-numbers n idx (d ∷ ds) h = (
    (omega arith, number-le idx n size pos (omega (arith, h))),
    All-numbers n (suc idx) ds (omega (arith, h)),
  )

  -- the rows of the batch `k` among those from `idx` on
  batch_count : ℕ → ℕ → List Device → ℕ
  batch_count k idx ds =
      length (select_where (λ r. r.batch_number == k) (rollout_rows rollout_id size idx ds))

  count-le :
      (k idx : ℕ) (ds : List Device)
      → (batch_count k idx ds ≤ size)
        × ((batch_count k idx ds ≡ 0) ⊎ (batch_count k idx ds + idx ≤ k * size))
  unfolding batch_count rollout_rows select_where
  count-le k idx [] = (omega arith, inl refl)
  count-le k idx (d ∷ ds) = elim (Bool-cases (idx / size + 1 == k)) [
    | inl e ↦ rw e (here ((==_iff (idx / size + 1) k).0 e) (count-le k (suc idx) ds))
    | inr e ↦ rw e (there (count-le k (suc idx) ds))
  ]
    where
      here :
          {c : ℕ}
          → idx / size + 1 ≡ k
          → (c ≤ size) × ((c ≡ 0) ⊎ (c + suc idx ≤ k * size))
          → (suc c ≤ size) × ((suc c ≡ 0) ⊎ (suc c + idx ≤ k * size))
      here e (a, b) =
          let q = quotient-bounds idx size pos in
          let m = ap (λ x. x * size) e in
          elim b [
            | inl z ↦ (omega (arith, z, pos), inr (omega (arith, z, q.0, q.1, q.2, m)))
            | inr z ↦ (omega (arith, z, q.0, q.1, q.2, m), inr (omega (arith, z)))
          ]

      there :
          {c : ℕ}
          → (c ≤ size) × ((c ≡ 0) ⊎ (c + suc idx ≤ k * size))
          → (c ≤ size) × ((c ≡ 0) ⊎ (c + idx ≤ k * size))
      there (a, b) = (a, elim b [ inl z ↦ inl z | inr z ↦ inr (omega (arith, z)) ])

  -- The rows of a rollout list its devices in their order, one row each; each number of a batch is
  -- between 1 and `totalBatches`; and no batch has more rows than the size of a batch.
  pub rollout_rows-batches :
      (ds : List Device) (k : ℕ)
      → let rows = rollout_rows rollout_id size 0 ds in
        (map (λ (r : FirmwareRolloutDevice). r.device_id) rows ≡ map (λ (d : Device). d.id) ds)
        × All (λ r. (1 ≤ r.batch_number) × (r.batch_number ≤ total_batches (length ds) size)) rows
        × (length (select_where (λ r. r.batch_number == k) rows) ≤ size)
  unfolding batch_count
  rollout_rows-batches ds k =
      (rows-device_id 0 ds, All-numbers (length ds) 0 ds (omega arith), (count-le k 0 ds).0)
