-- ===== src/Ota/Order.antt =====
-- internal/ota/rollout.go, `dispatchNextBatch`: the batches go out in the order of their numbers.
use minnal_labs.Base.{
  ℕ, ◌≤◌, ◌≡◌, refl, sym, Bool, true, false, some, List, [], ◌∷◌, map, arith, leb, ◌==◌, ==_iff,
  if◌then◌else◌, inl, inr, Bool-cases,
}
use minnal_labs.Base.Rows.{All, All-weaken, All-append, All-selected, select_where}
use minnal_labs.Models.{Device, FirmwareRolloutDevice}
use minnal_labs.World.{Tables}
use minnal_labs.Ota.Batches.{device_pending}
use minnal_labs.Ota.Rollout.{join_devices}
use minnal_labs.Ota.Dispatch.{
  comes_before, earlier, earliest, has_state, insert_target, by_device, batch_targets,
}

some-inj : {x y : FirmwareRolloutDevice} → some x ≡ some y → x ≡ y
some-inj e = cc

first_batch-le :
    (b : Bool) (x s r : FirmwareRolloutDevice) (rs : List FirmwareRolloutDevice)
    → comes_before x s ≡ b
    → (if b then x else s) ≡ r
    → All (λ y. s.batch_number ≤ y.batch_number) rs
    → (r.batch_number ≤ x.batch_number) × All (λ y. r.batch_number ≤ y.batch_number) rs
first_batch-le true x s r rs t e h =
    rw (sym e) (omega arith, All-weaken _ _ rs (λ y le. ground (arith, le, t)) h)
first_batch-le false x s r rs t e h = rw (sym e) (ground (arith, t), h)

-- the row that `earliest` finds is of the lowest batch
earliest-le :
    (rs : List FirmwareRolloutDevice) (r : FirmwareRolloutDevice)
    → earliest rs ≡ some r
    → All (λ y. r.batch_number ≤ y.batch_number) rs
unfolding earliest
earliest-le [] r e = tt
earliest-le (x ∷ []) r e = rw (sym (some-inj e)) (omega arith, tt)
earliest-le (x ∷ y ∷ ys) r e =
    let s = earlier y (earliest ys) in
    first_batch-le (comes_before x s) x s r (y ∷ ys) refl (some-inj e) (earliest-le (y ∷ ys) s refl)

abbrev Target : Type 0
Target = FirmwareRolloutDevice × Device

All-map :
    {A B : Type 0} (P : B → Type 0) (f : A → B) (xs : List A)
    → All (λ a. P (f a)) xs
    → All P (map f xs)
All-map P f [] h = tt
All-map P f (x ∷ xs) h = (h.0, All-map P f xs h.1)

-- each joined row is one of the rows, with a device of its number
join-All :
    (P : FirmwareRolloutDevice → Type 0) (rs : List FirmwareRolloutDevice) (ds : List Device)
    → All P rs
    → All (λ (x : Target). P x.0 × (x.1.id ≡ x.0.device_id)) (join_devices rs ds)
unfolding join_devices
join-All P [] ds h = tt
join-All P (r ∷ rs) ds h =
    All-append _ _ (join_devices rs ds)
      (All-map _ (λ (d : Device). (r, d)) (select_where (λ d. d.id == r.device_id) ds)
        (All-selected _ (λ d. d.id == r.device_id) (λ d e. (h.0, (==_iff d.id r.device_id).0 e))
          ds))
      (join-All P rs ds h.1)

module _ (P : Target → Type 0) where
  insert-All : (x : Target) (ys : List Target) → P x → All P ys → All P (insert_target x ys)
  unfolding insert_target
  insert-All x [] p h = (p, tt)
  insert-All x (y ∷ ys) p h = elim (Bool-cases (leb x.0.device_id y.0.device_id)) [
    | inl e ↦ rw e (p, h)
    | inr e ↦ rw e (h.0, insert-All x ys p h.1)
  ]

  by_device-All : (xs : List Target) → All P xs → All P (by_device xs)
  unfolding by_device
  by_device-All [] h = tt
  by_device-All (x ∷ xs) h = insert-All x (by_device xs) h.0 (by_device-All xs h.1)

-- If `next` is the row that a pass starts from, every target of the pass is a pending row of that
-- rollout and of the batch of `next`, together with its own device, and no pending row of the rollout
-- is of a lower batch.
pub batch_targets-in_order :
    (t : Tables) (id : ℕ) (next : FirmwareRolloutDevice)
    → earliest (select_where (has_state id device_pending) t.rollout_devices) ≡ some next
    → All
        (λ (x : FirmwareRolloutDevice × Device).
          ((has_state id device_pending x.0 ≡ true) × (x.0.batch_number ≡ next.batch_number))
          × (x.1.id ≡ x.0.device_id))
        (batch_targets id next.batch_number t)
      × All
          (λ y. next.batch_number ≤ y.batch_number)
          (select_where (has_state id device_pending) t.rollout_devices)
unfolding batch_targets
batch_targets-in_order t id next e = (
  by_device-All _ _ (
      join-All (λ r. (has_state id device_pending r ≡ true) × (r.batch_number ≡ next.batch_number))
        _ t.devices
        (All-selected _ _
          (λ r p.
            (ground (arith, p), (==_iff r.batch_number next.batch_number).0 (ground (arith, p))))
          t.rollout_devices)),
  earliest-le _ next e,
)
