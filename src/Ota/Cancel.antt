-- ===== src/Ota/Cancel.antt =====
-- internal/ota/rollout.go: a new rollout is the only active one of its product.
use minnal_labs.Base.{
  ℕ, ◌≡◌, refl, sym, Bool, true, false, ◌||◌, inl, inr, List, [], ◌∷◌, arith, ◌==◌, Bool-cases,
  true≢false, ==_refl, subst,
}
use minnal_labs.Base.Rows.{All, All-weaken, select_where, update_where, any}
use minnal_labs.Base.Exec.{ok, pure}
use minnal_labs.Models.{Device, FirmwareRollout, FirmwareRolloutDevice}
use minnal_labs.World.{World, Tables, execute}
use minnal_labs.World.Maintains.{
  Maintains, Maintains-execute, Maintains-or_else, Maintains-query, Maintains-pure, Maintains-bind,
  Maintains-ignored,
}
use minnal_labs.World.Commits.{
  Commits, Commits-bind, Commits-execute, Commits-Maintains, Commits-pure,
}
use minnal_labs.World.Query.{Commits-query_plain}
use minnal_labs.Mqtt.Untouched.{clear_retained-Maintains}
use minnal_labs.Ota.Rollout.{
  is_active_of, on_rollout_devices, is_row, row_cancelled, rollout_cancelled, clear_targets,
  clear_retained_for_rollout, cancel_rollouts, cancel_active_rollouts_for_product,
}

or-right : (a b : Bool) → b ≡ true → (a || b) ≡ true
or-right a b e = ground (arith, e)

or-rest : (a b : Bool) → a ≡ false → (a || b) ≡ true → b ≡ true
or-rest a b e h = ground (arith, e, h)

-- an active rollout of the product is one that is still to be cancelled
abbrev IsListed : ℕ → List FirmwareRollout → FirmwareRollout → Type 0
IsListed product_id todo r = is_active_of product_id r ≡ true → any (λ x. r.id == x.id) todo ≡ true

selected-IsListed :
    (product_id : ℕ) (rs : List FirmwareRollout)
    → All (IsListed product_id (select_where (is_active_of product_id) rs)) rs
unfolding select_where
selected-IsListed product_id [] = tt
selected-IsListed product_id (r ∷ rs) = elim (Bool-cases (is_active_of product_id r)) [
  | inl e ↦
      subst (λ l. All (IsListed product_id l) (r ∷ rs)) (sym (kept e))
        (
          (λ _. ground (arith, ==_refl r.id)),
          All-weaken _ _ rs (λ x h a. or-right (x.id == r.id) _ (h a))
              (selected-IsListed product_id rs),
        )
  | inr e ↦
      subst (λ l. All (IsListed product_id l) (r ∷ rs)) (sym (dropped e))
        ((λ t. absurd (true≢false t e)), selected-IsListed product_id rs)
]
  where
    kept :
        is_active_of product_id r ≡ true
        → select_where (is_active_of product_id) (r ∷ rs)
          ≡ r ∷ select_where (is_active_of product_id) rs
    kept e = rw e refl

    dropped :
        is_active_of product_id r ≡ false
        → select_where (is_active_of product_id) (r ∷ rs)
          ≡ select_where (is_active_of product_id) rs
    dropped e = rw e refl

cancel-IsListed :
    (product_id now : ℕ) (r : FirmwareRollout) (todo xs : List FirmwareRollout)
    → All (IsListed product_id (r ∷ todo)) xs
    → All (IsListed product_id todo) (update_where (λ x. x.id == r.id) (rollout_cancelled now) xs)
unfolding update_where
cancel-IsListed product_id now r todo [] h = tt
cancel-IsListed product_id now r todo (x ∷ xs) h = elim (Bool-cases (x.id == r.id)) [
  | inl e ↦ rw e ((λ a. absurd (not_active a)), cancel-IsListed product_id now r todo xs h.1)
  | inr e ↦
      rw e ((λ a. or-rest (x.id == r.id) _ e (h.0 a)), cancel-IsListed product_id now r todo xs h.1)
]
  where
    not_active : is_active_of product_id (rollout_cancelled now x) ≡ true → ⊥
    not_active a = ground (arith, a)

-- facts about the rollouts do not depend on the devices' rows
abbrev IgnoresRows : (Tables → ℕ → Type 0) → Type 0
IgnoresRows P =
    (t : Tables) (n : ℕ) (f : List FirmwareRolloutDevice → List FirmwareRolloutDevice)
    → P t n
    → P (on_rollout_devices f t) n

module _ {P : Tables → ℕ → Type 0} where
  module _ (ignores : IgnoresRows P) where
    clear_row-Maintains :
        (now rollout_id device_id : ℕ)
        → Maintains P (
            execute
              (on_rollout_devices (update_where (is_row rollout_id device_id) (row_cancelled now))))
    clear_row-Maintains now rollout_id device_id =
        Maintains-execute _
          (λ t n h. ignores t n (update_where (is_row rollout_id device_id) (row_cancelled now)) h)

    clear_targets-Maintains :
        (now rollout_id : ℕ) (ts : List (FirmwareRolloutDevice × Device))
        → Maintains P (clear_targets now rollout_id ts)
    unfolding clear_targets
    clear_targets-Maintains now rollout_id [] = Maintains-pure tt
    clear_targets-Maintains now rollout_id ((r, d) ∷ ts) =
        Maintains-bind _ _
          (Maintains-or_else _ _ _ (clear_retained-Maintains d) (λ e. Maintains-pure tt)
            (λ _. Maintains-ignored _ (clear_row-Maintains now rollout_id d.id)))
          (λ _. clear_targets-Maintains now rollout_id ts)

    clear_rollout-Maintains :
        (now rollout_id : ℕ) → Maintains P (clear_retained_for_rollout now rollout_id)
    unfolding clear_retained_for_rollout
    clear_rollout-Maintains now rollout_id =
        Maintains-or_else _ _ _ (Maintains-query _) (λ e. Maintains-pure tt)
          (clear_targets-Maintains now rollout_id)

abbrev pub NoneActive : ℕ → Tables → ℕ → Type 0
NoneActive product_id t n = All (λ r. is_active_of product_id r ≡ false) t.rollouts

module _ (product_id now later : ℕ) where
  cancel_rollouts-Commits :
      (todo : List FirmwareRollout)
      → Commits
          (λ t n. All (IsListed product_id todo) t.rollouts)
          (NoneActive product_id)
          (cancel_rollouts now later todo)
  unfolding cancel_rollouts pure
  cancel_rollouts-Commits [] = record {
    at = λ w a h e. All-weaken _ _ w.tables.rollouts (λ r k. unlisted r k) h;
    grows = (Commits-pure {P = NoneActive product_id} tt).grows;
  }
    where
      unlisted :
          (r : FirmwareRollout) → IsListed product_id [] r → is_active_of product_id r ≡ false
      unlisted r k = elim (Bool-cases (is_active_of product_id r)) [
        | inl e ↦ absurd (ground (arith, k e))
        | inr e ↦ e
      ]
  cancel_rollouts-Commits (r ∷ rs) =
      Commits-bind _ _
        (Commits-bind _ _
          (Commits-execute _ (λ t n h. cancel-IsListed product_id now r rs t.rollouts h))
          (λ _. Commits-Maintains _ (clear_rollout-Maintains (λ t n f h. h) later r.id)))
        (λ _. cancel_rollouts-Commits rs)

  pub cancel-Commits :
      Commits
        (λ t n. Unit)
        (NoneActive product_id)
        (cancel_active_rollouts_for_product now later product_id)
  unfolding cancel_active_rollouts_for_product
  cancel-Commits = Commits-query_plain _ _ (λ rs. record {
    at = λ w a h e.
        (cancel_rollouts-Commits rs).at w a
          (subst (λ x. All (IsListed product_id x) w.tables.rollouts) h.1
            (selected-IsListed product_id w.tables.rollouts))
          e;
    grows = (cancel_rollouts-Commits rs).grows;
  })

  -- When `cancelActiveRolloutsForProduct` returns no error, no rollout of the product is pending or
  -- running, whichever retained commands could not be cleared.
  pub cancel_active-cancels :
      (w : World)
      → (cancel_active_rollouts_for_product now later product_id w).0 ≡ ok tt
      → All
          (λ r. is_active_of product_id r ≡ false)
          (cancel_active_rollouts_for_product now later product_id w).1.tables.rollouts
  cancel_active-cancels w e = cancel-Commits.at w tt tt e
