-- ===== src/Ota/Stall.antt =====
-- internal/ota/rollout.go, `refreshRolloutCompletion`: what it leaves of a rollout that is not over.
use minnal_labs.Base.{ℕ, String, ◌≡◌, refl, false, inl, inr, List, [], ◌∷◌, arith, ◌==◌, Bool-cases}
use minnal_labs.Base.Rows.{All, update_where}
use minnal_labs.Base.Exec.{ok}
use minnal_labs.Models.{FirmwareRollout, FirmwareRolloutDevice}
use minnal_labs.World.{World}
use minnal_labs.World.Maintains.{Maintains, maintains_rules}
use minnal_labs.World.Commits.{Commits, Commits-bind, Commits-execute, Commits-Maintains}
use minnal_labs.Ota.Dispatch.{refreshed, count_rows, refresh_rollout_completion, is_due_rollout}

refreshed-not_due :
    (now later id pending sent : ℕ) (rs : List FirmwareRollout)
    → All
        (λ r. r.id ≡ id → is_due_rollout later r ≡ false)
        (update_where (λ r. r.id == id) (refreshed now pending sent) rs)
unfolding update_where
refreshed-not_due now later id pending sent [] = tt
refreshed-not_due now later id pending sent (r ∷ rs) = elim (Bool-cases (r.id == id)) [
  | inl e ↦ rw e ((λ _. never), refreshed-not_due now later id pending sent rs)
  | inr e ↦
      rw e ((λ t. absurd (ground (arith, t, e))), refreshed-not_due now later id pending sent rs)
]
  where
    never : is_due_rollout later (refreshed now pending sent r) ≡ false
    never = ground arith

module _ (id : ℕ) (rows : List FirmwareRolloutDevice) where
  count_rows-Maintains :
      (state : String) → Maintains (λ t n. t.rollout_devices ≡ rows) (count_rows id state)
  unfolding count_rows
  count_rows-Maintains state = search (maintains_rules) depth 9

  refresh-Commits :
      (now later : ℕ)
      → Commits
          (λ t n. t.rollout_devices ≡ rows)
          (λ t n.
            (t.rollout_devices ≡ rows)
            × All (λ r. r.id ≡ id → is_due_rollout later r ≡ false) t.rollouts)
          (refresh_rollout_completion now id)
  unfolding refresh_rollout_completion
  refresh-Commits now later =
      Commits-bind _ _ (Commits-Maintains _ (count_rows-Maintains "pending")) (λ pending.
        Commits-bind _ _ (Commits-Maintains _ (count_rows-Maintains "sent")) (λ sent.
          Commits-execute _ (λ t n h. (h, refreshed-not_due now later id pending sent t.rollouts))))

-- After `refreshRolloutCompletion` the rollout is due at no time, whatever its devices: their rows are
-- unchanged, those that still wait for their batch included, and no pass of the worker looks at them.
pub refresh_rollout_completion-stalls :
    (now later id : ℕ) (w : World)
    → (refresh_rollout_completion now id w).0 ≡ ok tt
    → ((refresh_rollout_completion now id w).1.tables.rollout_devices ≡ w.tables.rollout_devices)
      × All
          (λ r. r.id ≡ id → is_due_rollout later r ≡ false)
          (refresh_rollout_completion now id w).1.tables.rollouts
refresh_rollout_completion-stalls now later id w e =
    (refresh-Commits id w.tables.rollout_devices now later).at w tt refl e
