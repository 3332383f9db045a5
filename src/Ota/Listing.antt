-- ===== src/Ota/Listing.antt =====
-- internal/ota/rollout.go: the rollouts of a product with the numbers of their devices.
use minnal_labs.Base.{ℕ, String, ◌&&◌, Option, List, [], ◌∷◌, ltb, ◌==◌, str_eq, if◌then◌else◌}
use minnal_labs.Base.Rows.{length, take, select_where}
use minnal_labs.Base.Rows.Order.{sort_by}
use minnal_labs.Base.Exec.{Exec, pure, or_else, ◌>>=◌}
use minnal_labs.Models.{FirmwareRollout, FirmwareRolloutDevice}
use minnal_labs.World.{World, query}
use minnal_labs.Ota.Batches.{
  device_pending, device_sent, device_updated, device_skipped, device_cancelled, device_failed,
}
use minnal_labs.Ota.Reports.{newer}

pub record RolloutSummary : Type 0 where
  pub id : ℕ
  pub target_version : String
  pub batch_percentage : ℕ
  pub batch_interval_minutes : ℕ
  pub status : String
  pub next_batch_at : Option ℕ
  pub created_at : ℕ
  pub updated_at : ℕ
  pub pending_count : ℕ
  pub sent_count : ℕ
  pub updated_count : ℕ
  pub skipped_count : ℕ
  pub cancelled_count : ℕ
  pub failed_count : ℕ

-- `countMap[rollout][state]`: the rows that `COUNT(*)` with its GROUP BY counts
unfoldable pub count_state : List FirmwareRolloutDevice → ℕ → String → ℕ
unfolding select_where
count_state rows id state =
    length (select_where (λ r. (r.rollout_id == id) && str_eq r.state state) rows)

unfoldable pub summarize : List FirmwareRolloutDevice → FirmwareRollout → RolloutSummary
unfolding count_state
summarize rows r = record {
  id = r.id;
  target_version = r.target_version;
  batch_percentage = r.batch_percentage;
  batch_interval_minutes = r.batch_interval_minutes;
  status = r.status;
  next_batch_at = r.next_batch_at;
  created_at = r.created_at;
  updated_at = r.updated_at;
  pending_count = count_state rows r.id device_pending;
  sent_count = count_state rows r.id device_sent;
  updated_count = count_state rows r.id device_updated;
  skipped_count = count_state rows r.id device_skipped;
  cancelled_count = count_state rows r.id device_cancelled;
  failed_count = count_state rows r.id device_failed;
}

unfoldable pub summaries : List FirmwareRolloutDevice → List FirmwareRollout → List RolloutSummary
unfolding summarize
summaries rows [] = []
summaries rows (r ∷ rs) = summarize rows r ∷ summaries rows rs

-- the rows are loaded if there are rollouts; an error of that query leaves no rows
unfoldable pub with_counts : List FirmwareRollout → Exec World (List RolloutSummary)
unfolding query summaries
with_counts [] = pure []
with_counts (r ∷ rs) =
    or_else (query (λ t. t.rollout_devices)) (λ e. pure (summaries [] (r ∷ rs)))
      (λ rows. pure (summaries rows (r ∷ rs)))

-- `ListRolloutsForProduct`
unfoldable pub list_rollouts_for_product : ℕ → ℕ → Exec World (List RolloutSummary)
unfolding query select_where sort_by with_counts
list_rollouts_for_product product_id limit =
    let most = if ltb 0 limit then limit else 10 in
    query
      (λ t. take most (sort_by newer (select_where (λ r. r.product_id == product_id) t.rollouts)))
    >>= with_counts
