-- ===== src/Deletion.antt =====
-- internal/deletion/deletion.go: a home or a user is marked, and the queue does the rest. The
-- transaction and the database are never nil here; `now` is the caller's time, `later` is read when a
-- job is put into the queue.
pub mod Copies
pub mod Intent
pub mod Worker
pub mod Queue
pub mod Provision
pub mod Cleanup
pub mod Load
pub mod Process
pub mod Schedule
pub mod Steps
pub mod Lasting
use minnal_labs.Base.{
  ℕ, String, Bool, true, false, not, ◌&&◌, Option, none, some, List, [], ◌∷◌, map, ◌==◌, is_some,
  if◌then◌else◌,
}
use minnal_labs.Base.Rows.{first_where, select_where, update_where, delete_where}
use minnal_labs.Base.Exec.{Exec, pure, fail, wrapped, ◌>>=◌, ◌>>◌}
use minnal_labs.Models.{User, AdminUser, Home, state_deleting}
use minnal_labs.World.{World, Tables, execute, query, query_first, transaction, wrap, errorf}
use minnal_labs.HomeJobs.Queue.{Config, replace_with_cleanup_job}
use minnal_labs.HomeJobs.Worker.{is_live_home, on_homes, with_state}

-- `ScheduleHomeDeletion`
unfoldable pub schedule_home_deletion : Config → ℕ → ℕ → ℕ → Exec World Unit
unfolding execute update_where replace_with_cleanup_job
schedule_home_deletion c now later home_id =
    if home_id == 0
    then fail (errorf "home id is required")
    else wrapped (wrap "mark home deleting") (
        execute (on_homes (update_where (is_live_home home_id) (with_state now state_deleting ""))))
      >> wrapped (wrap "enqueue home cleanup") (replace_with_cleanup_job c later home_id)

-- UserDeletionResult
pub record UserDeletionResult : Type 0 where
  pub user_id : ℕ
  pub home_ids : List ℕ

abbrev pub is_live_user : ℕ → User → Bool
is_live_user id u = (u.id == id) && not (is_some u.deleted_at)

abbrev pub owns_live_home : ℕ → Home → Bool
owns_live_home user_id h = (h.user_id == user_id) && not (is_some h.deleted_at)

abbrev pub deleted_user : ℕ → User → User
deleted_user now u = record u { deleted_at = some now }

-- the loop over `result.HomeIDs`
unfoldable pub schedule_homes : Config → ℕ → ℕ → List ℕ → Exec World Unit
unfolding schedule_home_deletion
schedule_homes c now later [] = pure tt
schedule_homes c now later (id ∷ ids) =
    schedule_home_deletion c now later id >> schedule_homes c now later ids

-- the body of the transaction of `ScheduleUserDeletion`
unfoldable pub delete_user_rows : Config → ℕ → ℕ → ℕ → Exec World (List ℕ)
unfolding query_first query execute first_where select_where update_where delete_where
    schedule_homes
delete_user_rows c now later user_id = do
  wrapped (wrap "load user") (query_first (λ t. first_where (is_live_user user_id) t.users))
  ids ←
      wrapped (wrap "load user homes")
        (query (λ t. map (λ h. h.id) (select_where (owns_live_home user_id) t.homes)))
  wrapped (wrap "remove admin membership") (
      execute
        (λ t. record t { admin_users = delete_where (λ a. a.user_id == user_id) t.admin_users }))
  wrapped (wrap "soft delete user") (
      execute
        (λ t. record t { users = update_where (is_live_user user_id) (deleted_user now) t.users }))
  schedule_homes c now later ids
  pure ids

-- `ScheduleUserDeletion`. Beside an error the code also returns the homes that it has found so far, which
-- no caller reads.
unfoldable pub schedule_user_deletion : Config → ℕ → ℕ → ℕ → Exec World UserDeletionResult
unfolding transaction delete_user_rows
schedule_user_deletion c now later user_id =
    if user_id == 0
    then fail (errorf "user id is required")
    else transaction (delete_user_rows c now later user_id) >>= λ ids.
        pure (record { user_id = user_id; home_ids = ids })
