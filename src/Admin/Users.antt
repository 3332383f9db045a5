-- ===== src/Admin/Users.antt =====
-- internal/admin/admin.go: how an administrator deletes a user.
use minnal_labs.Base.{ℕ, String, Bool, Option, ◌==◌, if◌then◌else◌}
use minnal_labs.Base.Text.Decimal.{decimal, parse_uint}
use minnal_labs.Base.Exec.{Error, Exec, pure, ignored, or_else, ◌>>◌}
use minnal_labs.World.{World}
use minnal_labs.Http.{success, Handler, refuse, present}
use minnal_labs.Config.{AppConfig}
use minnal_labs.HomeJobs.Queue.{Config}
use minnal_labs.Deletion.{UserDeletionResult, schedule_user_deletion}
use minnal_labs.State.Session.{delete_sessions_for_user}
use minnal_labs.Oauth.Store.{purge_tokens_for_user}
use minnal_labs.Oauth.Session.{Cookies, SessionUser, destroy_session}

abbrev pub deletion_failed : Error → Handler UserDeletionResult
deletion_failed e =
    if e.not_found then refuse 404 "user not found" else refuse 500 "failed to delete user"

module _ (sha256 : String → ℕ) (cfg : Option AppConfig) (c : Config) (redis : Bool) (now later : ℕ)
    (cookies : Cookies) where
  -- the session of the request ends too if the administrator deletes the own account
  unfoldable pub end_own_session : Bool → Exec World Unit
  unfolding destroy_session
  end_own_session own = if own then destroy_session sha256 cfg later cookies >> pure tt else pure tt

  -- `deleteUser`
  unfoldable pub delete_user : Option SessionUser → String → Handler UserDeletionResult
  unfolding schedule_user_deletion delete_sessions_for_user end_own_session purge_tokens_for_user
      parse_uint
  delete_user session user_param = present (parse_uint user_param) 400 "invalid user id" (λ user_id.
      present session 401 "unauthorized" (λ s.
        or_else (schedule_user_deletion c now later user_id) deletion_failed (λ result.
          delete_sessions_for_user user_id
          >> end_own_session (user_id == s.user_id)
          >> ignored (purge_tokens_for_user redis (decimal user_id))
          >> pure (success 200 result))))
