-- ===== src/Oauth/SessionTests.antt =====
-- Runs of internal/oauth/session.go and of the start of internal/oauth/oauth.go.
use minnal_labs.Base.{ℕ, ◌≡◌, refl, arith, String, true, none, some, [], ◌∷◌, str_eq, if◌then◌else◌}
use minnal_labs.Base.Map.{write}
use minnal_labs.Base.Text.{trim_space, trim_left, trim_right}
use minnal_labs.Base.Exec.{◌>>=◌}
use minnal_labs.Models.{User}
use minnal_labs.World.{World, SessionInfo}
use minnal_labs.World.Sample.{empty_world}
use minnal_labs.World.Runs.{Succeeds}
use minnal_labs.Config.Tests.{settings}
use minnal_labs.Oauth.Session.{
  Cookies, session_cookie_name, find_cookie, session_token_from_request, issue_session,
  destroy_session, restore_session_from_request,
}
use minnal_labs.Oauth.Client.{default_oauth_client_id, ensure_oauth_client, configured_secret}
use minnal_labs.Oauth.Signin.{is_admin_in, issue_session-restores}
use minnal_labs.Oauth.Signout.{destroy_session-ends}
use minnal_labs.Oauth.Secret.{IsSecured, ensure_oauth_client-secures}

-- a digest that tells the empty text from the others
abbrev sha256 : String → ℕ
sha256 token = if str_eq token "" then 0 else 1

abbrev alice : User
alice = record { id = 3; deleted_at = none; username = "alice"; password = ""; google_sub = "" }

abbrev start : World
start = record empty_world {
  tables = record empty_world.tables {
    users = alice ∷ [];
    admin_users = record { user_id = 3 } ∷ [];
  };
}

issue_session-restores_example :
    Succeeds
      (λ u v.
        u
        ≡ some (record {
          token = "t1";
          user_id = 3;
          username = "alice";
          is_admin = is_admin_in sha256 100 start.tables 3;
        }))
      ((issue_session sha256 (some settings) 100 (some "t1") [] alice >>= (λ c.
          restore_session_from_request sha256 (some settings) 200 ((c.name, c.value) ∷ [])))
        start)
unfolding trim_space trim_left trim_right
issue_session-restores_example =
    issue_session-restores sha256 (some settings) 100 200 "t1" alice [] start refl refl refl
      (omega arith)

abbrev cookies : Cookies
cookies = ("user_session", "t1") ∷ []

abbrev session : SessionInfo
session = record {
  user_id = 3;
  username = "alice";
  is_admin = true;
  created_at = 50;
  last_seen_at = 60;
}

abbrev signed_in : World
signed_in = record start {
  cache = record start.cache {
    sessions = write 1 (some (session, 900)) start.cache.sessions;
    user_sessions = write 3 (1 ∷ []) start.cache.user_sessions;
  };
}

destroy_session-ends_example :
    Succeeds
      (λ u v. u ≡ none)
      ((destroy_session sha256 (some settings) 100 cookies
          >>= (λ c. restore_session_from_request sha256 (some settings) 101 cookies))
        signed_in)
unfolding session_token_from_request session_cookie_name find_cookie trim_space trim_left trim_right
destroy_session-ends_example =
    destroy_session-ends sha256 (some settings) 100 101 cookies cookies signed_in refl refl refl

ensure_oauth_client-secures_example :
    Succeeds
      (λ _. IsSecured (default_oauth_client_id (some settings)))
      (ensure_oauth_client (some "r4nd0m") (some settings) empty_world)
unfolding configured_secret trim_space trim_left trim_right
ensure_oauth_client-secures_example =
    ensure_oauth_client-secures "r4nd0m" (some settings) empty_world refl (refl, refl)
