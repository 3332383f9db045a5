-- ===== src/Googleauth/Signin.antt =====
-- internal/googleauth/googleauth.go: the handlers of the sign-in with Google. Google's OAuth client is a
-- parameter: the address that it makes for a state, and the account that it answers for a code.
use Prim.Native.String.{◌++◌ as append}
use minnal_labs.Base.{
  ℕ, String, Bool, not, ◌&&◌, ◌||◌, Option, none, some, ◌==◌, str_eq, if◌then◌else◌,
}
use minnal_labs.Base.Rows.{any, first_where, update_where}
use minnal_labs.Base.Exec.{Error, Outcome, ok, err, Exec, pure, or_else, ◌>>=◌, ◌>>◌}
use minnal_labs.Models.{User}
use minnal_labs.World.{World, OauthStatePayload, query, query_first, call, errorf}
use minnal_labs.Deletion.{is_live_user}
use minnal_labs.Base.Text.{trim_space, to_lower}
use minnal_labs.Http.{Response, failure, success, Handler, refuse, or_refuse, present, checked}
use minnal_labs.Config.{AppConfig}
use minnal_labs.Oauth.Session.{
  Cookies, Cookie, SessionUser, issue_session, restore_session_from_request,
}
use minnal_labs.Enrollment.{on_users}
use minnal_labs.Googleauth.{
  oauth_intent_login, oauth_intent_link, store_oauth_state, consume_oauth_state,
}
use minnal_labs.Googleauth.Usernames.{has_sub, find_or_create_google_user}

-- googleUserInfo
pub record GoogleUserInfo : Type 0 where
  pub sub : String
  pub email : String
  pub email_verified : Bool

-- config.GoogleAuthConfig, the part that the handlers test
pub record GoogleAuthConfig : Type 0 where
  pub client_id : String
  pub client_secret : String

abbrev pub is_configured : GoogleAuthConfig → Bool
is_configured c = not (str_eq c.client_id "" || str_eq c.client_secret "")

abbrev pub linked_to : String → User → User
linked_to sub u = record u { google_sub = sub }

-- the part of `fetchGoogleUserInfo` after the answer was read: status, account
unfoldable pub check_user_info : ℕ → Option GoogleUserInfo → Option GoogleUserInfo
check_user_info status none = none
check_user_info status (some info) =
    if not (status == 200) || str_eq info.sub "" then none else some info

module _ (config : GoogleAuthConfig) (auth_code_url : String → String) where
  -- the handler of `GET /auth/google/login`: the address of the redirection
  unfoldable pub google_login : Option String → ℕ → Handler String
  unfolding store_oauth_state
  google_login token now =
      if not (is_configured config)
      then refuse 503 "Google Sign-In is not configured"
      else or_refuse
          (store_oauth_state token now (record { intent = oauth_intent_login; user_id = 0 })) 500
          "failed to generate state" (λ state. pure (success 307 (auth_code_url state)))

  -- the handler of `POST /api/session/link-google`, behind `RequireSession`
  unfoldable pub link_google : Option String → ℕ → Option SessionUser → Handler String
  unfolding store_oauth_state query_first query first_where
  link_google token now session =
      if not (is_configured config)
      then refuse 503 "Google Sign-In is not configured"
      else present session 401 "unauthorized" (λ s.
        or_refuse (query_first (λ t. first_where (is_live_user s.user_id) t.users)) 401
          "unauthorized"
          (λ u.
            if not (str_eq u.google_sub "")
            then refuse 409 "already linked"
            else or_refuse
                (store_oauth_state token now
                  (record { intent = oauth_intent_link; user_id = s.user_id }))
                500 "failed to generate state" (λ state. pure (success 200 (auth_code_url state)))))

-- a user other than the one of this number, deleted users included, who has the identity: the unique
-- index on `google_sub`, which leaves the empty text out
abbrev pub has_sub_of_another : ℕ → String → User → Bool
has_sub_of_another id sub u = not (u.id == id) && not (str_eq sub "") && str_eq u.google_sub sub

unfoldable pub update_sub : ℕ → String → Exec World Unit
unfolding update_where
update_sub id sub w =
    if any (has_sub_of_another id sub) w.tables.users
    then (err (errorf "violates unique constraint"), w)
    else (
      ok tt,
      record w { tables = on_users (update_where (is_live_user id) (linked_to sub)) w.tables },
    )

abbrev pub is_owner : OauthStatePayload → SessionUser → Bool
is_owner payload s = not (s.user_id == 0) && (s.user_id == payload.user_id)

abbrev of_owner : OauthStatePayload → Option SessionUser → Option SessionUser
of_owner payload none = none
of_owner payload (some s) = if is_owner payload s then some s else none

-- the part of `handleGoogleLinkCallback` after the identity was found to be free
unfoldable pub link_user : String → OauthStatePayload → Handler String
unfolding query_first query first_where call update_sub
link_user sub payload =
    or_refuse (query_first (λ t. first_where (is_live_user payload.user_id) t.users)) 401
      "link session mismatch"
      (λ u.
        if not (str_eq u.google_sub "")
        then refuse 409 "account already has a linked google identity"
        else or_refuse (call >> update_sub u.id sub) 500 "failed to link google identity"
            (λ _. pure (success 307 "/?linked=1")))

abbrev free_or_refused : String → OauthStatePayload → Error → Handler String
free_or_refused sub payload e =
    if e.not_found then link_user sub payload else refuse 500 "failed to check google identity"

module _ (sha256 : String → ℕ) (cfg : Option AppConfig) (now : ℕ) (cookies : Cookies) where
  -- `handleGoogleLinkCallback`
  unfoldable pub handle_google_link_callback : OauthStatePayload → GoogleUserInfo → Handler String
  unfolding restore_session_from_request query_first query first_where link_user
  handle_google_link_callback payload info =
      restore_session_from_request sha256 cfg now cookies >>= (λ session.
        present (of_owner payload session) 401 "link session mismatch" (λ _.
          or_else (query_first (λ t. first_where (has_sub info.sub) t.users))
            (free_or_refused info.sub payload) (λ _. refuse 409 "google account already linked")))

  -- `handleGoogleLoginCallback`: the cookie and the target of the redirection
  unfoldable pub handle_google_login_callback :
      String → Option String → GoogleUserInfo → Handler (Cookie × String)
  unfolding find_or_create_google_user issue_session
  handle_google_login_callback name_token fresh info =
      or_refuse (find_or_create_google_user name_token info.sub info.email) 500
        "failed to create user"
        (λ u.
          or_refuse (issue_session sha256 cfg now fresh cookies u) 500 "failed to issue session"
            (λ c. pure (success 307 (c, "/"))))

  -- what a callback leads to: a session's cookie if it signs in, and a path
  abbrev without_cookie : Response String → Response (Option Cookie × String)
  without_cookie (failure status message) = failure status message
  without_cookie (success status path) = success status (none, path)

  abbrev with_cookie : Response (Cookie × String) → Response (Option Cookie × String)
  with_cookie (failure status message) = failure status message
  with_cookie (success status (c, path)) = success status (some c, path)

  -- the `switch` on the intent
  unfoldable pub by_intent :
      String → Option String → OauthStatePayload → GoogleUserInfo → Handler (Option Cookie × String)
  unfolding handle_google_link_callback handle_google_login_callback
  by_intent name_token fresh payload info =
      if str_eq payload.intent oauth_intent_link
      then handle_google_link_callback payload info >>= (λ r. pure (without_cookie r))
      else if str_eq payload.intent oauth_intent_login
      then handle_google_login_callback name_token fresh info >>= (λ r. pure (with_cookie r))
      else refuse 400 "unknown state intent"

  module _ (config : GoogleAuthConfig) (exchange : String → Option String)
      (user_info : String → Option GoogleUserInfo) where
    -- the handler of `GET /auth/google/callback`; a parameter that is not there is the empty text
    unfoldable pub google_callback :
        String → Option String → String → String → Handler (Option Cookie × String)
    unfolding consume_oauth_state by_intent
    google_callback name_token fresh state code =
        if not (is_configured config)
        then refuse 503 "Google Sign-In is not configured"
        else if str_eq state ""
        then refuse 400 "missing state parameter"
        else or_else (consume_oauth_state now state) (λ e. refuse 400 e.message)
            (λ payload.
              if str_eq code ""
              then refuse 400 "missing code parameter"
              else present (exchange code) 400 "failed to exchange code" (λ token.
                present (user_info token) 500 "failed to fetch user info" (λ info.
                  if not info.email_verified
                  then refuse 400 "email not verified by Google"
                  else by_intent name_token fresh payload info)))

  -- the handler of `POST /api/test/google-login` in test_endpoint.go, which only load tests use: the
  -- body has an identity and an address.
  unfoldable pub test_google_login :
      AppConfig → String → Option String → Outcome (String × String) → Handler (Cookie × ℕ × String)
  unfolding find_or_create_google_user issue_session to_lower trim_space
  test_google_login settings name_token fresh body =
      if not (str_eq (to_lower (trim_space settings.server_profile)) "stress")
      then refuse 404 "not found"
      else checked body 400 (λ (google_sub, email).
        or_else (find_or_create_google_user name_token google_sub email)
          (λ e. refuse 500 (append "failed to create user: " e.message))
          (λ u.
            or_else (issue_session sha256 cfg now fresh cookies u)
              (λ e. refuse 500 (append "failed to issue session: " e.message))
              (λ c. pure (success 200 (c, u.id, u.username)))))
