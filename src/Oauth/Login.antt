-- ===== src/Oauth/Login.antt =====
-- internal/oauth/oauth.go, internal/oauth/token_middleware.go: how a user signs in and out, and who a
-- bearer token stands for. The hash function of bcrypt is a parameter: whether a password fits a hash.
use Prim.Native.String.{◌++◌ as append}
use minnal_labs.Base.{
  ℕ, ◌≡◌, refl, arith, inl, inr, Bool-cases, String, Bool, true, false, not, ◌&&◌, ◌||◌, Option,
  none, some, str_eq, is_some, if◌then◌else◌,
}
use minnal_labs.Base.Rows.{first_where}
use minnal_labs.Base.Text.{trim_space, to_lower, has_prefix, cut}
use minnal_labs.Base.Text.Decimal.{decimal, parse_uint}
use minnal_labs.Base.Exec.{Outcome, ok, err, Error, Exec, pure, fail, ignored, or_else, ◌>>=◌, ◌>>◌}
use minnal_labs.Models.{User}
use minnal_labs.World.{World, query, query_first, errorf}
use minnal_labs.Http.{success, Handler, refuse, or_refuse, present, checked}
use minnal_labs.Config.{AppConfig}
use minnal_labs.HomeJobs.Queue.{Config}
use minnal_labs.Validation.{normalize_username, validate_username, validate_password}
use minnal_labs.Deletion.{UserDeletionResult, schedule_user_deletion}
use minnal_labs.State.Session.{delete_sessions_for_user}
use minnal_labs.Oauth.Store.{purge_tokens_for_user}
use minnal_labs.Oauth.Session.{
  Cookies, SessionUser, Cookie, is_admin_user, session_cookie, expired_session_cookie,
  issue_session, destroy_session, restore_session_from_request,
}

-- `sanitizeRedirect`
unfoldable pub sanitize_redirect : String → String
unfolding has_prefix trim_space
sanitize_redirect target =
    let path = trim_space target in
    if str_eq path "" || not (has_prefix path "/") || has_prefix path "//" then "/" else path

abbrev after_password : Outcome Unit → String → Outcome String
after_password (ok _) username = ok username
after_password (err e) username = err e

abbrev after_username : Outcome Unit → Outcome Unit → String → Outcome String
after_username (ok _) r username = after_password r username
after_username (err e) r username = err e

-- `validateLoginInput`
unfoldable pub validate_login_input : String → String → Outcome String
unfolding validate_username validate_password
validate_login_input username password =
    let name = normalize_username username in
    after_username (validate_username name) (validate_password password) name

abbrev pub is_named : String → User → Bool
is_named username u = str_eq u.username username && not (is_some u.deleted_at)

-- the answer with a user, `authResponse`
pub record AuthResponse : Type 0 where
  pub user_id : ℕ
  pub username : String
  pub is_admin : Bool

module _ (fits : String → String → Bool) where
  -- `authenticateUser`
  unfoldable pub authenticate_user : String → String → Exec World User
  unfolding query_first query first_where
  authenticate_user username password =
      or_else (query_first (λ t. first_where (is_named username) t.users))
        (λ e. fail (errorf "invalid credentials"))
        (λ u. if fits u.password password then pure u else fail (errorf "invalid credentials"))

  module _ (sha256 : String → ℕ) (cfg : Option AppConfig) (now : ℕ) (fresh : Option String)
      (cookies : Cookies) where
    -- the handler of `POST /login`: the target of the redirection
    unfoldable pub login_form : String → String → String → Handler (Cookie × String)
    unfolding validate_login_input authenticate_user issue_session sanitize_redirect
    login_form username password redirect =
        checked (validate_login_input username password) 400 (λ name.
          or_refuse (authenticate_user name password) 401 "Invalid credentials" (λ u.
            or_refuse (issue_session sha256 cfg now fresh cookies u) 500 "Failed to create session"
              (λ c. pure (success 302 (c, sanitize_redirect redirect)))))

    -- the handler of `POST /api/session/login`
    unfoldable pub login : Option (String × String) → Handler (Cookie × AuthResponse)
    unfolding validate_login_input authenticate_user issue_session is_admin_user
    login body = present body 400 "invalid request" (λ (username, password).
        checked (validate_login_input username password) 400 (λ name.
          or_refuse (authenticate_user name password) 401 "invalid credentials" (λ u.
            or_refuse (issue_session sha256 cfg now fresh cookies u) 500 "failed to create session"
              (λ c. is_admin_user u.id >>= λ admin. pure (
                success 200
                  (c, record { user_id = u.id; username = u.username; is_admin = admin }))))))

module _ (sha256 : String → ℕ) (cfg : Option AppConfig) (c : Config) (redis : Bool) (now later : ℕ)
    (cookies : Cookies) where
  abbrev not_deleted : Error → Handler UserDeletionResult
  not_deleted e =
      if e.not_found
      then destroy_session sha256 cfg later cookies >> refuse 404 "user not found"
      else refuse 500 "failed to delete user"

  -- the handler of `DELETE /api/session/me`
  unfoldable pub delete_me : Option SessionUser → Handler UserDeletionResult
  unfolding schedule_user_deletion destroy_session delete_sessions_for_user purge_tokens_for_user
  delete_me user = present user 401 "unauthorized" (λ u.
      or_else (schedule_user_deletion c now later u.user_id) not_deleted (λ result.
        delete_sessions_for_user u.user_id
        >> destroy_session sha256 cfg later cookies
        >> ignored (purge_tokens_for_user redis (decimal u.user_id))
        >> pure (success 200 result)))

  -- what `userAuthorizeHandler` does: the user's number as a text, or a redirection to the login
  -- page with the escaped address of the request
  pub data Authorization : Type 0 where
    granted : String → Cookie → Authorization
    login_page : String → Cookie → Authorization

  abbrev authorization : String → Option SessionUser → Authorization
  authorization url none =
      login_page (append "/login?redirect=" url) (expired_session_cookie cfg now)
  authorization url (some u) = granted (decimal u.user_id) (session_cookie cfg now u.token)

  -- `userAuthorizeHandler`
  unfoldable pub user_authorize_handler : String → Exec World Authorization
  unfolding restore_session_from_request session_cookie expired_session_cookie
  user_authorize_handler url =
      restore_session_from_request sha256 cfg now cookies >>= λ u. pure (authorization url u)

-- the handler of `GET /api/session/me`
unfoldable pub me : Option SessionUser → Handler AuthResponse
me user = present user 401 "unauthorized" (λ u.
    pure
      (success 200 (record { user_id = u.user_id; username = u.username; is_admin = u.is_admin })))

-- the handler of `POST /api/session/logout`
unfoldable pub logout : (String → ℕ) → Option AppConfig → ℕ → Cookies → Handler Cookie
unfolding destroy_session
logout sha256 cfg now cookies =
    destroy_session sha256 cfg now cookies >>= (λ c. pure (success 200 c))

-- `RequireAdmin`, in front of the handlers of internal/admin
unfoldable pub require_admin : {A : Type 0} → Option SessionUser → Handler A → Handler A
require_admin user next =
    present user 401 "unauthorized"
      (λ u. if not u.is_admin then refuse 403 "admin access required" else next)

abbrev token_of : String × Bool × String → Option String
token_of (scheme, found, rest) =
    if not found || not (str_eq (to_lower scheme) "bearer") || str_eq (trim_space rest) ""
    then none
    else some (trim_space rest)

-- `bearerTokenFromHeader`
unfoldable pub bearer_token_from_header : String → Option String
unfolding cut trim_space to_lower
bearer_token_from_header header = token_of (cut b' ' (trim_space header))

-- OAuthPrincipal
pub record OauthPrincipal : Type 0 where
  pub user_id : ℕ
  pub raw_user_id : String
  pub client_id : String

abbrev principal_of : String → String → Option ℕ → Option OauthPrincipal
principal_of raw client none = none
principal_of raw client (some id) =
    some (record { user_id = id; raw_user_id = raw; client_id = client })

-- the part of `RequireOAuthToken` that reads the token's user and client
unfoldable pub principal_from_token : String → String → Option OauthPrincipal
unfolding trim_space parse_uint
principal_from_token user_id client_id =
    let raw = trim_space user_id in
    if str_eq raw "" then none else principal_of raw client_id (parse_uint raw)

module _ (load_access_token : String → Exec World (String × String)) where
  abbrev load_principal : Option String → Exec World (Option OauthPrincipal)
  load_principal none = pure none
  load_principal (some token) =
      or_else (load_access_token token) (λ e. pure none)
        (λ (user, client). pure (principal_from_token user client))

  -- `RequireOAuthToken`: the manager of the OAuth library is a parameter that loads a token's user and
  -- client; `none` is the answer 401
  unfoldable pub require_oauth_token : String → Exec World (Option OauthPrincipal)
  unfolding bearer_token_from_header principal_from_token
  require_oauth_token header = load_principal (bearer_token_from_header header)

-- Where a sign-in leads to is a path on this server: it starts with a slash, and not with two.
pub sanitize_redirect-IsLocal :
    (target : String)
    → (has_prefix (sanitize_redirect target) "/" ≡ true)
      × (has_prefix (sanitize_redirect target) "//" ≡ false)
unfolding sanitize_redirect
sanitize_redirect-IsLocal target =
    elim (Bool-cases (
      str_eq (trim_space target) ""
      || not (has_prefix (trim_space target) "/")
      || has_prefix (trim_space target) "//")) [
        | inl e ↦ rw e (refl, refl)
        | inr e ↦ rw e (local _ _ _ e)
      ]
  where
    local : (a b c : Bool) → a || not b || c ≡ false → (b ≡ true) × (c ≡ false)
    local a b c e = ground (arith, e)
