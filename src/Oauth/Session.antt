-- ===== src/Oauth/Session.antt =====
-- internal/oauth/session.go: the session of a browser, by its cookie. The settings are there once
-- `initSessionConfig` ran; `none` stands for the time before. A request has the cookies by name.
use minnal_labs.Base.{
  ℕ, ◌+◌, String, Bool, true, false, ◌||◌, Option, none, some, List, [], ◌∷◌, ◌==◌, str_eq,
  if◌then◌else◌,
}
use minnal_labs.Base.Rows.{any}
use minnal_labs.Base.Text.{trim_space}
use minnal_labs.Base.Exec.{Exec, pure, or_else, ◌>>=◌, ◌>>◌}
use minnal_labs.Models.{User}
use minnal_labs.World.{World, SessionInfo, query}
use minnal_labs.Config.{
  AppConfig, SameSite, same_site_lax, same_site_none, session_same_site, or_default, session_ttl,
}
use minnal_labs.State.Session.{create_session, touch_session, delete_session}

abbrev pub Cookies : Type 0
Cookies = List (String × String)

pub record SessionUser : Type 0 where
  pub token : String
  pub user_id : ℕ
  pub username : String
  pub is_admin : Bool

-- http.Cookie; a `max_age` of none is -1, which deletes the cookie
pub record Cookie : Type 0 where
  pub name : String
  pub value : String
  pub domain : String
  pub expires : ℕ
  pub max_age : Option ℕ
  pub secure : Bool
  pub same_site : SameSite

-- `IsAdminUser`: an error of the query is a no
unfoldable pub is_admin_user : ℕ → Exec World Bool
unfolding query
is_admin_user user_id =
    if user_id == 0
    then pure false
    else or_else (query (λ t. any (λ a. a.user_id == user_id) t.admin_users)) (λ e. pure false) pure

-- `sessionCookieName`
unfoldable pub session_cookie_name : Option AppConfig → String
session_cookie_name none = "user_session"
session_cookie_name (some c) = or_default "user_session" (trim_space c.session_cookie_name)

abbrev cookie_or_blank : Option String → String
cookie_or_blank none = ""
cookie_or_blank (some value) = trim_space value

-- `r.Cookie(name)`
unfoldable pub find_cookie : String → Cookies → Option String
find_cookie name [] = none
find_cookie name ((n, value) ∷ cookies) =
    let rest = find_cookie name cookies in if str_eq n name then some value else rest

-- `sessionTokenFromRequest`
unfoldable pub session_token_from_request : Option AppConfig → Cookies → String
unfolding session_cookie_name find_cookie
session_token_from_request cfg cookies =
    cookie_or_blank (find_cookie (session_cookie_name cfg) cookies)

abbrev is_none_mode : SameSite → Bool
is_none_mode same_site_none = true
is_none_mode _ = false

-- `sessionCookie`
unfoldable pub session_cookie : Option AppConfig → ℕ → String → Cookie
unfolding session_cookie_name session_same_site
session_cookie none now token = record {
  name = session_cookie_name none;
  value = token;
  domain = "";
  expires = now + session_ttl;
  max_age = some 604800;
  secure = true;
  same_site = same_site_lax;
}
session_cookie (some c) now token = record {
  name = session_cookie_name (some c);
  value = token;
  domain = trim_space c.session_domain;
  expires = now + session_ttl;
  max_age = some 604800;
  secure = c.session_secure || is_none_mode (session_same_site c);
  same_site = session_same_site c;
}

-- `expiredSessionCookie`
unfoldable pub expired_session_cookie : Option AppConfig → ℕ → Cookie
unfolding session_cookie
expired_session_cookie cfg now = record (session_cookie cfg now "") {
  value = "";
  expires = 0;
  max_age = none;
}

abbrev pub session_user : String → Option SessionInfo → Option SessionUser
session_user token none = none
session_user token (some info) = some (record {
  token = token;
  user_id = info.user_id;
  username = info.username;
  is_admin = info.is_admin;
})

module _ (sha256 : String → ℕ) (cfg : Option AppConfig) (now : ℕ) where
  -- the part of `issueSession` and `destroySession` that ends the session of the request
  unfoldable pub drop_current : String → Exec World Unit
  unfolding delete_session
  drop_current token =
      if str_eq token "" then pure tt else delete_session sha256 session_ttl now token

  -- `issueSession`, with the cookie that it sets; `fresh` is the new token, if random bytes are there
  unfoldable pub issue_session : Option String → Cookies → User → Exec World Cookie
  unfolding drop_current session_token_from_request is_admin_user create_session session_cookie
  issue_session fresh cookies user =
      drop_current (session_token_from_request cfg cookies)
      >> (is_admin_user user.id
          >>= (λ admin. create_session sha256 session_ttl now fresh user.id user.username admin))
      >>= (λ (token, _). pure (session_cookie cfg now token))

  -- `destroySession`
  unfoldable pub destroy_session : Cookies → Exec World Cookie
  unfolding drop_current session_token_from_request expired_session_cookie
  destroy_session cookies =
      drop_current (session_token_from_request cfg cookies) >> pure (expired_session_cookie cfg now)

  -- `restoreSessionFromRequest`
  unfoldable pub restore_session_from_request : Cookies → Exec World (Option SessionUser)
  unfolding session_token_from_request touch_session
  restore_session_from_request cookies =
      let token = session_token_from_request cfg cookies in
      if str_eq token ""
      then pure none
      else touch_session sha256 session_ttl now token >>= (λ info. pure (session_user token info))

  abbrev cookie_for : Option SessionUser → Option SessionUser × Cookie
  cookie_for none = (none, expired_session_cookie cfg now)
  cookie_for (some u) = (some u, session_cookie cfg now u.token)

  -- `RequireSession`: the user for the handler, or none if the answer is 401, and the cookie
  unfoldable pub require_session : Cookies → Exec World (Option SessionUser × Cookie)
  unfolding restore_session_from_request session_cookie expired_session_cookie
  require_session cookies = restore_session_from_request cookies >>= (λ u. pure (cookie_for u))
