-- ===== src/Googleauth.antt =====
-- internal/googleauth/googleauth.go: signing in with Google. The OAuth client of Google, the random
-- bytes and the answer with the account are parameters.
pub mod Usernames
pub mod Signin
pub mod Once
pub mod Accepted
pub mod Blocked
pub mod Tests
use minnal_labs.Base.{
  ℕ, ◌+◌, ◌*◌, String, Bool, true, false, not, ◌&&◌, ◌||◌, Option, none, some, ltb, ◌==◌, str_eq,
  if◌then◌else◌,
}
use minnal_labs.Base.Map.{write_str}
use minnal_labs.Base.Exec.{Error, Outcome, ok, err, Exec, pure, fail, or_else, ◌>>=◌, ◌>>◌}
use minnal_labs.HomeJobs.Queue.{second}
use minnal_labs.World.{World, Cache, OauthStatePayload, cache_execute, call, errorf}

abbrev pub oauth_intent_login : String
oauth_intent_login = "login"

abbrev pub oauth_intent_link : String
oauth_intent_link = "link"

abbrev pub state_ttl : ℕ
state_ttl = 600 * second

-- `storeOAuthState`, with the random token if the bytes can be read
unfoldable pub store_oauth_state : Option String → ℕ → OauthStatePayload → Exec World String
store_oauth_state none now payload = fail (errorf "no random bytes")
store_oauth_state (some token) now payload =
    cache_execute (λ c. record c {
      google_csrf = write_str token (some (payload, now + state_ttl)) c.google_csrf;
    })
    >> pure token

-- what a key holds that has not gone
abbrev pub live_state : ℕ → Option (OauthStatePayload × ℕ) → Option OauthStatePayload
live_state now none = none
live_state now (some (payload, expiry)) = if ltb now expiry then some payload else none

-- GETDEL: the value, which is deleted in the same command
unfoldable pub take_state : ℕ → String → Exec World (Option OauthStatePayload)
take_state now token w = (
  ok (live_state now (w.cache.google_csrf token)),
  record w { cache = record w.cache { google_csrf = write_str token none w.cache.google_csrf } },
)

abbrev or_invalid : Option OauthStatePayload → Exec World OauthStatePayload
or_invalid none = fail (errorf "invalid or expired state")
or_invalid (some payload) = pure payload

-- `consumeOAuthState`
unfoldable pub consume_oauth_state : ℕ → String → Exec World OauthStatePayload
unfolding take_state call
consume_oauth_state now token =
    or_else (call >> take_state now token) (λ e. fail (errorf "invalid or expired state"))
      or_invalid
