-- ===== src/State/Session.antt =====
-- internal/state/session.go: the sessions of users in Valkey. SHA-256 is a parameter: the digest of a
-- token. The random bytes are an argument, as the token that they encode, if they can be read.
use minnal_labs.Base.{
  ℕ, ◌+◌, String, Bool, Option, none, some, List, [], ◌∷◌, ltb, ◌==◌, str_eq, if◌then◌else◌,
}
use minnal_labs.Base.Map.{write, set_add, set_remove, is_member}
use minnal_labs.Base.Exec.{Exec, pure, fail, ignored, or_else, ◌>>=◌, ◌>>◌}
use minnal_labs.World.{World, Cache, SessionInfo, cache_execute, cache_query, errorf}

-- what GET finds: a session goes when its time has come
abbrev pub live_session : ℕ → Option (SessionInfo × ℕ) → Option SessionInfo
live_session now none = none
live_session now (some (info, expiry)) = if ltb now expiry then some info else none

unfoldable pub leave_set : ℕ → Option SessionInfo → Exec World Unit
leave_set key none = pure tt
leave_set key (some info) = ignored (
    cache_execute (λ c. record c {
      user_sessions =
          write info.user_id (set_remove key (c.user_sessions info.user_id)) c.user_sessions;
    }))

module _ (sha256 : String → ℕ) (ttl : ℕ) where
  -- `cacheJSONTTL` at the key of a session
  unfoldable pub cache_session : ℕ → ℕ → SessionInfo → Exec World Unit
  cache_session now key info =
      cache_execute (λ c. record c { sessions = write key (some (info, now + ttl)) c.sessions })

  abbrev pub new_session : ℕ → ℕ → String → Bool → SessionInfo
  new_session now user_id username is_admin = record {
    user_id = user_id;
    username = username;
    is_admin = is_admin;
    created_at = now;
    last_seen_at = now;
  }

  -- `CreateSession`
  unfoldable pub create_session :
      ℕ → Option String → ℕ → String → Bool → Exec World (String × SessionInfo)
  unfolding cache_session
  create_session now none user_id username is_admin = fail (errorf "no random bytes")
  create_session now (some token) user_id username is_admin =
      let key = sha256 token in
      let info = new_session now user_id username is_admin in
      cache_session now key info
      >> ignored (
          cache_execute (λ c. record c {
            user_sessions = write user_id (set_add key (c.user_sessions user_id)) c.user_sessions;
          }))
      >> pure (token, info)

  -- `GetSession`: an error is a miss
  unfoldable pub get_session : ℕ → String → Exec World (Option SessionInfo)
  get_session now token =
      if str_eq token ""
      then pure none
      else or_else (cache_query (λ c. live_session now (c.sessions (sha256 token))))
          (λ e. pure none) pure

  unfoldable pub touch : ℕ → String → Option SessionInfo → Exec World (Option SessionInfo)
  unfolding cache_session
  touch now token none = pure none
  touch now token (some info) =
      let seen = record info { last_seen_at = now } in
      or_else (cache_session now (sha256 token) seen) (λ e. pure none) (λ _. pure (some seen))

  -- `TouchSession`
  unfoldable pub touch_session : ℕ → String → Exec World (Option SessionInfo)
  unfolding get_session touch
  touch_session now token = get_session now token >>= touch now token

  -- `DeleteSession`
  unfoldable pub delete_session : ℕ → String → Exec World Unit
  unfolding get_session leave_set
  delete_session now token =
      if str_eq token ""
      then pure tt
      else get_session now token
        >>= leave_set (sha256 token)
        >> ignored
            (cache_execute (λ c. record c { sessions = write (sha256 token) none c.sessions }))

-- DEL of several sessions
unfoldable pub drop_sessions : List ℕ → Cache → Cache
unfolding is_member
drop_sessions keys c = record c {
  sessions = λ key. if is_member key keys then none else c.sessions key;
}

unfoldable pub delete_listed : List ℕ → Exec World Unit
unfolding drop_sessions
delete_listed [] = pure tt
delete_listed (k ∷ ks) = ignored (cache_execute (drop_sessions (k ∷ ks)))

-- `DeleteSessionsForUser`
unfoldable pub delete_sessions_for_user : ℕ → Exec World Unit
unfolding delete_listed
delete_sessions_for_user user_id =
    if user_id == 0
    then pure tt
    else or_else (cache_query (λ c. c.user_sessions user_id)) (λ e. pure tt) delete_listed
      >> ignored
          (cache_execute (λ c. record c { user_sessions = write user_id [] c.user_sessions }))
