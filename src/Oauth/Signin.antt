-- ===== src/Oauth/Signin.antt =====
-- internal/oauth/session.go, internal/state/session.go: a session that is issued is the one that the
-- next requests restore.
use minnal_labs.Base.{
  true≢false, ℕ, ◌+◌, ◌<◌, ◌≡◌, refl, ap, String, Bool, false, Option, none, some, [], ◌∷◌, arith,
  inl, inr, ◌==◌, ==_refl, str_eq, if◌then◌else◌, Bool-cases,
}
use minnal_labs.Base.Rows.{any}
use minnal_labs.Base.Text.{trim_space}
use text.Mathlib.TextPositions.{eq_refl}
use minnal_labs.Base.Exec.{◌>>=◌}
use minnal_labs.Models.{User}
use minnal_labs.World.{World, Tables, SessionInfo}
use minnal_labs.World.Runs.{
  Succeeds, Runs, Runs-pure, Runs-if, Runs-bind, Runs-or_else, Runs-ignored, Runs-cache_execute,
  Runs-cache_query, Runs-query, Runs-at,
}
use minnal_labs.Config.{AppConfig, or_default, session_ttl}
use minnal_labs.State.Session.{
  leave_set, cache_session, new_session, create_session, get_session, delete_session, touch,
  touch_session,
}
use minnal_labs.Oauth.Session.{
  Cookies, SessionUser, is_admin_user, session_token_from_request, find_cookie, session_cookie,
  drop_current, issue_session, session_user, restore_session_from_request,
}

module _ (sha256 : String → ℕ) (now : ℕ) (t : Tables) where
  abbrev pub Same : World → Type 0
  Same w = w.tables ≡ t

  pub leave_set-Runs : (key : ℕ) (o : Option SessionInfo) → Runs Same (leave_set key o) (λ _. Same)
  unfolding leave_set
  leave_set-Runs key none = Runs-pure tt (λ w p. p)
  leave_set-Runs key (some info) = Runs-ignored _ (Runs-cache_execute _ (λ w p. p))

  pub get_session-Runs :
      (token : String) → Runs Same (get_session sha256 session_ttl now token) (λ _. Same)
  unfolding get_session
  get_session-Runs token =
      Runs-if (str_eq token "") _ _ (λ _. Runs-pure none (λ w p. p))
        (λ _.
          Runs-or_else (λ _. Same) _ _ _ (Runs-cache_query _ (λ w p. p))
            (λ o. Runs-pure o (λ w p. p)))

  drop_current-Runs :
      (cfg : Option AppConfig) (token : String)
      → Runs Same (drop_current sha256 cfg now token) (λ _. Same)
  unfolding drop_current delete_session
  drop_current-Runs cfg token =
      Runs-if (str_eq token "") _ _ (λ _. Runs-pure tt (λ w p. p))
        (λ _.
          Runs-if (str_eq token "") _ _ (λ _. Runs-pure tt (λ w p. p))
            (λ _.
              Runs-bind (λ _. Same) _ _
                (Runs-bind (λ _. Same) _ _ (get_session-Runs token) (leave_set-Runs (sha256 token)))
                (λ _. Runs-ignored _ (Runs-cache_execute _ (λ w p. p)))))

  -- whether a user is an administrator
  abbrev pub is_admin_in : ℕ → Bool
  is_admin_in user_id =
      if user_id == 0 then false else any (λ a. a.user_id == user_id) t.admin_users

  is_admin_user-Runs :
      (user_id : ℕ) → Runs Same (is_admin_user user_id) (λ b w. Same w × (b ≡ is_admin_in user_id))
  unfolding is_admin_user
  is_admin_user-Runs user_id = elim (Bool-cases (user_id == 0)) [
    | inl e ↦ rw e (Runs-pure false (λ w p. (p, refl)))
    | inr e ↦ rw e (
        Runs-or_else (λ b w. Same w × (b ≡ any (λ a. a.user_id == user_id) t.admin_users)) _ _ _
          (Runs-query _ (λ w p. (p, ap (λ x. any (λ a. a.user_id == user_id) x.admin_users) p)))
          (λ b. Runs-pure b (λ w p. p)))
  ]

module _ (sha256 : String → ℕ) (cfg : Option AppConfig) (now later : ℕ) (token : String) where
  -- the cache has the session of the token
  abbrev Stored : SessionInfo → World → Type 0
  Stored info w = w.cache.sessions (sha256 token) ≡ some (info, now + session_ttl)

  module _ (user : User) (t : Tables) where
    abbrev pub issued : SessionInfo
    issued =
        new_session sha256 session_ttl now user.id user.username (is_admin_in sha256 now t user.id)

    create_session-Runs :
        (admin : Bool)
        → Runs
            (λ w. Same sha256 now t w × (admin ≡ is_admin_in sha256 now t user.id))
            (create_session sha256 session_ttl now (some token) user.id user.username admin)
            (λ x w. (x.0 ≡ token) × Stored issued w)
    unfolding create_session cache_session
    create_session-Runs admin =
        Runs-bind (λ _. Stored issued) _ _
          (Runs-bind (λ _. Stored issued) _ _
            (Runs-cache_execute _ (λ w (p, e). rw (==_refl (sha256 token), e) refl))
            (λ _. Runs-ignored _ (Runs-cache_execute _ (λ w p. p))))
          (λ _. Runs-pure _ (λ w p. (refl, p)))

    issue_session-Runs :
        (cookies : Cookies)
        → Runs
            (Same sha256 now t)
            (issue_session sha256 cfg now (some token) cookies user)
            (λ c w. (c ≡ session_cookie cfg now token) × Stored issued w)
    unfolding issue_session
    issue_session-Runs cookies =
        Runs-bind (λ x w. (x.0 ≡ token) × Stored issued w) _ _
          (Runs-bind (λ _. Same sha256 now t) _ _
            (drop_current-Runs sha256 now t cfg (session_token_from_request cfg cookies))
            (λ _.
              Runs-bind (λ b w. Same sha256 now t w × (b ≡ is_admin_in sha256 now t user.id)) _ _
                (is_admin_user-Runs sha256 now t user.id) create_session-Runs))
          (λ (a, i). Runs-pure _ (λ w (e, p). (ap (session_cookie cfg now) e, p)))

  module _ (info : SessionInfo) (soon : later < now + session_ttl) where
    abbrev restored : SessionUser
    restored = record {
      token = token;
      user_id = info.user_id;
      username = info.username;
      is_admin = info.is_admin;
    }

    abbrev Restores : Option SessionInfo → Type 0
    Restores o = session_user token o ≡ some restored

    get-Stored :
        str_eq token "" ≡ false
        → Runs (Stored info) (get_session sha256 session_ttl later token) (λ o w. o ≡ some info)
    unfolding get_session
    get-Stored full = rw full (
        Runs-or_else (λ o w. o ≡ some info) _ _ _
          (Runs-cache_query _ (λ w p. rw p (ground (arith, soon)))) (λ o. Runs-pure o (λ w p. p)))

    touch-Runs :
        (o : Option SessionInfo)
        → Runs (λ w. o ≡ some info) (touch sha256 session_ttl later token o) (λ o' w. Restores o')
    unfolding touch cache_session
    touch-Runs none = record { at = λ w q p. cc }
    touch-Runs (some i) =
        Runs-or_else (λ _ _. some i ≡ some info) _ _ _ (Runs-cache_execute _ (λ w p. p))
          (λ _. Runs-pure _ (λ w p. ap (session_user token) p))

    restore_session-Runs :
        (cookies : Cookies)
        → str_eq token "" ≡ false
        → session_token_from_request cfg cookies ≡ token
        → Runs
            (Stored info)
            (restore_session_from_request sha256 cfg later cookies)
            (λ u w. u ≡ some restored)
    unfolding restore_session_from_request touch_session
    restore_session-Runs cookies full same = rw same (
        Runs-if (str_eq token "") _ _ (λ e. absurd (true≢false e full))
          (λ _.
            Runs-bind (λ o w. Restores o) _ _
              (Runs-bind (λ o w. o ≡ some info) _ _ (get-Stored full) touch-Runs)
              (λ o. Runs-pure _ (λ w p. p))))

own_cookie :
    (cfg : Option AppConfig) (now : ℕ) (token : String)
    → trim_space token ≡ token
    → session_token_from_request cfg
        (((session_cookie cfg now token).name, (session_cookie cfg now token).value) ∷ [])
      ≡ token
unfolding session_token_from_request find_cookie session_cookie
own_cookie none now token trimmed = trimmed
own_cookie (some c) now token trimmed =
    rw (eq_refl (or_default "user_session" (trim_space c.session_cookie_name))) trimmed

-- While PostgreSQL and Valkey answer, a user who is given a session by `issueSession` is recognised by
-- the cookie that it sets, for as long as a session lives: `restoreSessionFromRequest` returns the
-- user's number and name, and says that the user is an administrator exactly if a row of `admin_users`
-- had the number. The new token is not empty and has no space around it.
pub issue_session-restores :
    (sha256 : String → ℕ) (cfg : Option AppConfig) (now later : ℕ) (token : String) (user : User)
    (cookies : Cookies) (w : World)
    → w.faults ≡ []
    → str_eq token "" ≡ false
    → trim_space token ≡ token
    → later < now + session_ttl
    → Succeeds
        (λ u v.
          u
          ≡ some (record {
            token = token;
            user_id = user.id;
            username = user.username;
            is_admin = is_admin_in sha256 now w.tables user.id;
          }))
        ((issue_session sha256 cfg now (some token) cookies user
            >>= (λ c. restore_session_from_request sha256 cfg later ((c.name, c.value) ∷ [])))
          w)
issue_session-restores sha256 cfg now later token user cookies w quiet full trimmed soon =
    let info = issued sha256 cfg now later token user w.tables in
    (Runs-bind
        (λ c v. (c ≡ session_cookie cfg now token) × Stored sha256 cfg now later token info v) _ _
        (issue_session-Runs sha256 cfg now later token user w.tables cookies)
        (Runs-at (session_cookie cfg now token) _ (
          restore_session-Runs sha256 cfg now later token info soon _ full
            (own_cookie cfg now token trimmed)))).at
      w quiet refl
