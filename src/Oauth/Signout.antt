-- ===== src/Oauth/Signout.antt =====
-- internal/oauth/session.go, internal/state/session.go: a session that was ended is not restored.
use minnal_labs.Base.{
  true≢false, ℕ, ◌≡◌, refl, ap, String, false, Option, none, some, [], ==_refl, str_eq,
}
use minnal_labs.Base.Exec.{◌>>=◌}
use minnal_labs.World.{World, Tables, SessionInfo}
use minnal_labs.World.Runs.{
  Succeeds, Runs, Runs-pure, Runs-if, Runs-bind, Runs-or_else, Runs-ignored, Runs-cache_execute,
  Runs-cache_query,
}
use minnal_labs.Config.{AppConfig, session_ttl}
use minnal_labs.State.Session.{get_session, delete_session, touch, touch_session}
use minnal_labs.Oauth.Session.{
  Cookies, session_token_from_request, drop_current, destroy_session, session_user,
  restore_session_from_request,
}
use minnal_labs.Oauth.Signin.{Same, leave_set-Runs, get_session-Runs}

module _ (sha256 : String → ℕ) (cfg : Option AppConfig) (now later : ℕ) (token : String)
    (t : Tables) (full : str_eq token "" ≡ false) where
  abbrev Dropped : World → Type 0
  Dropped w = w.cache.sessions (sha256 token) ≡ none

  drop_current-drops : Runs (Same sha256 now t) (drop_current sha256 cfg now token) (λ _. Dropped)
  unfolding drop_current delete_session
  drop_current-drops =
      Runs-if (str_eq token "") _ _ (λ e. absurd (true≢false e full))
        (λ _.
          Runs-if (str_eq token "") _ _ (λ e. absurd (true≢false e full))
            (λ _.
              Runs-bind (λ _. Same sha256 now t) _ _
                (Runs-bind (λ _. Same sha256 now t) _ _ (get_session-Runs sha256 now t token)
                  (leave_set-Runs sha256 now t (sha256 token)))
                (λ _.
                  Runs-ignored _ (Runs-cache_execute _ (λ w p. rw (==_refl (sha256 token)) refl)))))

  get-Dropped : Runs Dropped (get_session sha256 session_ttl later token) (λ o w. o ≡ none)
  unfolding get_session
  get-Dropped =
      Runs-if (str_eq token "") _ _ (λ e. absurd (true≢false e full))
        (λ _.
          Runs-or_else (λ o w. o ≡ none) _ _ _ (Runs-cache_query _ (λ w p. rw p refl))
            (λ o. Runs-pure o (λ w p. p)))

  touch-none :
      (o : Option SessionInfo)
      → Runs (λ w. o ≡ none) (touch sha256 session_ttl later token o) (λ o' w. o' ≡ none)
  unfolding touch
  touch-none none = Runs-pure none (λ w p. p)
  touch-none (some i) = record { at = λ w q p. cc }

  restore-Dropped :
      (cookies : Cookies)
      → session_token_from_request cfg cookies ≡ token
      → Runs Dropped (restore_session_from_request sha256 cfg later cookies) (λ u w. u ≡ none)
  unfolding restore_session_from_request touch_session
  restore-Dropped cookies same = rw same (
      Runs-if (str_eq token "") _ _ (λ e. absurd (true≢false e full))
        (λ _.
          Runs-bind (λ o w. o ≡ none) _ _ (Runs-bind (λ o w. o ≡ none) _ _ get-Dropped touch-none)
            (λ o. Runs-pure _ (λ w p. ap (session_user token) p))))

-- While Valkey answers, no cookie with the token of the session that `destroySession` was called with
-- is recognised afterwards, at any time.
pub destroy_session-ends :
    (sha256 : String → ℕ) (cfg : Option AppConfig) (now later : ℕ) (cookies others : Cookies)
    (w : World)
    → w.faults ≡ []
    → str_eq (session_token_from_request cfg cookies) "" ≡ false
    → session_token_from_request cfg others ≡ session_token_from_request cfg cookies
    → Succeeds
        (λ u v. u ≡ none)
        ((destroy_session sha256 cfg now cookies
            >>= (λ c. restore_session_from_request sha256 cfg later others))
          w)
unfolding destroy_session
destroy_session-ends sha256 cfg now later cookies others w quiet full same =
    let token = session_token_from_request cfg cookies in
    (Runs-bind (λ _. Dropped sha256 cfg now later token w.tables full) _ _
        (Runs-bind (λ _. Dropped sha256 cfg now later token w.tables full) _ _
          (drop_current-drops sha256 cfg now later token w.tables full)
          (λ _. Runs-pure _ (λ v p. p)))
        (λ _. restore-Dropped sha256 cfg now later token w.tables full others same)).at
      w quiet refl
