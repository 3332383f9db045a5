-- ===== src/State/Logout.antt =====
-- internal/state/session.go: how long a session lasts, and that a deletion ends it.
use minnal_labs.Base.{
  true≢false, ℕ, ◌+◌, ◌<◌, ◌≡◌, ◌≢◌, refl, sym, subst, ap, ◌∙◌, String, true, false, Option, none,
  some, List, [], ◌∷◌, arith, inl, inr, ◌==◌, ==_refl, str_eq, Bool-cases,
}
use minnal_labs.Base.Map.{write, is_member}
use minnal_labs.Base.Exec.{Outcome, ok, err, pure, ignored, continue, or_else, ◌>>=◌, gets, modify}
use minnal_labs.World.{World, SessionInfo, call, cache_execute, cache_query}
use minnal_labs.State.Session.{
  live_session, cache_session, get_session, touch, touch_session, drop_sessions, delete_listed,
  delete_sessions_for_user,
}

some-inj : {x y : SessionInfo} → ok (some x) ≡ ok (some y) → x ≡ y
some-inj e = cc

-- an entry that was just written is live before its time
written-live :
    (later expiry key : ℕ) (info : SessionInfo) (sessions : ℕ → Option (SessionInfo × ℕ))
    → later < expiry
    → live_session later (write key (some (info, expiry)) sessions key) ≡ some info
written-live later expiry key info sessions p = rw (==_refl key) (ground (arith, p))

module _ (sha256 : String → ℕ) (ttl now later : ℕ) (token : String) (p : later < now + ttl) where
  touched :
      (i info : SessionInfo) (w : World) (fs : List (Option String))
      → (touch sha256 ttl now token (some i) (record w { faults = fs })).0 ≡ ok (some info)
      → live_session later (
          (touch sha256 ttl now token (some i) (record w { faults = fs })).1.cache.sessions
            (sha256 token))
        ≡ some info
  unfolding touch cache_session cache_execute call ◌>>=◌ modify or_else pure
  touched i info w [] e =
      written-live later (now + ttl) (sha256 token) _ w.cache.sessions p
      ∙ ap (λ x. some x) (some-inj e)
  touched i info w (none ∷ fs) e =
      written-live later (now + ttl) (sha256 token) _ w.cache.sessions p
      ∙ ap (λ x. some x) (some-inj e)
  touched i info w (some m ∷ fs) e = cc

  touch-slides :
      (o : Option SessionInfo) (info : SessionInfo) (w : World)
      → (touch sha256 ttl now token o w).0 ≡ ok (some info)
      → live_session later ((touch sha256 ttl now token o w).1.cache.sessions (sha256 token))
        ≡ some info
  unfolding pure touch
  touch-slides none info w e = cc
  touch-slides (some i) info w e = touched i info w w.faults e

  continue-slides :
      (r : Outcome (Option SessionInfo)) (info : SessionInfo) (w : World)
      → (continue r (touch sha256 ttl now token) w).0 ≡ ok (some info)
      → live_session later
          ((continue r (touch sha256 ttl now token) w).1.cache.sessions (sha256 token))
        ≡ some info
  continue-slides (ok o) info w e = touch-slides o info w e
  continue-slides (err x) info w e = cc

  -- When `TouchSession` returns a session, the cache holds exactly what it returned, until the lifetime
  -- of a session has passed since this use: each use of a session prolongs it.
  pub touch_session-slides :
      (info : SessionInfo) (w : World)
      → (touch_session sha256 ttl now token w).0 ≡ ok (some info)
      → live_session later ((touch_session sha256 ttl now token w).1.cache.sessions (sha256 token))
        ≡ some info
  unfolding touch_session ◌>>=◌
  touch_session-slides info w e =
      let (r, v) = get_session sha256 ttl now token w in continue-slides r info v e

module _ (user_id key : ℕ) (known : user_id ≢ 0) where
  ended :
      (w : World) (keys : List ℕ)
      → w.cache.user_sessions user_id ≡ keys
      → is_member key keys ≡ true
      → (delete_sessions_for_user user_id (record w { faults = [] })).1.cache.sessions key ≡ none
  unfolding delete_sessions_for_user delete_listed drop_sessions cache_query cache_execute call
      ◌>>=◌ modify gets or_else ignored pure is_member
  ended w [] e m = absurd (never m)
    where
      never : is_member key [] ≡ true → ⊥
      never x = true≢false x refl
  ended w (k ∷ ks) e m = let z : (user_id == 0) ≡ false = ground (arith, known) in rw (z, e, m) refl

module _ (sha256 : String → ℕ) (ttl now : ℕ) (token : String) where
  gone-get :
      (w : World) (fs : List (Option String))
      → w.cache.sessions (sha256 token) ≡ none
      → (get_session sha256 ttl now token (record w { faults = fs })).0 ≡ ok none
  unfolding get_session cache_query call ◌>>=◌ gets or_else pure
  gone-get w fs e = elim (Bool-cases (str_eq token "")) [
    | inl f ↦ rw f refl
    | inr f ↦ rw f (by_fault fs)
  ]
    where
      by_fault :
          (fs : List (Option String))
          → (or_else
              (cache_query (λ c. live_session now (c.sessions (sha256 token))))
              (λ x. pure none)
              pure
              (record w { faults = fs })).0
            ≡ ok none
      by_fault [] = rw e refl
      by_fault (none ∷ fs) = rw e refl
      by_fault (some m ∷ fs) = refl

  -- After `DeleteSessionsForUser` with Valkey at hand, no token that the user's set lists gives a session.
  pub delete_sessions-log_out :
      (user_id : ℕ) (w : World)
      → user_id ≢ 0
      → w.faults ≡ []
      → is_member (sha256 token) (w.cache.user_sessions user_id) ≡ true
      → (get_session sha256 ttl now token (delete_sessions_for_user user_id w).1).0 ≡ ok none
  delete_sessions-log_out user_id w known quiet m =
      let v = (delete_sessions_for_user user_id w).1 in
      gone-get v v.faults (
        subst
          (λ fs.
            (delete_sessions_for_user user_id (record w { faults = fs })).1.cache.sessions
              (sha256 token)
            ≡ none)
          (sym quiet) (ended user_id (sha256 token) known w _ refl m))
