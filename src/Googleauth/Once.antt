-- ===== src/Googleauth/Once.antt =====
-- internal/googleauth/googleauth.go: a state of the sign-in is for one use.
use text.Mathlib.TextPositions.{eq_refl}
use minnal_labs.Base.{ℕ, ◌≡◌, refl, String, Option, none, some, List, [], ◌∷◌}
use minnal_labs.Base.Map.{write_str}
use minnal_labs.Base.Exec.{ok, err, pure, fail, or_else, ◌>>=◌}
use minnal_labs.World.{World, OauthStatePayload, call, errorf}
use minnal_labs.Googleauth.{take_state, or_invalid, consume_oauth_state}

module _ (token : String) where
  missing-invalid :
      (now : ℕ) (w : World) (fs : List (Option String))
      → w.cache.google_csrf token ≡ none
      → (consume_oauth_state now token (record w { faults = fs })).0
        ≡ err (errorf "invalid or expired state")
  unfolding consume_oauth_state take_state call or_else ◌>>=◌ pure fail
  missing-invalid now w [] e = rw e refl
  missing-invalid now w (none ∷ fs) e = rw e refl
  missing-invalid now w (some m ∷ fs) e = refl

  or_invalid-keeps : (o : Option OauthStatePayload) (w : World) → (or_invalid o w).1 ≡ w
  unfolding pure fail
  or_invalid-keeps none w = refl
  or_invalid-keeps (some p) w = refl

  taken-missing :
      (o : Option OauthStatePayload) (w : World)
      → (or_invalid o (record w {
        cache = record w.cache { google_csrf = write_str token none w.cache.google_csrf };
      })).1.cache.google_csrf
          token
        ≡ none
  taken-missing o w =
      rw
        (
          or_invalid-keeps o (record w {
            cache = record w.cache { google_csrf = write_str token none w.cache.google_csrf };
          }),
          eq_refl token,
        )
        refl

  consumed-missing :
      (now : ℕ) (w : World) (fs : List (Option String)) (p : OauthStatePayload)
      → (consume_oauth_state now token (record w { faults = fs })).0 ≡ ok p
      → (consume_oauth_state now token (record w { faults = fs })).1.cache.google_csrf token ≡ none
  unfolding consume_oauth_state take_state call or_else ◌>>=◌ pure fail
  consumed-missing now w [] p e = taken-missing _ (record w { faults = [] })
  consumed-missing now w (none ∷ fs) p e = taken-missing _ (record w { faults = fs })
  consumed-missing now w (some m ∷ fs) p e = cc

-- A state of the sign-in with Google is for one use: once `consumeOAuthState` returned what a token
-- stands for, the next call with the token says that the state is invalid, at any time and whichever
-- calls fail.
pub consume_oauth_state-once :
    (now later : ℕ) (token : String) (w : World) (payload : OauthStatePayload)
    → (consume_oauth_state now token w).0 ≡ ok payload
    → (consume_oauth_state later token (consume_oauth_state now token w).1).0
      ≡ err (errorf "invalid or expired state")
consume_oauth_state-once now later token w payload e =
    let v = (consume_oauth_state now token w).1 in
    missing-invalid token later v v.faults (consumed-missing token now w w.faults payload e)
