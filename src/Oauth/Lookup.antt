-- ===== src/Oauth/Lookup.antt =====
-- internal/oauth/token_store.go: what a lookup returns.
use minnal_labs.Base.{
  ℕ, ◌≡◌, refl, sym, subst, String, Bool, true, false, not, ◌⊎◌, Option, none, some, inl, inr, List,
  [], ◌∷◌, arith, str_eq, if◌then◌else◌, Bool-cases,
}
use minnal_labs.Base.Exec.{Outcome, ok, err, Exec, pure, continue, ◌>>=◌, gets}
use minnal_labs.Models.{Token, TokenData, blank, unreadable, json, OauthToken}
use minnal_labs.World.{World, LookupKind, call, query, cache_query}
use minnal_labs.Oauth.Expiry.{token_expired_for_lookup, token_matches_lookup}
use minnal_labs.Oauth.Store.{
  Found, live_entry, decode, token_from_json, column, latest, get_cached_token, find_token_record,
  check_token, with_token, with_record, or_record, get_by_lookup,
}

-- whenever the code returns a value, the value has `Q`
Returns : {A : Type 0} → (A → Type 0) → Exec World A → Type 0
Returns {A} Q m = (w : World) (a : A) → (m w).0 ≡ ok a → Q a

module _ {A B : Type 0} (Q : B → Type 0) where
  Returns-continue :
      (r : Outcome A) (f : A → Exec World B)
      → ((a : A) → r ≡ ok a → Returns Q (f a))
      → Returns Q (continue r f)
  unfolding Returns
  Returns-continue (ok a) f h w b e = h a refl w b e
  Returns-continue (err x) f h w b e = cc

  Returns-bind :
      (m : Exec World A) (f : A → Exec World B) → ((a : A) → Returns Q (f a)) → Returns Q (m >>= f)
  unfolding Returns ◌>>=◌ Returns-continue
  Returns-bind m f h w b e = let (r, w') = m w in Returns-continue r f (λ a _. h a) w' b e

ok-inj : {A : Type 0} {a b : A} → ok a ≡ ok b → a ≡ b
ok-inj e = cc

module _ {A : Type 0} (Q : A → Type 0) where
  Returns-pure : (a : A) → Q a → Returns Q (pure a)
  unfolding Returns pure
  Returns-pure a q w b e = subst Q (ok-inj e) q

  Returns-if :
      (b : Bool) (m n : Exec World A)
      → (b ≡ true → Returns Q m)
      → (b ≡ false → Returns Q n)
      → Returns Q (if b then m else n)
  Returns-if true m n hm hn = hm refl
  Returns-if false m n hm hn = hn refl

-- a token that was found is that of the newest row with the value, matches and has not expired
abbrev pub IsChecked : LookupKind → String → ℕ → List OauthToken → Found → Type 0
IsChecked kind value now rows (none, _) = Unit
IsChecked kind value now rows (some t, none) = ⊥
IsChecked kind value now rows (some t, some r) =
    (latest (λ x. str_eq (column kind x) value) rows ≡ some r)
    × (r.data_ ≡ json t)
    × (token_matches_lookup t kind value ≡ true)
    × (token_expired_for_lookup t kind now ≡ false)

from-json : (d : TokenData) (t : Token) → token_from_json d ≡ ok (some t) → d ≡ json t
from-json blank t e = cc
from-json unreadable t e = cc
from-json (json u) t e = cc

module _ (redis : Bool) (now : ℕ) (kind : LookupKind) (value : String)
    (rows : List OauthToken) where
  Q : Found → Type 0
  Q = IsChecked kind value now rows

  IsNewest : Option OauthToken → Type 0
  IsNewest o = latest (λ x. str_eq (column kind x) value) rows ≡ o

  check-Returns :
      (r : OauthToken) (t : Token)
      → IsNewest (some r)
      → r.data_ ≡ json t
      → Returns Q (check_token redis now kind value r t)
  unfolding check_token Q IsNewest
  check-Returns r t newest holds =
      Returns-if Q (token_expired_for_lookup t kind now) _ _
        (λ _. Returns-bind Q _ _ (λ _. Returns-pure Q _ tt))
        (λ fresh.
          Returns-if Q (not (token_matches_lookup t kind value)) _ _ (λ _. Returns-pure Q _ tt)
            (λ m.
              Returns-bind Q _ _ (λ _. Returns-pure Q _ (newest, holds, ground (arith, m), fresh))))

  with_token-Returns :
      (r : OauthToken) (o : Option Token)
      → IsNewest (some r)
      → token_from_json r.data_ ≡ ok o
      → Returns Q (with_token redis now kind value r o)
  unfolding Q
  with_token-Returns r none newest holds = Returns-pure Q _ tt
  with_token-Returns r (some t) newest holds = check-Returns r t newest (from-json r.data_ t holds)

  with_record-Returns :
      (o : Option OauthToken) → IsNewest o → Returns Q (with_record redis now kind value o)
  unfolding Q Returns ◌>>=◌
  with_record-Returns none newest = Returns-pure Q _ tt
  with_record-Returns (some r) newest =
      Returns-continue Q (token_from_json r.data_) (with_token redis now kind value r)
        (λ o holds. with_token-Returns r o newest holds)

module _ (redis : Bool) (now : ℕ) (kind : LookupKind) (value : String) where
  find_token_record-IsNewest :
      (w : World) (fs : List (Option String)) (o : Option OauthToken)
      → (find_token_record kind value (record w { faults = fs })).0 ≡ ok o
      → IsNewest redis now kind value w.tables.tokens o
  unfolding find_token_record query call gets ◌>>=◌ IsNewest
  find_token_record-IsNewest w [] o e = ok-inj e
  find_token_record-IsNewest w (none ∷ fs) o e = ok-inj e
  find_token_record-IsNewest w (some m ∷ fs) o e = cc

  or_record-IsChecked :
      (w : World) (a : Found)
      → (or_record redis now kind value none w).0 ≡ ok a
      → IsChecked kind value now w.tables.tokens a
  unfolding ◌>>=◌ Q Returns
  or_record-IsChecked w a e =
      let (r, v) = find_token_record kind value w in
      Returns-continue (Q redis now kind value w.tables.tokens) r (with_record redis now kind value)
        (λ o f.
          with_record-Returns redis now kind value w.tables.tokens o
            (find_token_record-IsNewest w w.faults o f))
        v a e

  -- the answer comes from the table and was checked, or it is the token of the cache
  Served : List OauthToken → Outcome (Option Token) → Found → Type 0
  Served rows r a =
      IsChecked kind value now rows a ⊎ ((t : Token) × (r ≡ ok (some t)) × (a ≡ (some t, none)))

  continue-Served :
      (r : Outcome (Option Token)) (w : World) (a : Found)
      → (continue r (or_record redis now kind value) w).0 ≡ ok a
      → Served w.tables.tokens r a
  unfolding Served pure
  continue-Served (ok none) w a e = inl (or_record-IsChecked w a e)
  continue-Served (ok (some t)) w a e = inr (t, refl, sym (ok-inj e))
  continue-Served (err x) w a e = cc

decode-json : (o : Option TokenData) (t : Token) → decode o ≡ ok (some t) → o ≡ some (json t)
decode-json none t e = cc
decode-json (some blank) t e = cc
decode-json (some unreadable) t e = cc
decode-json (some (json u)) t e = cc

module _ (now : ℕ) (kind : LookupKind) (value : String) where
  with_faults : World → List (Option String) → World
  with_faults w fs = record w { faults = fs }

  cached-json :
      (redis : Bool) (w : World) (fs : List (Option String)) (t : Token)
      → (get_cached_token redis now kind value (with_faults w fs)).0 ≡ ok (some t)
      → live_entry now (w.cache.oauth kind value) ≡ some (json t)
  unfolding get_cached_token cache_query call ◌>>=◌ gets pure with_faults
  cached-json false w fs t e = cc
  cached-json true w [] t e = decode-json _ t e
  cached-json true w (none ∷ fs) t e = decode-json _ t e
  cached-json true w (some m ∷ fs) t e = cc

  cached-tables :
      (redis : Bool) (w : World) (fs : List (Option String))
      → (get_cached_token redis now kind value (with_faults w fs)).1.tables ≡ w.tables
  unfolding get_cached_token cache_query call ◌>>=◌ gets pure with_faults
  cached-tables false w fs = refl
  cached-tables true w [] = refl
  cached-tables true w (none ∷ fs) = refl
  cached-tables true w (some m ∷ fs) = refl

  -- What a lookup of a value returns is a token that the cache holds for that value, or it is the token
  -- that the newest row of the table with this value holds, with that row, and then it matches the
  -- value and has not expired for this lookup, or it is no token.
  pub get_by_lookup-IsChecked :
      (redis : Bool) (w : World) (a : Found)
      → (get_by_lookup redis now kind value w).0 ≡ ok a
      → IsChecked kind value now w.tables.tokens a
        ⊎ ((t : Token) × (live_entry now (w.cache.oauth kind value) ≡ some (json t))
            × (a ≡ (some t, none)))
  unfolding get_by_lookup ◌>>=◌ Served with_faults pure
  get_by_lookup-IsChecked redis w a e = elim (Bool-cases (str_eq value "")) [
    | inl f ↦ inl (subst (IsChecked kind value now w.tables.tokens) (ok-inj (rw f at e)) tt)
    | inr f ↦
        let (r, v) = get_cached_token redis now kind value w in
        elim (continue-Served redis now kind value r v a (rw f at e)) [
          | inl q ↦
              inl (
                subst (λ x. IsChecked kind value now x.tokens a) (cached-tables redis w w.faults) q)
          | inr (t, p, q) ↦ inr (t, cached-json redis w w.faults t p, q)
        ]
  ]
