-- ===== src/Oauth/Removal.antt =====
-- internal/oauth/token_store.go: what becomes of the rows when tokens are created, removed or purged.
use minnal_labs.Base.{
  true≢false, ℕ, ◌≡◌, refl, String, Bool, true, false, inl, inr, List, [], ◌∷◌, arith, str_eq,
  Bool-cases,
}
use minnal_labs.Base.Rows.{
  All, Any, All-weaken, All-append, All-deleted, Any-append_right, select_where,
}
use minnal_labs.Base.Text.{trim_space}
use minnal_labs.Base.Exec.{ok, pure}
use minnal_labs.Models.{Token, json, OauthToken}
use minnal_labs.World.{World, Tables, LookupKind}
use minnal_labs.World.Maintains.{
  Maintains, Maintains-pure, Maintains-if, Maintains-bind, Maintains-call, Maintains-cache_execute,
  maintains_rules,
}
use minnal_labs.World.Commits.{
  Commits, Commits-bind, Commits-execute, Commits-Maintains, Commits-pure, Commits-if,
  Commits-transaction,
}
use minnal_labs.World.Query.{Commits-query_plain}
use minnal_labs.Oauth.Expiry.{
  Ttl, gone, unlimited, for, token_code_ttl, token_access_ttl, token_refresh_ttl,
}
use minnal_labs.Oauth.Store.{
  delete_cache_keys, cache_lookup, cache_token, shares_key, has_no_key, delete_matching_token_rows,
  insert_token, token_row, create, purge_rows, purge_tokens_for_user, drop_rows,
}
use native.Mathlib.Nat.{le_refl}

module _ {P : Tables → ℕ → Type 0} where
  pub delete_keys-Maintains : (redis : Bool) (t : Token) → Maintains P (delete_cache_keys redis t)
  unfolding delete_cache_keys
  delete_keys-Maintains redis t = search (maintains_rules) depth 9

  cache_lookup-Maintains :
      (now : ℕ) (kind : LookupKind) (value : String) (t : Token) (ttl : Ttl)
      → Maintains P (cache_lookup now kind value (json t) ttl)
  unfolding cache_lookup
  cache_lookup-Maintains now kind value t gone = Maintains-pure tt
  cache_lookup-Maintains now kind value t unlimited = search (maintains_rules) depth 9
  cache_lookup-Maintains now kind value t (for n) = search (maintains_rules) depth 9

  cache_token-Maintains :
      (redis : Bool) (now : ℕ) (t : Token) → Maintains P (cache_token redis now t (json t))
  unfolding cache_token
  cache_token-Maintains redis now t =
      Maintains-if redis _ _
        (λ _.
          Maintains-bind _ _
            (Maintains-bind _ _ (cache_lookup-Maintains now _ t.code t (token_code_ttl now t))
              (λ _. cache_lookup-Maintains now _ t.access t (token_access_ttl now t)))
            (λ _. cache_lookup-Maintains now _ t.refresh t (token_refresh_ttl now t)))
        (λ _. Maintains-pure tt)

no_key-shares : (t : Token) (r : OauthToken) → has_no_key t ≡ true → shares_key t r ≡ false
no_key-shares t r e = ground (arith, e)

All-everywhere : {A : Type 0} (P : A → Type 0) → ((a : A) → P a) → (xs : List A) → All P xs
All-everywhere P h [] = tt
All-everywhere P h (x ∷ xs) = (h x, All-everywhere P h xs)

-- the row of a token: each column that a lookup, a removal or a purge compares, and the token itself
abbrev pub HoldsToken : Token → OauthToken → Type 0
HoldsToken t r =
    (r.client_id ≡ t.client_id)
    × (r.user_id ≡ t.user_id)
    × (r.code ≡ t.code)
    × (r.access ≡ t.access)
    × (r.refresh ≡ t.refresh)
    × (r.data_ ≡ json t)

-- the rows of a token that was created: it is there, and no other row shares a code or a token with it
pub record Stored (t : Token) (x : Tables) : Type 0 where
  pub present : Any (HoldsToken t) x.tokens
  pub alone : All (λ r. shares_key t r ≡ true → r.data_ ≡ json t) x.tokens

module _ (now : ℕ) (t : Token) where
  delete_matching-Commits :
      Commits
        (λ x n. Unit)
        (λ x n. All (λ r. shares_key t r ≡ false) x.tokens)
        (delete_matching_token_rows t)
  unfolding delete_matching_token_rows
  delete_matching-Commits =
      Commits-if (has_no_key t) _ _
        (λ e. record {
          at = λ w a h x. All-everywhere _ (λ r. no_key-shares t r e) _;
          grows = (Commits-pure {P = λ x n. Unit} tt).grows;
        })
        (λ _. Commits-execute _ (λ x n h. All-deleted _ (shares_key t) (λ r e. e) x.tokens))

  insert-Commits :
      Commits
        (λ x n. All (λ r. shares_key t r ≡ false) x.tokens)
        (λ x n. Stored t x)
        (insert_token now t)
  unfolding insert_token token_row
  insert-Commits = record {
    at = λ w a h e. record {
      present = Any-append_right _ w.tables.tokens _ (inl (refl, refl, refl, refl, refl, refl));
      alone =
          All-append _ w.tables.tokens _
            (All-weaken _ _ w.tables.tokens (λ r f s. absurd (true≢false s f)) h) ((λ _. refl), tt);
    };
    grows = λ w. le_refl _;
  }

  -- When `Create` returns no error, there is a row that has the client, the user, the code, the access
  -- token and the refresh token of the token in their columns and the token as its data, and each row that has its code, its access
  -- token or its refresh token is a row of this token: what an older row had is replaced.
  pub create-Stored :
      (redis : Bool) (w : World)
      → (create redis now t w).0 ≡ ok tt
      → Stored t (create redis now t w).1.tables
  unfolding create
  create-Stored redis w e =
      (Commits-bind {P = λ x n. Unit} _ _
          (Commits-transaction (record { later = λ t n m le h. tt }) _
            (Commits-bind _ _ delete_matching-Commits
              (λ _. Commits-bind _ _ (Commits-Maintains _ Maintains-call) (λ _. insert-Commits))))
          (λ _. Commits-Maintains _ (cache_token-Maintains redis now t))).at
        w tt tt e

none-selected :
    (p : OauthToken → Bool) (rs : List OauthToken)
    → select_where p rs ≡ []
    → All (λ r. p r ≡ false) rs
unfolding select_where
none-selected p [] e = tt
none-selected p (r ∷ rs) e = elim (Bool-cases (p r)) [
  | inl f ↦ absurd (cons-ne-nil (rw f at e))
  | inr f ↦ (f, none-selected p rs (rw f at e))
]
  where
    cons-ne-nil : {x : OauthToken} {xs : List OauthToken} → x ∷ xs ≡ [] → ⊥
    cons-ne-nil x = cc

abbrev NoneOf : String → Tables → ℕ → Type 0
NoneOf id t n = All (λ r. str_eq r.user_id id ≡ false) t.tokens

purge_rows-Commits :
    (redis : Bool) (id : String) (rs : List OauthToken)
    → Commits
        (λ t n. Unit × (select_where (λ r. str_eq r.user_id id) t.tokens ≡ rs))
        (NoneOf id)
        (purge_rows redis id rs)
unfolding purge_rows pure
purge_rows-Commits redis id [] = record {
  at = λ w a h e. none-selected _ w.tables.tokens h.1;
  grows = (Commits-pure {P = NoneOf id} tt).grows;
}
purge_rows-Commits redis id (r ∷ rs) =
    Commits-bind {Q = NoneOf id} _ _
      (Commits-execute _ (λ t n h. All-deleted _ (λ x. str_eq x.user_id id) (λ x e. e) t.tokens))
      (λ _. Commits-Maintains _ (
        Maintains-if _ _ _ (λ _. Maintains-pure tt)
          (λ _. Maintains-cache_execute (drop_rows (r ∷ rs)))))

-- When `PurgeTokensForUser` returns no error, no row of the user's is left, for a user whose name is
-- not blank.
pub purge_tokens-purges :
    (redis : Bool) (user_id : String) (w : World)
    → str_eq (trim_space user_id) "" ≡ false
    → (purge_tokens_for_user redis user_id w).0 ≡ ok tt
    → All
        (λ r. str_eq r.user_id (trim_space user_id) ≡ false)
        (purge_tokens_for_user redis user_id w).1.tables.tokens
unfolding purge_tokens_for_user
purge_tokens-purges redis user_id w ne e =
    (Commits-if {P = λ t n. Unit} {Q = NoneOf (trim_space user_id)} (str_eq (trim_space user_id) "")
        _ _ (λ f. absurd (true≢false f ne))
        (λ _. Commits-query_plain _ _ (purge_rows-Commits redis (trim_space user_id)))).at
      w tt tt e
