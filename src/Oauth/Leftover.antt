-- ===== src/Oauth/Leftover.antt =====
-- internal/oauth/token_store.go: what a removal leaves after a hit in the cache.
use minnal_labs.Base.{
  ℕ, ◌≡◌, refl, sym, subst, Bool-cases, ◌&&◌, String, Bool, true, false, ◌⊎◌, Option, none, some,
  inl, inr, List, [], ◌∷◌, arith, ltb, str_eq, if◌then◌else◌,
}
use minnal_labs.Base.Exec.{ok, Exec, continue, pure, ignored, ◌>>=◌, ◌>>◌, gets}
use minnal_labs.Models.{Token, TokenData, json, OauthToken}
use minnal_labs.World.{World, Cache, LookupKind, call, query, cache_query}
use minnal_labs.World.Caches.{KeepsCache, KeepsCache-pure, KeepsCache-if, KeepsCache-ignored}
use minnal_labs.Oauth.Expiry.{
  Ttl, gone, unlimited, for, token_expired_for_lookup, token_matches_lookup,
}
use minnal_labs.Oauth.Store.{
  Entry, live_entry, write_entry, same_kind, token_from_json, with_token, drop_key, column, latest,
  get_cached_token, find_token_record, cache_lookup, cache_token, check_token, get_by_lookup,
  remove_by_lookup, delete_cache_keys,
}
use minnal_labs.Oauth.Removal.{delete_keys-Maintains}

none-or-some : {A : Type 0} (o : Option A) → (o ≡ none) ⊎ ((a : A) × (o ≡ some a))
none-or-some none = inl refl
none-or-some (some a) = inr (a, refl)

-- an entry that is there now holds the same whenever it is there
live_entry-later :
    (now later : ℕ) (e : Entry) (d x : TokenData)
    → live_entry now e ≡ some d
    → live_entry later e ≡ some x
    → x ≡ d
live_entry-later now later none d x p q = cc
live_entry-later now later (some (y, none)) d x p q = cc
live_entry-later now later (some (y, some t)) d x p q =
    some-injective (held (ltb later t) y x q) (held (ltb now t) y d p)
  where
    held : (b : Bool) (y x : TokenData) → (if b then some y else none) ≡ some x → y ≡ x
    held true y x e = cc
    held false y x e = cc

    some-injective : {a b c : TokenData} → a ≡ b → a ≡ c → b ≡ c
    some-injective e f = cc

cache_lookup-ok :
    (now : ℕ) (kind : LookupKind) (value : String) (d : TokenData) (ttl : Ttl) (w : World)
    → (cache_lookup now kind value d ttl w).0 ≡ ok tt
unfolding cache_lookup pure ignored
cache_lookup-ok now kind value d gone w = refl
cache_lookup-ok now kind value d unlimited w = ground arith
cache_lookup-ok now kind value d (for n) w = ground arith

then-ok :
    {A : Type 0} (m : Exec World Unit) (n : Exec World A) (a : A)
    → ((w : World) → (m w).0 ≡ ok tt)
    → ((w : World) → (n w).0 ≡ ok a)
    → (w : World) → ((m >> n) w).0 ≡ ok a
unfolding ◌>>=◌
then-ok m n a km kn w = rw (km w) (kn _)

cache_token-ok :
    (redis : Bool) (now : ℕ) (t : Token) (d : TokenData) (w : World)
    → (cache_token redis now t d w).0 ≡ ok tt
unfolding cache_token pure
cache_token-ok false now t d w = refl
cache_token-ok true now t d w =
    then-ok _ _ tt
      (then-ok _ _ tt (cache_lookup-ok now _ t.code d _) (cache_lookup-ok now _ t.access d _))
      (cache_lookup-ok now _ t.refresh d _) w

module _ (now later : ℕ) (kind : LookupKind) (value : String) (t : Token)
    (nonblank : str_eq value "" ≡ false) where
  -- the cache has no token but this one for the value
  abbrev HoldsOnly : Cache → Type 0
  HoldsOnly c = (x : TokenData) → live_entry later (c.oauth kind value) ≡ some x → x ≡ json t

  unless :
      (b : Bool) (e : Entry) (x : TokenData)
      → (live_entry later e ≡ some x → x ≡ json t)
      → live_entry later (if b then none else e) ≡ some x
      → x ≡ json t
  unless true e x h p = cc
  unless false e x h p = h p

  dropped : (k : LookupKind) (v : String) (c : Cache) → HoldsOnly c → HoldsOnly (drop_key k v c)
  unfolding drop_key write_entry
  dropped k v c h x p = elim (Bool-cases (str_eq v "")) [
    | inl e ↦ h x (rw e at p)
    | inr e ↦ unless (same_kind kind k && str_eq value v) (c.oauth kind value) x (h x) (rw e at p)
  ]

  keys-HoldsOnly : KeepsCache HoldsOnly (delete_cache_keys true t)
  unfolding delete_cache_keys
  keys-HoldsOnly = KeepsCache-if _ _ _ (KeepsCache-pure tt) (
      KeepsCache-ignored _
        (λ c h. dropped _ t.refresh _ (dropped _ t.access _ (dropped _ t.code c h))))

  abbrev Left : World → World → Type 0
  Left w v = (v.tables ≡ w.tables) × HoldsOnly v.cache

  keys-Left : (w : World) → HoldsOnly w.cache → Left w (delete_cache_keys true t w).1
  keys-Left w h =
      ((delete_keys-Maintains {P = λ x n. x ≡ w.tables} true t).at w refl, keys-HoldsOnly.at w h)

  with_faults : World → List (Option String) → World
  with_faults w fs = record w { faults = fs }

  removed-Left :
      (w : World) (fs : List (Option String))
      → live_entry now (w.cache.oauth kind value) ≡ some (json t)
      → HoldsOnly w.cache
      → Left w (remove_by_lookup true now kind value (with_faults w fs)).1
  unfolding remove_by_lookup get_by_lookup get_cached_token cache_query call ◌>>=◌ gets pure
      with_faults
  removed-Left w [] live h = rw (nonblank, live) (keys-Left (with_faults w []) h)
  removed-Left w (none ∷ fs) live h = rw (nonblank, live) (keys-Left (with_faults w fs) h)
  removed-Left w (some m ∷ fs) live h = rw nonblank (refl, h)

  module _ (r : OauthToken) (holds : r.data_ ≡ json t)
      (own : token_matches_lookup t kind value ≡ true)
      (fresh : token_expired_for_lookup t kind later ≡ false) where
    checked : (v : World) → (check_token true later kind value r t v).0 ≡ ok (some t, some r)
    unfolding check_token pure
    checked v =
        rw (fresh, own)
          (then-ok (cache_token true later t r.data_) (pure (some t, some r)) (some t, some r)
            (cache_token-ok true later t r.data_) (λ u. refl) v)

    read :
        (v : World)
        → (continue (token_from_json r.data_) (with_token true later kind value r) v).0
          ≡ ok (some t, some r)
    read v =
        subst
          (λ d.
            (continue (token_from_json d) (with_token true later kind value r) v).0
            ≡ ok (some t, some r))
          (sym holds) (checked v)

    -- the lookup with a cache that has no other token for the value
    found_again :
        (v : World)
        → latest (λ x. str_eq (column kind x) value) v.tables.tokens ≡ some r
        → HoldsOnly v.cache
        → (x : Option OauthToken) × ((get_by_lookup true later kind value
              (record v { faults = [] })).0
            ≡ ok (some t, x))
    unfolding get_by_lookup get_cached_token find_token_record query cache_query call ◌>>=◌ gets
        pure
    found_again v newest h = elim (none-or-some (live_entry later (v.cache.oauth kind value))) [
      | inl e ↦ (some r, rw (nonblank, e, newest) (read (record v { faults = [] })))
      | inr (x, e) ↦ (none, rw (nonblank, e, h x e) refl)
    ]

    -- For a value that is not empty: if the cache holds a token for it and the newest row with the value
    -- holds the same token, which matches the value, the removal of the value leaves every row of the
    -- table in place, whichever of its calls fail, and the next lookup of the value, in which no call
    -- fails, returns the token again, as long as it has not expired for this lookup.
    pub remove_by_lookup-keeps_row :
        (w : World)
        → live_entry now (w.cache.oauth kind value) ≡ some (json t)
        → latest (λ x. str_eq (column kind x) value) w.tables.tokens ≡ some r
        → (let v = (remove_by_lookup true now kind value w).1 in
            (v.tables ≡ w.tables)
            × (x : Option OauthToken) × ((get_by_lookup true later kind value
                  (record v { faults = [] })).0
                ≡ ok (some t, x)))
    unfolding with_faults
    remove_by_lookup-keeps_row w live newest =
        let only : HoldsOnly w.cache =
          λ x e. live_entry-later now later (w.cache.oauth kind value) (json t) x live e in
        let (same, h) = removed-Left w w.faults live only in
        let v = (remove_by_lookup true now kind value w).1 in
        let (x, again) = found_again v (rw same newest) h in (same, x, again)
