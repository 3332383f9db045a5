-- ===== src/Oauth/Lifetime.antt =====
-- internal/oauth/token_store.go: an entry of the cache goes before its token expires.
use text.Mathlib.TextPositions.{eq_refl}
use minnal_labs.Base.{
  ℕ, ◌≡◌, refl, subst, String, Bool, true, false, ◌||◌, ◌⊎◌, none, some, arith, ◌==◌, str_eq, inl,
  inr, Bool-cases,
}
use minnal_labs.Models.{Token, TokenData}
use minnal_labs.World.Caches.{
  KeepsCache, KeepsCache-pure, KeepsCache-if, KeepsCache-bind, KeepsCache-ignored,
}
use minnal_labs.World.{World, Cache, LookupKind, lookup_code, lookup_access, lookup_refresh}
use minnal_labs.Oauth.Expiry.{
  Ttl, gone, unlimited, for, remaining_ttl, expiry_reached, shorter, token_code_ttl,
  token_access_ttl, token_refresh_ttl, token_expired_for_lookup,
}
use minnal_labs.Oauth.Store.{
  Entry, same_kind, write_entry, live_entry, entry_for, cache_lookup, cache_token,
}

-- the entry that is written with this lifetime is there at a later time
abbrev IsThere : ℕ → ℕ → TokenData → Ttl → Type 0
IsThere later now d ttl = live_entry later (entry_for now d ttl) ≡ some d

-- the lifetime that `cacheToken` gives to each of the three entries
abbrev pub ttl_of : LookupKind → ℕ → Token → Ttl
ttl_of lookup_code now t = token_code_ttl now t
ttl_of lookup_access now t = token_access_ttl now t
ttl_of lookup_refresh now t = token_refresh_ttl now t

module _ (now later : ℕ) (d : TokenData) where
  never-gone : IsThere later now d gone → ⊥
  never-gone e = cc

  remaining-expiry :
      (c e : ℕ) → IsThere later now d (remaining_ttl now c e) → expiry_reached c e later ≡ false
  unfolding remaining_ttl expiry_reached
  remaining-expiry c e h = ground (arith, h)

  shorter-both :
      (a b : Ttl)
      → IsThere later now d (shorter a b)
      → IsThere later now d a × IsThere later now d b
  unfolding shorter
  shorter-both a gone h = absurd (never-gone h)
  shorter-both gone unlimited h = absurd (never-gone h)
  shorter-both unlimited unlimited h = (refl, refl)
  shorter-both (for n) unlimited h = (h, refl)
  shorter-both gone (for m) h = absurd (never-gone h)
  shorter-both unlimited (for m) h = (refl, h)
  shorter-both (for n) (for m) h = ground (arith, h)

  code-lives :
      (t : Token)
      → IsThere later now d (token_code_ttl now t)
      → token_expired_for_lookup t lookup_code later ≡ false
  unfolding token_code_ttl token_expired_for_lookup
  code-lives t h = elim (Bool-cases (str_eq t.code "")) [
    | inl e ↦ absurd (never-gone (rw e at h))
    | inr e ↦ rw e (remaining-expiry t.code_create_at t.code_expires_in (rw e at h))
  ]

  refresh-lives :
      (t : Token)
      → IsThere later now d (token_refresh_ttl now t)
      → token_expired_for_lookup t lookup_refresh later ≡ false
  unfolding token_refresh_ttl token_expired_for_lookup
  refresh-lives t h = elim (Bool-cases (str_eq t.refresh "")) [
    | inl e ↦ absurd (never-gone (rw e at h))
    | inr e ↦ rw e (remaining-expiry t.refresh_create_at t.refresh_expires_in (rw e at h))
  ]

  access-lives :
      (t : Token)
      → IsThere later now d (token_access_ttl now t)
      → token_expired_for_lookup t lookup_access later ≡ false
  unfolding token_access_ttl token_expired_for_lookup
  access-lives t h = elim (Bool-cases (str_eq t.access "")) [
    | inl e ↦ absurd (never-gone (rw e at h))
    | inr e ↦ elim (Bool-cases (str_eq t.refresh "" || t.refresh_expires_in == 0)) [
      | inl f ↦
          let x = remaining-expiry t.access_create_at t.access_expires_in (rw (e, f) at h) in
          rw (e, x) (ground (arith, f))
      | inr f ↦
          let k = shorter-both _ _ (rw (e, f) at h) in
          rw
            (
              e,
              remaining-expiry t.access_create_at t.access_expires_in k.0,
              remaining-expiry t.refresh_create_at t.refresh_expires_in k.1,
            )
            (ground (arith, f))
    ]
  ]

  entry-lives :
      (kind : LookupKind) (t : Token)
      → IsThere later now d (ttl_of kind now t)
      → token_expired_for_lookup t kind later ≡ false
  entry-lives lookup_code t h = code-lives t h
  entry-lives lookup_access t h = access-lives t h
  entry-lives lookup_refresh t h = refresh-lives t h

none-live : (later : ℕ) (d : TokenData) (e : Entry) → e ≡ none → live_entry later e ≡ some d → ⊥
none-live later d none p h = cc
none-live later d (some x) p h = cc

same_kind_refl : (k : LookupKind) → same_kind k k ≡ true
same_kind_refl lookup_code = refl
same_kind_refl lookup_access = refl
same_kind_refl lookup_refresh = refl

same-or-other : (k l : LookupKind) → (k ≡ l) ⊎ (same_kind k l ≡ false)
same-or-other lookup_code lookup_code = inl refl
same-or-other lookup_access lookup_access = inl refl
same-or-other lookup_refresh lookup_refresh = inl refl
same-or-other lookup_code lookup_access = inr refl
same-or-other lookup_code lookup_refresh = inr refl
same-or-other lookup_access lookup_code = inr refl
same-or-other lookup_access lookup_refresh = inr refl
same-or-other lookup_refresh lookup_code = inr refl
same-or-other lookup_refresh lookup_access = inr refl

-- the code or the token of a lookup
abbrev pub own_value : LookupKind → Token → String
own_value lookup_code t = t.code
own_value lookup_access t = t.access
own_value lookup_refresh t = t.refresh

module _ (kind : LookupKind) (now later : ℕ) (t : Token) (d : TokenData) where
  -- what a lookup would be served from the cache has not expired
  abbrev IsSafe : Cache → Type 0
  IsSafe c =
      live_entry later (c.oauth kind (own_value kind t)) ≡ some d
      → token_expired_for_lookup t kind later ≡ false

  own-IsSafe :
      (c : Cache)
      → IsSafe (write_entry kind (own_value kind t) (entry_for now d (ttl_of kind now t)) c)
  unfolding write_entry
  own-IsSafe c h =
      entry-lives now later d kind t (rw (same_kind_refl kind, eq_refl (own_value kind t)) at h)

  written-IsSafe :
      (k : LookupKind) (c : Cache)
      → IsSafe c
      → IsSafe (write_entry k (own_value k t) (entry_for now d (ttl_of k now t)) c)
  unfolding write_entry
  written-IsSafe k c h = elim (same-or-other kind k) [
    | inl e ↦
        subst (λ x. IsSafe (write_entry x (own_value x t) (entry_for now d (ttl_of x now t)) c)) e
          (own-IsSafe c)
    | inr f ↦ rw f h
  ]

  cache_lookup-IsSafe :
      (k : LookupKind) (ttl : Ttl)
      → ((c : Cache) → IsSafe c → IsSafe (write_entry k (own_value k t) (entry_for now d ttl) c))
      → KeepsCache IsSafe (cache_lookup now k (own_value k t) d ttl)
  unfolding cache_lookup
  cache_lookup-IsSafe k gone written = KeepsCache-pure tt
  cache_lookup-IsSafe k unlimited written =
      KeepsCache-if _ _ _ (KeepsCache-pure tt) (KeepsCache-ignored _ written)
  cache_lookup-IsSafe k (for n) written =
      KeepsCache-if _ _ _ (KeepsCache-pure tt) (KeepsCache-ignored _ written)

  cache_token-IsSafe : (redis : Bool) → KeepsCache IsSafe (cache_token redis now t d)
  unfolding cache_token
  cache_token-IsSafe redis =
      KeepsCache-if redis _ _
        (KeepsCache-bind _ _
          (KeepsCache-bind _ _
            (cache_lookup-IsSafe lookup_code (token_code_ttl now t) (written-IsSafe lookup_code))
            (λ _.
              cache_lookup-IsSafe lookup_access (token_access_ttl now t)
                (written-IsSafe lookup_access)))
          (λ _.
            cache_lookup-IsSafe lookup_refresh (token_refresh_ttl now t)
              (written-IsSafe lookup_refresh)))
        (KeepsCache-pure tt)

  -- If the cache holds nothing for a code or a token, `cacheToken` writes it, and a lookup is served the
  -- entry at a later time, the token has not expired for this lookup at that time, whichever of the
  -- calls of Valkey fail: what is served from the cache is never served past its time.
  pub cached-lives :
      (redis : Bool) (w : World)
      → w.cache.oauth kind (own_value kind t) ≡ none
      → live_entry later ((cache_token redis now t d w).1.cache.oauth kind (own_value kind t))
        ≡ some d
      → token_expired_for_lookup t kind later ≡ false
  cached-lives redis w empty =
      (cache_token-IsSafe redis).at w (λ h. absurd (none-live later d _ empty h))
