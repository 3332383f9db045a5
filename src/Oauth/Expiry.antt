-- ===== src/Oauth/Expiry.antt =====
-- internal/oauth/token_store.go: when tokens and their entries in the cache end.
use minnal_labs.Base.{
  ℕ, ◌+◌, ◌-◌, ◌/◌, String, Bool, true, false, not, ◌&&◌, ◌||◌, Option, none, some, ltb, leb, ◌==◌,
  str_eq, if◌then◌else◌,
}
use minnal_labs.Models.{Token}
use minnal_labs.World.{LookupKind, lookup_code, lookup_access, lookup_refresh}

-- a lifetime in the cache: -1, 0 and a positive number of the code
pub data Ttl : Type 0 where
  gone unlimited : Ttl
  for : ℕ → Ttl

-- `remainingTTL` at the time `now`
unfoldable pub remaining_ttl : ℕ → ℕ → ℕ → Ttl
remaining_ttl now created_at expires_in =
    if expires_in == 0
    then unlimited
    else if created_at == 0
    then gone
    else if leb (created_at + expires_in) now
    then gone
    else for (created_at + expires_in - now)

-- `expiryReached`
unfoldable pub expiry_reached : ℕ → ℕ → ℕ → Bool
expiry_reached created_at expires_in now =
    if expires_in == 0
    then false
    else if created_at == 0
    then true
    else not (ltb now (created_at + expires_in))

-- `tokenCodeTTL`
unfoldable pub token_code_ttl : ℕ → Token → Ttl
unfolding remaining_ttl
token_code_ttl now t =
    if str_eq t.code "" then gone else remaining_ttl now t.code_create_at t.code_expires_in

-- the `switch` of `tokenAccessTTL` on the two lifetimes
unfoldable pub shorter : Ttl → Ttl → Ttl
shorter ttl gone = gone
shorter gone unlimited = gone
shorter unlimited unlimited = unlimited
shorter (for n) unlimited = for n
shorter gone (for m) = gone
shorter unlimited (for m) = for m
shorter (for n) (for m) = if ltb m n then for m else for n

-- `tokenAccessTTL`
unfoldable pub token_access_ttl : ℕ → Token → Ttl
unfolding remaining_ttl shorter
token_access_ttl now t =
    let ttl = remaining_ttl now t.access_create_at t.access_expires_in in
    if str_eq t.access ""
    then gone
    else if str_eq t.refresh "" || t.refresh_expires_in == 0
    then ttl
    else shorter ttl (remaining_ttl now t.refresh_create_at t.refresh_expires_in)

-- `tokenRefreshTTL`
unfoldable pub token_refresh_ttl : ℕ → Token → Ttl
unfolding remaining_ttl
token_refresh_ttl now t =
    if str_eq t.refresh "" then gone else remaining_ttl now t.refresh_create_at t.refresh_expires_in

-- `tokenExpiredForLookup`
unfoldable pub token_expired_for_lookup : Token → LookupKind → ℕ → Bool
unfolding expiry_reached
token_expired_for_lookup t lookup_code now =
    str_eq t.code "" || expiry_reached t.code_create_at t.code_expires_in now
token_expired_for_lookup t lookup_refresh now =
    str_eq t.refresh "" || expiry_reached t.refresh_create_at t.refresh_expires_in now
token_expired_for_lookup t lookup_access now =
    str_eq t.access ""
    || expiry_reached t.access_create_at t.access_expires_in now
    || (not (str_eq t.refresh "")
        && not (t.refresh_expires_in == 0)
        && expiry_reached t.refresh_create_at t.refresh_expires_in now)

-- `tokenMatchesLookup`
unfoldable pub token_matches_lookup : Token → LookupKind → String → Bool
token_matches_lookup t lookup_code value = str_eq t.code value
token_matches_lookup t lookup_refresh value = str_eq t.refresh value
token_matches_lookup t lookup_access value = str_eq t.access value

-- `tokenCreatedAt`
unfoldable pub token_created_at : Token → ℕ
token_created_at t =
    if not (str_eq t.access "") && not (t.access_create_at == 0)
    then t.access_create_at
    else if not (str_eq t.code "") && not (t.code_create_at == 0)
    then t.code_create_at
    else if not (str_eq t.refresh "") && not (t.refresh_create_at == 0)
    then t.refresh_create_at
    else 0

abbrev pub second : ℕ
second = 1000000000

-- `primaryExpirySeconds`
unfoldable pub primary_expiry_seconds : Token → ℕ
primary_expiry_seconds t =
    if not (str_eq t.refresh "")
    then t.refresh_expires_in / second
    else if not (str_eq t.code "")
    then t.code_expires_in / second
    else t.access_expires_in / second

-- `tokenRecordExpiresAt`
unfoldable pub token_record_expires_at : Token → Option ℕ
token_record_expires_at t =
    if not (str_eq t.refresh "") && ltb 0 t.refresh_expires_in
    then some (t.refresh_create_at + t.refresh_expires_in)
    else if not (str_eq t.code "") && ltb 0 t.code_expires_in
    then some (t.code_create_at + t.code_expires_in)
    else if not (str_eq t.access "") && ltb 0 t.access_expires_in
    then some (t.access_create_at + t.access_expires_in)
    else none
