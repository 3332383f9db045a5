-- ===== src/Oauth/Store.antt =====
-- internal/oauth/token_store.go: the operations on tokens. `redis` says whether the store has a client
-- of Valkey, and `now` is the time of the whole call: the code's readings of the clock follow each
-- other at once. A token as JSON is the token (`TokenData`); the JSON of `cloneTokenInfo` is readable.
use minnal_labs.Base.{
  ℕ, suc, ◌+◌, String, Bool, true, false, not, ◌&&◌, ◌||◌, Option, none, some, List, [], ◌∷◌, ◌++◌,
  ltb, ◌==◌, str_eq, if◌then◌else◌,
}
use minnal_labs.Base.Rows.{select_where, delete_where}
use minnal_labs.Base.Text.{trim_space}
use minnal_labs.Base.Exec.{Outcome, ok, err, Exec, pure, ignored, ◌>>=◌, ◌>>◌}
use minnal_labs.Models.{Token, TokenData, blank, unreadable, json, OauthToken}
use minnal_labs.World.{
  World, Cache, LookupKind, lookup_code, lookup_access, lookup_refresh, call, execute, query,
  cache_query, cache_execute, transaction, errorf,
}
use minnal_labs.Oauth.Expiry.{
  Ttl, gone, unlimited, for, token_code_ttl, token_access_ttl, token_refresh_ttl,
  token_expired_for_lookup, token_matches_lookup, token_created_at, primary_expiry_seconds,
  token_record_expires_at,
}

abbrev pub Entry : Type 0
Entry = Option (TokenData × Option ℕ)

-- the value at one key of the cache
abbrev pub same_kind : LookupKind → LookupKind → Bool
same_kind lookup_code lookup_code = true
same_kind lookup_access lookup_access = true
same_kind lookup_refresh lookup_refresh = true
same_kind lookup_code lookup_access = false
same_kind lookup_code lookup_refresh = false
same_kind lookup_access lookup_code = false
same_kind lookup_access lookup_refresh = false
same_kind lookup_refresh lookup_code = false
same_kind lookup_refresh lookup_access = false

unfoldable pub write_entry : LookupKind → String → Entry → Cache → Cache
write_entry kind value entry c = record c {
  oauth = λ k v. if same_kind k kind && str_eq v value then entry else c.oauth k v;
}

-- an entry is there until its time has come
abbrev pub live_entry : ℕ → Entry → Option TokenData
live_entry now none = none
live_entry now (some (d, none)) = some d
live_entry now (some (d, some t)) = if ltb now t then some d else none

-- `tokenFromJSON`
abbrev pub token_from_json : TokenData → Outcome (Option Token)
token_from_json blank = ok none
token_from_json unreadable = err (errorf "invalid character")
token_from_json (json t) = ok (some t)

abbrev pub decode : Option TokenData → Outcome (Option Token)
decode none = ok none
decode (some d) = token_from_json d

-- `getCachedToken`
unfoldable pub get_cached_token : Bool → ℕ → LookupKind → String → Exec World (Option Token)
unfolding cache_query
get_cached_token redis now kind value =
    if redis
    then cache_query (λ c. live_entry now (c.oauth kind value)) >>= (λ d w. (decode d, w))
    else pure none

-- the column that a lookup compares
abbrev pub column : LookupKind → OauthToken → String
column lookup_code r = r.code
column lookup_access r = r.access
column lookup_refresh r = r.refresh

abbrev later_or : (OauthToken → Bool) → OauthToken → Option OauthToken → Option OauthToken
later_or p r (some s) = some s
later_or p r none = if p r then some r else none

-- ORDER BY id DESC LIMIT 1: the table lists its rows by id
unfoldable pub latest : (OauthToken → Bool) → List OauthToken → Option OauthToken
latest p [] = none
latest p (r ∷ rs) = later_or p r (latest p rs)

-- `findTokenRecord`
unfoldable pub find_token_record : LookupKind → String → Exec World (Option OauthToken)
unfolding query latest
find_token_record kind value = query (λ t. latest (λ r. str_eq (column kind r) value) t.tokens)

abbrev pub entry_for : ℕ → TokenData → Ttl → Entry
entry_for now d gone = none
entry_for now d unlimited = some (d, none)
entry_for now d (for n) = some (d, some (now + n))

-- `cacheLookup`
unfoldable pub cache_lookup : ℕ → LookupKind → String → TokenData → Ttl → Exec World Unit
unfolding cache_execute write_entry
cache_lookup now kind value d gone = pure tt
cache_lookup now kind value d unlimited =
    if str_eq value ""
    then pure tt
    else ignored (cache_execute (write_entry kind value (entry_for now d unlimited)))
cache_lookup now kind value d (for n) =
    if str_eq value ""
    then pure tt
    else ignored (cache_execute (write_entry kind value (entry_for now d (for n))))

-- `cacheToken`
unfoldable pub cache_token : Bool → ℕ → Token → TokenData → Exec World Unit
unfolding cache_lookup token_code_ttl token_access_ttl token_refresh_ttl
cache_token redis now t d =
    if redis
    then cache_lookup now lookup_code t.code d (token_code_ttl now t)
      >> cache_lookup now lookup_access t.access d (token_access_ttl now t)
      >> cache_lookup now lookup_refresh t.refresh d (token_refresh_ttl now t)
    else pure tt

-- the keys of a token that are not empty, removed by one DEL
unfoldable pub drop_key : LookupKind → String → Cache → Cache
unfolding write_entry
drop_key kind value c = if str_eq value "" then c else write_entry kind value none c

abbrev pub has_no_key : Token → Bool
has_no_key t = str_eq t.code "" && str_eq t.access "" && str_eq t.refresh ""

-- `deleteCacheKeys`
unfoldable pub delete_cache_keys : Bool → Token → Exec World Unit
unfolding cache_execute drop_key
delete_cache_keys redis t =
    if not redis || has_no_key t
    then pure tt
    else ignored (
        cache_execute (λ c.
          drop_key lookup_refresh t.refresh
            (drop_key lookup_access t.access (drop_key lookup_code t.code c))))

-- `deleteLookupCacheKey`
unfoldable pub delete_lookup_cache_key : Bool → LookupKind → String → Exec World Unit
unfolding cache_execute write_entry
delete_lookup_cache_key redis kind value =
    if not redis || str_eq value ""
    then pure tt
    else ignored (cache_execute (write_entry kind value none))

-- the token and the row that `getByLookup` returns
abbrev pub Found : Type 0
Found = Option Token × Option OauthToken

abbrev pub delete_token : ℕ → Exec World Unit
delete_token id = execute (λ t. record t { tokens = delete_where (λ r. r.id == id) t.tokens })

-- `getByLookup` once a row is decoded
unfoldable pub check_token : Bool → ℕ → LookupKind → String → OauthToken → Token → Exec World Found
unfolding token_expired_for_lookup token_matches_lookup execute delete_where delete_cache_keys
    cache_token
check_token redis now kind value r t =
    if token_expired_for_lookup t kind now
    then delete_token r.id >> delete_cache_keys redis t >> pure (none, none)
    else if not (token_matches_lookup t kind value)
    then pure (none, none)
    else cache_token redis now t r.data_ >> pure (some t, some r)

abbrev pub with_token :
    Bool → ℕ → LookupKind → String → OauthToken → Option Token → Exec World Found
with_token redis now kind value r none = pure (none, some r)
with_token redis now kind value r (some t) = check_token redis now kind value r t

abbrev pub with_record : Bool → ℕ → LookupKind → String → Option OauthToken → Exec World Found
with_record redis now kind value none = pure (none, none)
with_record redis now kind value (some r) =
    (λ w. (token_from_json r.data_, w)) >>= with_token redis now kind value r

abbrev pub or_record : Bool → ℕ → LookupKind → String → Option Token → Exec World Found
or_record redis now kind value (some t) = pure (some t, none)
or_record redis now kind value none =
    find_token_record kind value >>= with_record redis now kind value

-- `getByLookup`
unfoldable pub get_by_lookup : Bool → ℕ → LookupKind → String → Exec World Found
unfolding get_cached_token find_token_record check_token
get_by_lookup redis now kind value =
    if str_eq value ""
    then pure (none, none)
    else get_cached_token redis now kind value >>= or_record redis now kind value

abbrev pub delete_record : Option OauthToken → Exec World Unit
delete_record none = pure tt
delete_record (some r) = delete_token r.id

abbrev pub forget : Bool → LookupKind → String → Option Token → Exec World Unit
forget redis kind value none = delete_lookup_cache_key redis kind value
forget redis kind value (some t) = delete_cache_keys redis t

abbrev pub remove_found : Bool → LookupKind → String → Found → Exec World Unit
remove_found redis kind value (t, r) = delete_record r >> forget redis kind value t

-- `removeByLookup`
unfoldable pub remove_by_lookup : Bool → ℕ → LookupKind → String → Exec World Unit
unfolding get_by_lookup delete_cache_keys delete_lookup_cache_key execute delete_where
remove_by_lookup redis now kind value =
    if str_eq value ""
    then pure tt
    else get_by_lookup redis now kind value >>= remove_found redis kind value

abbrev pub shares : String → String → Bool
shares a b = not (str_eq a "") && str_eq b a

-- the clause of `deleteMatchingTokenRows`
abbrev pub shares_key : Token → OauthToken → Bool
shares_key t r = shares t.code r.code || shares t.access r.access || shares t.refresh r.refresh

-- `deleteMatchingTokenRows`
unfoldable pub delete_matching_token_rows : Token → Exec World Unit
unfolding execute delete_where
delete_matching_token_rows t =
    if has_no_key t
    then pure tt
    else execute (λ x. record x { tokens = delete_where (shares_key t) x.tokens })

unfoldable pub token_row : ℕ → ℕ → Token → OauthToken
unfolding primary_expiry_seconds token_record_expires_at token_created_at
token_row id now t = record {
  id = id;
  client_id = t.client_id;
  user_id = t.user_id;
  code = t.code;
  access = t.access;
  refresh = t.refresh;
  data_ = json t;
  expires_in = primary_expiry_seconds t;
  expires_at = token_record_expires_at t;
  created_at = if token_created_at t == 0 then now else token_created_at t;
}

-- `tx.Create(&record)`
unfoldable pub insert_token : ℕ → Token → Exec World Unit
unfolding token_row
insert_token now t w = (
  ok tt,
  record w {
    tables = record w.tables { tokens = w.tables.tokens ++ token_row w.next_token now t ∷ [] };
    next_token = suc w.next_token;
  },
)

-- `Create`
unfoldable pub create : Bool → ℕ → Token → Exec World Unit
unfolding transaction delete_matching_token_rows call insert_token cache_token
create redis now t =
    transaction (delete_matching_token_rows t >> (call >> insert_token now t))
    >> cache_token redis now t (json t)

-- the keys of a row, with blank values left out
unfoldable pub drop_row : OauthToken → Cache → Cache
unfolding drop_key
drop_row r c =
    drop_key lookup_refresh (trim_space r.refresh)
      (drop_key lookup_access (trim_space r.access) (drop_key lookup_code (trim_space r.code) c))

unfoldable pub drop_rows : List OauthToken → Cache → Cache
unfolding drop_row
drop_rows [] c = c
drop_rows (r ∷ rs) c = drop_rows rs (drop_row r c)

abbrev has_no_row_key : OauthToken → Bool
has_no_row_key r =
    str_eq (trim_space r.code) ""
    && str_eq (trim_space r.access) ""
    && str_eq (trim_space r.refresh) ""

-- no key is gathered
unfoldable pub no_keys : List OauthToken → Bool
no_keys [] = true
no_keys (r ∷ rs) = has_no_row_key r && no_keys rs

unfoldable pub purge_rows : Bool → String → List OauthToken → Exec World Unit
unfolding execute delete_where cache_execute drop_rows no_keys
purge_rows redis user_id [] = pure tt
purge_rows redis user_id (r ∷ rs) =
    execute (λ t. record t { tokens = delete_where (λ x. str_eq x.user_id user_id) t.tokens })
    >> (if not redis || no_keys (r ∷ rs) then pure tt else cache_execute (drop_rows (r ∷ rs)))

-- `PurgeTokensForUser`; the database is there
unfoldable pub purge_tokens_for_user : Bool → String → Exec World Unit
unfolding query select_where purge_rows
purge_tokens_for_user redis user_id =
    let id = trim_space user_id in
    if str_eq id ""
    then pure tt
    else query (λ t. select_where (λ r. str_eq r.user_id id) t.tokens) >>= purge_rows redis id
