-- ===== src/Oauth/Tests.antt =====
-- Runs of internal/oauth/token_store.go with one token.
use minnal_labs.Base.{
  ◌≡◌, refl, true, false, Option, none, some, List, [], ◌∷◌, ◌⊎◌, str_eq, if◌then◌else◌,
}
use minnal_labs.Base.Rows.{All}
use minnal_labs.Base.Text.{trim_space}
use minnal_labs.Base.Exec.{ok, ◌>>=◌, modify, gets, pure, ignored}
use minnal_labs.Models.{Token, json, OauthToken}
use minnal_labs.World.Sample.{empty_world}
use minnal_labs.World.{
  World, Cache, call, cache_execute, lookup_code, lookup_access, lookup_refresh,
}
use minnal_labs.Oauth.Expiry.{
  token_expired_for_lookup, token_matches_lookup, token_code_ttl, token_access_ttl,
  token_refresh_ttl, remaining_ttl,
}
use minnal_labs.Oauth.Store.{
  Found, live_entry, latest, write_entry, cache_lookup, cache_token, token_row, create,
  get_by_lookup, remove_by_lookup, purge_tokens_for_user,
}
use minnal_labs.Oauth.Lifetime.{cached-lives}
use minnal_labs.Oauth.Lookup.{IsChecked, get_by_lookup-IsChecked}
use minnal_labs.Oauth.Leftover.{remove_by_lookup-keeps_row}
use minnal_labs.Oauth.Removal.{Stored, create-Stored, purge_tokens-purges}

abbrev grant : Token
grant = record {
  client_id = "google";
  user_id = "3";
  redirect_uri = "";
  scope = "";
  code = "c1";
  code_create_at = 100;
  code_expires_in = 50;
  code_challenge = "";
  code_challenge_method = "";
  access = "";
  access_create_at = 0;
  access_expires_in = 0;
  refresh = "";
  refresh_create_at = 0;
  refresh_expires_in = 0;
}

abbrev cache : Cache
cache = record {
  oauth = λ kind value. elim kind [
    | lookup_code ↦ if str_eq value "c1" then some (json grant, some 150) else none
    | lookup_access ↦ none
    | lookup_refresh ↦ none
  ];
  sessions = λ _. none;
  user_sessions = λ _. [];
  google_csrf = λ _. none;
  device_meta = λ _. none;
  device_presence = λ _. none;
  device_state = λ _ _. none;
  device_ids = [];
  user_device_ids = λ _. [];
  product_caps = λ _. [];
}

abbrev start : List OauthToken → World
start tokens = record {
  tables = record {
    users = [];
    admin_users = [];
    homes = [];
    devices = [];
    jobs = [];
    products = [];
    rollouts = [];
    rollout_devices = [];
    tokens = tokens;
    capabilities = [];
    product_capabilities = [];
    oauth_clients = [];
  };
  next_user = 9;
  next_home = 1;
  next_device = 90;
  next_job = 1;
  next_rollout = 1;
  next_token = 2;
  cache = cache;
  actions = [];
  faults = [];
  replies = [];
}

abbrev rows : List OauthToken
rows = token_row 1 100 grant ∷ []

create-Stored_example : Stored grant (create true 100 grant (start rows)).1.tables
unfolding create ◌>>=◌ modify
create-Stored_example = create-Stored 100 grant true (start rows) refl

purge_tokens-purges_example :
    All
      (λ r. str_eq r.user_id (trim_space " 3 ") ≡ false)
      (purge_tokens_for_user true " 3 " (start rows)).1.tables.tokens
unfolding purge_tokens_for_user trim_space ◌>>=◌ modify gets token_row
purge_tokens-purges_example = purge_tokens-purges true " 3 " (start rows) refl refl

abbrev loaded : Found
loaded = (some grant, some (token_row 1 100 grant))

get_by_lookup-IsChecked_example :
    IsChecked lookup_code "c1" 120 (start rows).tables.tokens loaded
    ⊎ ((t : Token) × (live_entry 120 (cache.oauth lookup_code "c1") ≡ some (json t))
        × (loaded ≡ (some t, none)))
unfolding get_by_lookup ◌>>=◌ gets pure token_row
get_by_lookup-IsChecked_example =
    get_by_lookup-IsChecked 120 lookup_code "c1" false (start rows) loaded refl

remove_by_lookup-keeps_row_example :
    (let v = (remove_by_lookup true 120 lookup_code "c1" (start rows)).1 in
      (v.tables ≡ (start rows).tables)
      × (x : Option OauthToken) × ((get_by_lookup true 130 lookup_code "c1"
            (record v { faults = [] })).0
          ≡ ok (some grant, x)))
unfolding latest token_row token_matches_lookup token_expired_for_lookup
remove_by_lookup-keeps_row_example =
    remove_by_lookup-keeps_row 120 130 lookup_code "c1" grant refl (token_row 1 100 grant) refl refl
      refl (start rows) refl refl

cached-lives_example : token_expired_for_lookup grant lookup_code 149 ≡ false
unfolding cache_token cache_lookup cache_execute call write_entry token_code_ttl token_access_ttl
    token_refresh_ttl remaining_ttl modify ignored pure ◌>>=◌
cached-lives_example =
    cached-lives lookup_code 100 149 grant (json grant) true empty_world refl refl
