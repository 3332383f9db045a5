-- ===== src/World.antt =====
-- The state that the handlers and workers share: the PostgreSQL tables behind `db.DB`, what was
-- sent to the MQTT broker, and the answers that the services outside the program will give.
pub mod Maintains
pub mod Commits
pub mod Query
pub mod Runs
pub mod Atomic
pub mod Caches
pub mod Yields
pub mod Sample
use minnal_labs.Base.{ℕ, ◌++◌, String, Bool, true, false, Option, none, some, List, [], ◌∷◌}
use minnal_labs.Base.Exec.{Error, Outcome, ok, err, Exec, ◌>>=◌, ◌>>◌, modify, gets}
use minnal_labs.Models.{
  Product, FirmwareRollout, FirmwareRolloutDevice, TokenData, OauthToken, User, AdminUser, Home,
  Device, HomeMqttJob, Capability, ProductCapability, OauthClient,
}

pub record Tables : Type 0 where
  pub users : List User
  pub admin_users : List AdminUser
  pub homes : List Home
  pub devices : List Device
  pub jobs : List HomeMqttJob
  pub products : List Product
  pub rollouts : List FirmwareRollout
  pub rollout_devices : List FirmwareRolloutDevice
  pub tokens : List OauthToken
  pub capabilities : List Capability
  pub product_capabilities : List ProductCapability
  pub oauth_clients : List OauthClient

-- state.CapInfo
pub record CapInfo : Type 0 where
  pub esphome_key : String
  pub component : String
  pub trait_type : String
  pub writable : Bool
  pub google_device_type : String

-- state.DeviceInfo
pub record DeviceInfo : Type 0 where
  pub id : ℕ
  pub user_id : ℕ
  pub home_id : ℕ
  pub product_id : ℕ
  pub name : String

-- state.DevicePresence
pub record DevicePresence : Type 0 where
  pub online : Bool
  pub last_status : String
  pub firmware_version : String
  pub last_status_at : ℕ
  pub last_seen_at : ℕ

-- state.SessionInfo
pub record SessionInfo : Type 0 where
  pub user_id : ℕ
  pub username : String
  pub is_admin : Bool
  pub created_at : ℕ
  pub last_seen_at : ℕ

-- googleauth.oauthStatePayload
pub record OauthStatePayload : Type 0 where
  pub intent : String
  pub user_id : ℕ

-- oauth.lookupKind
pub data LookupKind : Type 0 where
  lookup_code lookup_access lookup_refresh : LookupKind

-- The keys of Valkey that the state package writes, by their prefix: `device_meta:%d`,
-- `device_presence:%d`, `device:%d` (a hash), `device_ids`, `user_device_ids:%d` (sets) and
-- `product_caps:%d` (a hash). A value is what its JSON stands for.
pub record Cache : Type 0 where
  -- `oauth:code:`, `oauth:access:` and `oauth:refresh:`, with the time when the entry goes, if it does
  pub oauth : LookupKind → String → Option (TokenData × Option ℕ)
  -- `session:` and `user_sessions:`, by the digest of a session's token
  pub sessions : ℕ → Option (SessionInfo × ℕ)
  pub user_sessions : ℕ → List ℕ
  -- `google_csrf:`, with the time when the entry goes
  pub google_csrf : String → Option (OauthStatePayload × ℕ)
  pub device_meta : ℕ → Option DeviceInfo
  pub device_presence : ℕ → Option DevicePresence
  pub device_state : ℕ → String → Option String
  pub device_ids : List ℕ
  pub user_device_ids : ℕ → List ℕ
  pub product_caps : ℕ → List (String × CapInfo)

-- One entry of an answer on the Dynamic Security topic: the command, and its error text.
pub record DynsecResponse : Type 0 where
  pub command : String
  pub error : String

-- How a request to the Dynamic Security plugin ends: the publication fails, no answer arrives in
-- time, or an envelope arrives.
pub data Reply : Type 0 where
  unpublished : String → Reply
  timed_out : Reply
  envelope : List DynsecResponse → Reply

pub data DynsecCommand : Type 0 where
  create_role delete_role : String → DynsecCommand
  add_role_acl : String → String → String → DynsecCommand
  create_client : String → String → DynsecCommand
  delete_client : String → DynsecCommand
  add_client_role : String → String → DynsecCommand

-- mqtt.OTACommand, without the time of issue, which nothing reads
pub record OtaCommand : Type 0 where
  pub product_id : ℕ
  pub version : String
  pub url : String
  pub md5_url : String
  pub rollout_id : ℕ
  pub batch_number : ℕ

-- A call of the broker's client, with what it was given: commands for the Dynamic Security plugin, a
-- topic that is subscribed or unsubscribed, a retained message that is cleared, a message
-- that is published, a firmware command that is published
-- as a retained message.
pub data Action : Type 0 where
  dynsec : List DynsecCommand → Action
  subscribe : String → Action
  unsubscribe : String → Action
  clear_retained : String → Action
  publish : String → String → Action
  publish_firmware : String → OtaCommand → Action

pub record World : Type 0 where
  pub tables : Tables
  pub open tables use *
  pub next_user : ℕ
  pub next_home : ℕ
  pub next_device : ℕ
  pub next_job : ℕ
  pub next_rollout : ℕ
  pub next_token : ℕ
  pub cache : Cache
  pub actions : List Action
  -- for each coming call of the database or the broker, the driver's error if it fails; a call
  -- past the end succeeds
  pub faults : List (Option String)
  -- the coming answers of the Dynamic Security plugin; past the end there is none in time
  pub replies : List Reply

abbrev driver_error : String → Error
driver_error m = record { not_found = false; message = m }

abbrev pub not_found_error : Error
not_found_error = record { not_found = true; message = "record not found" }

-- `fmt.Errorf("prefix: %w", err)`
abbrev pub wrap : String → Error → Error
wrap prefix e = record e {
  message = Prim.Native.String.◌++◌ prefix (Prim.Native.String.◌++◌ ": " e.message);
}

-- `fmt.Errorf("text")`
abbrev pub errorf : String → Error
errorf m = record { not_found = false; message = m }

abbrev outcome_of : Option String → Outcome Unit
outcome_of none = ok tt
outcome_of (some m) = err (driver_error m)

take_fault : List (Option String) → Outcome Unit × List (Option String)
take_fault [] = (ok tt, [])
take_fault (f ∷ fs) = (outcome_of f, fs)

-- one round trip to a service, which may fail
unfoldable pub call : Exec World Unit
unfolding take_fault
call w = let (r, fs) = take_fault w.faults in (r, record w { faults = fs })

-- one SQL statement that writes: nothing is written if it fails
unfoldable pub execute : (Tables → Tables) → Exec World Unit
unfolding call
execute f = call >> modify (λ w. record w { tables = f w.tables })

-- one command, or one pipeline in a MULTI, to Valkey that writes
unfoldable pub cache_execute : (Cache → Cache) → Exec World Unit
unfolding call
cache_execute f = call >> modify (λ w. record w { cache = f w.cache })

-- one command to Valkey that reads
unfoldable pub cache_query : {A : Type 0} → (Cache → A) → Exec World A
unfolding call
cache_query f = call >> gets (λ w. f w.cache)

-- one SQL statement that reads
unfoldable pub query : {A : Type 0} → (Tables → A) → Exec World A
unfolding call
query f = call >> gets (λ w. f w.tables)

abbrev found : {A : Type 0} → Option A → Outcome A
found none = err not_found_error
found (some a) = ok a

-- `First`, `Take`: `gorm.ErrRecordNotFound` if no row fits
unfoldable pub query_first : {A : Type 0} → (Tables → Option A) → Exec World A
unfolding query
query_first f = query f >>= λ o w. (found o, w)

-- `db.Transaction`: the tables of an attempt that fails are those from before it; what was taken
-- from a sequence stays taken
rolled_back : Tables → World → World
rolled_back t w = record w { tables = t }

commit : {A : Type 0} → A → Tables → Outcome Unit × World → Outcome A × World
unfolding rolled_back
commit a t (ok _, w) = (ok a, w)
commit a t (err e, w) = (err e, rolled_back t w)

finish : {A : Type 0} → Tables → Outcome A × World → Outcome A × World
unfolding commit rolled_back call
finish t (ok a, w) = commit a t (call w)
finish t (err e, w) = (err e, rolled_back t w)

unfoldable pub transaction : {A : Type 0} → Exec World A → Exec World A
unfolding finish
transaction m = call >> λ w. finish w.tables (m w)

-- one request to the broker, which may fail
unfoldable pub send : Action → Exec World Unit
unfolding call
send a = modify (λ w. record w { actions = w.actions ++ a ∷ [] }) >> call
