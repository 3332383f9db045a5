-- ===== src/State/Tests.antt =====
-- Runs of internal/state/session.go with one session of the user 3, and of internal/state/state.go with a
-- device of the user 3.
use minnal_labs.Base.{
  ℕ, ◌≡◌, refl, String, true, false, none, some, [], ◌∷◌, arith, ◌==◌, if◌then◌else◌,
}
use minnal_labs.Base.Map.{is_member}
use minnal_labs.Base.Exec.{ok, ◌>>=◌, modify, gets, or_else}
use minnal_labs.World.{DeviceInfo, DevicePresence, World, SessionInfo, cache_query, cache_execute}
use minnal_labs.State.{remove_device}
use minnal_labs.State.Presence.{set_device_presence, set_device_presence-remembers}
use minnal_labs.State.Removal.{Forgotten, remove_device-forgets}
use minnal_labs.Base.Text.{to_lower, trim_space, has_prefix}
use minnal_labs.State.Session.{
  live_session, new_session, touch_session, get_session, delete_sessions_for_user,
}
use minnal_labs.State.Logout.{touch_session-slides, delete_sessions-log_out}

abbrev digest : String → ℕ
digest token = 77

abbrev start : World
start = record {
  tables = record {
    users = [];
    admin_users = [];
    homes = [];
    devices = [];
    jobs = [];
    products = [];
    rollouts = [];
    rollout_devices = [];
    tokens = [];
    capabilities = [];
    product_capabilities = [];
    oauth_clients = [];
  };
  next_user = 9;
  next_home = 1;
  next_device = 90;
  next_job = 1;
  next_rollout = 1;
  next_token = 1;
  cache = record {
    oauth = λ _ _. none;
    sessions =
        λ key. if key == 77 then some (new_session digest 100 5 3 "ann" false, 105) else none;
    user_sessions = λ id. if id == 3 then 77 ∷ [] else [];
    google_csrf = λ _. none;
    device_meta = λ _. none;
    device_presence = λ _. none;
    device_state = λ _ _. none;
    device_ids = [];
    user_device_ids = λ _. [];
    product_caps = λ _. [];
  };
  actions = [];
  faults = [];
  replies = [];
}

abbrev seen : SessionInfo
seen = record (new_session digest 100 5 3 "ann" false) { last_seen_at = 50 }

touch_session-slides_example :
    live_session 149 ((touch_session digest 100 50 "t" start).1.cache.sessions 77) ≡ some seen
unfolding touch_session ◌>>=◌ or_else cache_query gets cache_execute modify
touch_session-slides_example =
    touch_session-slides digest 100 50 149 "t" (omega arith) seen start refl

delete_sessions-log_out_example :
    (get_session digest 100 50 "t" (delete_sessions_for_user 3 start).1).0 ≡ ok none
unfolding is_member
delete_sessions-log_out_example =
    delete_sessions-log_out digest 100 50 "t" 3 start (omega arith) refl refl

abbrev lamp : DeviceInfo
lamp = record { id = 8; user_id = 3; home_id = 1; product_id = 2; name = "lamp" }

abbrev lamp_online : DevicePresence
lamp_online = record {
  online = true;
  last_status = "online_v1";
  firmware_version = "v1";
  last_status_at = 40;
  last_seen_at = 40;
}

abbrev with_lamp : World
with_lamp = record start {
  cache = record start.cache {
    device_meta = λ id. if id == 8 then some lamp else none;
    device_presence = λ id. if id == 8 then some lamp_online else none;
    device_ids = 8 ∷ [];
    user_device_ids = λ id. if id == 3 then 8 ∷ [] else [];
  };
}

abbrev lamp_offline : DevicePresence
lamp_offline = record {
  online = false;
  last_status = "Offline";
  firmware_version = "v1";
  last_status_at = 60;
  last_seen_at = 40;
}

set_device_presence-remembers_example :
    (set_device_presence 60 8 " Offline" with_lamp).1.cache.device_presence 8 ≡ some lamp_offline
unfolding to_lower trim_space has_prefix
set_device_presence-remembers_example = set_device_presence-remembers 60 8 " Offline" with_lamp refl

remove_device-forgets_example : Forgotten 8 lamp (remove_device 8 with_lamp).1.cache
remove_device-forgets_example = remove_device-forgets 8 lamp (omega arith) with_lamp refl refl
