-- ===== src/Google/Tests.antt =====
-- A run of `handleExecute` for a lamp of the user 3 and one of somebody else, and the id of a device.
use minnal_labs.Base.{
  ℕ, ◌≡◌, refl, sym, arith, Bool, true, false, ◌||◌, none, some, List, [], ◌∷◌, ◌==◌, if◌then◌else◌,
}
use minnal_labs.Base.Map.{is_member}
use minnal_labs.Base.Rows.{All}
use minnal_labs.World.{World, CapInfo, DeviceInfo}
use minnal_labs.World.Yields.{Yielded}
use minnal_labs.Google.Sync.{handle_sync}
use minnal_labs.Google.Disclosure.{IsOwnerOf, IsOwnEntry, handle_sync-OnlyOwn}
use minnal_labs.Google.{Command, handle_execute, compound_id, parse_compound_id}
use minnal_labs.Google.Compound.{parse_compound_id-compound_id}
use minnal_labs.Google.Owner.{OnlyOwn, handle_execute-OnlyOwn}

abbrev lamp : ℕ → DeviceInfo
lamp user_id = record { id = 11; user_id = user_id; home_id = 7; product_id = 2; name = "lamp" }

abbrev relay : CapInfo
relay = record {
  esphome_key = "relay";
  component = "switch";
  trait_type = "OnOff";
  writable = true;
  google_device_type = "action.devices.types.SWITCH";
}

abbrev start : World
start = record {
  tables = record {
    users = [];
    admin_users = [];
    homes = [];
    devices = [];
    jobs = [];
    products = [];
    rollouts = [];
    rollout_devices = [];
    tokens = [];
    capabilities = [];
    product_capabilities = [];
    oauth_clients = [];
  };
  next_user = 9;
  next_home = 1;
  next_device = 90;
  next_job = 1;
  next_rollout = 1;
  next_token = 1;
  cache = record {
    oauth = λ _ _. none;
    sessions = λ _. none;
    user_sessions = λ _. [];
    google_csrf = λ _. none;
    device_meta = λ id. if id == 11 then some (lamp 3) else some (lamp 4);
    device_presence = λ _. none;
    device_state = λ _ _. none;
    device_ids = [];
    user_device_ids = λ _. [];
    product_caps = λ _. ("relay", relay) ∷ [];
  };
  actions = [];
  faults = [];
  replies = [];
}

abbrev commands : List Command
commands =
    record {
      devices = "11:relay" ∷ "12:relay" ∷ [];
      execution = record { command = "action.devices.commands.OnOff"; on = some true } ∷ [];
    }
    ∷ []

handle_execute-OnlyOwn_example : OnlyOwn 3 (handle_execute 3 commands start).1
handle_execute-OnlyOwn_example = handle_execute-OnlyOwn 3 commands start tt

parse_compound_id-compound_id_example :
    parse_compound_id (compound_id 12 "relay:1") ≡ some (12, "relay:1")
parse_compound_id-compound_id_example = parse_compound_id-compound_id 12 "relay:1" (omega arith)

-- the user 3 has the lamp, and the second call of the cache fails
abbrev listed : World
listed = record start {
  cache = record start.cache { user_device_ids = λ u. if u == 3 then 11 ∷ [] else [] };
  faults = none ∷ none ∷ some "no connection" ∷ [];
}

first_of : (a : Bool) → a || false ≡ true → a ≡ true
first_of a e = ground (arith, e)

some-injective : {A : Type 0} {a b : A} → some a ≡ some b → a ≡ b
some-injective e = cc

listed-IsOwnerOf : IsOwnerOf listed.cache 3
unfolding is_member
listed-IsOwnerOf id d m e =
    let eleven : id == 11 ≡ true = first_of (id == 11) m in
    let same : some (lamp 3) ≡ some d = rw eleven at e in
    rw (sym (some-injective same)) (refl, omega arith)

handle_sync-OnlyOwn_example :
    Yielded listed.cache (λ s. All (IsOwnEntry listed.cache 3) s.devices) (handle_sync "3" 3 listed)
handle_sync-OnlyOwn_example = handle_sync-OnlyOwn "3" 3 listed listed-IsOwnerOf
