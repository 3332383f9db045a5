-- ===== src/World/Sample.antt =====
-- A state with nothing in it, from which the runs of the parts start.
use minnal_labs.Base.{none, []}
use minnal_labs.World.{World}

abbrev pub empty_world : World
empty_world = record {
  tables = record {
    users = [];
    admin_users = [];
    homes = [];
    devices = [];
    jobs = [];
    products = [];
    rollouts = [];
    rollout_devices = [];
    tokens = [];
    capabilities = [];
    product_capabilities = [];
    oauth_clients = [];
  };
  next_user = 9;
  next_home = 5;
  next_device = 90;
  next_job = 1;
  next_rollout = 1;
  next_token = 2;
  cache = record {
    oauth = λ _ _. none;
    sessions = λ _. none;
    user_sessions = λ _. [];
    google_csrf = λ _. none;
    device_meta = λ _. none;
    device_presence = λ _. none;
    device_state = λ _ _. none;
    device_ids = [];
    user_device_ids = λ _. [];
    product_caps = λ _. [];
  };
  actions = [];
  faults = [];
  replies = [];
}
