-- ===== src/Config/Tests.antt =====
-- Runs of internal/config/config.go.
use minnal_labs.Base.{◌≡◌, refl, true, some, [], ◌∷◌}
use minnal_labs.Base.Text.{trim_space, trim_left, trim_right, to_lower, cut, has_prefix, drop}
use minnal_labs.Base.Text.Parts.{split_on, has_char, cut_last}
use minnal_labs.Config.{
  AppConfig, non_blank, frontend_allowed_origins, split_host_port, mqtt_host_and_port,
  session_same_site, same_site_none,
}
use minnal_labs.Config.Broker.{mqtt_host_and_port-broker}

abbrev pub settings : AppConfig
settings = record {
  server_profile = "default";
  mqtt_broker = "tcp://broker.example:1884";
  mqtt_host = "";
  mqtt_port = " ";
  frontend_allowed_origins = "http://a.example, ,http://b.example";
  session_cookie_name = "user_session";
  session_domain = "";
  session_secure = true;
  session_same_site = "None";
  oauth_client_id = "google-client";
  oauth_client_secret = "";
  firmware_storage_dir = "./firmware";
  google_client_id = "id";
  google_client_secret = "secret";
}

lists_origins : frontend_allowed_origins settings ≡ "http://a.example" ∷ "http://b.example" ∷ []
unfolding frontend_allowed_origins non_blank split_on trim_space trim_left trim_right
lists_origins = refl

reads_addresses : split_host_port "[::1]:1883" ≡ some ("::1", "1883")
unfolding split_host_port cut has_char cut_last has_prefix drop
reads_addresses = refl

reads_the_mode : session_same_site settings ≡ same_site_none
unfolding session_same_site trim_space trim_left trim_right to_lower
reads_the_mode = refl

mqtt_host_and_port-broker_example : mqtt_host_and_port settings ≡ ("broker.example", "1884")
unfolding trim_space trim_left trim_right
mqtt_host_and_port-broker_example =
    mqtt_host_and_port-broker "broker.example" "1884" refl refl settings refl refl refl refl refl
