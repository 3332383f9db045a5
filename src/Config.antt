-- ===== src/Config.antt =====
-- internal/config/config.go: the settings that the handlers read, and what is made of them.
pub mod Origins
pub mod Broker
pub mod Tests
use Prim.Native.String
use minnal_labs.Base.{
  ℕ, ◌*◌, String, Bool, true, false, not, ◌&&◌, ◌||◌, Option, none, some, List, [], ◌∷◌, ◌==◌,
  str_eq, if◌then◌else◌,
}
use minnal_labs.Base.Text.{trim_space, to_lower, cut, has_prefix, drop}
use minnal_labs.Base.Text.Parts.{split_on, has_char, after_scheme, cut_last}
use minnal_labs.HomeJobs.Queue.{second}

pub record AppConfig : Type 0 where
  pub server_profile : String
  pub mqtt_broker : String
  pub mqtt_host : String
  pub mqtt_port : String
  pub frontend_allowed_origins : String
  pub session_cookie_name : String
  pub session_domain : String
  pub session_secure : Bool
  pub session_same_site : String
  pub oauth_client_id : String
  pub oauth_client_secret : String
  pub firmware_storage_dir : String
  pub google_client_id : String
  pub google_client_secret : String

-- the loop over `parts`
unfoldable pub non_blank : List String → List String
unfolding trim_space
non_blank [] = []
non_blank (part ∷ parts) =
    let rest = non_blank parts in
    if str_eq (trim_space part) "" then rest else trim_space part ∷ rest

abbrev or_localhost : List String → List String
or_localhost [] = "http://localhost" ∷ []
or_localhost (origin ∷ origins) = origin ∷ origins

-- `FrontendAllowedOrigins`
unfoldable pub frontend_allowed_origins : AppConfig → List String
unfolding non_blank split_on trim_space
frontend_allowed_origins c =
    let raw = trim_space c.frontend_allowed_origins in
    if str_eq raw "" then "http://localhost" ∷ [] else or_localhost (non_blank (split_on b',' raw))

abbrev port_after : String → String → Option (String × String)
port_after host (String.◌∷◌ c rest) =
    if not (Prim.Native.Char.code c == b':') || has_char b':' rest || has_char b']' rest
    then none
    else some (host, rest)
port_after host String.[] = none

-- `net.SplitHostPort` behind a `[`
bracketed : String → Option (String × String)
unfolding cut has_char
bracketed s =
    let (host, closed, rest) = cut b']' s in
    if not closed || has_char b'[' s then none else port_after host rest

abbrev plain : Option (String × String) → Option (String × String)
plain none = none
plain (some (host, port)) = if has_char b':' host then none else some (host, port)

-- `net.SplitHostPort`: every error is `none`
unfoldable pub split_host_port : String → Option (String × String)
unfolding bracketed has_char cut_last has_prefix drop
split_host_port s =
    if has_prefix s "["
    then bracketed (drop 1 s)
    else if has_char b'[' s || has_char b']' s
    then none
    else plain (cut_last b':' s)

abbrev pub or_whole : String → Option String → String
or_whole s none = s
or_whole s (some rest) = rest

-- `broker` without its scheme and its path
unfoldable pub broker_address : String → String
unfolding after_scheme cut trim_space
broker_address broker =
    let raw = trim_space broker in (cut b'/' (or_whole raw (after_scheme raw))).0

abbrev pub or_default : String → String → String
or_default default_ s = if str_eq s "" then default_ else s

abbrev filled : String → String → String → Option (String × String) → String × String
filled host port broker (some (h, p)) = (or_default h host, or_default p port)
filled host port broker none = (or_default broker host, port)

-- the block that reads the broker's address
unfoldable pub from_broker : String → String → String → String × String
unfolding broker_address split_host_port
from_broker broker host port =
    if str_eq host "" || str_eq port ""
    then filled host port (broker_address broker) (split_host_port (broker_address broker))
    else (host, port)

-- `MQTTHostAndPort`
unfoldable pub mqtt_host_and_port : AppConfig → String × String
unfolding from_broker
mqtt_host_and_port c =
    let (host, port) =
      from_broker c.mqtt_broker (trim_space c.mqtt_host) (trim_space c.mqtt_port) in
    (or_default "localhost" host, or_default "1883" port)

-- `SessionTTL`
abbrev pub session_ttl : ℕ
session_ttl = 7 * 24 * 3600 * second

-- http.SameSite
pub data SameSite : Type 0 where
  same_site_default same_site_lax same_site_strict same_site_none : SameSite

-- `SessionSameSite`
unfoldable pub session_same_site : AppConfig → SameSite
session_same_site c =
    let mode = to_lower (trim_space c.session_same_site) in
    if str_eq mode "strict"
    then same_site_strict
    else if str_eq mode "none"
    then same_site_none
    else if str_eq mode "default"
    then same_site_default
    else same_site_lax

-- `FirmwareStoragePath`
unfoldable pub firmware_storage_path : AppConfig → String
firmware_storage_path c = or_default "./firmware" (trim_space c.firmware_storage_dir)
