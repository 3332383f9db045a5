-- ===== src/Mqtt/Messages.antt =====
-- internal/mqtt/mqtt.go: what the server does with the messages of devices, and when it connects. The
-- hook for a device's status is a parameter.
use minnal_labs.Base.{ℕ, String, Option, none, some, List, [], ◌∷◌, str_eq, if◌then◌else◌}
use minnal_labs.Base.Text.Decimal.{parse_uint}
use minnal_labs.Base.Text.Parts.{split_on}
use minnal_labs.Base.Exec.{Exec, pure, or_else, ◌>>=◌, ◌>>◌}
use minnal_labs.Models.Topics.{build_status_topic}
use minnal_labs.World.{World, DeviceInfo}
use minnal_labs.State.{get_product_caps, set_cap_state}
use minnal_labs.State.Presence.{set_device_presence}
use minnal_labs.State.Sync.{get_all_devices}
use minnal_labs.Mqtt.{subscribe_topic, subscribe_caps}

module _ (hook : ℕ → String → Exec World Unit) (now : ℕ) where
  abbrev pub on_status : String → Option ℕ → Exec World Unit
  on_status payload none = pure tt
  on_status payload (some id) = set_device_presence now id payload >> hook id payload

  abbrev pub on_state : String → String → Option ℕ → Exec World Unit
  on_state key payload none = pure tt
  on_state key payload (some id) = set_cap_state id key payload

  -- by the parts of the topic
  unfoldable pub route : String → List String → Exec World Unit
  unfolding parse_uint set_device_presence set_cap_state
  route payload (user ∷ home ∷ id ∷ last ∷ []) =
      if str_eq last "status" then on_status payload (parse_uint id) else pure tt
  route payload (user ∷ home ∷ id ∷ component ∷ key ∷ action ∷ rest) =
      on_state key payload (parse_uint id)
  route payload parts = pure tt

  -- `messagePubHandler`
  unfoldable pub message_pub_handler : String → String → Exec World Unit
  unfolding split_on route
  message_pub_handler topic payload = route payload (split_on b'/' topic)

-- the loop of `connectHandler`; the subscription to the plugin's answers stands in Mqtt/Dynsec
unfoldable pub subscribe_devices : List DeviceInfo → Exec World Unit
unfolding subscribe_topic subscribe_caps get_product_caps
subscribe_devices [] = pure tt
subscribe_devices (d ∷ ds) =
    subscribe_topic (build_status_topic d.user_id d.home_id d.id)
    >> or_else (get_product_caps d.product_id) (λ e. pure tt)
        (subscribe_caps d.user_id d.home_id d.id)
    >> subscribe_devices ds

-- `connectHandler`
unfoldable pub connect_handler : Exec World Unit
unfolding get_all_devices subscribe_devices
connect_handler = get_all_devices >>= subscribe_devices
