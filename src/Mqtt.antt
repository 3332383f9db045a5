-- ===== src/Mqtt.antt =====
-- internal/mqtt: the calls of the broker that the other packages make. A call may fail, as the
-- coming faults say; `Subscribe` and `Unsubscribe` only log a failure.
pub mod Dynsec
pub mod Untouched
pub mod Messages
pub mod Routing
pub mod Tests
use minnal_labs.Base.{ℕ, String, List, [], ◌∷◌, ◌++◌}
use minnal_labs.Base.Exec.{Exec, pure, wrapped, ignored, or_else, ◌>>=◌, ◌>>◌, modify}
use minnal_labs.Models.{Device}
use minnal_labs.Models.Topics.{build_topic, build_status_topic, build_ota_command_topic}
use minnal_labs.World.{
  World, CapInfo, Action, subscribe, unsubscribe, clear_retained, publish, publish_firmware, call,
  cache_query, wrap, send,
}
use minnal_labs.State.{get_product_caps}

-- `Subscribe`
unfoldable pub subscribe_topic : String → Exec World Unit
unfolding send
subscribe_topic topic = ignored (send (subscribe topic))

-- the loop over `caps`
unfoldable pub subscribe_caps : ℕ → ℕ → ℕ → List (String × CapInfo) → Exec World Unit
unfolding subscribe_topic
subscribe_caps user_id home_id id [] = pure tt
subscribe_caps user_id home_id id ((_, cap) ∷ caps) =
    subscribe_topic (build_topic user_id home_id id cap.component cap.esphome_key "state")
    >> subscribe_caps user_id home_id id caps

-- `SubscribeDevice`
unfoldable pub subscribe_device : Device → Exec World Unit
unfolding subscribe_topic subscribe_caps
subscribe_device d =
    subscribe_topic (build_status_topic d.user_id d.home_id d.id)
    >> or_else (get_product_caps d.product_id) (λ e. pure tt)
        (subscribe_caps d.user_id d.home_id d.id)

-- `Unsubscribe`
unfoldable pub unsubscribe_topic : String → Exec World Unit
unfolding send
unsubscribe_topic topic = ignored (send (unsubscribe topic))

unfoldable pub unsubscribe_caps : Device → List (String × CapInfo) → Exec World Unit
unfolding unsubscribe_topic
unsubscribe_caps d [] = pure tt
unsubscribe_caps d ((_, cap) ∷ caps) =
    unsubscribe_topic (build_topic d.user_id d.home_id d.id cap.component cap.esphome_key "state")
    >> unsubscribe_caps d caps

-- `UnsubscribeDevice`
unfoldable pub unsubscribe_device : Device → Exec World Unit
unfolding unsubscribe_topic unsubscribe_caps
unsubscribe_device d =
    unsubscribe_topic (build_status_topic d.user_id d.home_id d.id)
    >> or_else (get_product_caps d.product_id) (λ e. pure tt) (unsubscribe_caps d)

-- `ClearRetainedDeviceFirmwareUpdate`
unfoldable pub clear_retained_device_firmware_update : Device → Exec World Unit
unfolding send
clear_retained_device_firmware_update d =
    wrapped (wrap "clear retained ota command")
      (send (clear_retained (build_ota_command_topic d.user_id d.home_id d.id)))

-- `PublishRetainedDeviceFirmwareUpdate`
unfoldable pub publish_retained_device_firmware_update :
    Device → String → String → String → ℕ → ℕ → Exec World Unit
unfolding send
publish_retained_device_firmware_update d version url md5_url rollout_id batch_number =
    wrapped (wrap "publish mqtt payload") (
      send (
        publish_firmware (build_ota_command_topic d.user_id d.home_id d.id) (record {
          product_id = d.product_id;
          version = version;
          url = url;
          md5_url = md5_url;
          rollout_id = rollout_id;
          batch_number = batch_number;
        })))

-- `Publish` of a text. The retries in the background send the same message, and failures are logged:
-- one request stands for all of them.
unfoldable pub publish_text : String → String → Exec World Unit
unfolding send
publish_text topic payload = ignored (send (publish topic payload))
