-- ===== src/Mqtt/Tests.antt =====
-- Runs of internal/mqtt/mqtt.go.
use minnal_labs.Base.{ℕ, ◌≡◌, refl, arith, String}
use minnal_labs.Base.Exec.{Exec, pure, ◌>>◌}
use minnal_labs.Base.Text.Decimal.{decimal}
use minnal_labs.Models.Topics.{build_topic, build_status_topic}
use minnal_labs.World.{World}
use minnal_labs.State.{set_cap_state}
use minnal_labs.State.Presence.{set_device_presence}
use minnal_labs.Mqtt.Messages.{message_pub_handler}
use minnal_labs.Mqtt.Routing.{message_pub_handler-routes}

abbrev no_hook : ℕ → String → Exec World Unit
no_hook id status = pure tt

builds_topics : build_topic 3 2 7 "light" "lamp" "state" ≡ "3/2/7/light/lamp/state"
unfolding build_topic decimal
builds_topics = refl

message_pub_handler-routes_example :
    (message_pub_handler no_hook 100 (build_topic 3 2 7 "light" "lamp" "state") "ON"
      ≡ set_cap_state 7 "lamp" "ON")
    × (message_pub_handler no_hook 100 (build_status_topic 3 2 7) "ON"
        ≡ (set_device_presence 100 7 "ON" >> no_hook 7 "ON"))
message_pub_handler-routes_example =
    message_pub_handler-routes no_hook 100 3 2 7 "ON" (omega arith) "light" "lamp" "state" refl refl
      refl
