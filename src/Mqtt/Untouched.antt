-- ===== src/Mqtt/Untouched.antt =====
-- internal/mqtt: the calls of the broker leave the tables alone.
use native.Mathlib.Nat.{le_refl}
use minnal_labs.Base.{ℕ, String, List, [], ◌∷◌}
use minnal_labs.World.{Tables, CapInfo, DynsecCommand}
use minnal_labs.Models.{Device}
use minnal_labs.World.Maintains.{Maintains, Maintains-pure, Maintains-bind, maintains_rules}
use minnal_labs.State.Untouched.{get_product_caps-Maintains}
use minnal_labs.Mqtt.{
  subscribe_topic, subscribe_caps, subscribe_device, unsubscribe_topic, unsubscribe_caps,
  unsubscribe_device, clear_retained_device_firmware_update,
}
use minnal_labs.Mqtt.Dynsec.{send_dynsec_commands, provision_home_access, cleanup_home_access}

module _ {P : Tables → ℕ → Type 0} where
  pub send_dynsec_commands-Maintains :
      (cs : List DynsecCommand) → Maintains P (send_dynsec_commands cs)
  unfolding send_dynsec_commands
  send_dynsec_commands-Maintains [] = record { at = λ w h. h; grows = λ w. le_refl _ }
  send_dynsec_commands-Maintains (c ∷ cs) = record { at = λ w h. h; grows = λ w. le_refl _ }

  pub provision_home_access-Maintains :
      (user_id home_id : ℕ) (username password : String)
      → Maintains P (provision_home_access user_id home_id username password)
  unfolding provision_home_access
  provision_home_access-Maintains user_id home_id username password =
      search (maintains_rules, send_dynsec_commands-Maintains)

  pub cleanup_home_access-Maintains :
      (user_id home_id : ℕ) (username : String)
      → Maintains P (cleanup_home_access user_id home_id username)
  unfolding cleanup_home_access
  cleanup_home_access-Maintains user_id home_id username =
      search (maintains_rules, send_dynsec_commands-Maintains)

  unsubscribe_topic-Maintains : (topic : String) → Maintains P (unsubscribe_topic topic)
  unfolding unsubscribe_topic
  unsubscribe_topic-Maintains topic = search maintains_rules

  unsubscribe_caps-Maintains :
      (d : Device) (caps : List (String × CapInfo)) → Maintains P (unsubscribe_caps d caps)
  unfolding unsubscribe_caps
  unsubscribe_caps-Maintains d [] = Maintains-pure tt
  unsubscribe_caps-Maintains d (c ∷ caps) =
      Maintains-bind _ _ (unsubscribe_topic-Maintains _) (λ _. unsubscribe_caps-Maintains d caps)

  pub unsubscribe_device-Maintains : (d : Device) → Maintains P (unsubscribe_device d)
  unfolding unsubscribe_device
  unsubscribe_device-Maintains d = search (
    maintains_rules, unsubscribe_topic-Maintains, unsubscribe_caps-Maintains,
    get_product_caps-Maintains,
  )

  subscribe_topic-Maintains : (topic : String) → Maintains P (subscribe_topic topic)
  unfolding subscribe_topic
  subscribe_topic-Maintains topic = search maintains_rules

  subscribe_caps-Maintains :
      (user_id home_id id : ℕ) (caps : List (String × CapInfo))
      → Maintains P (subscribe_caps user_id home_id id caps)
  unfolding subscribe_caps
  subscribe_caps-Maintains user_id home_id id [] = Maintains-pure tt
  subscribe_caps-Maintains user_id home_id id (c ∷ caps) =
      Maintains-bind _ _ (subscribe_topic-Maintains _)
        (λ _. subscribe_caps-Maintains user_id home_id id caps)

  pub subscribe_device-Maintains : (d : Device) → Maintains P (subscribe_device d)
  unfolding subscribe_device
  subscribe_device-Maintains d = search (
    maintains_rules, subscribe_topic-Maintains, subscribe_caps-Maintains,
    get_product_caps-Maintains,
  )

  pub clear_retained-Maintains :
      (d : Device) → Maintains P (clear_retained_device_firmware_update d)
  unfolding clear_retained_device_firmware_update
  clear_retained-Maintains d = search maintains_rules
