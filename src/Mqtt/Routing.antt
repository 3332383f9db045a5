-- ===== src/Mqtt/Routing.antt =====
-- internal/mqtt/mqtt.go, internal/models/models.go: the topics that devices publish to are read back
-- as the device and the capability that they were built from.
use Prim.Native.String.{◌++◌}
use text.Mathlib.TextLemmas.{nil-append, cons-append, append_assoc}
use minnal_labs.Base.{ℕ, ◌<◌, ◌≡◌, refl, String, Bool, true, false, not, ◌∷◌, arith, ◌==◌}
use minnal_labs.Base.Text.All.{all_of, split_on-all, split_on-append}
use minnal_labs.Base.Text.Parts.{split_on}
use minnal_labs.Base.Text.Decimal.{u64_mod, decimal, parse_uint-decimal, is_digit, decimal-all}
use minnal_labs.Base.Exec.{Exec, ◌>>◌}
use minnal_labs.Models.Topics.{device_path, build_topic, build_status_topic}
use minnal_labs.World.{World}
use minnal_labs.State.{set_cap_state}
use minnal_labs.State.Presence.{set_device_presence}
use minnal_labs.Mqtt.Messages.{route, message_pub_handler}

-- a level of a topic
abbrev pub is_level_char : ℕ → Bool
is_level_char c = not (c == 47)

digit-no_slash : (k : ℕ) → is_digit k ≡ true → (k == 47) ≡ false
digit-no_slash k h = ground (arith, h)

level-no_slash : (k : ℕ) → is_level_char k ≡ true → (k == 47) ≡ false
level-no_slash k h = ground (arith, h)

slash : (t : String) → "/" ++ t ≡ String.◌∷◌ "/" t
slash t = rw (cons-append "/" "" t, nil-append t) refl

after_number :
    (n : ℕ) (t : String) → split_on 47 (decimal n ++ ("/" ++ t)) ≡ decimal n ∷ split_on 47 t
after_number n t =
    rw (slash t) (split_on-append is_digit 47 digit-no_slash (decimal n) t "/" refl (decimal-all n))

after_level :
    (s t : String)
    → all_of is_level_char s ≡ true
    → split_on 47 (s ++ ("/" ++ t)) ≡ s ∷ split_on 47 t
after_level s t h = rw (slash t) (split_on-append is_level_char 47 level-no_slash s t "/" refl h)

after_path :
    (u h d : ℕ) (t : String)
    → split_on 47 (device_path u h d ++ ("/" ++ t))
      ≡ decimal u ∷ decimal h ∷ decimal d ∷ split_on 47 t
after_path u h d t =
    rw
      (
        append_assoc (decimal u) ("/" ++ (decimal h ++ ("/" ++ decimal d))) ("/" ++ t),
        append_assoc "/" (decimal h ++ ("/" ++ decimal d)) ("/" ++ t),
        append_assoc (decimal h) ("/" ++ decimal d) ("/" ++ t),
        append_assoc "/" (decimal d) ("/" ++ t),
        after_number u (decimal h ++ ("/" ++ (decimal d ++ ("/" ++ t)))),
        after_number h (decimal d ++ ("/" ++ t)),
        after_number d t,
      )
      refl

module _ (hook : ℕ → String → Exec World Unit) (now user_id home_id id : ℕ) (payload : String)
    (p : id < u64_mod) where
  status-routes :
      message_pub_handler hook now (build_status_topic user_id home_id id) payload
      ≡ (set_device_presence now id payload >> hook id payload)
  unfolding message_pub_handler route build_status_topic
  status-routes =
      rw (message_pub_handler, after_path user_id home_id id "status", parse_uint-decimal id p) refl

  -- A message on the topic that `BuildTopic` makes of a device and a capability sets that capability of
  -- that device, and one on the topic of `BuildStatusTopic` sets its presence and calls the hook for
  -- it, and neither does anything else. A part of a topic that the capability gives has no slash.
  pub message_pub_handler-routes :
      (component key action : String)
      → all_of is_level_char component ≡ true
      → all_of is_level_char key ≡ true
      → all_of is_level_char action ≡ true
      → (message_pub_handler hook now (build_topic user_id home_id id component key action) payload
          ≡ set_cap_state id key payload)
        × (message_pub_handler hook now (build_status_topic user_id home_id id) payload
            ≡ (set_device_presence now id payload >> hook id payload))
  unfolding message_pub_handler route build_topic
  message_pub_handler-routes component key action hc hk ha = (
    rw
        (
          message_pub_handler,
          after_path user_id home_id id (component ++ ("/" ++ (key ++ ("/" ++ action)))),
          after_level component (key ++ ("/" ++ action)) hc,
          after_level key action hk,
          split_on-all is_level_char 47 level-no_slash action ha,
          parse_uint-decimal id p,
        )
        refl,
    status-routes,
  )
