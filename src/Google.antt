-- ===== src/Google.antt =====
-- internal/google/google.go: the fulfilment of the smart home intents. The payload of a request is what
-- its JSON stands for: the devices' ids, and commands with the parameter `on` if it is a Boolean.
pub mod Compound
pub mod Sync
pub mod Owner
pub mod Disclosure
pub mod Tests
use minnal_labs.Base.{
  ℕ, String, Bool, true, false, not, ◌&&◌, ◌||◌, Option, none, some, List, [], ◌∷◌, ◌++◌, ◌==◌,
  str_eq, if◌then◌else◌,
}
use minnal_labs.Base.Text.{cut, to_lower}
use minnal_labs.Base.Text.Decimal.{decimal, parse_uint}
use minnal_labs.Base.Exec.{Exec, pure, or_else, ◌>>=◌, ◌>>◌}
use minnal_labs.Models.Topics.{build_topic}
use minnal_labs.World.{World, CapInfo, DeviceInfo}
use minnal_labs.State.{get_device, get_product_cap_by_key, get_cap_state, set_cap_state}
use minnal_labs.Mqtt.{publish_text}

abbrev pub with_key : String → Option ℕ → Option (ℕ × String)
with_key key none = none
with_key key (some id) = some (id, key)

-- `fmt.Sprintf("%d:%s", d.ID, cap.EsphomeKey)`
unfoldable pub compound_id : ℕ → String → String
compound_id id key = Prim.Native.String.◌++◌ (decimal id) (Prim.Native.String.◌++◌ ":" key)

-- `parseCompoundID`: every error is `none`
unfoldable pub parse_compound_id : String → Option (ℕ × String)
unfolding cut parse_uint
parse_compound_id compound_id =
    let (id, found, key) = cut b':' compound_id in
    if found then with_key key (parse_uint id) else none

-- `strings.EqualFold`
abbrev equal_fold : String → String → Bool
equal_fold a b = str_eq (to_lower a) (to_lower b)

-- `buildTraitState`: the field `on`
unfoldable pub build_trait_state : String → String → Bool
build_trait_state trait_type value =
    if str_eq trait_type "OnOff" || str_eq trait_type "MotionDetection"
    then str_eq value "1" || equal_fold value "on" || equal_fold value "true"
    else str_eq value "1"

abbrev on_or_off : Option Bool → String
on_or_off (some true) = "1"
on_or_off (some false) = "0"
on_or_off none = "0"

-- `extractMQTTPayload`
unfoldable pub extract_mqtt_payload : String → Option Bool → Option String
extract_mqtt_payload command on =
    if str_eq command "action.devices.commands.OnOff" then some (on_or_off on) else none

-- what is answered for a device: an error code, or the field `on` of its state
pub data Answer : Type 0 where
  failed : String → Answer
  success : Bool → Answer

abbrev device_not_found : Answer
device_not_found = failed "deviceNotFound"

abbrev function_not_supported : Answer
function_not_supported = failed "functionNotSupported"

-- the end of the loop's body in `handleQuery`
unfoldable pub query_cap : ℕ → String → Option CapInfo → Exec World Answer
unfolding get_cap_state build_trait_state
query_cap id key none = pure device_not_found
query_cap id key (some cap) =
    or_else (get_cap_state id key) (λ e. pure (failed "deviceOffline"))
      (λ value. pure (success (build_trait_state cap.trait_type value)))

-- a device that is not the user's is not found
unfoldable pub query_device : ℕ → ℕ → String → Option DeviceInfo → Exec World Answer
unfolding get_product_cap_by_key query_cap
query_device user_id id key none = pure device_not_found
query_device user_id id key (some d) =
    if not (d.user_id == user_id)
    then pure device_not_found
    else get_product_cap_by_key d.product_id key >>= query_cap id key

unfoldable pub query_id : ℕ → Option (ℕ × String) → Exec World Answer
unfolding get_device query_device
query_id user_id none = pure device_not_found
query_id user_id (some (id, key)) = get_device id >>= query_device user_id id key

-- `devicesMap[id] = answer`
unfoldable pub put_answer : String → Answer → List (String × Answer) → List (String × Answer)
put_answer id a [] = (id, a) ∷ []
put_answer id a ((k, b) ∷ rest) =
    let tail = put_answer id a rest in if str_eq k id then (k, a) ∷ rest else (k, b) ∷ tail

unfoldable pub query_ids :
    ℕ → List String → List (String × Answer) → Exec World (List (String × Answer))
unfolding query_id parse_compound_id put_answer
query_ids user_id [] answers = pure answers
query_ids user_id (id ∷ ids) answers =
    query_id user_id (parse_compound_id id) >>= λ a. query_ids user_id ids (put_answer id a answers)

-- `handleQuery`
unfoldable pub handle_query : ℕ → List String → Exec World (List (String × Answer))
unfolding query_ids
handle_query user_id ids = query_ids user_id ids []

pub record Execution : Type 0 where
  pub command : String
  pub on : Option Bool

pub record Command : Type 0 where
  pub devices : List String
  pub execution : List Execution

-- the state is written and the message sent
unfoldable pub send_command : DeviceInfo → ℕ → String → CapInfo → Option String → Exec World Answer
unfolding set_cap_state publish_text build_topic build_trait_state
send_command d id key cap none = pure function_not_supported
send_command d id key cap (some payload) =
    set_cap_state id key payload
    >> publish_text (build_topic d.user_id d.home_id id cap.component key "command") payload
    >> pure (success (build_trait_state cap.trait_type payload))

unfoldable pub execute_cap :
    DeviceInfo → ℕ → String → Execution → Option CapInfo → Exec World Answer
unfolding send_command extract_mqtt_payload
execute_cap d id key x none = pure function_not_supported
execute_cap d id key x (some cap) =
    if not cap.writable
    then pure function_not_supported
    else send_command d id key cap (extract_mqtt_payload x.command x.on)

unfoldable pub execute_device : ℕ → ℕ → String → Execution → Option DeviceInfo → Exec World Answer
unfolding get_product_cap_by_key execute_cap
execute_device user_id id key x none = pure device_not_found
execute_device user_id id key x (some d) =
    if not (d.user_id == user_id)
    then pure device_not_found
    else get_product_cap_by_key d.product_id key >>= execute_cap d id key x

unfoldable pub execute_id : ℕ → Execution → Option (ℕ × String) → Exec World Answer
unfolding get_device execute_device
execute_id user_id x none = pure device_not_found
execute_id user_id x (some (id, key)) = get_device id >>= execute_device user_id id key x

-- the loop over `cmd.Execution` for one device
unfoldable pub execute_device_commands :
    ℕ → String → List Execution → Exec World (List (String × Answer))
unfolding execute_id parse_compound_id
execute_device_commands user_id id [] = pure []
execute_device_commands user_id id (x ∷ xs) = execute_id user_id x (parse_compound_id id) >>= λ a.
    execute_device_commands user_id id xs >>= λ rest. pure ((id, a) ∷ rest)

-- the loop over `cmd.Devices`
unfoldable pub execute_command :
    ℕ → List Execution → List String → Exec World (List (String × Answer))
unfolding execute_device_commands
execute_command user_id xs [] = pure []
execute_command user_id xs (id ∷ ids) = execute_device_commands user_id id xs >>= λ first.
    execute_command user_id xs ids >>= λ rest. pure (first ++ rest)

-- `handleExecute`
unfoldable pub handle_execute : ℕ → List Command → Exec World (List (String × Answer))
unfolding execute_command
handle_execute user_id [] = pure []
handle_execute user_id (c ∷ cs) = execute_command user_id c.execution c.devices >>= λ first.
    handle_execute user_id cs >>= λ rest. pure (first ++ rest)
