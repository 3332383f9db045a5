-- ===== src/Google/Sync.antt =====
-- internal/google/google.go: the intent SYNC, and the choice of the intent.
use Prim.Native.String.{◌++◌ as append}
use minnal_labs.Base.{ℕ, String, Option, none, some, List, [], ◌∷◌, ◌++◌, ◌==◌, if◌then◌else◌}
use minnal_labs.Base.Exec.{Exec, pure, or_else, ◌>>=◌}
use minnal_labs.World.{World, CapInfo, DeviceInfo}
use minnal_labs.Http.{success, Handler, refuse, present}
use minnal_labs.State.{get_product_caps}
use minnal_labs.State.Sync.{get_devices_for_user}
use minnal_labs.Oauth.Login.{OauthPrincipal}
use minnal_labs.Google.{Answer, Command, compound_id, handle_query, handle_execute}

-- an entry of the answer to SYNC; `willReportState` is always true
pub record GoogleDevice : Type 0 where
  pub id : String
  pub device_type : String
  pub trait : String
  pub name : String

abbrev pub Caps : Type 0
Caps = List (String × CapInfo)

unfoldable pub google_device : DeviceInfo → String × CapInfo → GoogleDevice
unfolding compound_id
google_device d (key, cap) = record {
  id = compound_id d.id cap.esphome_key;
  device_type = cap.google_device_type;
  trait = append "action.devices.traits." cap.trait_type;
  name = append d.name (append " " cap.esphome_key);
}

-- the loop over the capabilities of a device
unfoldable pub entries : DeviceInfo → Caps → List GoogleDevice
unfolding google_device
entries d [] = []
entries d (cap ∷ caps) = google_device d cap ∷ entries d caps

-- `productCaps`, by the number of a product
unfoldable pub known_caps : ℕ → List (ℕ × Caps) → Option Caps
known_caps product_id [] = none
known_caps product_id ((p, caps) ∷ known) =
    let rest = known_caps product_id known in if p == product_id then some caps else rest

-- the capabilities of a product, with the map as it is then: after an error it holds none
unfoldable pub caps_of : ℕ → List (ℕ × Caps) → Option Caps → Exec World (Caps × List (ℕ × Caps))
unfolding get_product_caps
caps_of product_id known (some caps) = pure (caps, known)
caps_of product_id known none =
    or_else (get_product_caps product_id) (λ e. pure ([], (product_id, []) ∷ known))
      (λ caps. pure (caps, (product_id, caps) ∷ known))

-- the loop over the devices
unfoldable pub list_devices : List (ℕ × Caps) → List DeviceInfo → Exec World (List GoogleDevice)
unfolding known_caps caps_of entries
list_devices known [] = pure []
list_devices known (d ∷ ds) =
    caps_of d.product_id known (known_caps d.product_id known)
    >>= (λ (caps, later). list_devices later ds >>= (λ rest. pure (entries d caps ++ rest)))

pub record SyncPayload : Type 0 where
  pub agent_user_id : String
  pub devices : List GoogleDevice

-- `handleSync`
unfoldable pub handle_sync : String → ℕ → Exec World SyncPayload
unfolding get_devices_for_user list_devices
handle_sync agent_user_id user_id =
    get_devices_for_user user_id
    >>= list_devices []
    >>= (λ ds. pure (record { agent_user_id = agent_user_id; devices = ds }))

-- the first input of a request: its intent, and the payload as far as it decodes
pub data Input : Type 0 where
  sync disconnect : Input
  query : Option (List String) → Input
  execute : Option (List Command) → Input
  other : String → Input

-- what is answered; DISCONNECT has an empty answer
pub data Payload : Type 0 where
  synced : SyncPayload → Payload
  answered : List (String × Answer) → Payload
  disconnected : Payload

unfoldable pub by_intent : OauthPrincipal → Input → Handler Payload
unfolding handle_sync handle_query handle_execute
by_intent p sync = handle_sync p.raw_user_id p.user_id >>= (λ s. pure (success 200 (synced s)))
by_intent p disconnect = pure (success 200 disconnected)
by_intent p (query ids) =
    present ids 400 "invalid query payload"
      (λ ids. handle_query p.user_id ids >>= (λ answers. pure (success 200 (answered answers))))
by_intent p (execute commands) =
    present commands 400 "invalid execute payload"
      (λ cs. handle_execute p.user_id cs >>= (λ answers. pure (success 200 (answered answers))))
by_intent p (other intent) = refuse 400 "unknown intent"

abbrev first_input : OauthPrincipal → List Input → Handler Payload
first_input p [] = refuse 400 "no inputs"
first_input p (i ∷ is) = by_intent p i

-- the handler of `POST /api/google/fulfillment`, behind `RequireOAuthToken`
unfoldable pub fulfillment : Option OauthPrincipal → Option (List Input) → Handler Payload
unfolding by_intent
fulfillment principal inputs =
    present principal 401 "unauthorized"
      (λ p. present inputs 400 "invalid request" (λ is. first_input p is))
