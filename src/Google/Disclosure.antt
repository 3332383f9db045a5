-- ===== src/Google/Disclosure.antt =====
-- internal/google/google.go: whose devices SYNC lists, and by which ids.
use Prim.Native.String.{◌++◌ as append}
use minnal_labs.Base.{
  ℕ, ◌<◌, ◌≡◌, refl, String, true, Option, none, some, List, [], ◌∷◌, ◌++◌, arith, ==_refl,
}
use minnal_labs.Base.Map.{is_member}
use minnal_labs.Base.Rows.{All, All-append}
use minnal_labs.Base.Text.Decimal.{u64_mod}
use minnal_labs.World.{World, Cache, DeviceInfo}
use minnal_labs.World.Yields.{
  Yielded, Yields, Yields-pure, Tries-cache_query, Yields-bind, Yields-or_else,
}
use minnal_labs.State.{get_product_caps}
use minnal_labs.State.Sync.{add_found, found_devices, get_devices_by_ids, get_devices_for_user}
use minnal_labs.Google.{parse_compound_id}
use minnal_labs.Google.Compound.{parse_compound_id-compound_id}
use minnal_labs.Google.Sync.{
  GoogleDevice, Caps, google_device, entries, caps_of, list_devices, handle_sync,
}

-- what the cache lists for a user is the user's, with a number of 64 bits
abbrev pub IsOwnerOf : Cache → ℕ → Type 0
IsOwnerOf c user_id =
    (id : ℕ) (d : DeviceInfo)
    → is_member id (c.user_device_ids user_id) ≡ true
    → c.device_meta id ≡ some d
    → (d.user_id ≡ user_id) × (d.id < u64_mod)

-- the cache lists the device for the user
abbrev IsListed : Cache → ℕ → DeviceInfo → Type 0
IsListed c user_id d =
    (id : ℕ) × (is_member id (c.user_device_ids user_id) ≡ true) × (c.device_meta id ≡ some d)

abbrev IsOwn : Cache → ℕ → DeviceInfo → Type 0
IsOwn c user_id d = IsListed c user_id d × (d.user_id ≡ user_id) × (d.id < u64_mod)

-- An entry is for a device that the cache lists for the user and whose owner is the user: its id has
-- the number of this device, and its name starts with the device's.
abbrev pub IsOwnEntry : Cache → ℕ → GoogleDevice → Type 0
IsOwnEntry c user_id g =
    (d : DeviceInfo) × (key : String) × IsListed c user_id d
    × (d.user_id ≡ user_id)
    × (parse_compound_id g.id ≡ some (d.id, key))
    × (g.name ≡ append d.name (append " " key))

module _ (c : Cache) (user_id : ℕ) (owner : IsOwnerOf c user_id) where
  add_found-All :
      (o : Option DeviceInfo) (ds : List DeviceInfo)
      → ((d : DeviceInfo) → o ≡ some d → IsOwn c user_id d)
      → All (IsOwn c user_id) ds
      → All (IsOwn c user_id) (add_found o ds)
  add_found-All none ds h k = k
  add_found-All (some d) ds h k = (h d refl, k)

  found_devices-All :
      (ids : List ℕ)
      → ((id : ℕ) → is_member id ids ≡ true → is_member id (c.user_device_ids user_id) ≡ true)
      → All (IsOwn c user_id) (found_devices c ids)
  unfolding found_devices is_member
  found_devices-All [] within = tt
  found_devices-All (id ∷ ids) within =
      add_found-All (c.device_meta id) (found_devices c ids)
        (λ d e.
          let m = within id (ground (arith, ==_refl id)) in
          let (mine, bound) = owner id d m e in ((id, m, e), mine, bound))
        (found_devices-All ids (λ i m. within i (ground (arith, m))))

  get_devices-Yields :
      (ids : List ℕ)
      → ((id : ℕ) → is_member id ids ≡ true → is_member id (c.user_device_ids user_id) ≡ true)
      → Yields c (get_devices_by_ids ids) (All (IsOwn c user_id))
  unfolding get_devices_by_ids
  get_devices-Yields [] within = Yields-pure [] tt
  get_devices-Yields (id ∷ ids) within =
      Yields-or_else (All (IsOwn c user_id)) _ _ _
        (Tries-cache_query (λ k. found_devices k (id ∷ ids)) (found_devices-All (id ∷ ids) within))
        (λ e. Yields-pure [] tt) (λ ds own. Yields-pure ds own)

  get_devices_for_user-Yields : Yields c (get_devices_for_user user_id) (All (IsOwn c user_id))
  unfolding get_devices_for_user
  get_devices_for_user-Yields =
      Yields-or_else (λ ids. ids ≡ c.user_device_ids user_id) _ _ _
        (Tries-cache_query (λ k. k.user_device_ids user_id) refl) (λ e. Yields-pure [] tt)
        (λ ids e. get_devices-Yields ids (λ id m. rw (e) at m))

  entries-All :
      (d : DeviceInfo) (caps : Caps)
      → IsOwn c user_id d
      → All (IsOwnEntry c user_id) (entries d caps)
  unfolding entries google_device
  entries-All d [] own = tt
  entries-All d ((key, cap) ∷ caps) (listed, mine, bound) = (
    (
      d,
      cap.esphome_key,
      listed,
      mine,
      parse_compound_id-compound_id d.id cap.esphome_key bound,
      refl,
    ),
    entries-All d caps (listed, mine, bound),
  )

  caps_of-Yields :
      (product_id : ℕ) (known : List (ℕ × Caps)) (o : Option Caps)
      → Yields c (caps_of product_id known o) (λ _. Unit {0})
  unfolding caps_of get_product_caps
  caps_of-Yields product_id known none =
      Yields-or_else (λ _. Unit {0}) _ _ _ (Tries-cache_query (λ k. k.product_caps product_id) tt)
        (λ e. Yields-pure _ tt) (λ caps u. Yields-pure _ tt)
  caps_of-Yields product_id known (some caps) = Yields-pure _ tt

  list_devices-Yields :
      (known : List (ℕ × Caps)) (ds : List DeviceInfo)
      → All (IsOwn c user_id) ds
      → Yields c (list_devices known ds) (All (IsOwnEntry c user_id))
  unfolding list_devices
  list_devices-Yields known [] own = Yields-pure [] tt
  list_devices-Yields known (d ∷ ds) (mine, own) =
      Yields-bind (λ _. Unit {0}) _ _ (caps_of-Yields d.product_id known _)
        (λ (caps, later) u.
          Yields-bind (All (IsOwnEntry c user_id)) _ _ (list_devices-Yields later ds own)
            (λ rest listed. Yields-pure (entries d caps ++ rest) (
              All-append (IsOwnEntry c user_id) (entries d caps) rest (entries-All d caps mine)
                listed)))

-- Whichever calls of Valkey fail, `handleSync` answers, and each entry of the answer is for a device
-- that the cache holds and lists for this user and whose owner is the user: `parseCompoundID` reads the
-- number of that device, which QUERY and EXECUTE take, back from the entry's id, and the entry's name
-- starts with the device's. The devices that the cache lists for the user are the user's and have
-- numbers of 64 bits.
pub handle_sync-OnlyOwn :
    (agent_user_id : String) (user_id : ℕ) (w : World)
    → IsOwnerOf w.cache user_id
    → Yielded w.cache
        (λ s. All (IsOwnEntry w.cache user_id) s.devices)
        (handle_sync agent_user_id user_id w)
unfolding handle_sync
handle_sync-OnlyOwn agent_user_id user_id w owner =
    let c = w.cache in
    (Yields-bind (All (IsOwnEntry c user_id)) _ _
        (Yields-bind (All (IsOwn c user_id)) _ _ (get_devices_for_user-Yields c user_id owner)
          (λ ds own. list_devices-Yields c user_id owner [] ds own))
        (λ ds own. Yields-pure _ own)).at
      w refl
