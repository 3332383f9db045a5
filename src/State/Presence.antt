-- ===== src/State/Presence.antt =====
-- internal/state/state.go: whether a device is online, and which firmware it says it runs. The
-- database is set, as it is once `InitState` ran.
use minnal_labs.Base.{
  ℕ, ◌≡◌, refl, sym, subst, String, Bool, Bool-cases, inl, inr, true, false, not, ◌&&◌, ◌||◌,
  Option, none, some, [], arith, ◌==◌, ==_refl, str_eq, is_some, if◌then◌else◌,
}
use minnal_labs.Base.Map.{write}
use minnal_labs.Base.Rows.{first_where, update_where}
use minnal_labs.Base.Text.{trim_space, to_lower, has_prefix, drop}
use minnal_labs.Base.Exec.{
  Outcome, ok, err, continue, Exec, pure, ignored, or_else, ◌>>=◌, ◌>>◌, gets, modify,
}
use minnal_labs.Models.{Device}
use minnal_labs.World.{
  World, Cache, DevicePresence, execute, query, query_first, cache_execute, cache_query, call,
}
use minnal_labs.State.{get_device_presence}

abbrev is_live : ℕ → Device → Bool
is_live id d = (d.id == id) && not (is_some d.deleted_at)

-- the end of `syncDeviceFirmwareVersion`: the row is there
unfoldable pub update_version : ℕ → String → Device → Exec World Unit
update_version id version d =
    if str_eq (trim_space d.firmware_version) version
    then pure tt
    else ignored (
        execute (λ t. record t {
          devices =
              update_where (is_live id) (λ d. record d { firmware_version = version }) t.devices;
        }))

-- `syncDeviceFirmwareVersion`
unfoldable pub sync_device_firmware_version : ℕ → String → Exec World Unit
unfolding update_version
sync_device_firmware_version id status =
    let version = trim_space status in
    if str_eq version ""
    then pure tt
    else or_else (query_first (λ t. first_where (is_live id) t.devices)) (λ e. pure tt)
        (update_version id version)

abbrev pub is_online : String → Bool
is_online normalized = str_eq normalized "online" || has_prefix normalized "online_"

-- the literal, and what the entry from before adds to it
abbrev pub fresh_presence : ℕ → String → Option DevicePresence → DevicePresence
fresh_presence now raw none = record {
  online = is_online (to_lower raw);
  last_status = raw;
  firmware_version = "";
  last_status_at = now;
  last_seen_at = 0;
}
fresh_presence now raw (some current) = record {
  online = is_online (to_lower raw);
  last_status = raw;
  firmware_version = current.firmware_version;
  last_status_at = now;
  last_seen_at = current.last_seen_at;
}

unfoldable pub report_version : ℕ → String → DevicePresence → Exec World DevicePresence
unfolding sync_device_firmware_version
report_version id raw presence =
    let version = trim_space (drop 7 raw) in
    let reported = record presence { firmware_version = version } in
    if has_prefix (to_lower raw) "online_" && not (str_eq (drop 7 raw) "")
    then (if str_eq version presence.firmware_version
        then pure tt
        else sync_device_firmware_version id version)
      >> pure reported
    else pure presence

abbrev pub seen_now : ℕ → DevicePresence → DevicePresence
seen_now now p = if p.online then record p { last_seen_at = now } else p

-- `cacheJSON` at the key of a presence
unfoldable pub cache_presence : ℕ → ℕ → DevicePresence → Exec World Unit
cache_presence now id p = ignored (
    cache_execute
      (λ c. record c { device_presence = write id (some (seen_now now p)) c.device_presence }))

-- `SetDevicePresence`
unfoldable pub set_device_presence : ℕ → ℕ → String → Exec World Unit
unfolding get_device_presence report_version cache_presence
set_device_presence now id status =
    let raw = trim_space status in
    get_device_presence id
    >>= (λ current. report_version id raw (fresh_presence now raw current))
    >>= cache_presence now id

-- what an entry from before says, if there is one
abbrev pub seen_before : Option DevicePresence → ℕ
seen_before none = 0
seen_before (some p) = p.last_seen_at

abbrev pub version_before : Option DevicePresence → String
version_before none = ""
version_before (some p) = p.firmware_version

-- the status brings a version with it
abbrev pub brings_version : String → Bool
brings_version raw = has_prefix (to_lower raw) "online_" && not (str_eq (drop 7 raw) "")

-- the entry that a status leaves
abbrev pub presence_after : ℕ → String → Option DevicePresence → DevicePresence
presence_after now raw previous = record {
  online = str_eq (to_lower raw) "online" || has_prefix (to_lower raw) "online_";
  last_status = raw;
  firmware_version =
      if brings_version raw then trim_space (drop 7 raw) else version_before previous;
  last_status_at = now;
  last_seen_at =
      if str_eq (to_lower raw) "online" || has_prefix (to_lower raw) "online_"
      then now
      else seen_before previous;
}

ok-inj : {A : Type 0} {a b : A} → ok a ≡ ok b → a ≡ b
ok-inj e = cc

-- code that returns this value, makes no call fail and leaves the cache
abbrev Leaves : {A : Type 0} → Cache → A → Outcome A × World → Type 0
Leaves c a (r, v) = (r ≡ ok a) × (v.cache ≡ c) × (v.faults ≡ [])

update_version-Leaves :
    (id : ℕ) (version : String) (d : Device) (w : World)
    → Leaves w.cache tt (update_version id version d (record w { faults = [] }))
unfolding update_version execute call modify ignored pure ◌>>=◌
update_version-Leaves id version d w =
    elim (Bool-cases (str_eq (trim_space d.firmware_version) version)) [
      | inl e ↦ rw e (refl, refl, refl)
      | inr e ↦ rw e (refl, refl, refl)
    ]

loaded-Leaves :
    (id : ℕ) (version : String) (o : Option Device) (w : World)
    → first_where (is_live id) w.tables.devices ≡ o
    → Leaves w.cache tt (sync_device_firmware_version id version (record w { faults = [] }))
unfolding sync_device_firmware_version query_first query call gets or_else pure ◌>>=◌
loaded-Leaves id version none w e = elim (Bool-cases (str_eq (trim_space version) "")) [
  | inl f ↦ rw f (refl, refl, refl)
  | inr f ↦ rw (f, e) (refl, refl, refl)
]
loaded-Leaves id version (some d) w e = elim (Bool-cases (str_eq (trim_space version) "")) [
  | inl f ↦ rw f (refl, refl, refl)
  | inr f ↦ rw (f, e) (update_version-Leaves id (trim_space version) d w)
]

unless-Leaves :
    (b : Bool) (m : Exec World Unit) (w : World)
    → Leaves w.cache tt (m (record w { faults = [] }))
    → Leaves w.cache tt ((if b then pure tt else m) (record w { faults = [] }))
unfolding pure
unless-Leaves true m w h = (refl, refl, refl)
unless-Leaves false m w h = h

then-Leaves :
    {A B : Type 0} (c : Cache) (a : A) (b : B) (r : Outcome A) (v : World)
    → Leaves c a (r, v)
    → Leaves c b (continue r (λ _. pure b) v)
unfolding pure
then-Leaves c a b (ok x) v (p, q, e) = (refl, q, e)
then-Leaves c a b (err x) v (p, q, e) = cc

report_version-Leaves :
    (id : ℕ) (raw : String) (p : DevicePresence) (w : World)
    → Leaves w.cache
        (if brings_version raw then record p { firmware_version = trim_space (drop 7 raw) } else p)
        (report_version id raw p (record w { faults = [] }))
unfolding report_version ◌>>=◌
report_version-Leaves id raw p w = elim (Bool-cases (brings_version raw)) [
  | inl e ↦
      let version = trim_space (drop 7 raw) in
      rw e (
        then-Leaves w.cache tt _ _ _ (
          unless-Leaves (str_eq version p.firmware_version) _ w
            (loaded-Leaves id version _ w refl)))
  | inr e ↦ rw e (refl, refl, refl)
]

module _ (now id : ℕ) where
  cached :
      (p : DevicePresence) (v : World)
      → v.faults ≡ []
      → (cache_presence now id p v).1.cache.device_presence id ≡ some (seen_now now p)
  unfolding cache_presence cache_execute call modify ignored ◌>>=◌
  cached p v q = rw (q, ==_refl id) refl

  then-cached :
      (c : Cache) (p : DevicePresence) (r : Outcome DevicePresence) (v : World)
      → Leaves c p (r, v)
      → (continue r (cache_presence now id) v).1.cache.device_presence id ≡ some (seen_now now p)
  then-cached c p (ok x) v (e, k, q) =
      subst (λ y. (cache_presence now id x v).1.cache.device_presence id ≡ some (seen_now now y))
        (ok-inj e) (cached x v q)
  then-cached c p (err x) v (e, k, q) = cc

  described :
      (raw : String) (previous : Option DevicePresence)
      → seen_now now (
          if brings_version raw
          then record (fresh_presence now raw previous) {
            firmware_version = trim_space (drop 7 raw);
          }
          else fresh_presence now raw previous)
        ≡ presence_after now raw previous
  described raw none = ground arith
  described raw (some p) = ground arith

  module _ (status : String) where
    written :
        (w : World)
        → (set_device_presence now id status (record w { faults = [] })).1.cache.device_presence id
          ≡ some (presence_after now (trim_space status) (w.cache.device_presence id))
    unfolding set_device_presence get_device_presence cache_query call gets or_else pure ◌>>=◌
    written w =
        let raw = trim_space status in
        let previous = w.cache.device_presence id in
        rw⁻¹ (described raw previous) (
          then-cached w.cache _ _ _
            (report_version-Leaves id raw (fresh_presence now raw previous) w))

    -- With Valkey and PostgreSQL at hand, every status leaves an entry with the status, without the space
    -- around it, and its time. The entry is online if the status is `online` or starts with `online_`,
    -- in any case of letters, and then the device was seen now, and else when the entry from before says,
    -- or never. Its firmware is what stands behind `online_`, if anything does, and else what the
    -- entry from before says, or none.
    pub set_device_presence-remembers :
        (w : World)
        → w.faults ≡ []
        → (set_device_presence now id status w).1.cache.device_presence id
          ≡ some (presence_after now (trim_space status) (w.cache.device_presence id))
    set_device_presence-remembers w quiet =
        subst
          (λ fs.
            (set_device_presence now id status (record w { faults = fs })).1.cache.device_presence
              id
            ≡ some (presence_after now (trim_space status) (w.cache.device_presence id)))
          (sym quiet) (written w)
