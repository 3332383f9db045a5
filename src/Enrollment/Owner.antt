-- ===== src/Enrollment/Owner.antt =====
-- internal/enrollment/enrollment.go: a user who asks for the home or the device of another user is
-- refused.
use minnal_labs.Base.{
  ℕ, ◌≡◌, ◌≢◌, refl, String, false, not, Option, none, some, List, [], ◌∷◌, arith, ◌==◌,
}
use minnal_labs.Base.Rows.{first_where}
use minnal_labs.Base.Text.Decimal.{parse_uint}
use minnal_labs.Models.{Home, Device, Product}
use minnal_labs.World.{World, Tables, call, query, query_first}
use minnal_labs.HomeJobs.Queue.{Config}
use minnal_labs.HomeJobs.Worker.{is_live_home}
use minnal_labs.Base.Exec.{or_else, pure, ◌>>=◌, gets}
use minnal_labs.Http.{Handler, or_refuse}
use minnal_labs.Http.Refusals.{Refused, Refuses, Refuses-refuse, Refuses-if, Refuses-lookup}
use minnal_labs.Oauth.Session.{SessionUser}
use minnal_labs.Enrollment.Homes.{delete_home}
use minnal_labs.Enrollment.Devices.{delete_device}
use minnal_labs.Enrollment.Listing.{list_home_devices, get_device_status}
use minnal_labs.Enrollment.Firmware.{is_live_device, load_device, trigger_device_update}

-- no live home of this number belongs to the user
abbrev pub IsForeignHome : ℕ → ℕ → Tables → Type 0
IsForeignHome id user_id t =
    (h : Home) → first_where (is_live_home id) t.homes ≡ some h → h.user_id ≢ user_id

abbrev pub IsForeignDevice : ℕ → ℕ → Tables → Type 0
IsForeignDevice id user_id t =
    (d : Device) → first_where (is_live_device id) t.devices ≡ some d → d.user_id ≢ user_id

own : (a b : ℕ) → a ≢ b → not (a == b) ≡ false → ⊥
own a b n e = ground (arith, n, e)

module _ (u : SessionUser) (param : String) (id : ℕ) (same : parse_uint param ≡ some id) where
  known : (b : ℕ) → parse_uint param ≡ some b → b ≡ id
  known b e = cc

  delete_home-Refuses :
      (c : Config) (now later : ℕ)
      → Refuses (IsForeignHome id u.user_id) (delete_home c now later (some u) param)
  unfolding delete_home
  delete_home-Refuses c now later = rw same (
      Refuses-lookup _ _ _ _ (λ h.
        Refuses-if _ _ _ (λ _. Refuses-refuse _ _)
          (λ e. record { at = λ w (f, p). absurd (own h.user_id u.user_id (f h p) e) })))

  list_home_devices-Refuses :
      Refuses (IsForeignHome id u.user_id) (list_home_devices (some u) param)
  unfolding list_home_devices
  list_home_devices-Refuses = rw same (
      Refuses-lookup _ _ _ _ (λ h.
        Refuses-if _ _ _ (λ _. Refuses-refuse _ _)
          (λ e. record { at = λ w (f, p). absurd (own h.user_id u.user_id (f h p) e) })))

  delete_device-Refuses :
      (now : ℕ) → Refuses (IsForeignDevice id u.user_id) (delete_device now (some u) param)
  unfolding delete_device
  delete_device-Refuses now = rw same (
      Refuses-lookup _ _ _ _ (λ d.
        Refuses-if _ _ _ (λ _. Refuses-refuse _ _)
          (λ e. record { at = λ w (f, p). absurd (own d.user_id u.user_id (f d p) e) })))

  -- Whichever calls fail, a user who names a home by a number, and whom no live home of that number
  -- belongs to, gets an error from `deleteHome` and `listHomeDevices`, and nothing changes in the
  -- database, in Valkey or at the broker.
  pub foreign_home-refused :
      (c : Config) (now later : ℕ) (w : World)
      → IsForeignHome id u.user_id w.tables
      → Refused w (delete_home c now later (some u) param w)
        × Refused w (list_home_devices (some u) param w)
  foreign_home-refused c now later w f =
      ((delete_home-Refuses c now later).at w f, list_home_devices-Refuses.at w f)

module _ {A : Type 0} {P : Tables → Type 0} (id status : ℕ) (message : String)
    (g : Device × Product → Handler A)
    (k : (d : Device) (p : Product)
      → Refuses (λ t. P t × (first_where (is_live_device id) t.devices ≡ some d)) (g (d, p))) where
  loaded :
      (w : World) (fs : List (Option String)) (o : Option Device)
      → first_where (is_live_device id) w.tables.devices ≡ o
      → P w.tables
      → Refused w (or_refuse (load_device id) status message g (record w { faults = fs }))
  unfolding load_device or_else query_first query call ◌>>=◌ gets pure
  loaded w [] none e p = rw e (refl, refl, refl)
  loaded w [] (some d) e p = rw e ((k d _).at (record w { faults = [] }) (p, e))
  loaded w (none ∷ fs) none e p = rw e (refl, refl, refl)
  loaded w (none ∷ []) (some d) e p = rw e ((k d _).at (record w { faults = [] }) (p, e))
  loaded w (none ∷ none ∷ fs) (some d) e p = rw e ((k d _).at (record w { faults = fs }) (p, e))
  loaded w (none ∷ some x ∷ fs) (some d) e p = rw e (refl, refl, refl)
  loaded w (some x ∷ fs) o e p = (refl, refl, refl)

  Refuses-load : Refuses P (or_refuse (load_device id) status message g)
  Refuses-load = record { at = λ w p. loaded w w.faults _ refl p }

module _ (u : SessionUser) (param : String) (id : ℕ) (same : parse_uint param ≡ some id) where
  trigger-Refuses :
      (now : ℕ) → Refuses (IsForeignDevice id u.user_id) (trigger_device_update now (some u) param)
  unfolding trigger_device_update
  trigger-Refuses now = rw same (
      Refuses-load id _ _ _ (λ d p.
        Refuses-if _ _ _ (λ _. Refuses-refuse _ _)
          (λ e. record { at = λ w (f, x). absurd (own d.user_id u.user_id (f d x) e) })))

  status-Refuses : Refuses (IsForeignDevice id u.user_id) (get_device_status (some u) param)
  unfolding get_device_status
  status-Refuses = rw same (
      Refuses-load id _ _ _ (λ d p.
        Refuses-if _ _ _ (λ _. Refuses-refuse _ _)
          (λ e. record { at = λ w (f, x). absurd (own d.user_id u.user_id (f d x) e) })))

  -- Whichever calls fail, a user who names a device by a number, and whom no live device of that number
  -- belongs to, gets an error from `deleteDevice`, `triggerDeviceUpdate` and `getDeviceStatus`, and
  -- nothing changes in the database, in Valkey or at the broker.
  pub foreign_device-refused :
      (now : ℕ) (w : World)
      → IsForeignDevice id u.user_id w.tables
      → Refused w (delete_device now (some u) param w)
        × Refused w (trigger_device_update now (some u) param w)
        × Refused w (get_device_status (some u) param w)
  foreign_device-refused now w f = (
    (delete_device-Refuses u param id same now).at w f,
    (trigger-Refuses now).at w f,
    status-Refuses.at w f,
  )
