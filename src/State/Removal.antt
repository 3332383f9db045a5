-- ===== src/State/Removal.antt =====
-- internal/state/state.go: what a removal leaves of a device in the cache.
use minnal_labs.Base.{
  ℕ, ◌≡◌, ◌≢◌, refl, sym, subst, String, false, none, some, List, [], ◌∷◌, arith, ◌==◌, ==_refl,
  inl, inr, Bool-cases,
}
use minnal_labs.Base.Map.{set_remove, is_member}
use minnal_labs.Base.Exec.{pure, ignored, or_else, ◌>>=◌, gets, modify}
use minnal_labs.World.{World, Cache, DeviceInfo, cache_execute, cache_query, call}
use minnal_labs.State.{get_device, drop_device, remove_device}

-- SREM takes the element out, however often it stands there
set_remove-is_member : (a : ℕ) (xs : List ℕ) → is_member a (set_remove a xs) ≡ false
unfolding is_member set_remove
set_remove-is_member a [] = refl
set_remove-is_member a (x ∷ xs) = elim (Bool-cases (a == x)) [
  | inl e ↦ rw e (set_remove-is_member a xs)
  | inr e ↦ rw (e, e, set_remove-is_member a xs) refl
]

-- what no part of the cache says of a device
abbrev pub Forgotten : ℕ → DeviceInfo → Cache → Type 0
Forgotten id d c =
    (c.device_meta id ≡ none)
    × (c.device_presence id ≡ none)
    × ((key : String) → c.device_state id key ≡ none)
    × (is_member id c.device_ids ≡ false)
    × (is_member id (c.user_device_ids d.user_id) ≡ false)

module _ (id : ℕ) (d : DeviceInfo) (known : d.user_id ≢ 0) where
  dropped : (c : Cache) → Forgotten id d (drop_device (some d) id c)
  unfolding drop_device
  dropped c =
      let z : (d.user_id == 0) ≡ false = ground (arith, known) in
      (
        rw (==_refl id) refl,
        rw (==_refl id) refl,
        (λ key. rw (==_refl id) refl),
        set_remove-is_member id c.device_ids,
        rw (z, ==_refl d.user_id) (set_remove-is_member id (c.user_device_ids d.user_id)),
      )

  removes :
      (w : World)
      → (remove_device id (record w { faults = [] })).1.cache
        ≡ drop_device (w.cache.device_meta id) id w.cache
  unfolding remove_device get_device cache_query cache_execute call ◌>>=◌ modify gets or_else
      ignored pure
  removes w = refl

  removed :
      (w : World)
      → w.cache.device_meta id ≡ some d
      → Forgotten id d (remove_device id (record w { faults = [] })).1.cache
  removed w e =
      subst (Forgotten id d) (sym (removes w))
        (subst (λ o. Forgotten id d (drop_device o id w.cache)) (sym e) (dropped w.cache))

  -- With Valkey at hand, `RemoveDevice` of a device whose metadata names an owner leaves no metadata, no
  -- presence and no state of the device, and neither the set of all devices nor its owner's has it.
  pub remove_device-forgets :
      (w : World)
      → w.faults ≡ []
      → w.cache.device_meta id ≡ some d
      → Forgotten id d (remove_device id w).1.cache
  remove_device-forgets w quiet e =
      subst (λ fs. Forgotten id d (remove_device id (record w { faults = fs })).1.cache) (sym quiet)
        (removed w e)
