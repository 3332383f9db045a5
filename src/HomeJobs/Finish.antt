-- ===== src/HomeJobs/Finish.antt =====
-- internal/homejobs/homejobs.go: how the transaction at the end of a cleanup leaves the tables.
use minnal_labs.Base.{
  ℕ, ◌≡◌, refl, true, false, inl, inr, none, List, [], ◌∷◌, arith, ◌==◌, is_some, Bool-cases,
}
use minnal_labs.Base.Rows.{All, All-update_where, All-deleted, any, update_where}
use minnal_labs.Base.Exec.{ok}
use minnal_labs.Models.{Home, Device, HomeMqttJob, state_deleting}
use minnal_labs.World.{World, Tables}
use minnal_labs.World.Commits.{
  Commits, Commits-bind, Commits-wrapped, Commits-execute, Commits-pure, Commits-transaction,
}
use minnal_labs.HomeJobs.Worker.{
  is_job, is_live_home, deleted_device, deleted_home, stripped, is_listed_device, delete_devices,
  finish_cleanup,
}

abbrev IsReleased : List ℕ → Device → Type 0
IsReleased ids d = any (λ id. d.id == id) ids ≡ true → is_some d.deleted_at ≡ true

abbrev IsStripped : ℕ → Home → Type 0
IsStripped id h =
    h.id ≡ id
    → (h.mqtt_username ≡ "")
      × (h.mqtt_password ≡ "")
      × (h.mqtt_provision_state ≡ state_deleting)
      × (h.mqtt_provisioned_at ≡ none)

abbrev IsRemoved : ℕ → Home → Type 0
IsRemoved id h = h.id ≡ id → is_some h.deleted_at ≡ true

-- what a cleanup of the home `id` with the devices `ids` leaves
pub record Cleaned (job id : ℕ) (ids : List ℕ) (t : Tables) : Type 0 where
  pub devices : All (IsReleased ids) t.devices
  pub credentials : All (IsStripped id) t.homes
  pub removed : All (IsRemoved id) t.homes
  pub done : All (λ j. is_job job j ≡ false) t.jobs

release-All :
    (now : ℕ) (ids : List ℕ) (ds : List Device)
    → All (IsReleased ids) (update_where (is_listed_device ids) (deleted_device now) ds)
unfolding update_where
release-All now ids [] = tt
release-All now ids (d ∷ ds) = elim (Bool-cases (is_listed_device ids d)) [
  | inl e ↦ rw e ((λ _. refl), release-All now ids ds)
  | inr e ↦ rw e ((λ t. ground (arith, t, e)), release-All now ids ds)
]

IsReleased-of_none : (ds : List Device) → All (IsReleased []) ds
IsReleased-of_none [] = tt
IsReleased-of_none (d ∷ ds) = ((λ e. absurd (ground (arith, e))), IsReleased-of_none ds)

strip-All :
    (now id : ℕ) (hs : List Home)
    → All (IsStripped id) (update_where (λ h. h.id == id) (stripped now) hs)
unfolding update_where
strip-All now id [] = tt
strip-All now id (h ∷ hs) = elim (Bool-cases (h.id == id)) [
  | inl e ↦ rw e ((λ _. (refl, refl, refl, refl)), strip-All now id hs)
  | inr e ↦ rw e ((λ t. absurd (ground (arith, t, e))), strip-All now id hs)
]

remove-All :
    (now id : ℕ) (hs : List Home)
    → All (IsRemoved id) (update_where (is_live_home id) (deleted_home now) hs)
unfolding update_where
remove-All now id [] = tt
remove-All now id (h ∷ hs) = elim (Bool-cases (is_live_home id h)) [
  | inl e ↦ rw e ((λ _. refl), remove-All now id hs)
  | inr e ↦ rw e ((λ t. ground (arith, t, e)), remove-All now id hs)
]

module _ (now : ℕ) where
  delete_devices-Commits :
      (ids : List ℕ)
      → Commits (λ t n. Unit) (λ t n. All (IsReleased ids) t.devices) (delete_devices now ids)
  unfolding delete_devices
  delete_devices-Commits [] = record {
    at = λ w a h e. IsReleased-of_none _;
    grows = (Commits-pure {P = λ t n. Unit} tt).grows;
  }
  delete_devices-Commits (id ∷ ids) =
      Commits-wrapped _ _ (Commits-execute _ (λ t n h. release-All now (id ∷ ids) t.devices))

  module _ (job : HomeMqttJob) (x : Home) (ids : List ℕ) where
    -- When the transaction at the end of a cleanup returns no error, every listed device is deleted,
    -- the home is deleted and its credentials are blank, and the job is gone.
    pub finish_cleanup-Cleaned :
        (w : World)
        → (finish_cleanup now job x ids w).0 ≡ ok tt
        → Cleaned job.id x.id ids (finish_cleanup now job x ids w).1.tables
    unfolding finish_cleanup
    finish_cleanup-Cleaned w e =
        (Commits-transaction {Q = λ t n. Cleaned job.id x.id ids t}
            (record { later = λ t n m le h. tt }) _
            (Commits-bind
              {Q = λ t n.
                All (IsReleased ids) t.devices
                × (All (IsStripped x.id) t.homes × All (IsRemoved x.id) t.homes)}
              _ _
              (Commits-bind
                {Q = λ t n. All (IsReleased ids) t.devices × All (IsStripped x.id) t.homes} _ _
                (Commits-bind _ _ (delete_devices-Commits ids) (λ _.
                  Commits-wrapped _ _
                    (Commits-execute _ (λ t n h. (h, strip-All now x.id t.homes)))))
                (λ _. Commits-wrapped _ _ (
                  Commits-execute _ (λ t n h. (
                    h.0,
                    (
                      All-update_where (IsStripped x.id) (is_live_home x.id) (deleted_home now)
                          t.homes (λ y s _. s) h.1,
                      remove-All now x.id t.homes,
                    ),
                  )))))
              (λ _. Commits-wrapped _ _ (
                Commits-execute _ (λ t n h. record {
                  devices = h.0;
                  credentials = h.1.0;
                  removed = h.1.1;
                  done = All-deleted _ (is_job job.id) (λ j f. f) t.jobs;
                }))))).at
          w tt tt e
