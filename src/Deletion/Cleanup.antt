-- ===== src/Deletion/Cleanup.antt =====
-- internal/homejobs/homejobs.go: a cleanup job is deleted only in the transaction that deletes its home.
use minnal_labs.Base.{
  ℕ, ◌≡◌, refl, sym, subst, ◌∙◌, String, inl, inr, List, [], ◌∷◌, arith, ◌==◌, ==_iff, Bool-cases,
}
use minnal_labs.Base.Rows.{All, Any, update_where, delete_where}
use minnal_labs.Base.Exec.{Error}
use native.Mathlib.Decide.{ℕ_discrete}
use minnal_labs.Models.{Home, Device, HomeMqttJob, state_deleting}
use minnal_labs.World.{Tables, execute}
use minnal_labs.World.Maintains.{
  Maintains, Maintains-pure, Maintains-bind, Maintains-execute, Maintains-wrapped, maintains_rules,
}
use minnal_labs.World.Commits.{
  Commits, Commits-Maintains, Commits-execute, Commits-bind, Commits-wrapped, Maintains-transaction,
  Maintains-steps,
}
use minnal_labs.State.Untouched.{remove_devices-Maintains}
use minnal_labs.Mqtt.Untouched.{
  cleanup_home_access-Maintains, unsubscribe_device-Maintains, clear_retained-Maintains,
}
use minnal_labs.HomeJobs.Queue.{Config}
use minnal_labs.HomeJobs.Worker.{
  is_job, is_live_home, on_jobs, on_homes, with_state, retried, reschedule_cleanup, finish_cleanup,
  clean_up_home, release_devices, deleted_home, stripped, delete_devices,
}
use minnal_labs.Deletion.Copies.{Agrees}
use minnal_labs.Deletion.Intent.{
  IsGone, Tracks, Tracks-stable, Tracks-update, Tracks-delete, Tracks-delete_gone, Tracks-homes,
}
use minnal_labs.Deletion.Worker.{agree}

release_devices-Maintains :
    {P : Tables → ℕ → Type 0} (ds : List Device) → Maintains P (release_devices ds)
unfolding release_devices
release_devices-Maintains [] = Maintains-pure tt
release_devices-Maintains (d ∷ ds) =
    Maintains-bind _ _
      (Maintains-bind _ _ (unsubscribe_device-Maintains d)
        (λ _. Maintains-wrapped _ _ (clear_retained-Maintains d)))
      (λ _. release_devices-Maintains ds)

-- the update that deletes a home leaves no row of it that is not deleted
delete_home-IsGone :
    (id now : ℕ) (xs : List Home)
    → All (IsGone id) (update_where (is_live_home id) (deleted_home now) xs)
unfolding update_where
delete_home-IsGone id now [] = tt
delete_home-IsGone id now (x ∷ xs) = ground (arith, delete_home-IsGone id now xs)

-- what holds between the deletion of the home `x` and that of the job
abbrev Deleted : List HomeMqttJob → ℕ → Home → Tables → ℕ → Type 0
Deleted known home x t n = Tracks known home t n × (x.id ≡ home → All (IsGone home) t.homes)

module _ {known : List HomeMqttJob} {home : ℕ} (k : HomeMqttJob)
    (claimed : Any (λ x. x ≡ k) known) where
  set_deleting-Maintains :
      (now id : ℕ) (message : String)
      → Maintains (Tracks known home) (
          execute
            (on_homes (update_where (λ h. h.id == id) (with_state now state_deleting message))))
  set_deleting-Maintains now id message = Maintains-execute _ (λ t n h.
      Tracks-homes h (λ x. x.id == id) (with_state now state_deleting message) (λ x g _. g))

  retry-Maintains :
      (c : Config) (now : ℕ) (e : Error)
      → Maintains
          (Tracks known home)
          (execute (on_jobs (update_where (is_job k.id) (retried c now k e))))
  retry-Maintains c now e = Maintains-execute _ (λ t n h.
      Tracks-update h (Agrees k) (is_job k.id) (retried c now k e) (λ j. (refl, refl, refl))
        (λ j p a m. (p.0, p.1, inl refl)) (agree k claimed h))

  pub reschedule_cleanup-Maintains :
      (c : Config) (now id : ℕ) (e : Error)
      → Maintains (Tracks known home) (reschedule_cleanup c now k id e)
  unfolding reschedule_cleanup
  reschedule_cleanup-Maintains c now id e =
      search
        (maintains_rules, Maintains-steps, Tracks-stable, set_deleting-Maintains, retry-Maintains)
        depth 9

  module _ (x : Home) (own : x.id ≡ k.home_id) where
    delete_devices-Maintains :
        (now : ℕ) (ids : List ℕ) → Maintains (Tracks known home) (delete_devices now ids)
    unfolding delete_devices
    delete_devices-Maintains now [] = Maintains-pure tt
    delete_devices-Maintains now (id ∷ ids) = Maintains-wrapped _ _ (
        Maintains-execute _ (λ t n h. record {
          sound = record {
            fresh = h.fresh;
            known_fresh = h.known_fresh;
            copies = h.copies;
            unique = h.unique;
          };
          intent = h.intent;
        }))

    strip-Maintains :
        (now : ℕ)
        → Maintains
            (Tracks known home)
            (execute (on_homes (update_where (λ h. h.id == x.id) (stripped now))))
    strip-Maintains now =
        Maintains-execute _
          (λ t n h. Tracks-homes h (λ y. y.id == x.id) (stripped now) (λ y g _. g))

    delete_home-Commits :
        (now : ℕ)
        → Commits
            (Tracks known home)
            (Deleted known home x)
            (execute (on_homes (update_where (is_live_home x.id) (deleted_home now))))
    delete_home-Commits now = Commits-execute _ (λ t n h. (
      Tracks-homes h (is_live_home x.id) (deleted_home now) (λ y g _ _. refl),
      λ e.
          subst (λ i. All (IsGone i) (update_where (is_live_home x.id) (deleted_home now) t.homes))
            e (delete_home-IsGone x.id now t.homes),
    ))

    delete_job-Commits :
        Commits
          (Deleted known home x)
          (Tracks known home)
          (execute (on_jobs (delete_where (is_job k.id))))
    delete_job-Commits = Commits-execute _ (λ t n h. elim (ℕ_discrete x.id home) [
      | yes e ↦ Tracks-delete_gone h.0 (is_job k.id) (h.1 e)
      | no ne ↦
          Tracks-delete h.0 (Agrees k) (is_job k.id)
            (λ j p a. elim (Bool-cases (is_job k.id j)) [
              | inl m ↦ absurd (ne (own ∙ sym (a ((==_iff j.id k.id).0 m)).0 ∙ p.0))
              | inr m ↦ m
            ])
            (agree k claimed h.0)
    ])

    finish_cleanup-Maintains :
        (now : ℕ) (ids : List ℕ) → Maintains (Tracks known home) (finish_cleanup now k x ids)
    unfolding finish_cleanup
    finish_cleanup-Maintains now ids = Maintains-transaction (Tracks-stable known home) _ (
        Commits-bind _ _
          (Commits-bind _ _
            (Commits-Maintains _ (
              Maintains-bind _ _ (delete_devices-Maintains now ids)
                (λ _. Maintains-wrapped _ _ (strip-Maintains now))))
            (λ _. Commits-wrapped _ _ (delete_home-Commits now)))
          (λ _. Commits-wrapped _ _ delete_job-Commits))

    pub clean_up_home-Maintains :
        (c : Config) (now later : ℕ) (ds : List Device)
        → Maintains (Tracks known home) (clean_up_home c now later k x ds)
    unfolding clean_up_home
    clean_up_home-Maintains c now later ds =
        search
          (
            maintains_rules, reschedule_cleanup-Maintains, finish_cleanup-Maintains,
            release_devices-Maintains, cleanup_home_access-Maintains, remove_devices-Maintains,
          )
          depth 9
