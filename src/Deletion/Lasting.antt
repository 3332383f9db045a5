-- ===== src/Deletion/Lasting.antt =====
-- internal/deletion/deletion.go, internal/homejobs/homejobs.go: what the user was told is deleted gets
-- deleted, however the workers and the other handlers take turns.
use minnal_labs.Base.{ℕ, ◌≡◌, refl, subst, ap, true}
use minnal_labs.Base.Rows.{Any}
use minnal_labs.Base.Exec.{ok}
use minnal_labs.Models.{Home}
use minnal_labs.World.{World, transaction}
use minnal_labs.World.Commits.{Commits-transaction}
use minnal_labs.HomeJobs.Queue.{Config}
use minnal_labs.Deletion.{
  schedule_home_deletion, schedule_user_deletion, owns_live_home, UserDeletionResult,
}
use minnal_labs.Deletion.Copies.{IsSound, IsSound-later}
use minnal_labs.Deletion.Intent.{Intends, Tracks}
use minnal_labs.Deletion.Steps.{System, Reaches, Reaches-Holds}
use minnal_labs.Deletion.Schedule.{schedule_home_deletion-Intends, schedule_user_deletion-Intends}

abbrev pub IsSoundSystem : System → Type 0
IsSoundSystem s = IsSound s.known s.world.tables s.world.next_job

module _ (c : Config) (now later : ℕ) (s : System) (sound : IsSoundSystem s) where
  -- Once the transaction of `ScheduleHomeDeletion` has committed, in every state that workers and
  -- handlers can reach from there the home is deleted, or a cleanup job for it waits or runs: no
  -- provisioning, retry, lost worker, new job or other deletion drops the intent.
  pub home_deletion-lasts :
      (id : ℕ) (w : World) (u : System)
      → transaction (schedule_home_deletion c now later id) s.world ≡ (ok tt, w)
      → Reaches c (record s { world = w }) u
      → Intends id u.world.tables
  home_deletion-lasts id w u e r =
      (Reaches-Holds c id _ u r (
        subst (λ x. Tracks s.known id x.1.tables x.1.next_job) e
          ((Commits-transaction (record { later = λ t n m le h. IsSound-later h m le }) _
              (schedule_home_deletion-Intends c now later id)).at
            s.world tt sound (ap (λ x. x.0) e)))).intent

  -- Once `ScheduleUserDeletion` has returned no error, the same holds of every home that the user owned
  -- and that was not deleted before.
  pub user_deletion-lasts :
      (user_id : ℕ) (result : UserDeletionResult) (w : World) (u : System) (x : Home)
      → schedule_user_deletion c now later user_id s.world ≡ (ok result, w)
      → Any (λ h. h ≡ x) s.world.tables.homes
      → owns_live_home user_id x ≡ true
      → Reaches c (record s { world = w }) u
      → Intends x.id u.world.tables
  user_deletion-lasts user_id result w u x e m own r =
      (Reaches-Holds c x.id _ u r (
        subst (λ y. Tracks s.known x.id y.1.tables y.1.next_job) e
          ((schedule_user_deletion-Intends c now later user_id s.world.tables.homes x own m).at
            s.world result (sound, refl) (ap (λ y. y.0) e)))).intent
