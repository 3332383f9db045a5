-- ===== src/Ota/Single.antt =====
-- internal/ota/rollout.go, `CreateRollout`: the new rollout is the only active one of its product.
use minnal_labs.Base.{
  ℕ, String, ◌≡◌, ◌≢◌, refl, Bool, true, false, ◌&&◌, ◌||◌, List, [], ◌∷◌, ltb, ◌==◌, ==_refl, ◌++◌,
  str_eq,
}
use minnal_labs.Base.Rows.{All, any, select_where}
use minnal_labs.Base.Exec.{Error, ok, err, ◌>>=◌}
use minnal_labs.Models.{
  Product, Device, FirmwareRollout, effective_rollout_percentage,
  effective_rollout_interval_minutes,
}
use minnal_labs.World.{World, Tables, errorf}
use minnal_labs.World.Maintains.{
  Maintains, Maintains-pure, Maintains-bind, Maintains-query, Maintains-wrapped, Maintains-call,
  maintains_rules,
}
use minnal_labs.World.Commits.{
  Commits, Commits-bind, Commits-execute, Commits-Maintains, Commits-pure, Commits-wrapped,
  Commits-if, Commits-fail, Commits-transaction,
}
use minnal_labs.State.{get_device_presence}
use minnal_labs.Ota.Batches.{current_device_firmware_version, eligible_devices}
use minnal_labs.Ota.Rollout.{
  insert_rollout, load_product_devices, add_rollout, create_in_transaction, create_rollout,
  unless_empty, Created, pending_rollout, is_incomplete,
}
use minnal_labs.Ota.Cancel.{NoneActive, cancel-Commits}
use native.Mathlib.Nat.{le_refl}

-- the rows of a product that are pending or running
abbrev pending_or_running : ℕ → FirmwareRollout → Bool
pending_or_running product_id r =
    (r.product_id == product_id) && (str_eq r.status "pending" || str_eq r.status "running")

-- a product has exactly one such row, which is pending and brings the product's version
abbrev pub OneActive : Product → Tables → ℕ → Type 0
OneActive p t n =
    (r : FirmwareRollout) × (select_where (pending_or_running p.id) t.rollouts ≡ r ∷ [])
    × (r.status ≡ "pending")
    × (r.product_id ≡ p.id)
    × (r.target_version ≡ p.firmware_version)

select_where-snoc :
    (q : FirmwareRollout → Bool) (rs : List FirmwareRollout) (r : FirmwareRollout)
    → All (λ x. q x ≡ false) rs
    → q r ≡ true
    → select_where q (rs ++ r ∷ []) ≡ r ∷ []
unfolding select_where
select_where-snoc q [] r h e = rw e refl
select_where-snoc q (x ∷ rs) r (f, h) e = rw f (select_where-snoc q rs r h e)

module _ {P : Tables → ℕ → Type 0} where
  version-Maintains : (d : Device) → Maintains P (current_device_firmware_version d)
  unfolding current_device_firmware_version get_device_presence
  version-Maintains d = search (maintains_rules) depth 9

  eligible-Maintains : (v : String) (ds : List Device) → Maintains P (eligible_devices v ds)
  unfolding eligible_devices
  eligible-Maintains v [] = Maintains-pure []
  eligible-Maintains v (d ∷ ds) =
      Maintains-bind _ _ (version-Maintains d)
        (λ current. Maintains-bind _ _ (eligible-Maintains v ds) (λ rest. Maintains-pure _))

  loaded-Maintains :
      (id : ℕ) (v : String) → Maintains P (load_product_devices id >>= eligible_devices v)
  loaded-Maintains id v =
      Maintains-bind _ _ (Maintains-wrapped _ _ (Maintains-query _)) (eligible-Maintains v)

  unless_empty-Maintains : (ds : List Device) → Maintains P (unless_empty ds)
  unless_empty-Maintains [] = search (maintains_rules)
  unless_empty-Maintains (d ∷ ds) = Maintains-pure tt

err-ne-created : (e : Error) (a : FirmwareRollout) → err e ≢ ok a
err-ne-created e a x = cc

module _ (p : Product) (created_by now : ℕ) where
  abbrev rollout : FirmwareRollout
  rollout = pending_rollout p created_by now

  insert-OneActive :
      (b : Bool) (w : World) (a : FirmwareRollout)
      → (any (λ q. q.id == rollout.product_id) w.tables.products
          && any (λ u. u.id == rollout.created_by_user_id) w.tables.users)
        ≡ b
      → NoneActive p.id w.tables w.next_job
      → (insert_rollout rollout w).0 ≡ ok a
      → OneActive p (insert_rollout rollout w).1.tables (insert_rollout rollout w).1.next_job
  unfolding insert_rollout
  insert-OneActive true w a known h e = rw known (
    record rollout { id = w.next_rollout },
    select_where-snoc (pending_or_running p.id) w.tables.rollouts _ h (rw (==_refl p.id) refl),
    refl,
    refl,
    refl,
  )
  insert-OneActive false w a known h e =
      absurd (err-ne-created (errorf "violates foreign key constraint") a (rw known at e))

  insert-grows :
      (b : Bool) (w : World)
      → (any (λ q. q.id == rollout.product_id) w.tables.products
          && any (λ u. u.id == rollout.created_by_user_id) w.tables.users)
        ≡ b
      → (insert_rollout rollout w).1.next_job ≡ w.next_job
  unfolding insert_rollout
  insert-grows true w known = rw known refl
  insert-grows false w known = rw known refl

  insert-Commits : Commits (NoneActive p.id) (OneActive p) (insert_rollout rollout)
  insert-Commits = record {
    at = λ w a h e. insert-OneActive _ w a refl h e;
    grows = λ w. rw (insert-grows _ w refl) (le_refl _);
  }

module _ (sha256 : String → ℕ) (now later : ℕ) (p : Product) (created_by : ℕ) where
  add-Commits :
      (now : ℕ) (ds : List Device)
      → Commits (NoneActive p.id) (OneActive p) (add_rollout sha256 now p created_by ds)
  unfolding add_rollout
  add-Commits now [] = Commits-fail _
  add-Commits now (d ∷ ds) =
      Commits-bind _ _
        (Commits-wrapped _ _ (
          Commits-bind _ _ (Commits-Maintains _ Maintains-call)
            (λ _. insert-Commits p created_by now)))
        (λ r.
          Commits-bind {Q = OneActive p} _ _ (Commits-wrapped _ _ (Commits-execute _ (λ t n h. h)))
            (λ _. Commits-pure _))

  create_in-Commits :
      Commits (NoneActive p.id) (OneActive p) (create_in_transaction sha256 later p created_by)
  unfolding create_in_transaction
  create_in-Commits =
      Commits-transaction (record { later = λ t n m le h. h }) _
        (Commits-bind {Q = NoneActive p.id} _ _
          (Commits-Maintains _ (loaded-Maintains p.id p.firmware_version)) (add-Commits later))

  create-Commits :
      Commits (λ t n. Unit) (OneActive p) (create_rollout sha256 now later p created_by)
  unfolding create_rollout
  create-Commits =
      Commits-if (is_incomplete p) _ _ (λ _. Commits-fail _)
        (λ _.
          Commits-if
            (ltb (effective_rollout_percentage p) 1 || ltb 100 (effective_rollout_percentage p)) _ _
            (λ _. Commits-fail _)
            (λ _.
              Commits-if (ltb (effective_rollout_interval_minutes p) 1) _ _ (λ _. Commits-fail _)
                (λ _.
                  Commits-bind {Q = NoneActive p.id} _ _
                    (Commits-bind {Q = λ t n. Unit} _ _
                      (Commits-Maintains _ (
                        Maintains-bind _ _ (loaded-Maintains p.id p.firmware_version)
                          unless_empty-Maintains))
                      (λ _. Commits-wrapped _ _ (cancel-Commits p.id now later)))
                    (λ _. create_in-Commits))))

  -- When `CreateRollout` returns no error, the table has exactly one rollout of the product that is
  -- pending or running. It is pending and brings the firmware of the product: whatever was active
  -- before is active no more.
  pub create_rollout-single :
      (w : World) (created : Created)
      → (create_rollout sha256 now later p created_by w).0 ≡ ok created
      → OneActive p
          (create_rollout sha256 now later p created_by w).1.tables
          (create_rollout sha256 now later p created_by w).1.next_job
  create_rollout-single w created e = create-Commits.at w created tt e
