-- ===== src/Deletion/Schedule.antt =====
-- internal/deletion/deletion.go: what a committed deletion of a home or of a user has put into the queue.
use minnal_labs.Base.{
  ℕ, ◌≡◌, sym, subst, ◌∙◌, ap, true, inl, inr, List, [], ◌∷◌, map, ◌==◌, Bool-cases,
}
use minnal_labs.Base.Rows.{Any, select_where}
use minnal_labs.Base.Exec.{Exec}
use minnal_labs.Models.{Home, HomeMqttJob}
use minnal_labs.World.{World}
use minnal_labs.World.Maintains.{
  Maintains, Maintains-wrapped, Maintains-query_first, Maintains-query, Maintains-bind,
  Maintains-if, Maintains-pure, Maintains-fail,
}
use minnal_labs.World.Commits.{
  Commits, Commits-Maintains, Commits-pure, Commits-execute, Commits-bind, Commits-wrapped,
  Commits-fail, Commits-if, Commits-transaction, Maintains-transaction, Commits-fact,
}
use minnal_labs.World.Query.{Commits-query}
use minnal_labs.HomeJobs.Queue.{Config}
use minnal_labs.HomeJobs.Worker.{is_live_home, with_state}
use minnal_labs.Deletion.{
  schedule_home_deletion, schedule_homes, schedule_user_deletion, delete_user_rows, owns_live_home,
}
use minnal_labs.Deletion.Copies.{IsSound, IsSound-later}
use minnal_labs.Deletion.Intent.{Tracks, Tracks-stable, Tracks-homes}
use minnal_labs.Deletion.Queue.{replace_with_cleanup_job-Intends, replace_with_cleanup_job-Tracks}

module _ {known : List HomeMqttJob} (c : Config) (now later : ℕ) where
  pub schedule_home_deletion-Intends :
      (id : ℕ) → Commits (IsSound known) (Tracks known id) (schedule_home_deletion c now later id)
  unfolding schedule_home_deletion
  schedule_home_deletion-Intends id =
      Commits-if (id == 0) _ _ (λ _. Commits-fail _)
        (λ _.
          Commits-bind _ _
            (Commits-wrapped _ _ (
              Commits-execute _ (λ t n h. record {
                fresh = h.fresh;
                known_fresh = h.known_fresh;
                copies = h.copies;
                unique = h.unique;
              })))
            (λ _. Commits-wrapped _ _ (replace_with_cleanup_job-Intends c later id)))

  pub schedule_home_deletion-Tracks :
      (home id : ℕ)
      → Commits (Tracks known home) (Tracks known home) (schedule_home_deletion c now later id)
  unfolding schedule_home_deletion
  schedule_home_deletion-Tracks home id =
      Commits-if (id == 0) _ _ (λ _. Commits-fail _)
        (λ _.
          Commits-bind _ _
            (Commits-wrapped _ _ (
              Commits-execute _ (λ t n h.
                Tracks-homes h (is_live_home id) (with_state now "deleting" "") (λ x g _. g))))
            (λ _. Commits-wrapped _ _ (replace_with_cleanup_job-Tracks c later id home)))

  schedule_homes-Tracks :
      (home : ℕ) (ids : List ℕ)
      → Commits (Tracks known home) (Tracks known home) (schedule_homes c now later ids)
  unfolding schedule_homes
  schedule_homes-Tracks home [] = Commits-pure tt
  schedule_homes-Tracks home (id ∷ ids) =
      Commits-bind _ _ (schedule_home_deletion-Tracks home id) (λ _. schedule_homes-Tracks home ids)

  -- each home of the list has its cleanup job, also one whose turn was not the last
  schedule_homes-Intends :
      (home : ℕ) (ids : List ℕ)
      → Any (λ i. i ≡ home) ids
      → Commits (IsSound known) (Tracks known home) (schedule_homes c now later ids)
  unfolding schedule_homes
  schedule_homes-Intends home [] m = elim m [ ]
  schedule_homes-Intends home (id ∷ ids) (inl e) =
      Commits-bind _ _ (schedule_home_deletion-Intends id) (λ _.
        subst (λ i. Commits (Tracks known i) (Tracks known home) (schedule_homes c now later ids))
          (sym e) (schedule_homes-Tracks home ids))
  schedule_homes-Intends home (id ∷ ids) (inr m) =
      Commits-bind _ _ (only_sound (schedule_home_deletion-Intends id))
        (λ _. schedule_homes-Intends home ids m)
    where
      only_sound :
          {m : Exec World Unit}
          → Commits (IsSound known) (Tracks known id) m
          → Commits (IsSound known) (IsSound known) m
      only_sound k = record { at = λ w a h e. (k.at w a h e).sound; grows = k.grows }

-- a home that the user owns is among those whose numbers are plucked
owned-listed :
    (user_id : ℕ) (x : Home) (hs : List Home)
    → owns_live_home user_id x ≡ true
    → Any (λ h. h ≡ x) hs
    → Any (λ i. i ≡ x.id) (map (λ (h : Home). h.id) (select_where (owns_live_home user_id) hs))
unfolding select_where
owned-listed user_id x [] own m = elim m [ ]
owned-listed user_id x (h ∷ hs) own (inl e) =
    rw (ap (owns_live_home user_id) e ∙ own) (inl (ap (λ (y : Home). y.id) e))
owned-listed user_id x (h ∷ hs) own (inr m) = elim (Bool-cases (owns_live_home user_id h)) [
  | inl p ↦ rw p (inr (owned-listed user_id x hs own m))
  | inr p ↦ rw p (owned-listed user_id x hs own m)
]

module _ {known : List HomeMqttJob} (c : Config) (now later user_id : ℕ) where
  delete_user_rows-Intends :
      (hs : List Home) (x : Home)
      → owns_live_home user_id x ≡ true
      → Any (λ h. h ≡ x) hs
      → Commits
          (λ t n. IsSound known t n × (t.homes ≡ hs))
          (Tracks known x.id)
          (delete_user_rows c now later user_id)
  unfolding delete_user_rows
  delete_user_rows-Intends hs x own m =
      Commits-bind _ _ (Commits-Maintains _ (Maintains-wrapped _ _ (Maintains-query_first _))) (λ _.
        Commits-query _ _ _ (λ ids.
          Commits-bind {Q = λ t n. IsSound known t n × Any (λ i. i ≡ x.id) ids} _ _
            (Commits-wrapped _ _ (
              Commits-execute _ (λ t n h. (
                record {
                  fresh = h.0.0.fresh;
                  known_fresh = h.0.0.known_fresh;
                  copies = h.0.0.copies;
                  unique = h.0.0.unique;
                },
                subst (Any (λ i. i ≡ x.id)) h.1
                    (owned-listed user_id x t.homes own (subst (Any (λ y. y ≡ x)) (sym h.0.1) m)),
              ))))
            (λ _.
              Commits-bind {Q = λ t n. IsSound known t n × Any (λ i. i ≡ x.id) ids} _ _
                (Commits-wrapped _ _ (
                  Commits-execute _ (λ t n h. (
                    record {
                      fresh = h.0.fresh;
                      known_fresh = h.0.known_fresh;
                      copies = h.0.copies;
                      unique = h.0.unique;
                    },
                    h.1,
                  ))))
                (λ _.
                  Commits-bind _ _
                    (Commits-fact _
                      (schedule_homes-Tracks {known = known} c now later x.id ids).grows
                      (schedule_homes-Intends c now later x.id ids))
                    (λ _. Commits-pure ids)))))

  delete_user_rows-Tracks :
      (home : ℕ)
      → Commits (Tracks known home) (Tracks known home) (delete_user_rows c now later user_id)
  unfolding delete_user_rows
  delete_user_rows-Tracks home =
      Commits-bind _ _ (Commits-Maintains _ (Maintains-wrapped _ _ (Maintains-query_first _))) (λ _.
        Commits-bind _ _ (Commits-Maintains _ (Maintains-wrapped _ _ (Maintains-query _))) (λ ids.
          Commits-bind {Q = Tracks known home} _ _
            (Commits-wrapped _ _ (
              Commits-execute _ (λ t n h. record {
                sound = record {
                  fresh = h.fresh;
                  known_fresh = h.known_fresh;
                  copies = h.copies;
                  unique = h.unique;
                };
                intent = h.intent;
              })))
            (λ _.
              Commits-bind {Q = Tracks known home} _ _
                (Commits-wrapped _ _ (
                  Commits-execute _ (λ t n h. record {
                    sound = record {
                      fresh = h.fresh;
                      known_fresh = h.known_fresh;
                      copies = h.copies;
                      unique = h.unique;
                    };
                    intent = h.intent;
                  })))
                (λ _.
                  Commits-bind _ _ (schedule_homes-Tracks c now later home ids)
                    (λ _. Commits-pure ids)))))

  pub schedule_user_deletion-Maintains :
      (home : ℕ) → Maintains (Tracks known home) (schedule_user_deletion c now later user_id)
  unfolding schedule_user_deletion
  schedule_user_deletion-Maintains home =
      Maintains-if (user_id == 0) _ _ (λ _. Maintains-fail _)
        (λ _.
          Maintains-bind _ _
            (Maintains-transaction (Tracks-stable known home) _ (delete_user_rows-Tracks home))
            (λ _. Maintains-pure _))

  pub schedule_user_deletion-Intends :
      (hs : List Home) (x : Home)
      → owns_live_home user_id x ≡ true
      → Any (λ h. h ≡ x) hs
      → Commits
          (λ t n. IsSound known t n × (t.homes ≡ hs))
          (Tracks known x.id)
          (schedule_user_deletion c now later user_id)
  unfolding schedule_user_deletion
  schedule_user_deletion-Intends hs x own m =
      Commits-if (user_id == 0) _ _ (λ _. Commits-fail _)
        (λ _.
          Commits-bind _ _
            (Commits-transaction (record { later = λ t n m le h. (IsSound-later h.0 m le, h.1) }) _
              (delete_user_rows-Intends hs x own m))
            (λ _. Commits-pure _))
