-- ===== src/Deletion/Load.antt =====
-- internal/homejobs/homejobs.go: loading the home of a job, the three ways in which it ends.
use mathlib.Core.Path.{subst₂}
use minnal_labs.Base.{
  ℕ, ◌≡◌, ◌≤◌, refl, sym, subst, ◌∙◌, ap, String, Bool, false, ◌⊎◌, inl, inr, Option, none, some,
  List, [], ◌∷◌, arith, ◌==◌,
}
use minnal_labs.Base.Rows.{All, first_where}
use minnal_labs.Base.Exec.{Error, Outcome, ok, err, Exec, or_else, ◌>>=◌, branch, gets}
use minnal_labs.Models.{Home}
use minnal_labs.World.{World, Tables, not_found_error}
use minnal_labs.World.Maintains.{Maintains}
use minnal_labs.HomeJobs.Worker.{load_home}
use minnal_labs.Deletion.Intent.{IsGone}

abbrev pub is_home : ℕ → Home → Bool
is_home id h = h.id == id

first_home-id :
    (id : ℕ) (hs : List Home) (x : Home) → first_where (is_home id) hs ≡ some x → x.id ≡ id
unfolding first_where
first_home-id id [] x e = cc
first_home-id id (h ∷ hs) x e = ground (arith, e, first_home-id id hs x)

pub missing-IsGone :
    (id : ℕ) (hs : List Home) → first_where (is_home id) hs ≡ none → All (IsGone id) hs
unfolding first_where
missing-IsGone id [] e = tt
missing-IsGone id (h ∷ hs) e = ground (arith, e, missing-IsGone id hs)

-- how `load_home` ends: with a driver's error, with no row, or with a row of that number
abbrev Loaded : ℕ → World → Outcome Home × World → Type 0
Loaded id w (err e, w') =
    (w'.tables ≡ w.tables)
    × (w'.next_job ≡ w.next_job)
    × ((e.not_found ≡ false) ⊎ ((e ≡ not_found_error) × (first_where (is_home id) w.homes ≡ none)))
Loaded id w (ok x, w') = (w'.tables ≡ w.tables) × (w'.next_job ≡ w.next_job) × (x.id ≡ id)

abbrev lookup_outcome : Option Home → Outcome Home
lookup_outcome none = err not_found_error
lookup_outcome (some x) = ok x

lookup-Loaded :
    (id : ℕ) (w w' : World)
    → w'.tables ≡ w.tables
    → w'.next_job ≡ w.next_job
    → (o : Option Home) → first_where (is_home id) w.homes ≡ o
    → Loaded id w (lookup_outcome o, w')
lookup-Loaded id w w' p q none e = (p, q, inr (refl, e))
lookup-Loaded id w w' p q (some x) e = (p, q, first_home-id id w.homes x e)

load_home-faults :
    (id : ℕ) (w : World) (fs : List (Option String))
    → Loaded id w (load_home id (record w { faults = fs }))
unfolding load_home ◌>>=◌ gets
load_home-faults id w [] =
    lookup-Loaded id w (record w { faults = [] }) refl refl (first_where (is_home id) w.homes) refl
load_home-faults id w (none ∷ fs) =
    lookup-Loaded id w (record w { faults = fs }) refl refl (first_where (is_home id) w.homes) refl
load_home-faults id w (some m ∷ fs) = (refl, refl, inl refl)

module _ {A : Type 0} {P : Tables → ℕ → Type 0} (id : ℕ) (h : Error → Exec World A)
    (f : Home → Exec World A) (failed : (e : Error) → e.not_found ≡ false → Maintains P (h e))
    (missing : Maintains
      (λ t n. P t n × (first_where (is_home id) t.homes ≡ none))
      (h not_found_error))
    (loaded : (x : Home) → x.id ≡ id → Maintains P (f x)) where
  missing-at :
      (w w' : World) (e : Error)
      → w'.tables ≡ w.tables
      → P w'.tables w'.next_job
      → e ≡ not_found_error
      → first_where (is_home id) w.homes ≡ none
      → P (h e w').1.tables (h e w').1.next_job
  missing-at w w' e p hp q o =
      subst (λ x. P (h x w').1.tables (h x w').1.next_job) (sym q)
        (missing.at w' (hp, ap (λ (t : Tables). first_where (is_home id) t.homes) p ∙ o)).0

  branch-at :
      (r : Outcome Home) (w w' : World)
      → Loaded id w (r, w')
      → P w.tables w.next_job
      → P (branch r h f w').1.tables (branch r h f w').1.next_job
  branch-at (err e) w w' (p, q, inl d) hp = (failed e d).at w' (subst₂ P (sym p) (sym q) hp)
  branch-at (err e) w w' (p, q, inr (d, o)) hp =
      missing-at w w' e p (subst₂ P (sym p) (sym q) hp) d o
  branch-at (ok x) w w' (p, q, d) hp = (loaded x d).at w' (subst₂ P (sym p) (sym q) hp)

  branch-grows :
      (r : Outcome Home) (w w' : World)
      → Loaded id w (r, w')
      → w.next_job ≤ (branch r h f w').1.next_job
  branch-grows (err e) w w' (p, q, inl d) = rw (sym q) ((failed e d).grows w')
  branch-grows (err e) w w' (p, q, inr (d, o)) =
      rw (sym q) (subst (λ x. w'.next_job ≤ (h x w').1.next_job) (sym d) (missing.grows w'))
  branch-grows (ok x) w w' (p, q, d) = rw (sym q) ((loaded x d).grows w')

  pub Maintains-load_home : Maintains P (or_else (load_home id) h f)
  unfolding or_else
  Maintains-load_home = record {
    at = λ w hp.
        let (r, w') = load_home id w in branch-at r w w' (load_home-faults id w w.faults) hp;
    grows =
        λ w. let (r, w') = load_home id w in branch-grows r w w' (load_home-faults id w w.faults);
  }
