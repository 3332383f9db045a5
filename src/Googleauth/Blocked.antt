-- ===== src/Googleauth/Blocked.antt =====
-- internal/googleauth/googleauth.go: an account that was deleted keeps its Google identity.
use minnal_labs.Base.{
  ℕ, zero, suc, ◌≡◌, ◌≤◌, arith, refl, sym, subst, inl, inr, String, Bool, true, not, ◌&&◌, ◌||◌,
  Option, none, some, List, [], ◌∷◌, str_eq, Bool-cases,
}
use minnal_labs.Base.Rows.{any, first_where}
use minnal_labs.Base.Exec.{Error, ok, err, Exec, pure, wrapped, or_else, gets, ◌>>=◌}
use minnal_labs.Models.{User}
use minnal_labs.World.{World, Tables, query, query_first, call, wrap, errorf}
use minnal_labs.World.Maintains.{
  Maintains, Maintains-pure, Maintains-fail, Maintains-if, Maintains-bind, Maintains-or_else,
  Maintains-query, Maintains-query_first, Maintains-call,
}
use minnal_labs.World.Commits.{Commits, Commits-wrapped, Commits-bind, Commits-Maintains}
use minnal_labs.Enrollment.{clashes, insert_user, create_user}
use minnal_labs.Googleauth.Usernames.{
  candidate, is_taken, last_resort, find_from, find_available_username, has_sub, choose_username,
  derive_username, find_or_create_google_user,
}
use native.Mathlib.Nat.{le_refl}

-- a row that holds an identity, deleted or not
abbrev pub holds_sub : String → User → Bool
holds_sub google_sub u = not (str_eq google_sub "") && str_eq u.google_sub google_sub

module _ {P : Tables → ℕ → Type 0} where
  is_taken-Maintains : (name : String) → Maintains P (is_taken name)
  unfolding is_taken
  is_taken-Maintains name =
      Maintains-or_else _ _ _ (Maintains-query _) (λ e. Maintains-pure _) (λ b. Maintains-pure b)

  last_resort-Maintains : (base token : String) → Maintains P (last_resort base token)
  unfolding last_resort
  last_resort-Maintains base token = search (Maintains-if, Maintains-fail, Maintains-pure)

  find_from-Maintains :
      (rounds i : ℕ) (base token : String) → Maintains P (find_from rounds i base token)
  unfolding find_from
  find_from-Maintains zero i base token = last_resort-Maintains base token
  find_from-Maintains (suc rounds) i base token =
      Maintains-bind (is_taken (candidate base i)) _ (is_taken-Maintains _) (λ taken.
        Maintains-if taken _ _ (λ _. find_from-Maintains rounds (suc i) base token)
          (λ _. Maintains-pure _))

  choose_username-Maintains : (token name : String) → Maintains P (choose_username token name)
  unfolding choose_username find_available_username
  choose_username-Maintains token name =
      Maintains-or_else _ _ _ (Maintains-query_first _) (λ e. Maintains-pure name)
        (λ u. find_from-Maintains 9998 2 name token)

module _ (google_sub : String) where
  -- no live user has the identity, but a row holds it
  abbrev pub IsLost : List User → Type 0
  IsLost us = (first_where (has_sub google_sub) us ≡ none) × (any (holds_sub google_sub) us ≡ true)

  either : (a b c : Bool) → b ≡ true → (a || b) || c ≡ true
  either a b c e = ground (arith, e)

  later : (a : Bool) {b : Bool} → b ≡ true → a || b ≡ true
  later a e = ground (arith, e)

  clash :
      (name : String) (us : List User)
      → any (holds_sub google_sub) us ≡ true
      → any (clashes name google_sub) us ≡ true
  clash name [] e = cc
  clash name (u ∷ us) e = elim (Bool-cases (holds_sub google_sub u)) [
    | inl t ↦ either (str_eq u.username name) (holds_sub google_sub u) _ t
    | inr f ↦
        let rest : any (holds_sub google_sub) us ≡ true = rw f at e in
        later (clashes name google_sub u) (clash name us rest)
  ]

  refused :
      (name : String) (w : World) (u : User)
      → any (clashes name google_sub) w.tables.users ≡ true
      → (insert_user name "" google_sub w).0 ≡ ok u
      → ⊥
  unfolding insert_user
  refused name w u t e = let x : err (errorf "violates unique constraint") ≡ ok u = rw t at e in cc

  grown : (name : String) (w : World) → w.next_job ≤ (insert_user name "" google_sub w).1.next_job
  unfolding insert_user
  grown name w = elim (Bool-cases (any (clashes name google_sub) w.tables.users)) [
    | inl t ↦ rw t (le_refl _)
    | inr f ↦ rw f (le_refl _)
  ]

  create_user-fails :
      (name : String) → Commits (λ t n. IsLost t.users) (λ t n. ⊥) (create_user name "" google_sub)
  unfolding create_user
  create_user-fails name = Commits-bind call _ (Commits-Maintains call Maintains-call) (λ _.
      record {
        at = λ w u lost e. refused name w u (clash name w.tables.users lost.1) e;
        grows = λ w. grown name w;
      })

  -- the part after the first query, which finds no account
  new_account-fails :
      (token email : String)
      → Commits
          (λ t n. IsLost t.users)
          (λ t n. ⊥)
          (wrapped (wrap "create google user") (
            choose_username token (derive_username email)
            >>= (λ name. create_user name "" google_sub)))
  new_account-fails token email = Commits-wrapped _ _ (
      Commits-bind (choose_username token (derive_username email)) _
        (Commits-Maintains _ (choose_username-Maintains token (derive_username email)))
        create_user-fails)

  -- a query that finds no row returns an error, also when the call fails
  missed :
      {B : Type 0} (f : Tables → Option User) (h : Error → Exec World B) (k : User → Exec World B)
      (w : World) (fs : List (Option String)) (b : B)
      → f w.tables ≡ none
      → ((e : Error) (v : World) → v.tables ≡ w.tables → (h e v).0 ≡ ok b → ⊥)
      → (or_else (query_first f) h k (record w { faults = fs })).0 ≡ ok b
      → ⊥
  unfolding or_else query_first query call ◌>>=◌ gets
  missed f h k w [] b miss never e = never _ _ refl (rw miss at e)
  missed f h k w (none ∷ fs) b miss never e = never _ _ refl (rw miss at e)
  missed f h k w (some m ∷ fs) b miss never e = never _ _ refl e

-- If a Google identity that is not empty belongs to no user who is not deleted, but a row of a deleted
-- user still holds it, `findOrCreateGoogleUser` never returns a user for it: the unique index refuses
-- each new row, whatever the address and the name are and whichever calls fail.
pub find_or_create_google_user-blocked :
    (token google_sub email : String) (w : World) (u : User)
    → IsLost google_sub w.tables.users
    → ¬ ((find_or_create_google_user token google_sub email w).0 ≡ ok u)
unfolding find_or_create_google_user
find_or_create_google_user-blocked token google_sub email w u lost e =
    missed google_sub (λ t. first_where (has_sub google_sub) t.users) _ pure w w.faults u lost.0
      (λ x v same.
        (new_account-fails google_sub token email).at v u
          (subst (λ t. IsLost google_sub t.users) (sym same) lost))
      e
