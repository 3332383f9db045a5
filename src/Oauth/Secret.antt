-- ===== src/Oauth/Secret.antt =====
-- internal/oauth/oauth.go: the secret of the OAuth client after the start of the server.
use minnal_labs.Base.{
  ◌≡◌, refl, sym, subst, String, Bool, true, false, not, ◌&&◌, Option, none, some, [], arith, inl,
  inr, str_eq, if◌then◌else◌, Bool-cases, eq_iff,
}
use minnal_labs.Base.Rows.{first_where, update_where}
use minnal_labs.Base.Rows.First.{first_where-fits, any-none, first_where-append, first_where-update}
use minnal_labs.Base.Text.{trim_space}
use minnal_labs.Models.{OauthClient}
use minnal_labs.World.{World}
use minnal_labs.World.Runs.{
  Succeeds, Runs, Runs-pure, Runs-bind, Runs-call, Runs-execute, Runs-at, Runs-from, Runs-lookup,
}
use minnal_labs.Config.{AppConfig}
use minnal_labs.Oauth.Client.{
  legacy_oauth_client_secret, default_oauth_client_id, configured_secret, choose_secret, new_client,
  insert_client, create_client, with_secret, rotate_secret, ensure_oauth_client,
}
use text.Mathlib.TextPositions.{eq_refl}

abbrev pub IsSecret : String → Type 0
IsSecret s =
    (str_eq (trim_space s) "" ≡ false) × (str_eq (trim_space s) legacy_oauth_client_secret ≡ false)

abbrev pub has_id : String → OauthClient → Bool
has_id id x = str_eq x.id id

-- the row that `First` finds has a secret of its own
abbrev pub IsSecured : String → World → Type 0
IsSecured id w =
    (x : OauthClient) × (first_where (has_id id) w.tables.oauth_clients ≡ some x)
    × IsSecret x.secret

abbrev pub chosen_secret : String → String → String
chosen_secret random configured = if str_eq configured "" then random else configured

module _ (random configured id : String) (good : IsSecret (chosen_secret random configured)) where
  choose-Runs :
      (P : World → Type 0)
      → Runs P
          (choose_secret (some random) configured)
          (λ s w. (s ≡ chosen_secret random configured) × P w)
  unfolding choose_secret
  choose-Runs P = elim (Bool-cases (str_eq configured "")) [
    | inl e ↦ rw (e, choose_secret) (Runs-pure random (λ w p. (refl, p)))
    | inr e ↦ rw (e, choose_secret) (Runs-pure configured (λ w p. (refl, p)))
  ]

  abbrev IsMissing : World → Type 0
  IsMissing w = first_where (has_id id) w.tables.oauth_clients ≡ none

  insert-Runs :
      Runs IsMissing
        (insert_client (new_client id (chosen_secret random configured)))
        (λ _. IsSecured id)
  unfolding insert_client
  insert-Runs = record {
    at = λ w q e. rw (any-none (has_id id) w.tables.oauth_clients e) (
      q,
      (
        new_client id (chosen_secret random configured),
        first_where-append (has_id id) w.tables.oauth_clients _ e (eq_refl id),
        good,
      ),
    );
  }

  create-Runs : Runs IsMissing (create_client (some random) configured id) (λ _. IsSecured id)
  unfolding create_client
  create-Runs =
      Runs-bind (λ s w. (s ≡ chosen_secret random configured) × IsMissing w) _ _
        (choose-Runs IsMissing)
        (Runs-at (chosen_secret random configured) _
          (Runs-bind (λ _. IsMissing) _ _ Runs-call (λ _. insert-Runs)))

  abbrev IsFound : OauthClient → World → Type 0
  IsFound x w = first_where (has_id id) w.tables.oauth_clients ≡ some x

  updated :
      (x : OauthClient) (w : World)
      → IsFound x w
      → first_where (has_id id) (
          update_where
            (has_id x.id)
            (with_secret (chosen_secret random configured))
            w.tables.oauth_clients)
        ≡ some (with_secret (chosen_secret random configured) x)
  updated x w p =
      subst
        (λ k.
          first_where (has_id id) (
            update_where (has_id k) (with_secret (chosen_secret random configured))
              w.tables.oauth_clients)
          ≡ some (with_secret (chosen_secret random configured) x))
        (sym ((eq_iff x.id id).0 (first_where-fits (has_id id) w.tables.oauth_clients x p)))
        (first_where-update (has_id id) (with_secret (chosen_secret random configured)) (λ y. refl)
          w.tables.oauth_clients x p)

  update-Runs :
      (x : OauthClient)
      → Runs (IsFound x) (rotate_secret (some random) configured x) (λ _. IsSecured id)
  unfolding rotate_secret
  update-Runs x =
      elim (Bool-cases (
        not (str_eq (trim_space x.secret) "")
        && not (str_eq (trim_space x.secret) legacy_oauth_client_secret))) [
          | inl e ↦ rw e (Runs-pure tt (λ w p. (x, p, kept _ _ e)))
          | inr e ↦ rw e (
              Runs-bind (λ s w. (s ≡ chosen_secret random configured) × IsFound x w) _ _
                (choose-Runs (IsFound x))
                (Runs-at (chosen_secret random configured) _ (
                  Runs-execute _ (λ w p.
                    (with_secret (chosen_secret random configured) x, updated x w p, good)))))
        ]
    where
      kept : (a b : Bool) → not a && not b ≡ true → (a ≡ false) × (b ≡ false)
      kept a b e = ground (arith, e)

-- While PostgreSQL answers, `ensureOAuthClient` leaves a client with the number of the settings, and its
-- secret is neither blank nor the one that older versions shipped. The secret of the settings, or
-- the random one if there is none, is not blank and not that one either.
pub ensure_oauth_client-secures :
    (random : String) (cfg : Option AppConfig) (w : World)
    → w.faults ≡ []
    → IsSecret (chosen_secret random (configured_secret cfg))
    → Succeeds
        (λ _. IsSecured (default_oauth_client_id cfg))
        (ensure_oauth_client (some random) cfg w)
unfolding ensure_oauth_client
ensure_oauth_client-secures random cfg w quiet good =
    let id = default_oauth_client_id cfg in
    let configured = configured_secret cfg in
    (Runs-lookup (λ _. Unit {0}) (λ _. IsSecured id) (λ t. first_where (has_id id) t.oauth_clients)
        _ _
        (Runs-from (IsMissing random configured id good) _ (λ v (_, e). e)
          (create-Runs random configured id good))
        (λ x.
          Runs-from (IsFound random configured id good x) _ (λ v (_, e). e)
            (update-Runs random configured id good x))).at
      w quiet tt
