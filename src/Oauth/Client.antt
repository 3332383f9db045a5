-- ===== src/Oauth/Client.antt =====
-- internal/oauth/oauth.go: the client of the OAuth server that the settings name, with its secret. The
-- random bytes are an argument, as the secret that they encode, if they can be read.
use minnal_labs.Base.{
  String, not, ◌&&◌, Option, none, some, List, [], ◌∷◌, ◌++◌, str_eq, if◌then◌else◌,
}
use minnal_labs.Base.Rows.{any, first_where, update_where}
use minnal_labs.Base.Text.{trim_space}
use minnal_labs.Base.Exec.{ok, err, Exec, pure, fail, or_else, ◌>>=◌, ◌>>◌}
use minnal_labs.Models.{OauthClient}
use minnal_labs.World.{World, Tables, call, execute, query_first, query, errorf}
use minnal_labs.Config.{AppConfig, or_default}

abbrev pub default_oauth_client_domain : String
default_oauth_client_domain = "https://oauth-redirect.googleusercontent.com/"

abbrev pub legacy_oauth_client_secret : String
legacy_oauth_client_secret = "my-secret-key"

-- `defaultOAuthClientID`
unfoldable pub default_oauth_client_id : Option AppConfig → String
default_oauth_client_id none = "google-client"
default_oauth_client_id (some c) = or_default "google-client" (trim_space c.oauth_client_id)

unfoldable pub configured_secret : Option AppConfig → String
configured_secret none = ""
configured_secret (some c) = trim_space c.oauth_client_secret

abbrev or_error : Option String → Exec World String
or_error none = fail (errorf "no random bytes")
or_error (some secret) = pure secret

-- the secret of the settings, or a new one
unfoldable pub choose_secret : Option String → String → Exec World String
choose_secret random configured = if str_eq configured "" then or_error random else pure configured

abbrev pub on_clients : (List OauthClient → List OauthClient) → Tables → Tables
on_clients f t = record t { oauth_clients = f t.oauth_clients }

abbrev pub new_client : String → String → OauthClient
new_client id secret = record {
  id = id;
  secret = secret;
  domain = default_oauth_client_domain;
  user_id = "1";
}

-- INSERT, with the primary key
unfoldable pub insert_client : OauthClient → Exec World Unit
insert_client x w =
    if any (λ y. str_eq y.id x.id) w.tables.oauth_clients
    then (err (errorf "violates unique constraint"), w)
    else (ok tt, record w { tables = on_clients (λ xs. xs ++ x ∷ []) w.tables })

-- the branch of `gorm.ErrRecordNotFound`
unfoldable pub create_client : Option String → String → String → Exec World Unit
unfolding choose_secret insert_client call
create_client random configured id =
    choose_secret random configured >>= (λ secret. call >> insert_client (new_client id secret))

abbrev pub with_secret : String → OauthClient → OauthClient
with_secret secret x = record x { secret = secret }

-- the rest of `ensureOAuthClient`, once there is a row
unfoldable pub rotate_secret : Option String → String → OauthClient → Exec World Unit
unfolding choose_secret execute update_where
rotate_secret random configured client =
    let current = trim_space client.secret in
    if not (str_eq current "") && not (str_eq current legacy_oauth_client_secret)
    then pure tt
    else choose_secret random configured >>= (λ secret.
      execute (on_clients (update_where (λ x. str_eq x.id client.id) (with_secret secret))))

-- `ensureOAuthClient`
unfoldable pub ensure_oauth_client : Option String → Option AppConfig → Exec World Unit
unfolding default_oauth_client_id configured_secret query_first query first_where create_client
    rotate_secret
ensure_oauth_client random cfg =
    let id = default_oauth_client_id cfg in
    let configured = configured_secret cfg in
    or_else (query_first (λ t. first_where (λ x. str_eq x.id id) t.oauth_clients))
      (λ e. if e.not_found then create_client random configured id else fail e)
      (rotate_secret random configured)
