-- ===== src/Googleauth/Tests.antt =====
-- Runs of internal/googleauth/googleauth.go.
use minnal_labs.Base.{◌≡◌, refl, some, [], ◌∷◌}
use minnal_labs.Base.Map.{write_str}
use minnal_labs.Base.Text.{cut}
use minnal_labs.Base.Rows.{first_where}
use minnal_labs.Base.Exec.{ok, err, or_else, pure, ◌>>=◌}
use minnal_labs.Models.{User}
use minnal_labs.World.{World, OauthStatePayload, call, errorf}
use minnal_labs.World.Sample.{empty_world}
use minnal_labs.Validation.{validate_username}
use minnal_labs.Googleauth.{take_state, consume_oauth_state}
use minnal_labs.Googleauth.Usernames.{
  sanitize, pad, at_most_runes, derive_username, find_or_create_google_user,
}
use minnal_labs.Googleauth.Once.{consume_oauth_state-once}
use minnal_labs.Googleauth.Accepted.{derive_username-accepted}
use minnal_labs.Googleauth.Blocked.{find_or_create_google_user-blocked}

names_accounts : derive_username "jo.do@example.com" ≡ "jo_do"
unfolding derive_username sanitize pad at_most_runes cut
names_accounts = refl

derive_username-accepted_example : validate_username (derive_username "@") ≡ ok tt
derive_username-accepted_example = derive_username-accepted "@"

abbrev sign_in : OauthStatePayload
sign_in = record { intent = "login"; user_id = 0 }

abbrev waiting : World
waiting = record empty_world {
  cache = record empty_world.cache {
    google_csrf = write_str "s1" (some (sign_in, 700)) empty_world.cache.google_csrf;
  };
}

consume_oauth_state-once_example :
    (consume_oauth_state 101 "s1" (consume_oauth_state 100 "s1" waiting).1).0
    ≡ err (errorf "invalid or expired state")
unfolding consume_oauth_state take_state call or_else pure ◌>>=◌
consume_oauth_state-once_example = consume_oauth_state-once 100 101 "s1" waiting sign_in refl

abbrev gone : User
gone = record { id = 3; deleted_at = some 50; username = "jo_do"; password = ""; google_sub = "g1" }

abbrev after_deletion : World
after_deletion = record empty_world { tables = record empty_world.tables { users = gone ∷ [] } }

find_or_create_google_user-blocked_example :
    ¬ ((find_or_create_google_user "r4nd0m" "g1" "new@example.com" after_deletion).0 ≡ ok gone)
unfolding first_where
find_or_create_google_user-blocked_example =
    find_or_create_google_user-blocked "r4nd0m" "g1" "new@example.com" after_deletion gone
      (refl, refl)
