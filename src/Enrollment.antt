-- ===== src/Enrollment.antt =====
-- internal/enrollment/enrollment.go: the handlers of users, homes and devices. Each takes the user of
-- the session, if there is one, the parameters of the path as texts and the body, if it binds.
pub mod Homes
pub mod Devices
pub mod Firmware
pub mod Listing
pub mod Owner
pub mod Atomic
pub mod Creation
pub mod Tests
use minnal_labs.Base.{
  ℕ, suc, String, Bool, not, ◌&&◌, ◌||◌, Option, none, some, List, [], ◌∷◌, ◌++◌, ◌==◌, str_eq,
  if◌then◌else◌,
}
use minnal_labs.Base.Rows.{any}
use minnal_labs.Base.Exec.{ok, err, Exec, ◌>>=◌, ◌>>◌}
use minnal_labs.Models.{User}
use minnal_labs.World.{World, Tables, call, errorf}
use minnal_labs.Http.{Response, success, Handler, refuse, or_refuse, present, checked}
use minnal_labs.Base.Exec.{pure}
use minnal_labs.Validation.{normalize_username, validate_username, validate_password}

abbrev pub on_users : (List User → List User) → Tables → Tables
on_users f t = record t { users = f t.users }

-- the unique indices of `users`: on the name, deleted users included, and on a Google identity
-- that is not empty
abbrev pub clashes : String → String → User → Bool
clashes username google_sub u =
    str_eq u.username username || (not (str_eq google_sub "") && str_eq u.google_sub google_sub)

-- INSERT INTO users; the sequence is read before the indices are checked
unfoldable pub insert_user : String → String → String → Exec World User
insert_user username password google_sub w =
    let row : User = record {
      id = w.next_user;
      deleted_at = none;
      username = username;
      password = password;
      google_sub = google_sub;
    } in
    let taken = record w { next_user = suc w.next_user } in
    if any (clashes username google_sub) w.tables.users
    then (err (errorf "violates unique constraint"), taken)
    else (ok row, record taken { tables = on_users (λ us. us ++ row ∷ []) w.tables })

-- `db.DB.Create(&user)`
unfoldable pub create_user : String → String → String → Exec World User
unfolding insert_user call
create_user username password google_sub = call >> insert_user username password google_sub

pub record EnrolledUser : Type 0 where
  pub user_id : ℕ
  pub username : String

-- `enrollUser`; bcrypt's hash of the password is a parameter
unfoldable pub enroll_user :
    (String → Option String) → Option (String × String) → Handler EnrolledUser
unfolding create_user validate_username validate_password
enroll_user generate_from_password body =
    present body 400 "invalid request" (λ (username, password).
      let name = normalize_username username in
      checked (validate_username name) 400 (λ _. checked (validate_password password) 400 (λ _.
        present (generate_from_password password) 500 "failed to hash password" (λ hashed.
          or_refuse (create_user name hashed "") 409 "username already exists"
            (λ u. pure (success 201 (record { user_id = u.id; username = u.username })))))))
