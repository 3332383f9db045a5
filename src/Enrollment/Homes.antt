-- ===== src/Enrollment/Homes.antt =====
-- internal/enrollment/enrollment.go: the homes of a user. The random bytes of the broker's credentials
-- are arguments, as the texts that encode them, if they can be read.
use Prim.Native.String.{◌++◌ as append}
use minnal_labs.Base.{
  ℕ, suc, String, Bool, not, Option, none, some, List, [], ◌∷◌, ◌++◌, map, ltb, leb, ◌==◌, str_eq,
  if◌then◌else◌,
}
use minnal_labs.Base.Rows.{any, first_where, select_where, update_where}
use minnal_labs.Base.Rows.Order.{str_leb, sort_by}
use minnal_labs.Base.Text.{trim_space}
use minnal_labs.Base.Text.Decimal.{decimal, parse_uint}
use minnal_labs.Base.Exec.{ok, err, Exec, pure, fail, wrapped, ◌>>=◌, ◌>>◌}
use minnal_labs.Models.{Home, mqtt_state, state_pending, state_deleting}
use minnal_labs.World.{World, call, execute, query, query_first, transaction, wrap, errorf}
use minnal_labs.Http.{success, Handler, refuse, or_refuse, present, checked}
use minnal_labs.Validation.{rune_count, validate_required_trimmed, validate_optional_trimmed}
use minnal_labs.HomeJobs.Queue.{Config, enqueue_provision}
use minnal_labs.HomeJobs.Worker.{is_live_home, on_homes}
use minnal_labs.Deletion.{owns_live_home, schedule_home_deletion}
use minnal_labs.Oauth.Session.{SessionUser}

-- `homeResponse`: a text and a time that are left out are none
pub record HomeResponse : Type 0 where
  pub home_id : ℕ
  pub name : String
  pub mqtt_provision_state : String
  pub mqtt_provision_error : Option String
  pub mqtt_provisioned_at : Option ℕ

unfoldable pub home_response : Home → HomeResponse
unfolding mqtt_state trim_space
home_response h = record {
  home_id = h.id;
  name = h.name;
  mqtt_provision_state = mqtt_state h;
  mqtt_provision_error =
      if str_eq (trim_space h.mqtt_provision_error) "" then none else some h.mqtt_provision_error;
  mqtt_provisioned_at = h.mqtt_provisioned_at;
}

-- ORDER BY name ASC, id ASC
abbrev name_before : Home → Home → Bool
name_before a b = if str_eq a.name b.name then leb a.id b.id else str_leb a.name b.name

-- `listHomes`
unfoldable pub list_homes : Option SessionUser → Handler (List HomeResponse)
unfolding query select_where sort_by home_response
list_homes user = present user 401 "unauthorized" (λ u.
    or_refuse (query (λ t. sort_by name_before (select_where (owns_live_home u.user_id) t.homes)))
      500 "failed to load homes" (λ homes. pure (success 200 (map home_response homes))))

-- what the answer says beside the number of the home
pub record DeletedHome : Type 0 where
  pub home_id : ℕ
  pub mqtt_provision_state : String

-- `deleteHome`; `now` and `later` are the clocks of the deletion and of its job
unfoldable pub delete_home : Config → ℕ → ℕ → Option SessionUser → String → Handler DeletedHome
unfolding query_first query first_where transaction schedule_home_deletion parse_uint
delete_home c now later user home_param = present user 401 "unauthorized" (λ u.
    present (parse_uint home_param) 400 "invalid home id" (λ home_id.
      or_refuse (query_first (λ t. first_where (is_live_home home_id) t.homes)) 404 "home not found"
        (λ home.
          if not (home.user_id == u.user_id)
          then refuse 403 "home does not belong to user"
          else or_refuse (transaction (schedule_home_deletion c now later home.id)) 500
              "failed to delete home"
              (λ _. pure (
                success 200
                  (record { home_id = home.id; mqtt_provision_state = state_deleting }))))))

-- `generateHomeMQTTUsername`, from the text of 4 random bytes
unfoldable pub generate_home_mqtt_username : ℕ → ℕ → String → String
generate_home_mqtt_username user_id home_id suffix =
    append "home_"
      (append (decimal user_id) (append "_" (append (decimal home_id) (append "_" suffix))))

abbrev pub random_or_fail : Option String → Exec World String
random_or_fail none = fail (errorf "no random bytes")
random_or_fail (some s) = pure s

-- the row that `Create` writes
abbrev pub new_home : ℕ → ℕ → ℕ → String → String → String → Home
new_home id now user_id name wifi_ssid wifi_password = record {
  id = id;
  updated_at = now;
  deleted_at = none;
  user_id = user_id;
  name = name;
  wifi_ssid = wifi_ssid;
  wifi_password = wifi_password;
  mqtt_username = "";
  mqtt_password = "";
  mqtt_provision_state = state_pending;
  mqtt_provision_error = "";
  mqtt_provisioned_at = none;
}

-- INSERT INTO homes, with the foreign key on `users`
unfoldable pub insert_home : ℕ → ℕ → String → String → String → Exec World Home
insert_home now user_id name wifi_ssid wifi_password w =
    let row = new_home w.next_home now user_id name wifi_ssid wifi_password in
    let taken = record w { next_home = suc w.next_home } in
    if any (λ u. u.id == user_id) w.tables.users
    then (ok row, record taken { tables = on_homes (λ hs. hs ++ row ∷ []) w.tables })
    else (err (errorf "violates foreign key constraint"), taken)

-- the map of `Updates`
abbrev pub with_credentials : ℕ → String → String → Home → Home
with_credentials now username password h = record h {
  updated_at = now;
  mqtt_username = username;
  mqtt_password = password;
  mqtt_provision_state = state_pending;
  mqtt_provision_error = "";
  mqtt_provisioned_at = none;
}

-- the transaction from where the row is there
unfoldable pub give_credentials :
    Config → ℕ → Option String → Option String → Home → Exec World Home
unfolding generate_home_mqtt_username execute update_where enqueue_provision
give_credentials c now suffix password home = do
  s ← wrapped (wrap "generate mqtt username") (random_or_fail suffix)
  let username = generate_home_mqtt_username home.user_id home.id s
  p ← wrapped (wrap "generate mqtt password") (random_or_fail password)
  wrapped (wrap "persist mqtt credentials")
      (execute (on_homes (update_where (is_live_home home.id) (with_credentials now username p))))
  wrapped (wrap "enqueue mqtt provisioning") (enqueue_provision c now home.id)
  pure (with_credentials now username p home)

-- the body of the transaction of `enrollHome`
unfoldable pub create_home :
    Config → ℕ → Option String → Option String → ℕ → String → String → String → Exec World Home
unfolding insert_home call give_credentials
create_home c now suffix password user_id name wifi_ssid wifi_password =
    wrapped (wrap "create home row") (call >> insert_home now user_id name wifi_ssid wifi_password)
    >>= give_credentials c now suffix password

pub record HomeBody : Type 0 where
  pub name : String
  pub wifi_ssid : String
  pub wifi_password : String

-- `enrollHome`; the length of the password is in bytes
unfoldable pub enroll_home :
    Config
    → ℕ
    → Option String
    → Option String
    → Option SessionUser
    → Option HomeBody
    → Handler HomeResponse
unfolding transaction create_home validate_required_trimmed validate_optional_trimmed home_response
enroll_home c now suffix password user body = present user 401 "unauthorized" (λ u.
    present body 400 "invalid request" (λ b.
      checked (validate_required_trimmed "name" b.name 255) 400 (λ name.
        checked (validate_optional_trimmed "wifi_ssid" b.wifi_ssid 255) 400 (λ ssid.
          if ltb 255 (rune_count b.wifi_password)
          then refuse 400 "wifi_password must be at most 255 characters"
          else or_refuse
              (transaction (create_home c now suffix password u.user_id name ssid b.wifi_password))
              500 "failed to create home" (λ home. pure (success 201 (home_response home)))))))
