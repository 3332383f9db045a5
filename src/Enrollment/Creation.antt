-- ===== src/Enrollment/Creation.antt =====
-- internal/enrollment/enrollment.go: the home that `enrollHome` leaves, and the job for it.
use Prim.Native.String.{◌++◌ as append}
use minnal_labs.Base.{
  ℕ, suc, ◌+◌, ◌≡◌, refl, sym, subst, ap, String, true, false, none, some, [], ◌∷◌, ◌++◌, ltb, ◌==◌,
  ==_refl,
}
use minnal_labs.Base.Rows.{any}
use minnal_labs.Base.Rows.Append.{update_where-snoc, any-snoc}
use minnal_labs.Base.Exec.{ok, pure, wrapped, or_else, ◌>>=◌, modify}
use minnal_labs.Models.{Home, HomeMqttJob, mqtt_state, operation_provision}
use minnal_labs.Base.Text.{trim_space, trim_left, trim_right}
use minnal_labs.Base.Text.Decimal.{decimal}
use minnal_labs.World.{World, Tables, call, execute, transaction}
use minnal_labs.Http.{success}
use minnal_labs.Validation.{rune_count, validate_required_trimmed, validate_optional_trimmed}
use minnal_labs.HomeJobs.Queue.{Config, has_key, upsert_row, upsert_job, enqueue_provision}
use minnal_labs.HomeJobs.Worker.{is_live_home}
use minnal_labs.Oauth.Session.{SessionUser}
use minnal_labs.Enrollment.Homes.{
  HomeBody, HomeResponse, home_response, generate_home_mqtt_username, new_home, insert_home,
  with_credentials, give_credentials, create_home, enroll_home,
}

module _ (c : Config) (now : ℕ) (suffix password : String) (user_id : ℕ) (name ssid wifi : String)
    (w : World) where
  -- the home, with the number that the sequence gives
  abbrev pub created_home : Home
  created_home = record {
    id = w.next_home;
    updated_at = now;
    deleted_at = none;
    user_id = user_id;
    name = name;
    wifi_ssid = ssid;
    wifi_password = wifi;
    mqtt_username =
        append "home_" (
          append (decimal user_id) (append "_" (append (decimal w.next_home) (append "_" suffix))));
    mqtt_password = password;
    mqtt_provision_state = "pending";
    mqtt_provision_error = "";
    mqtt_provisioned_at = none;
  }

  -- the job to provision it, due after the first delay
  abbrev pub provision_job : HomeMqttJob
  provision_job = record {
    id = w.next_job;
    home_id = w.next_home;
    operation = "provision";
    status = "pending";
    attempts = 0;
    next_run_at = now + c.initial_delay;
    claimed_at = none;
    last_error = "";
    created_at = now;
    updated_at = now;
  }

  abbrev pub created_answer : HomeResponse
  created_answer = record {
    home_id = w.next_home;
    name = name;
    mqtt_provision_state = "pending";
    mqtt_provision_error = none;
    mqtt_provisioned_at = none;
  }

  abbrev pub with_home : Tables
  with_home = record w.tables {
    homes = w.tables.homes ++ created_home ∷ [];
    jobs = w.tables.jobs ++ provision_job ∷ [];
  }

  created :
      any (λ u. u.id == user_id) w.tables.users ≡ true
      → any (is_live_home w.next_home) w.tables.homes ≡ false
      → any (has_key w.next_home operation_provision) w.tables.jobs ≡ false
      → transaction
          (create_home c now (some suffix) (some password) user_id name ssid wifi)
          (record w { faults = [] })
        ≡ (
          ok created_home,
          record w {
            faults = [];
            tables = with_home;
            next_home = suc w.next_home;
            next_job = suc w.next_job;
          },
        )
  unfolding transaction call create_home insert_home give_credentials wrapped execute modify
      enqueue_provision upsert_job upsert_row generate_home_mqtt_username pure ◌>>=◌
  created known fresh no_job =
      let row = new_home w.next_home now user_id name ssid wifi in
      let username = generate_home_mqtt_username user_id w.next_home suffix in
      rw
        (
          known,
          update_where-snoc (is_live_home w.next_home) (with_credentials now username password)
              w.tables.homes row fresh live,
          no_job,
          any-snoc (λ h. h.id == w.next_home) w.tables.homes created_home (==_refl w.next_home),
        )
        refl
    where
      live : is_live_home w.next_home (new_home w.next_home now user_id name ssid wifi) ≡ true
      live = rw (==_refl w.next_home) refl

module _ (c : Config) (now : ℕ) (suffix password : String) (u : SessionUser) (b : HomeBody)
    (name ssid : String) (named : validate_required_trimmed "name" b.name 255 ≡ ok name)
    (network : validate_optional_trimmed "wifi_ssid" b.wifi_ssid 255 ≡ ok ssid)
    (short : ltb 255 (rune_count b.wifi_password) ≡ false) where
  answers :
      (w : World)
      → any (λ x. x.id == u.user_id) w.tables.users ≡ true
      → any (is_live_home w.next_home) w.tables.homes ≡ false
      → any (has_key w.next_home operation_provision) w.tables.jobs ≡ false
      → enroll_home c now (some suffix) (some password) (some u) (some b) (record w { faults = [] })
        ≡ (
          ok (
              success 201
                (created_answer c now suffix password u.user_id name ssid b.wifi_password w)),
          record w {
            faults = [];
            tables = with_home c now suffix password u.user_id name ssid b.wifi_password w;
            next_home = suc w.next_home;
            next_job = suc w.next_job;
          },
        )
  unfolding enroll_home home_response mqtt_state trim_space trim_left trim_right or_else pure
  answers w known fresh no_job =
      rw
        (
          enroll_home,
          named,
          network,
          short,
          created c now suffix password u.user_id name ssid b.wifi_password w known fresh no_job,
        )
        refl

  -- While PostgreSQL answers, `enrollHome` of a valid body answers with 201 and the home, and adds to
  -- the tables exactly that home, owned by the user of the session, pending, with the name and the network of the
  -- body and with the generated name and password for the broker, and one pending job to provision
  -- it, due after the first delay. What is answered, the home and the job are spelled out column by column. The user has a row, no home with the number
  -- that comes next is live, no provisioning job is for it, and the random bytes are there.
  pub enroll_home-creates :
      (w : World)
      → w.faults ≡ []
      → any (λ x. x.id == u.user_id) w.tables.users ≡ true
      → any (is_live_home w.next_home) w.tables.homes ≡ false
      → any (has_key w.next_home operation_provision) w.tables.jobs ≡ false
      → (let (r, v) = enroll_home c now (some suffix) (some password) (some u) (some b) w in
          (r
            ≡ ok (
                success 201
                  (created_answer c now suffix password u.user_id name ssid b.wifi_password w)))
          × (v.tables ≡ with_home c now suffix password u.user_id name ssid b.wifi_password w))
  enroll_home-creates w quiet known fresh no_job =
      let e =
        subst
          (λ fs.
            enroll_home c now (some suffix) (some password) (some u) (some b)
              (record w { faults = fs })
            ≡ (
              ok (
                  success 201
                    (created_answer c now suffix password u.user_id name ssid b.wifi_password w)),
              record w {
                faults = [];
                tables = with_home c now suffix password u.user_id name ssid b.wifi_password w;
                next_home = suc w.next_home;
                next_job = suc w.next_job;
              },
            ))
          (sym quiet) (answers w known fresh no_job) in
      (ap (λ x. x.0) e, ap (λ x. x.1.tables) e)
