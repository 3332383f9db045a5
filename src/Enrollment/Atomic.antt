-- ===== src/Enrollment/Atomic.antt =====
-- internal/enrollment/enrollment.go: an error's answer means that nothing was changed.
use minnal_labs.Base.{ltb, ℕ, String, Option, List, [], ◌∷◌}
use minnal_labs.Models.{Device}
use minnal_labs.World.{World, CapInfo}
use minnal_labs.World.Atomic.{transaction-Restores, execute-Restores}
use minnal_labs.Http.Clean.{
  Answered, Returns, Returns-pure, Returns-ignored, Returns-bind, returns_rules, Clean,
  Clean-refuse, Clean-present, Clean-checked, Clean-if, Clean-change, Clean-lookup, Welcomes,
  Welcomes-pure, Welcomes-bind,
}
use minnal_labs.HomeJobs.Queue.{Config}
use minnal_labs.Deletion.{schedule_home_deletion}
use minnal_labs.Validation.{rune_count, validate_required_trimmed, validate_optional_trimmed}
use minnal_labs.Models.{state_deleting}
use minnal_labs.State.{get_device, remove_device}
use minnal_labs.Mqtt.{unsubscribe_topic, unsubscribe_caps, unsubscribe_device}
use minnal_labs.Oauth.Session.{SessionUser}
use minnal_labs.Enrollment.Homes.{HomeBody, create_home, home_response, delete_home, enroll_home}
use minnal_labs.Enrollment.Devices.{forget_device, delete_device}

unsubscribe_topic-Returns : (topic : String) → Returns (unsubscribe_topic topic)
unfolding unsubscribe_topic
unsubscribe_topic-Returns topic = search returns_rules

unsubscribe_caps-Returns :
    (d : Device) (caps : List (String × CapInfo)) → Returns (unsubscribe_caps d caps)
unfolding unsubscribe_caps
unsubscribe_caps-Returns d [] = Returns-pure tt
unsubscribe_caps-Returns d (c ∷ caps) =
    Returns-bind _ _ (unsubscribe_topic-Returns _) (λ _. unsubscribe_caps-Returns d caps)

unsubscribe_device-Returns : (d : Device) → Returns (unsubscribe_device d)
unfolding unsubscribe_device
unsubscribe_device-Returns d = search (returns_rules, unsubscribe_caps-Returns)

remove_device-Returns : (id : ℕ) → Returns (remove_device id)
unfolding remove_device get_device
remove_device-Returns id = search returns_rules

enroll_home-Clean :
    (c : Config) (now : ℕ) (suffix password : Option String) (user : Option SessionUser)
    (body : Option HomeBody)
    → Clean (enroll_home c now suffix password user body)
unfolding enroll_home
enroll_home-Clean c now suffix password user body = Clean-present user _ _ _ (λ u.
    Clean-present body _ _ _ (λ b.
      Clean-checked (validate_required_trimmed "name" b.name 255) 400 _ (λ name.
        Clean-checked (validate_optional_trimmed "wifi_ssid" b.wifi_ssid 255) 400 _ (λ ssid.
          Clean-if (ltb 255 (rune_count b.wifi_password)) _ _
            (Clean-refuse 400 "wifi_password must be at most 255 characters")
            (Clean-change 500 "failed to create home" _ _
              (transaction-Restores
                (create_home c now suffix password u.user_id name ssid b.wifi_password))
              (λ h. Welcomes-pure 201 (home_response h)))))))

delete_home-Clean :
    (c : Config) (now later : ℕ) (user : Option SessionUser) (param : String)
    → Clean (delete_home c now later user param)
unfolding delete_home
delete_home-Clean c now later user param = Clean-present user _ _ _ (λ u.
    Clean-present _ _ _ _ (λ id. Clean-lookup _ _ _ _ (λ h. Clean-if _ _ _ (Clean-refuse _ _) (
      Clean-change 500 "failed to delete home" _ _
        (transaction-Restores (schedule_home_deletion c now later h.id))
        (λ _.
          Welcomes-pure 200 (record { home_id = h.id; mqtt_provision_state = state_deleting }))))))

forget_device-Welcomes : (d : Device) → Welcomes (forget_device d)
unfolding forget_device
forget_device-Welcomes d =
    Welcomes-bind _ _
      (Returns-bind _ _ (Returns-bind _ _ (unsubscribe_device-Returns d) (λ _. Returns-ignored _))
        (λ _. remove_device-Returns d.id))
      (λ _. Welcomes-pure _ _)

delete_device-Clean :
    (now : ℕ) (user : Option SessionUser) (param : String) → Clean (delete_device now user param)
unfolding delete_device
delete_device-Clean now user param = Clean-present user _ _ _ (λ u. Clean-present _ _ _ _ (λ id.
    Clean-lookup _ _ _ _ (λ d.
      Clean-if _ _ _ (Clean-refuse _ _)
        (Clean-change _ _ _ _ (execute-Restores _) (λ _. forget_device-Welcomes d)))))

-- Whichever calls fail, `enrollHome`, `deleteHome` and `deleteDevice` answer, and an answer with an
-- error means that the tables are as before: no home without its job and its credentials is left.
pub errors-change_nothing :
    (c : Config) (now later : ℕ) (suffix password : Option String) (user : Option SessionUser)
    (body : Option HomeBody) (param : String) (w : World)
    → Answered w.tables (enroll_home c now suffix password user body w)
      × Answered w.tables (delete_home c now later user param w)
      × Answered w.tables (delete_device now user param w)
errors-change_nothing c now later suffix password user body param w = (
  (enroll_home-Clean c now suffix password user body).at w,
  (delete_home-Clean c now later user param).at w,
  (delete_device-Clean now user param).at w,
)
