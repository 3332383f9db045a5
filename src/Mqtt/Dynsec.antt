-- ===== src/Mqtt/Dynsec.antt =====
-- internal/mqtt/dynsec.go: the accounts and roles of a home at the broker's Dynamic Security plugin.
use Prim.Native.String
use minnal_labs.Base.{ℕ, String, Bool, ◌||◌, List, [], ◌∷◌, ◌++◌, str_eq, if◌then◌else◌}
use minnal_labs.Base.Exec.{Error, Outcome, ok, err, Exec, pure, fail, ignored, or_else, ◌>>◌}
use minnal_labs.Base.Text.{trim_space, to_lower, contains}
use minnal_labs.Base.Text.Decimal.{decimal}
use minnal_labs.World.{
  World, DynsecResponse, Reply, unpublished, timed_out, envelope, DynsecCommand, create_role,
  delete_role, add_role_acl, create_client, delete_client, add_client_role, dynsec, errorf,
}

-- the loop over `envelope.Responses`: the first error that is not blank
unfoldable pub first_error : List DynsecResponse → Outcome Unit
first_error [] = ok tt
first_error (r ∷ rs) =
    let rest = first_error rs in
    if str_eq (trim_space r.error) ""
    then rest
    else err (errorf (String.◌++◌ r.command (String.◌++◌ ": " r.error)))

-- the `select` on the answer and the timer
unfoldable pub outcome_of_reply : Reply → Outcome Unit
unfolding first_error
outcome_of_reply (unpublished m) = err (errorf (String.◌++◌ "publish dynsec commands: " m))
outcome_of_reply timed_out = err (errorf "timed out waiting for dynsec response")
outcome_of_reply (envelope []) = err (errorf "empty dynsec response")
outcome_of_reply (envelope (r ∷ rs)) = first_error (r ∷ rs)

abbrev next_reply : List Reply → Reply
next_reply [] = timed_out
next_reply (r ∷ rs) = r

abbrev later_replies : List Reply → List Reply
later_replies [] = []
later_replies (r ∷ rs) = rs

-- `sendDynsecCommands`: no commands, no request
unfoldable pub send_dynsec_commands : List DynsecCommand → Exec World Unit
unfolding outcome_of_reply
send_dynsec_commands [] w = (ok tt, w)
send_dynsec_commands (c ∷ cs) w = (
  outcome_of_reply (next_reply w.replies),
  record w { actions = w.actions ++ dynsec (c ∷ cs) ∷ []; replies = later_replies w.replies },
)

-- `ignoreMissingDynsecError` at an error
unfoldable pub ignore_missing_dynsec_error : Error → Bool
ignore_missing_dynsec_error e =
    let message = to_lower (trim_space e.message) in
    contains message "not found"
    || contains message "does not exist"
    || contains message "unknown client"
    || contains message "unknown role"

-- `homeRoleName`
unfoldable pub home_role_name : ℕ → ℕ → String
home_role_name user_id home_id =
    String.◌++◌ "home_" (String.◌++◌ (decimal user_id) (String.◌++◌ "_" (decimal home_id)))

-- `homeTopicPattern`
unfoldable pub home_topic_pattern : ℕ → ℕ → String
home_topic_pattern user_id home_id =
    String.◌++◌ (decimal user_id) (String.◌++◌ "/" (String.◌++◌ (decimal home_id) "/#"))

-- the commands of `ProvisionHomeAccess`
unfoldable pub provision_commands : ℕ → ℕ → String → String → List DynsecCommand
unfolding home_role_name home_topic_pattern
provision_commands user_id home_id username password =
    let role = home_role_name user_id home_id in
    let pattern_ = home_topic_pattern user_id home_id in
    create_role role
    ∷ add_role_acl role "publishClientSend" pattern_
    ∷ add_role_acl role "publishClientReceive" pattern_
    ∷ add_role_acl role "subscribePattern" pattern_
    ∷ create_client username password
    ∷ add_client_role username role
    ∷ []

-- `ProvisionHomeAccess`: an error is followed by an attempt to take back what may exist
unfoldable pub provision_home_access : ℕ → ℕ → String → String → Exec World Unit
unfolding provision_commands send_dynsec_commands home_role_name
provision_home_access user_id home_id username password =
    or_else (send_dynsec_commands (provision_commands user_id home_id username password))
      (λ e.
        ignored (send_dynsec_commands (delete_client username ∷ []))
        >> ignored (send_dynsec_commands (delete_role (home_role_name user_id home_id) ∷ []))
        >> fail e)
      (λ _. pure tt)

-- the commands of `CleanupHomeAccess`
unfoldable pub cleanup_commands : ℕ → ℕ → String → List DynsecCommand
unfolding home_role_name
cleanup_commands user_id home_id username =
    let role = delete_role (home_role_name user_id home_id) ∷ [] in
    if str_eq (trim_space username) "" then role else delete_client username ∷ role

-- `CleanupHomeAccess`: what was not there is as good as deleted
unfoldable pub cleanup_home_access : ℕ → ℕ → String → Exec World Unit
unfolding cleanup_commands send_dynsec_commands ignore_missing_dynsec_error
cleanup_home_access user_id home_id username =
    or_else (send_dynsec_commands (cleanup_commands user_id home_id username))
      (λ e. if ignore_missing_dynsec_error e then pure tt else fail e) (λ _. pure tt)
