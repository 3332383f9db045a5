-- ===== src/Validation/Tests.antt =====
-- Runs of internal/validation/input.go.
use minnal_labs.Base.{◌≡◌, refl}
use minnal_labs.Base.Text.{trim_space, trim_left, trim_right}
use minnal_labs.Base.Exec.{ok, err}
use minnal_labs.World.{errorf}
use minnal_labs.Validation.{validate_password, validate_optional_trimmed}

refuses_short_passwords :
    validate_password "1234567" ≡ err (errorf "password must be at least 8 characters")
unfolding validate_password
refuses_short_passwords = refl

leaves_out_blanks : validate_optional_trimmed "name" "  " 5 ≡ ok ""
unfolding validate_optional_trimmed trim_space trim_left trim_right
leaves_out_blanks = refl
