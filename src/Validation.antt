-- ===== src/Validation.antt =====
-- internal/validation/input.go: the checks of what a user types in.
pub mod Trim
pub mod Tests
use Prim.Native.Char.{Char, code}
use Prim.Native.String.{[], ◌∷◌, ◌++◌}
use minnal_labs.Base.{
  ℕ, zero, suc, String, Bool, true, false, not, ◌&&◌, ◌||◌, leb, ltb, ◌==◌, str_eq, if◌then◌else◌,
}
use minnal_labs.Base.Text.{trim_space}
use minnal_labs.Base.Text.Decimal.{decimal}
use minnal_labs.Base.Exec.{Outcome, ok, err}
use minnal_labs.World.{errorf}

-- `utf8.RuneCountInString`
abbrev pub rune_count : String → ℕ
rune_count [] = 0
rune_count (c ∷ s) = suc (rune_count s)

-- [A-Za-z0-9_]
abbrev pub is_word : ℕ → Bool
is_word c = (leb 65 c && leb c 90) || (leb 97 c && leb c 122) || (leb 48 c && leb c 57) || (c == 95)

abbrev pub all_words : String → Bool
all_words [] = true
all_words (c ∷ s) = is_word (code c) && all_words s

-- `usernamePattern.MatchString`
unfoldable pub matches_username : String → Bool
matches_username s = all_words s && leb 3 (rune_count s) && leb (rune_count s) 64

-- `NormalizeUsername`
abbrev pub normalize_username : String → String
normalize_username username = trim_space username

-- `ValidateUsername`
unfoldable pub validate_username : String → Outcome Unit
unfolding matches_username
validate_username username =
    if not (matches_username username)
    then err
        (errorf "username must be 3-64 characters and use only letters, numbers, and underscores")
    else ok tt

-- `ValidatePassword`
unfoldable pub validate_password : String → Outcome Unit
validate_password password =
    if ltb (rune_count password) 8
    then err (errorf "password must be at least 8 characters")
    else if ltb 255 (rune_count password)
    then err (errorf "password must be at most 255 characters")
    else ok tt

abbrev pub too_long : ℕ → String → Bool
too_long max_runes value = ltb 0 max_runes && ltb max_runes (rune_count value)

abbrev pub at_most : String → ℕ → String
at_most field max_runes = field ++ " must be at most " ++ decimal max_runes ++ " characters"

-- `ValidateRequiredTrimmed`
unfoldable pub validate_required_trimmed : String → String → ℕ → Outcome String
validate_required_trimmed field value max_runes =
    if str_eq (trim_space value) ""
    then err (errorf (field ++ " is required"))
    else if too_long max_runes (trim_space value)
    then err (errorf (at_most field max_runes))
    else ok (trim_space value)

-- `ValidateOptionalTrimmed`
unfoldable pub validate_optional_trimmed : String → String → ℕ → Outcome String
validate_optional_trimmed field value max_runes =
    if str_eq (trim_space value) ""
    then ok ""
    else if too_long max_runes (trim_space value)
    then err (errorf (at_most field max_runes))
    else ok (trim_space value)
