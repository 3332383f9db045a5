-- ===== src/Googleauth/Usernames.antt =====
-- internal/googleauth/googleauth.go: the account that a Google identity belongs to, and the name of a new
-- one, which is made of the address.
use Prim.Native.Char.{Char, code}
use Prim.Native.String.{◌++◌ as append}
use minnal_labs.Base.{
  ℕ, zero, suc, String, Bool, false, not, ◌&&◌, ltb, str_eq, is_some, if◌then◌else◌,
}
use minnal_labs.Base.Rows.{any, first_where}
use minnal_labs.Base.Text.{cut}
use minnal_labs.Base.Text.Decimal.{decimal}
use minnal_labs.Base.Exec.{Exec, pure, fail, wrapped, or_else, ◌>>=◌}
use minnal_labs.Models.{User}
use minnal_labs.World.{World, query, query_first, wrap, errorf}
use minnal_labs.Validation.{rune_count, is_word}
use minnal_labs.Oauth.Login.{is_named}
use minnal_labs.Enrollment.{create_user}

abbrev pub word_or_underscore : Char → Char
word_or_underscore c = if is_word (code c) then c else "_"

-- `sanitizeRe.ReplaceAllString(s, "_")`
unfoldable pub sanitize : String → String
sanitize String.[] = ""
sanitize (String.◌∷◌ c s) = String.◌∷◌ (word_or_underscore c) (sanitize s)

-- the loop that makes a name at least 3 long: 3 rounds are enough
unfoldable pub pad : ℕ → String → String
pad zero s = s
pad (suc n) s = let longer = pad n (append s "_") in if ltb (rune_count s) 3 then longer else s

-- `s[:n]` of a longer text, and the text itself if it is not longer
unfoldable pub at_most_runes : ℕ → String → String
at_most_runes zero s = ""
at_most_runes (suc n) String.[] = ""
at_most_runes (suc n) (String.◌∷◌ c s) = String.◌∷◌ c (at_most_runes n s)

-- the part of an address before the first `@`, unless it is empty
abbrev pub local_part : String → String × Bool × String → String
local_part email (before, found, after) = if found && not (str_eq before "") then before else email

-- `deriveUsername`
unfoldable pub derive_username : String → String
unfolding cut sanitize pad at_most_runes
derive_username email = at_most_runes 64 (pad 3 (sanitize (local_part email (cut b'@' email))))

abbrev pub candidate : String → ℕ → String
candidate base i = at_most_runes 64 (append base (append "_" (decimal i)))

-- `Count` of the users of a name, with 0 for an error
unfoldable pub is_taken : String → Exec World Bool
unfolding query
is_taken username = or_else (query (λ t. any (is_named username) t.users)) (λ e. pure false) pure

-- `(base + "_" + token)[:64]`, which panics on a shorter text
unfoldable pub last_resort : String → String → Exec World String
unfolding at_most_runes
last_resort base token =
    let name = append base (append "_" token) in
    if ltb (rune_count name) 64
    then fail (errorf "slice bounds out of range")
    else pure (at_most_runes 64 name)

-- the rounds of `findAvailableUsername` from `i`
unfoldable pub find_from : ℕ → ℕ → String → String → Exec World String
unfolding is_taken last_resort at_most_runes
find_from zero i base token = last_resort base token
find_from (suc rounds) i base token =
    is_taken (candidate base i)
    >>= (λ taken. if taken then find_from rounds (suc i) base token else pure (candidate base i))

-- `findAvailableUsername`: i from 2 to 9999
unfoldable pub find_available_username : String → String → Exec World String
unfolding find_from
find_available_username base token = find_from 9998 2 base token

abbrev pub has_sub : String → User → Bool
has_sub google_sub u = str_eq u.google_sub google_sub && not (is_some u.deleted_at)

-- the name of the new account
unfoldable pub choose_username : String → String → Exec World String
unfolding query_first query first_where find_available_username
choose_username token username =
    or_else (query_first (λ t. first_where (is_named username) t.users)) (λ e. pure username)
      (λ _. find_available_username username token)

-- `findOrCreateGoogleUser`: an error of the first query counts as no account
unfoldable pub find_or_create_google_user : String → String → String → Exec World User
unfolding query_first query first_where choose_username derive_username create_user
find_or_create_google_user token google_sub email =
    or_else (query_first (λ t. first_where (has_sub google_sub) t.users))
      (λ _. wrapped (wrap "create google user") (
        choose_username token (derive_username email)
        >>= (λ username. create_user username "" google_sub)))
      pure
