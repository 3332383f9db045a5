-- ===== src/Base/Text.antt =====
-- The functions of Go's `strings`, `strconv`, `fmt` and `unicode/utf8` that the program calls, on
-- texts of ASCII characters: the white space, the letters and the lengths are those below 128.
pub mod Decimal
pub mod Parts
pub mod All
use Prim.Native.Nat.{ℕ, zero, suc, ◌-◌}
use Prim.Native.Char.{Char, code}
use Prim.Native.String.{String, [], ◌∷◌, ◌++◌, char_at}
use mathlib.Core.Path.{◌≡◌, refl}
use mathlib.Core.Option.{Option, none, some}
use mathlib.Core.Bool.{Bool, true, false, not, ◌&&◌, ◌||◌}
use minnal_labs.Base.Tests.{str_eq, ◌==◌, leb, if◌then◌else◌}

-- `unicode.IsSpace` below 128
abbrev pub is_space : ℕ → Bool
is_space c = c == 32 || (leb 9 c && leb c 13)

unfoldable pub trim_left : String → String
trim_left [] = ""
trim_left (c ∷ s) = let rest = trim_left s in if is_space (code c) then rest else c ∷ s

unfoldable pub trim_right : String → String
trim_right [] = ""
trim_right (c ∷ s) =
    let rest = trim_right s in if str_eq rest "" && is_space (code c) then "" else c ∷ rest

-- `strings.TrimSpace`
unfoldable pub trim_space : String → String
unfolding trim_left trim_right
trim_space s = trim_right (trim_left s)

abbrev lower_char : Char → Char
lower_char c =
    if leb 65 (code c) && leb (code c) 90
    then char_at "abcdefghijklmnopqrstuvwxyz" (code c - 65)
    else c

-- `strings.ToLower`
unfoldable pub to_lower : String → String
to_lower [] = ""
to_lower (c ∷ s) = lower_char c ∷ to_lower s

-- `strings.HasPrefix`
unfoldable pub has_prefix : String → String → Bool
has_prefix s [] = true
has_prefix [] (d ∷ p) = false
has_prefix (c ∷ s) (d ∷ p) = (code c == code d) && has_prefix s p

-- `strings.Contains`
unfoldable pub contains : String → String → Bool
unfolding has_prefix
contains [] t = str_eq t ""
contains (c ∷ s) t = has_prefix (c ∷ s) t || contains s t

-- `strings.SplitN(s, sep, 2)` at a separator of one character: the part before it, and the rest
-- if the separator is there
unfoldable pub cut : ℕ → String → String × Bool × String
cut sep [] = ("", false, "")
cut sep (c ∷ s) =
    let (before, found, after) = cut sep s in
    if code c == sep then ("", true, s) else (c ∷ before, found, after)

trims_both_ends : trim_space "  a b \n" ≡ "a b"
unfolding trim_space
trims_both_ends = refl

lowers_letters : to_lower "Online_V1" ≡ "online_v1"
unfolding to_lower
lowers_letters = refl

finds_inside : contains "role not found" "not found" ≡ true
unfolding contains
finds_inside = refl

cuts_once : cut b':' "12:a:b" ≡ ("12", true, "a:b")
unfolding cut
cuts_once = refl

-- `strings.HasSuffix`
unfoldable pub has_suffix : String → String → Bool
has_suffix [] t = str_eq t ""
has_suffix (c ∷ s) t = str_eq (c ∷ s) t || has_suffix s t

-- `strings.TrimRight(s, sep)` for a separator of one character
unfoldable pub trim_right_of : ℕ → String → String
trim_right_of sep [] = ""
trim_right_of sep (c ∷ s) =
    let rest = trim_right_of sep s in if str_eq rest "" && (code c == sep) then "" else c ∷ rest

-- `s[:strings.LastIndex(s, sep)]` for a separator of one character, if it occurs
unfoldable pub before_last : ℕ → String → Option String
before_last sep [] = none
before_last sep (c ∷ s) = elim (before_last sep s) [
  | some front ↦ some (c ∷ front)
  | none ↦ if code c == sep then some "" else none
]

-- `s[n:]`
unfoldable pub drop : ℕ → String → String
drop zero s = s
drop (suc n) [] = ""
drop (suc n) (c ∷ s) = drop n s

finds_the_last : before_last b'/' "a/b/c" ≡ some "a/b"
unfolding before_last
finds_the_last = refl
