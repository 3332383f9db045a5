-- ===== src/Base/Text/Parts.antt =====
-- `strings.Split` at one character, and the search for a character or a text.
use Prim.Native.Char.{Char, code}
use minnal_labs.Base.Text.{has_prefix, drop}
use Prim.Native.Nat.{ℕ}
use Prim.Native.String.{String}
use mathlib.Core.Path.{◌≡◌, refl}
use mathlib.Core.Bool.{Bool, false, ◌||◌}
use mathlib.Core.Option.{Option, none, some}
use mathlib.Core.List.{List, [], ◌∷◌}
use minnal_labs.Base.Tests.{◌==◌, if◌then◌else◌}

-- the first part gets one more character in front
abbrev pub grow : Char → List String → List String
grow c [] = []
grow c (p ∷ ps) = String.◌∷◌ c p ∷ ps

-- `strings.Split(s, sep)`
unfoldable pub split_on : ℕ → String → List String
split_on sep String.[] = "" ∷ []
split_on sep (String.◌∷◌ c s) =
    let rest = split_on sep s in if code c == sep then "" ∷ rest else grow c rest

-- `strings.IndexByte(s, c) >= 0`
unfoldable pub has_char : ℕ → String → Bool
has_char k String.[] = false
has_char k (String.◌∷◌ c s) = code c == k || has_char k s

-- `s[idx+3:]` for the first `://` at `idx`
unfoldable pub after_scheme : String → Option String
unfolding has_prefix drop
after_scheme String.[] = none
after_scheme (String.◌∷◌ c s) =
    let rest = after_scheme s in if has_prefix (String.◌∷◌ c s) "://" then some (drop 2 s) else rest

abbrev pub longer_cut : ℕ → Char → String → Option (String × String) → Option (String × String)
longer_cut sep c s (some (front, back)) = some (String.◌∷◌ c front, back)
longer_cut sep c s none = if code c == sep then some ("", s) else none

-- the text before and after the last `sep`
unfoldable pub cut_last : ℕ → String → Option (String × String)
cut_last sep String.[] = none
cut_last sep (String.◌∷◌ c s) = longer_cut sep c s (cut_last sep s)

splits_at_slashes : split_on b'/' "a//b" ≡ "a" ∷ "" ∷ "b" ∷ []
unfolding split_on
splits_at_slashes = refl

skips_the_scheme : after_scheme "tcp://h:1" ≡ some "h:1"
unfolding after_scheme
skips_the_scheme = refl
