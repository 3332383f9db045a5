-- ===== src/Googleauth/Accepted.antt =====
-- internal/googleauth/googleauth.go: the name that is made of an address passes the checks on names.
use Prim.Native.Char.{Char, code}
use Prim.Native.String.{◌++◌ as append}
use text.Mathlib.TextLemmas.{cons-append}
use minnal_labs.Base.{
  ℕ, zero, suc, ◌+◌, ◌≡◌, ◌≤◌, refl, arith, inl, inr, String, true, leb, ltb, Bool-cases,
}
use minnal_labs.Base.Text.{cut}
use minnal_labs.Base.Text.All.{all_of, both, joined, all_of-append}
use minnal_labs.Base.Exec.{ok}
use minnal_labs.Validation.{rune_count, is_word, all_words, matches_username, validate_username}
use minnal_labs.Googleauth.Usernames.{
  word_or_underscore, sanitize, pad, at_most_runes, local_part, derive_username,
}

word_or_underscore-word : (c : Char) → is_word (code (word_or_underscore c)) ≡ true
word_or_underscore-word c = elim (Bool-cases (is_word (code c))) [
  | inl e ↦ rw (e, e) refl
  | inr e ↦ rw e refl
]

sanitize-words : (s : String) → all_of is_word (sanitize s) ≡ true
unfolding sanitize
sanitize-words String.[] = refl
sanitize-words (String.◌∷◌ c s) = joined _ _ (word_or_underscore-word c) (sanitize-words s)

pad-words : (n : ℕ) (s : String) → all_of is_word s ≡ true → all_of is_word (pad n s) ≡ true
unfolding pad
pad-words zero s h = h
pad-words (suc n) s h = elim (Bool-cases (ltb (rune_count s) 3)) [
  | inl e ↦ rw e (pad-words n (append s "_") (all_of-append is_word s "_" h refl))
  | inr e ↦ rw e h
]

at_most_runes-words :
    (n : ℕ) (s : String) → all_of is_word s ≡ true → all_of is_word (at_most_runes n s) ≡ true
unfolding at_most_runes
at_most_runes-words zero s h = refl
at_most_runes-words (suc n) String.[] h = refl
at_most_runes-words (suc n) (String.◌∷◌ c s) h =
    let (a, b) = both _ _ h in joined _ _ a (at_most_runes-words n s b)

all_words-all : (s : String) → all_of is_word s ≡ true → all_words s ≡ true
all_words-all String.[] h = refl
all_words-all (String.◌∷◌ c s) h = let (a, b) = both _ _ h in joined _ _ a (all_words-all s b)

rune_count-grown : (s : String) → rune_count (append s "_") ≡ suc (rune_count s)
rune_count-grown String.[] = refl
rune_count-grown (String.◌∷◌ c s) = rw (cons-append c s "_", rune_count-grown s) refl

pad-long : (n : ℕ) (s : String) → 3 ≤ rune_count s + n → 3 ≤ rune_count (pad n s)
unfolding pad
pad-long zero s h = omega (arith, h)
pad-long (suc n) s h = elim (Bool-cases (ltb (rune_count s) 3)) [
  | inl e ↦ rw e (pad-long n (append s "_") (omega (arith, h, rune_count-grown s)))
  | inr e ↦ rw e (ground (arith, e))
]

at_most_runes-long :
    (m n : ℕ) (s : String) → m ≤ n → m ≤ rune_count s → m ≤ rune_count (at_most_runes n s)
unfolding at_most_runes
at_most_runes-long m zero s h k = omega (arith, h)
at_most_runes-long m (suc n) String.[] h k = k
at_most_runes-long zero (suc n) (String.◌∷◌ c s) h k = omega arith
at_most_runes-long (suc m) (suc n) (String.◌∷◌ c s) h k =
    omega (arith, at_most_runes-long m n s (omega (arith, h)) (omega (arith, k)))

at_most_runes-short : (n : ℕ) (s : String) → rune_count (at_most_runes n s) ≤ n
unfolding at_most_runes
at_most_runes-short zero s = omega arith
at_most_runes-short (suc n) String.[] = omega arith
at_most_runes-short (suc n) (String.◌∷◌ c s) = omega (arith, at_most_runes-short n s)

within : (m n : ℕ) → m ≤ n → leb m n ≡ true
within m n h = ground (arith, h)

accepted :
    (s : String)
    → all_words s ≡ true
    → 3 ≤ rune_count s
    → rune_count s ≤ 64
    → validate_username s ≡ ok tt
unfolding validate_username matches_username
accepted s a b c = rw (a, within _ _ b, within _ _ c) refl

-- Whatever the address of a Google account is, also the empty text, `deriveUsername` makes a name of it
-- that `ValidateUsername` accepts.
pub derive_username-accepted : (email : String) → validate_username (derive_username email) ≡ ok tt
unfolding derive_username
derive_username-accepted email = made (local_part email (cut b'@' email))
  where
    made : (s : String) → validate_username (at_most_runes 64 (pad 3 (sanitize s))) ≡ ok tt
    made s =
        accepted (at_most_runes 64 (pad 3 (sanitize s)))
          (all_words-all (at_most_runes 64 (pad 3 (sanitize s))) (
            at_most_runes-words 64 (pad 3 (sanitize s))
              (pad-words 3 (sanitize s) (sanitize-words s))))
          (at_most_runes-long 3 64 (pad 3 (sanitize s)) (omega arith)
            (pad-long 3 (sanitize s) (omega arith)))
          (at_most_runes-short 64 (pad 3 (sanitize s)))
