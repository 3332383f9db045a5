-- ===== src/Validation/Trim.antt =====
-- internal/validation/input.go: what the checks accept, trimming leaves alone.
use Prim.Native.Char.{code}
use Prim.Native.String.{[], ◌∷◌, ◌++◌}
use minnal_labs.Base.{
  ℕ, ◌≡◌, ◌≤◌, refl, subst, ap, ◌∙◌, String, Bool, true, false, not, ◌&&◌, arith, inl, inr, leb,
  str_eq, if◌then◌else◌, Bool-cases,
}
use minnal_labs.Base.Text.{is_space, trim_left, trim_right, trim_space}
use minnal_labs.Base.Text.All.{all_of, both, joined, trim_space-all}
use minnal_labs.Base.Exec.{Error, ok, err}
use minnal_labs.World.{errorf}
use minnal_labs.Validation.{
  rune_count, is_word, all_words, matches_username, normalize_username, validate_username, too_long,
  at_most, validate_required_trimmed,
}

trim_right_again : (s : String) → trim_right (trim_right s) ≡ trim_right s
unfolding trim_right
trim_right_again [] = refl
trim_right_again (c ∷ s) = elim (Bool-cases (str_eq (trim_right s) "" && is_space (code c))) [
  | inl e ↦ rw e refl
  | inr e ↦ rw (e, trim_right_again s, e) refl
]

trim_left_after : (s : String) → trim_left (trim_right (trim_left s)) ≡ trim_right (trim_left s)
unfolding trim_left trim_right
trim_left_after [] = refl
trim_left_after (c ∷ s) = elim (Bool-cases (is_space (code c))) [
  | inl e ↦ rw e (trim_left_after s)
  | inr e ↦ rw e (no_space e)
]
  where
    no_test : (a b : Bool) → b ≡ false → a && b ≡ false
    no_test a b e = ground (arith, e)

    no_space : is_space (code c) ≡ false → trim_left (trim_right (c ∷ s)) ≡ trim_right (c ∷ s)
    no_space e = rw (no_test (str_eq (trim_right s) "") _ e, e) refl

pub trim_space_again : (s : String) → trim_space (trim_space s) ≡ trim_space s
unfolding trim_space
trim_space_again s = ap (λ x. trim_right x) (trim_left_after s) ∙ trim_right_again (trim_left s)

ok-injective : {a b : String} → ok a ≡ ok b → a ≡ b
ok-injective e = cc

chosen :
    (p q : Bool) (a b : Error) (t x : String)
    → (if p then err a else if q then err b else ok t) ≡ ok x
    → (t ≡ x) × (p ≡ false) × (q ≡ false)
chosen true q a b t x e = cc
chosen false true a b t x e = cc
chosen false false a b t x e = (ok-injective e, refl, refl)

module _ (field : String) (max_runes : ℕ) where
  returned :
      (t accepted : String)
      → trim_space t ≡ t
      → (if str_eq t ""
          then err (errorf (field ++ " is required"))
          else if too_long max_runes t
          then err (errorf (at_most field max_runes))
          else ok t)
        ≡ ok accepted
      → validate_required_trimmed field accepted max_runes ≡ ok accepted
  unfolding validate_required_trimmed
  returned t accepted same e =
      let (tx, p, q) = chosen (str_eq t "") (too_long max_runes t) _ _ t accepted e in
      subst (λ x. validate_required_trimmed field x max_runes ≡ ok x) tx (rw (same, p, q) refl)

  -- What `ValidateRequiredTrimmed` accepts and returns, it accepts again and returns as it is.
  validate_required_trimmed-stable :
      (value accepted : String)
      → validate_required_trimmed field value max_runes ≡ ok accepted
      → validate_required_trimmed field accepted max_runes ≡ ok accepted
  unfolding validate_required_trimmed
  validate_required_trimmed-stable value accepted e =
      returned (trim_space value) accepted (trim_space_again value) e

word-no_space : (c : ℕ) → is_word c ≡ true → is_space c ≡ false
word-no_space c e = ground (arith, e)

all_words-of : (s : String) → all_words s ≡ true → all_of is_word s ≡ true
all_words-of [] e = refl
all_words-of (c ∷ s) e = let (w, r) = both _ _ e in joined _ _ w (all_words-of s r)

trim_space_words : (s : String) → all_words s ≡ true → trim_space s ≡ s
trim_space_words s e = trim_space-all is_word word-no_space s (all_words-of s e)

accepts :
    (a b c : Bool) (x : Error)
    → (if not (a && b && c) then err x else ok tt) ≡ ok tt
    → (a ≡ true) × (b ≡ true) × (c ≡ true)
accepts true true true x e = (refl, refl, refl)
accepts true true false x e = cc
accepts true false c x e = cc
accepts false b c x e = cc

-- A name that `ValidateUsername` accepts is its own normal form, which has 3 to 64 characters.
validate_username-normal :
    (username : String)
    → validate_username username ≡ ok tt
    → (normalize_username username ≡ username)
      × (3 ≤ rune_count (normalize_username username))
      × (rune_count (normalize_username username) ≤ 64)
unfolding validate_username matches_username
validate_username-normal username e =
    let (words, low, high) =
      accepts (all_words username) (leb 3 (rune_count username)) (leb (rune_count username) 64) _
        e in
    let same = trim_space_words username words in
    (same, rw same (ground (arith, low)), rw same (ground (arith, high)))
