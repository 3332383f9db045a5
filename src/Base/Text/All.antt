-- ===== src/Base/Text/All.antt =====
-- Texts of which each character passes a test: what trimming, searching and cutting do to them.
use Prim.Native.Char.{Char, code}
use Prim.Native.String.{◌++◌ as append}
use minnal_labs.Base.Text.{is_space, trim_left, trim_right, trim_space, cut}
use minnal_labs.Base.Text.Parts.{has_char, cut_last, split_on}
use Prim.Native.Nat.{ℕ}
use Prim.Native.String.{String}
use mathlib.Core.Path.{◌≡◌, refl}
use mathlib.Core.Bool.{Bool, true, false, ◌&&◌}
use mathlib.Core.Option.{none, some}
use mathlib.Core.List.{[], ◌∷◌}
use native.Mathlib.Omega.{arith}
use text.Mathlib.TextLemmas.{nil-append, cons-append}
use minnal_labs.Base.Tests.{◌==◌, str_eq}

abbrev pub all_of : (ℕ → Bool) → String → Bool
all_of p String.[] = true
all_of p (String.◌∷◌ c s) = p (code c) && all_of p s

pub both : (a b : Bool) → a && b ≡ true → (a ≡ true) × (b ≡ true)
both a b e = ground (arith, e)

pub joined : (a b : Bool) → a ≡ true → b ≡ true → a && b ≡ true
joined a b e f = ground (arith, e, f)

module _ (p q : ℕ → Bool) (weaker : (k : ℕ) → p k ≡ true → q k ≡ true) where
  pub all_of-weaken : (s : String) → all_of p s ≡ true → all_of q s ≡ true
  all_of-weaken String.[] h = refl
  all_of-weaken (String.◌∷◌ c s) h =
      let (a, b) = both _ _ h in joined _ _ (weaker (code c) a) (all_of-weaken s b)

module _ (p : ℕ → Bool) where
  pub all_of-append :
      (s t : String) → all_of p s ≡ true → all_of p t ≡ true → all_of p (append s t) ≡ true
  all_of-append String.[] t h k = rw (nil-append t) k
  all_of-append (String.◌∷◌ c s) t h k =
      let (a, b) = both _ _ h in rw (cons-append c s t) (joined _ _ a (all_of-append s t b k))

module _ (p : ℕ → Bool) (dense : (k : ℕ) → p k ≡ true → is_space k ≡ false) where
  pub trim_left-all : (s : String) → all_of p s ≡ true → trim_left s ≡ s
  unfolding trim_left
  trim_left-all String.[] h = refl
  trim_left-all (String.◌∷◌ c s) h = let (a, b) = both _ _ h in rw (dense (code c) a) refl

  not_both : (a : Bool) (k : ℕ) → p k ≡ true → a && is_space k ≡ false
  not_both a k h = ground (arith, dense k h)

  pub trim_right-all : (s : String) → all_of p s ≡ true → trim_right s ≡ s
  unfolding trim_right
  trim_right-all String.[] h = refl
  trim_right-all (String.◌∷◌ c s) h =
      let (a, b) = both _ _ h in rw (trim_right-all s b, not_both (str_eq s "") (code c) a) refl

  pub trim_space-all : (s : String) → all_of p s ≡ true → trim_space s ≡ s
  unfolding trim_space
  trim_space-all s h = rw (trim_left-all s h) (trim_right-all s h)

module _ (p : ℕ → Bool) (sep : ℕ) (free : (k : ℕ) → p k ≡ true → (k == sep) ≡ false) where
  pub has_char-all : (s : String) → all_of p s ≡ true → has_char sep s ≡ false
  unfolding has_char
  has_char-all String.[] h = refl
  has_char-all (String.◌∷◌ c s) h =
      let (a, b) = both _ _ h in rw (free (code c) a) (has_char-all s b)

  pub cut-all : (s : String) → all_of p s ≡ true → cut sep s ≡ (s, false, "")
  unfolding cut
  cut-all String.[] h = refl
  cut-all (String.◌∷◌ c s) h = let (a, b) = both _ _ h in rw (free (code c) a, cut-all s b) refl

  pub cut_last-all : (s : String) → all_of p s ≡ true → cut_last sep s ≡ none
  unfolding cut_last
  cut_last-all String.[] h = refl
  cut_last-all (String.◌∷◌ c s) h =
      let (a, b) = both _ _ h in rw (cut_last-all s b, free (code c) a) refl

  -- the last separator is the one before a text without any
  pub cut_last-append :
      (s t : String) (c : Char)
      → code c == sep ≡ true
      → all_of p t ≡ true
      → cut_last sep (append s (String.◌∷◌ c t)) ≡ some (s, t)
  unfolding cut_last
  cut_last-append String.[] t c e h = rw (nil-append (String.◌∷◌ c t), cut_last-all t h, e) refl
  cut_last-append (String.◌∷◌ d s) t c e h =
      rw (cons-append d s (String.◌∷◌ c t), cut_last-append s t c e h) refl

module _ (p : ℕ → Bool) (sep : ℕ) (free : (k : ℕ) → p k ≡ true → (k == sep) ≡ false) where
  pub split_on-all : (s : String) → all_of p s ≡ true → split_on sep s ≡ s ∷ []
  unfolding split_on
  split_on-all String.[] h = refl
  split_on-all (String.◌∷◌ c s) h =
      let (a, b) = both _ _ h in rw (free (code c) a, split_on-all s b) refl

  pub split_on-append :
      (s t : String) (c : Char)
      → code c == sep ≡ true
      → all_of p s ≡ true
      → split_on sep (append s (String.◌∷◌ c t)) ≡ s ∷ split_on sep t
  unfolding split_on
  split_on-append String.[] t c e h = rw (nil-append (String.◌∷◌ c t), e) refl
  split_on-append (String.◌∷◌ d s) t c e h =
      let (a, b) = both _ _ h in
      rw (cons-append d s (String.◌∷◌ c t), free (code d) a, split_on-append s t c e b) refl
