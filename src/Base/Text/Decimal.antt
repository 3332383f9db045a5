-- ===== src/Base/Text/Decimal.antt =====
-- `fmt`'s `%d` on unsigned integers and `strconv.ParseUint(s, 10, 64)`, with their round trip.
use Prim.Native.Nat.{ℕ, zero, suc, ◌+◌, ◌-◌, ◌*◌, ◌/◌, ◌%◌, ◌^◌, ◌<◌}
use Prim.Native.Char.{Char, code}
use Prim.Native.String.{String, [], ◌∷◌, ◌++◌, char_at}
use text.Mathlib.TextLemmas.{nil-append, cons-append}
use mathlib.Core.Path.{◌≡◌, refl, ap, ◌∙◌}
use mathlib.Core.Bool.{Bool, true, false, ◌&&◌}
use mathlib.Core.Logic.{inl, inr}
use native.Mathlib.Omega.{arith}
use mathlib.Core.Option.{Option, none, some}
use minnal_labs.Base.Text.{cut}
use minnal_labs.Base.Text.All.{all_of, joined}
use minnal_labs.Base.Tests.{◌==◌, Bool-cases, leb, ltb, if◌then◌else◌}

abbrev pub u64_mod : ℕ
u64_mod = 2 ^ 64

digit : ℕ → Char
digit d = char_at "0123456789" d

-- One digit for each round; `n` rounds and one more are enough, since `n / 10` falls.
decimal_from : ℕ → ℕ → String
unfolding digit
decimal_from zero n = ""
decimal_from (suc fuel) n =
    let front = decimal_from fuel (n / 10) in
    if ltb n 10 then digit n ∷ "" else front ++ (digit (n % 10) ∷ "")

-- `%d`
unfoldable pub decimal : ℕ → String
unfolding decimal_from
decimal n = decimal_from (suc n) n

-- the digits of a text after those that make `acc`
digits_from : ℕ → String → Option ℕ
digits_from acc [] = some acc
digits_from acc (c ∷ s) =
    let rest = digits_from (acc * 10 + (code c - 48)) s in
    if leb 48 (code c) && leb (code c) 57 then rest else none

abbrev in_range : Option ℕ → Option ℕ
in_range none = none
in_range (some n) = if ltb n u64_mod then some n else none

-- `strconv.ParseUint(s, 10, 64)`: every error is `none`
unfoldable pub parse_uint : String → Option ℕ
unfolding digits_from
parse_uint [] = none
parse_uint (c ∷ s) = in_range (digits_from 0 (c ∷ s))

prints_and_reads : (decimal 4096 ≡ "4096") × (parse_uint "00307" ≡ some 307)
unfolding decimal parse_uint
prints_and_reads = (refl, refl)

refuses :
    (parse_uint "" ≡ none) × (parse_uint "-1" ≡ none) × (parse_uint "18446744073709551616" ≡ none)
unfolding decimal parse_uint
refuses = (refl, refl, refl)

code-digit : (d : ℕ) → d < 10 → code (digit d) ≡ 48 + d
unfolding digit
code-digit zero p = refl
code-digit (suc zero) p = refl
code-digit (suc (suc zero)) p = refl
code-digit (suc (suc (suc zero))) p = refl
code-digit (suc (suc (suc (suc zero)))) p = refl
code-digit (suc (suc (suc (suc (suc zero))))) p = refl
code-digit (suc (suc (suc (suc (suc (suc zero)))))) p = refl
code-digit (suc (suc (suc (suc (suc (suc (suc zero))))))) p = refl
code-digit (suc (suc (suc (suc (suc (suc (suc (suc zero)))))))) p = refl
code-digit (suc (suc (suc (suc (suc (suc (suc (suc (suc zero))))))))) p = refl
code-digit (suc (suc (suc (suc (suc (suc (suc (suc (suc (suc n)))))))))) p =
    absurd (omega (arith, p))

-- the value of one character
abbrev then_digit : ℕ → Option ℕ → Option ℕ
then_digit d none = none
then_digit d (some m) = some (m * 10 + d)

last_digit :
    (d acc k : ℕ)
    → d < 10
    → k ≡ 48 + d
    → (if leb 48 k && leb k 57 then some (acc * 10 + (k - 48)) else none) ≡ some (acc * 10 + d)
last_digit d acc k p e = rw e (ground (arith, p))

guarded :
    (b : Bool) (o : Option ℕ) (m : ℕ) → (if b then o else none) ≡ some m → (b ≡ true) × (o ≡ some m)
guarded true o m e = (refl, e)
guarded false o m e = cc

-- one more digit at the end
digits_from-snoc :
    (d : ℕ) (s : String) (acc m : ℕ)
    → d < 10
    → digits_from acc s ≡ some m
    → digits_from acc (s ++ (digit d ∷ "")) ≡ some (m * 10 + d)
unfolding digits_from
digits_from-snoc d [] acc m p e =
    rw (nil-append (digit d ∷ ""))
      (last_digit d acc (code (digit d)) p (code-digit d p) ∙ ap (λ o. then_digit d o) e)
digits_from-snoc d (c ∷ s) acc m p e =
    let (t, r) = guarded (leb 48 (code c) && leb (code c) 57) _ m e in
    rw (cons-append c s (digit d ∷ ""), t) (digits_from-snoc d s (acc * 10 + (code c - 48)) m p r)

digits_from-decimal : (fuel n : ℕ) → n < fuel → digits_from 0 (decimal_from fuel n) ≡ some n
unfolding decimal_from digits_from
digits_from-decimal zero n p = absurd (omega (arith, p))
digits_from-decimal (suc fuel) n p = elim (Bool-cases (ltb n 10)) [
  | inl t ↦ rw t (
      last_digit n 0 (code (digit n)) (ground (arith, t)) (code-digit n (ground (arith, t)))
      ∙ ap (λ x. some x) (omega arith))
  | inr f ↦ rw f (
      digits_from-snoc (n % 10) (decimal_from fuel (n / 10)) 0 (n / 10) (omega arith)
        (digits_from-decimal fuel (n / 10) (ground (arith, f, p)))
      ∙ ap (λ x. some x) (omega arith))
]

parse_uint-snoc :
    (s : String) (c : Char) → parse_uint (s ++ (c ∷ "")) ≡ in_range (digits_from 0 (s ++ (c ∷ "")))
unfolding parse_uint
parse_uint-snoc [] c = rw (nil-append (c ∷ "")) refl
parse_uint-snoc (d ∷ s) c = rw (cons-append d s (c ∷ "")) refl

parse_uint-decimal_from :
    (fuel n : ℕ)
    → parse_uint (decimal_from (suc fuel) n) ≡ in_range (digits_from 0 (decimal_from (suc fuel) n))
unfolding decimal_from parse_uint
parse_uint-decimal_from fuel n = elim (Bool-cases (ltb n 10)) [
  | inl t ↦ rw t refl
  | inr f ↦ rw f (parse_uint-snoc (decimal_from fuel (n / 10)) (digit (n % 10)))
]

-- what `%d` prints of 64 bits, `ParseUint` reads
pub parse_uint-decimal : (n : ℕ) → n < u64_mod → parse_uint (decimal n) ≡ some n
unfolding decimal
parse_uint-decimal n p =
    parse_uint-decimal_from n n
    ∙ ap in_range (digits_from-decimal (suc n) n (omega arith))
    ∙ in_range_lem
  where
    in_range_lem : in_range (some n) ≡ some n
    in_range_lem = ground (arith, p)

not_colon : (k : ℕ) → leb 48 k && leb k 57 ≡ true → (k == 58) ≡ false
not_colon k e = ground (arith, e)

cut-digits :
    (s t : String) (acc m : ℕ)
    → digits_from acc s ≡ some m
    → cut 58 (s ++ (":" ++ t)) ≡ (s, true, t)
unfolding cut digits_from
cut-digits [] t acc m e = rw (nil-append (":" ++ t), cons-append ":" "" t, nil-append t) refl
cut-digits (c ∷ s) t acc m e =
    let (d, r) = guarded (leb 48 (code c) && leb (code c) 57) _ m e in
    rw
      (
        cons-append c s (":" ++ t),
        not_colon (code c) d,
        cut-digits s t (acc * 10 + (code c - 48)) m r,
      )
      refl

-- a number that is printed before a colon is what stands before the first colon
pub cut-decimal : (n : ℕ) (t : String) → cut 58 (decimal n ++ (":" ++ t)) ≡ (decimal n, true, t)
unfolding decimal
cut-decimal n t = cut-digits (decimal n) t 0 n (digits_from-decimal (suc n) n (omega arith))

abbrev pub is_digit : ℕ → Bool
is_digit c = leb 48 c && leb c 57

digits_from-all : (s : String) (acc m : ℕ) → digits_from acc s ≡ some m → all_of is_digit s ≡ true
unfolding digits_from
digits_from-all [] acc m e = refl
digits_from-all (c ∷ s) acc m e =
    let (d, r) = guarded (is_digit (code c)) _ m e in joined _ _ d (digits_from-all s _ m r)

-- a printed number has digits only
pub decimal-all : (n : ℕ) → all_of is_digit (decimal n) ≡ true
unfolding decimal
decimal-all n = digits_from-all (decimal n) 0 n (digits_from-decimal (suc n) n (omega arith))
