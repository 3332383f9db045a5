-- ===== src/Base/Int.antt =====
-- Go's `int`, a number of 64 bits in two's complement. The library's ℤ stands on another ℕ.
use Prim.Native.Nat.{ℕ, suc, ◌-◌, ◌*◌, ◌^◌, ◌%◌, ◌<◌}
use mathlib.Core.Path.{◌≡◌, refl}
use mathlib.Core.Bool.{true}
use native.Mathlib.Omega.{arith}
use minnal_labs.Base.Tests.{ltb, if◌then◌else◌}

-- `negsuc n` is -(n + 1)
pub data ℤ : Type 0 where
  pos : ℕ → ℤ
  negsuc : ℕ → ℤ

abbrev pub int_max : ℕ
int_max = 2 ^ 63

-- the number of 64 bits that has these low bits
unfoldable pub of_bits : ℕ → ℤ
of_bits bits = if ltb bits int_max then pos bits else negsuc (2 ^ 64 - suc bits)

pub of_bits_exact : (a : ℕ) → a < 2 ^ 63 → of_bits (a % 2 ^ 64) ≡ pos a
unfolding of_bits
of_bits_exact a h =
    let same : a % 2 ^ 64 ≡ a = omega (arith, h) in
    let below : ltb a int_max ≡ true = ground (arith, h) in rw (same, below) refl

-- `value * n` for a value that is not negative: the product wraps around
unfoldable pub times : ℕ → ℕ → ℤ
unfolding of_bits
times value n = of_bits ((value * n) % 2 ^ 64)
