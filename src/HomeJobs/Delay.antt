-- ===== src/HomeJobs/Delay.antt =====
-- internal/homejobs/homejobs.go, `retryDelay`: the time until the next attempt.
use native.Mathlib.Nat.{mul-le-mul_right}
use minnal_labs.Base.{ℕ, ◌*◌, ◌^◌, ◌≤◌, ◌<◌, ◌≡◌, arith, ltb, if◌then◌else◌}
use minnal_labs.Base.Int.{pos, of_bits_exact, times}
use minnal_labs.HomeJobs.Queue.{Config, default_config, init_home_jobs, retry_delay}

-- the multiplier of `retryDelay`
clamp : ℕ → ℕ → ℕ
clamp top attempts =
    let at_least = if ltb attempts 1 then 1 else attempts in
    if ltb top at_least then top else at_least

le-trans_lt : {a b n : ℕ} → a ≤ b → b < n → a < n
le-trans_lt p q = omega (arith, p, q)

clamp-bounds : (top attempts : ℕ) → 1 ≤ top → (1 ≤ clamp top attempts) × (clamp top attempts ≤ top)
unfolding clamp
clamp-bounds top attempts p = ground (arith, p)

clamp_mono : (top a b : ℕ) → a ≤ b → clamp top a ≤ clamp top b
unfolding clamp
clamp_mono top a b p = ground (arith, p)

-- The product is exact as long as the largest one fits a signed number of 64 bits.
retry_delay-pos :
    (c : Config) (a : ℕ)
    → 1 ≤ c.retry_max_multiplier
    → c.retry_max_multiplier * c.retry_base_delay < 2 ^ 63
    → retry_delay c a ≡ pos (clamp c.retry_max_multiplier a * c.retry_base_delay)
unfolding retry_delay times clamp
retry_delay-pos c a p small =
    let top = mul-le-mul_right c.retry_base_delay (clamp-bounds c.retry_max_multiplier a p).1 in
    of_bits_exact _ (le-trans_lt top small)

-- With a multiplier of at least one, and if the largest multiple of the base delay fits the 64 bits of
-- a duration, no retry's delay wraps around: a retry waits for at least the base delay and for at most
-- the largest multiple of it, and a later attempt does not wait less than an earlier one.
pub retry_delay-bounds :
    (c : Config) (a b : ℕ)
    → 1 ≤ c.retry_max_multiplier
    → c.retry_max_multiplier * c.retry_base_delay < 2 ^ 63
    → a ≤ b
    → (x : ℕ) × (y : ℕ) × (retry_delay c a ≡ pos x)
      × (retry_delay c b ≡ pos y)
      × (c.retry_base_delay ≤ x)
      × (x ≤ y)
      × (y ≤ c.retry_max_multiplier * c.retry_base_delay)
unfolding clamp
retry_delay-bounds c a b p small q =
    let low = mul-le-mul_right c.retry_base_delay (clamp-bounds c.retry_max_multiplier a p).0 in
    let high = mul-le-mul_right c.retry_base_delay (clamp-bounds c.retry_max_multiplier b p).1 in
    let mid = mul-le-mul_right c.retry_base_delay (clamp_mono c.retry_max_multiplier a b q) in
    (
      clamp c.retry_max_multiplier a * c.retry_base_delay,
      clamp c.retry_max_multiplier b * c.retry_base_delay,
      retry_delay-pos c a p small,
      retry_delay-pos c b p small,
      omega (arith, low),
      mid,
      high,
    )

-- Whatever the environment sets, the package's three settings stay positive after `InitHomeJobs`: a
-- setting that is not positive leaves the default in place.
init_home_jobs-positive :
    (cfg : Config)
    → let c = init_home_jobs cfg default_config in
      (0 < c.initial_delay) × (0 < c.retry_base_delay) × (1 ≤ c.retry_max_multiplier)
unfolding init_home_jobs
init_home_jobs-positive cfg = (ground arith, ground arith, ground arith)
