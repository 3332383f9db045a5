-- ===== src/Admin/Interval.antt =====
-- internal/admin/admin.go: the interval of a rollout in minutes.
use minnal_labs.Base.{
  ℕ, ◌*◌, ◌^◌, ◌<◌, ◌≤◌, ◌≡◌, refl, arith, String, Bool, true, false, ◌||◌, leb, inl, inr, str_eq,
  eq_iff, Bool-cases,
}
use minnal_labs.Base.Int.{pos, of_bits_exact, times}
use minnal_labs.Base.Text.{trim_space, to_lower}
use minnal_labs.Base.Exec.{ok}
use minnal_labs.Admin.{is_hours, is_days, normalize_batch_interval_minutes}

is_hours-days : (s : String) → is_days s ≡ true → is_hours s ≡ false
is_hours-days s h = elim (Bool-cases (str_eq s "day")) [
  | inl e ↦ let day : s ≡ "day" = (eq_iff s "day").0 e in rw day refl
  | inr e ↦ let days : s ≡ "days" = (eq_iff s "days").0 (other _ _ h e) in rw days refl
]
  where
    other : (a b : Bool) → a || b ≡ true → a ≡ false → b ≡ true
    other a b x y = ground (arith, x, y)

-- `normalizeBatchIntervalMinutes` is exact while a day's minutes do not leave the 64 bits of an `int`:
-- a positive value in hours comes back times 60, and one in days times 1440, however the unit is
-- spelled that the code accepts.
pub normalize_batch_interval_minutes-exact :
    (n : ℕ) (hours days : String)
    → 1 ≤ n
    → n * 1440 < 2 ^ 63
    → is_hours (to_lower (trim_space hours)) ≡ true
    → is_days (to_lower (trim_space days)) ≡ true
    → (normalize_batch_interval_minutes (pos n) hours ≡ ok (pos (n * 60)))
      × (normalize_batch_interval_minutes (pos n) days ≡ ok (pos (n * 1440)))
unfolding normalize_batch_interval_minutes times
normalize_batch_interval_minutes-exact n hours days positive small h d =
    let some_hours : leb 1 n ≡ true = ground (arith, positive) in
    let fits : n * 60 < 2 ^ 63 = omega (arith, small) in
    (
      rw (some_hours, h, of_bits_exact (n * 60) fits) refl,
      rw (some_hours, is_hours-days _ d, d, of_bits_exact (n * 1440) small) refl,
    )
