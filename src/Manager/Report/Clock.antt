-- ===== src/Manager/Report/Clock.antt =====
-- The times of a report, from a clock of 32 bits that wraps.
use ipop_tincan.Prelude.{ℕ, ◌+◌, ◌/◌, ◌%◌, ◌^◌, ◌≤◌, ◌<◌, ◌≡◌, arith}
use ipop_tincan.Manager.Report.{elapsed}

-- The seconds of a report are right across a wrap of the 32-bit clock: between a time and a time `d`
-- milliseconds later, both read modulo 2 ^ 32, `elapsed` is d / 1000, if d is below 2 ^ 32.
pub elapsed_exact : (t d : ℕ) → d < 2 ^ 32 → elapsed ((t + d) % 2 ^ 32) (t % 2 ^ 32) ≡ d / 1000
unfolding elapsed
elapsed_exact t d h = omega arith

pub elapsed_bounded : (now since : ℕ) → elapsed now since ≤ 4294967
unfolding elapsed
elapsed_bounded now since = omega arith
