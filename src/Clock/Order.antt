-- ===== src/Clock/Order.antt =====
-- Differences of times: Go's `Sub`, within and beyond the range of a Duration.
use pia_wg_config_generator.Base.{ℕ, ◌+◌, ◌<◌, ◌≡◌, arith}
use pia_wg_config_generator.Base.Int.{pos, ◌-ℤ◌, ◌≤ℤ◌, sat64, two_63}
use pia_wg_config_generator.Clock.{Time, sub}

pub sub-nonpos : (t u : Time) → t ≤ℤ u → sub t u ≤ℤ pos 0
unfolding sub sat64 ◌-ℤ◌
sub-nonpos t u h = ground arith

pub sub-add : (birth age : ℕ) → age < two_63 → sub (pos (birth + age)) (pos birth) ≡ pos age
unfolding sub sat64 ◌-ℤ◌
sub-add birth age h = ground arith
