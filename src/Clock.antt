-- ===== src/Clock.antt =====
-- time.Duration and time.Time of Go. A duration is an int64 of nanoseconds. A time is a count of
-- nanoseconds since the zero time; every time of the program has gone through UTC(), which drops
-- the monotonic reading. `Time.Add` does not overflow at the dates that JSON can hold.
pub mod Float
pub mod Order
use pia_wg_config_generator.Base.{
  ℕ, zero, suc, ◌*◌, ◌+◌, ◌/◌, ◌%◌, Bool, true, false, ◌≡◌, refl, arith, if◌then◌else◌,
}
use pia_wg_config_generator.Base.Int.{
  ℤ, pos, negsuc, pos_part, neg_part, ◌+ℤ◌, ◌-ℤ◌, ◌*ℤ◌, ◌≤ℤ◌, ◌<ℤ◌, ltb_ℤ, wrap64, sat64, Fits64,
}

abbrev pub Duration : Type 0
Duration = ℤ

abbrev pub Time : Type 0
Time = ℤ

-- The zero `time.Time`.
abbrev pub zero_time : Time
zero_time = pos 0

abbrev pub is_zero : Time → Bool
is_zero (pos zero) = true
is_zero (pos (suc n)) = false
is_zero (negsuc n) = false

-- `t.Add(d)`, `t.Sub(u)`, `t.After(u)`.
abbrev pub add : Time → Duration → Time
add t d = t +ℤ d

unfoldable pub sub : Time → Time → Duration
sub t u = sat64 (t -ℤ u)

abbrev pub after : Time → Time → Bool
after t u = ltb_ℤ u t

abbrev pub second_ns : ℕ
second_ns = 1000000000

abbrev pub seconds : ℕ → Duration
seconds n = pos (n * second_ns)

-- What an int64 product keeps: `time.Duration(n) * time.Second`, `d *= 2`.
unfoldable pub times : Duration → ℕ → Duration
times d k = wrap64 (d *ℤ k)
