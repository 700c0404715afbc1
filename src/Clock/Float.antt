-- ===== src/Clock/Float.antt =====
-- The two uses of float64 in the program: `time.Duration(float64(d) * 0.5)` in pia/lifetime.go,
-- and `int64(d.Seconds())` in pia/lifetime.go, refresh.go and alert.go. A float64 has 53
-- significant bits and rounds to the nearest, ties to even.
use pia_wg_config_generator.Base.{
  ℕ, zero, suc, ◌+◌, ◌-◌, ◌*◌, ◌/◌, ◌%◌, ◌≤◌, ◌<◌, ◌≡◌, refl, inl, inr, arith, ltb, leb, ◌==◌,
  if◌then◌else◌, Bool-cases,
}
use pia_wg_config_generator.Base.Int.{ℤ, pos, negsuc}

-- 2^53.
abbrev pub two_53 : ℕ
two_53 = 9007199254740992

-- `n` to a multiple of the unit `u`: to the nearest, and between two to the even multiple.
round_to : ℕ → ℕ → ℕ
round_to u n =
    if ltb (2 * (n % u)) u
    then n / u * u
    else if ltb u (2 * (n % u))
    then (n / u + 1) * u
    else if n / u % 2 == 0
    then n / u * u
    else (n / u + 1) * u

-- The unit in the last place of `n` as a float64: the least power of two, at least 1, of which `n`
-- holds fewer than 2^53. An int64 needs 11 doublings at most.
unit_of : ℕ → ℕ → ℕ → ℕ
unit_of zero u n = u
unit_of (suc k) u n = unit_of k (if ltb n (two_53 * u) then u else 2 * u) n

-- float64(n), which is an integer again.
float_of : ℕ → ℕ
float_of n = if ltb n two_53 then n else round_to (unit_of 11 1 n) n

-- time.Duration(float64(d) * 0.5): the half is exact, and the conversion drops its fraction.
pub half : ℤ → ℤ
half (pos n) = pos (float_of n / 2)
half (negsuc n) = if float_of (suc n) / 2 == 0 then pos 0 else negsuc (float_of (suc n) / 2 - 1)

neg_of : ℕ → ℤ
neg_of zero = pos 0
neg_of (suc n) = negsuc n

-- The largest power of two that is at most `s`, from `u` on; 0 for 0.
top_of : ℕ → ℕ → ℕ → ℕ
top_of zero u s = u
top_of (suc k) u s = top_of k (if leb (2 * u) s then 2 * u else u) s

-- int64 of float64(sec) + float64(nsec) / 1e9 for a duration of `n` nanoseconds. The sum rounds up
-- to the next whole second just if that is at most half a unit in the last place away; for a
-- second count `s` the unit is the top bit of `s` over 2^52.
seconds_of : ℕ → ℕ
seconds_of n =
    let s = n / 1000000000 in
    let top = if s == 0 then 0 else top_of 34 1 s in
    if leb ((1000000000 - n % 1000000000) * two_53) (1000000000 * top) then s + 1 else s

-- int64(d.Seconds())
pub whole_seconds : ℤ → ℤ
unfolding seconds_of neg_of
whole_seconds (pos n) = pos (seconds_of n)
whole_seconds (negsuc n) = neg_of (seconds_of (suc n))

round_to-le : (u n : ℕ) → 0 < u → u ≤ n → round_to u n ≤ 2 * n
unfolding round_to
round_to-le u n p h = let part : n / u * u ≤ n = grind arith in ground (arith, part)

unit_of-le : (k u n : ℕ) → 0 < u → u ≤ n → (0 < unit_of k u n) × (unit_of k u n ≤ n)
unfolding unit_of
unit_of-le zero u n p h = (p, h)
unit_of-le (suc k) u n p h = elim (Bool-cases (ltb n (two_53 * u))) [
  | inl small ↦ rw small (unit_of-le k u n p h)
  | inr large ↦ rw large (unit_of-le k (2 * u) n (omega arith) (ground arith))
]

float_of-le : (n : ℕ) → float_of n ≤ 2 * n
unfolding float_of
float_of-le n = elim (Bool-cases (ltb n two_53)) [
  | inl small ↦ ground arith
  | inr large ↦
      let (p, h) = unit_of-le 11 1 n (omega arith) (ground arith) in
      rw large (round_to-le (unit_of 11 1 n) n p h)
]

-- Half of a duration below 2^53 ns, which is 104 days, is exact.
pub half-eq-div : (n : ℕ) → n < two_53 → half (pos n) ≡ pos (n / 2)
unfolding half float_of
half-eq-div n h = ground arith

-- Of any duration, half is no more than the whole.
pub half-le : (n : ℕ) → (m : ℕ) × (half (pos n) ≡ pos m) × (m ≤ n)
unfolding half
half-le n = (float_of n / 2, refl, omega (arith, float_of-le n))

top_of-le : (k u s : ℕ) → u ≤ s → top_of k u s ≤ s
unfolding top_of
top_of-le zero u s h = h
top_of-le (suc k) u s h = top_of-le k (if leb (2 * u) s then 2 * u else u) s (ground arith)

-- Below 2^53 ns the whole seconds are those of the exact quotient.
pub whole_seconds-eq-div : (n : ℕ) → n < two_53 → whole_seconds (pos n) ≡ pos (n / 1000000000)
unfolding whole_seconds
whole_seconds-eq-div n h = ground (arith, top_of-le 34 1 (n / 1000000000))
