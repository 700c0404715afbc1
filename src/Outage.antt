-- ===== src/Outage.antt =====
-- outagePolicy of alert.go: when a failure alert and a recovered notice are due. The mutex makes
-- each method one step: a function from the policy to the new one and its results. The program
-- always has a policy, so the nil receiver is left out.

pub mod Notices
use pia_wg_config_generator.Base.{
  ℕ, Bool, true, false, not, ◌&&◌, ◌||◌, Option, none, some, List, [], ◌∷◌, if◌then◌else◌,
}
use pia_wg_config_generator.Base.Int.{ℤ, pos, ◌+ℤ◌, leb_ℤ, ltb_ℤ, wrap64}
use pia_wg_config_generator.Clock.{Time, Duration, zero_time, is_zero, sub}

pub record OutagePolicy : Type 0 where
  pub threshold : ℤ  -- int
  pub failures : ℤ  -- int
  pub alerted : Bool
  pub outage_start : Time

unfoldable pub new_outage_policy : ℤ → OutagePolicy
new_outage_policy threshold = record {
  threshold = threshold;
  failures = pos 0;
  alerted = false;
  outage_start = zero_time;
}

-- The fields after one failed attempt, before the test of the threshold.
abbrev count_failure : Time → OutagePolicy → OutagePolicy
count_failure now p = record p {
  outage_start = if is_zero p.outage_start then now else p.outage_start;
  failures = wrap64 (p.failures +ℤ pos 1);
}

-- `failure` on a policy that is not nil: the new policy, `fire`, `attempts`.
unfoldable pub failure : Time → OutagePolicy → OutagePolicy × Bool × ℤ
failure now p =
    let q = count_failure now p in
    if leb_ℤ q.threshold (pos 0) || q.alerted || ltb_ℤ q.failures q.threshold
    then (q, false, q.failures)
    else (record q { alerted = true }, true, q.failures)

-- `healthy`: the new policy, `recovered`, `outage`, `attempts`.
unfoldable pub healthy : Time → OutagePolicy → OutagePolicy × Bool × Duration × ℤ
healthy now p = (
  record p { failures = pos 0; alerted = false; outage_start = zero_time },
  p.alerted,
  (if is_zero p.outage_start then pos 0 else sub now p.outage_start),
  p.failures,
)

-- `snapshot`
unfoldable pub snapshot : OutagePolicy → ℤ × Bool
snapshot p = (p.failures, p.alerted)
