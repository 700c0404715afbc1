-- ===== src/Refresh/Planned.antt =====
-- When the next refresh is planned (refresh.go, nextProactiveDelay), against the expected expiry that
-- status.json shows beside it (pia/lifetime.go, ExpectedExpiry).
use pia_wg_config_generator.Base.{
  ℕ, ◌-◌, ◌/◌, ◌≤◌, ◌<◌, false, none, some, ◌≡◌, ◌≢◌, refl, sym, ap, ◌⊎◌, inl, inr, arith,
  Bool-cases, if◌then◌else◌,
}
use pia_wg_config_generator.Base.Int.{pos, negsuc, ◌+ℤ◌, ◌-ℤ◌, ◌≤ℤ◌, ltb_ℤ, wrap64, sat64, int_laws}
use pia_wg_config_generator.Clock.{Time, Duration, add, sub, seconds, is_zero}
use pia_wg_config_generator.Lifetime.{
  LifetimeRecord, load, min_refresh, safe_refresh_interval, expected_expiry, Source, unknown,
}
use pia_wg_config_generator.Lifetime.Cadence.{refresh_before_expiry}
use pia_wg_config_generator.Refresh.{Settings, Env, Runtime}
use pia_wg_config_generator.Refresh.Schedule.{apply_jitter, delay_of, next_proactive_delay}

-- 2^62 ns, which is 146 years.
abbrev pub two_62 : ℕ
two_62 = 4611686018427387904

-- What jitter adds to an interval without overflow: no more than half of its maximum, rounded up.
apply_jitter-le :
    (interval : Duration) (m n : ℕ)
    → pos 0 ≤ℤ interval
    → interval ≤ℤ pos two_62
    → m < two_62
    → n ≤ m
    → apply_jitter interval (pos m) (some (pos n)) ≤ℤ interval +ℤ pos (m - m / 2)
unfolding apply_jitter wrap64 ◌+ℤ◌ ◌-ℤ◌
apply_jitter-le (pos a) m n p h k l = ground arith
apply_jitter-le (negsuc a) m n p h k l = absurd (omega arith)

-- A duration from now until `due` that is not cut below ends at `due` or before it.
add-sub-le : (now due : Time) → seconds 60 ≤ℤ sub due now → add now (sub due now) ≤ℤ due
unfolding sub sat64 ◌-ℤ◌ ◌+ℤ◌
add-sub-le now due h = ground arith

-- `d` ends at `latest` or before it, or is the floor of a minute.
abbrev pub EndsBy : Time → Time → Duration → Type 0
EndsBy latest now d = (d ≡ seconds 60) ⊎ (add now d ≤ℤ latest)

-- The end of an interval, no later than `latest`, with the floor of a minute.
floored-EndsBy :
    (now due latest : Time)
    → due ≤ℤ latest
    → EndsBy latest now (if ltb_ℤ (sub due now) (seconds 60) then seconds 60 else sub due now)
floored-EndsBy now due latest h = elim (Bool-cases (ltb_ℤ (sub due now) (seconds 60))) [
  | inl soon ↦ rw soon (inl refl)
  | inr later ↦ rw later (inr (let e = add-sub-le now due (ground arith) in omega (arith, e, h)))
]

jittered_due :
    (birth t : Time) (interval jittered : Duration) (k : ℕ)
    → add birth interval ≤ℤ t
    → jittered ≤ℤ interval +ℤ pos k
    → add birth jittered ≤ℤ add t (pos k)
jittered_due birth t interval jittered k h j = omega int_laws

interval_short :
    (birth t : Time) (interval : Duration)
    → add birth interval ≤ℤ t
    → t ≤ℤ add birth (pos two_62)
    → interval ≤ℤ pos two_62
interval_short birth t interval h k = omega int_laws

safe_refresh_interval-nonneg :
    (r : LifetimeRecord) (configured user_max_age : Duration)
    → pos 0 ≤ℤ safe_refresh_interval r configured user_max_age
unfolding safe_refresh_interval
safe_refresh_interval-nonneg r configured user_max_age = ground arith

unborn_lem :
    (rec : LifetimeRecord) (configured user_max_age : Duration) (t : Time) (source : Source)
    → expected_expiry rec configured user_max_age ≡ (t, source)
    → source ≢ unknown
    → is_zero rec.current_registration ≡ false
unfolding expected_expiry
unborn_lem rec configured user_max_age t source e known =
    elim (Bool-cases (is_zero rec.current_registration)) [
      | inl unborn ↦ absurd (known (sym (ap (λ p. p.1) (rw unborn at e))))
      | inr born ↦ born
    ]

delay_of-EndsBy :
    (cfg : Settings) (rec : LifetimeRecord) (now t : Time) (m n : ℕ)
    → is_zero rec.current_registration ≡ false
    → add rec.current_registration
        (safe_refresh_interval rec cfg.fallback_interval cfg.max_registration_age)
      ≤ℤ t
    → t ≤ℤ add rec.current_registration (pos two_62)
    → cfg.jitter_max ≡ pos m
    → m < two_62
    → n ≤ m
    → EndsBy (add t (pos (m - m / 2))) now (delay_of cfg (some (pos n)) now (rec, none))
unfolding delay_of
delay_of-EndsBy cfg rec now t m n born due short jitter k l =
    let i = safe_refresh_interval rec cfg.fallback_interval cfg.max_registration_age in
    let j =
      apply_jitter-le i m n
        (safe_refresh_interval-nonneg rec cfg.fallback_interval cfg.max_registration_age)
        (interval_short rec.current_registration t i due short) k l in
    simp (born, jitter)
      (floored-EndsBy now (add rec.current_registration (apply_jitter i (pos m) (some (pos n))))
        (add t (pos (m - m / 2)))
        (jittered_due rec.current_registration t i (apply_jitter i (pos m) (some (pos n)))
          (m - m / 2) due j))

-- The delay until the next proactive refresh ends, counted from the clock that it is computed with, at
-- the expected expiry of status.json or before it, but for jitter, which adds at most half of its
-- maximum, rounded up; or it is the floor of a minute. So it is for every record that is read without
-- an error and every setting of the flags, where an expiry is estimated, from a measurement or from the
-- fallback, between 30 minutes and 146 years after the birth of the registration, and the random number
-- is between 0 and the maximal jitter, which is below 146 years.
pub next_proactive_delay-EndsBy :
    (env : Env) (cfg : Settings) (s : Runtime) (rec : LifetimeRecord) (t : Time) (source : Source)
    (m n : ℕ)
    → load s.lifetime_file ≡ (rec, none)
    → expected_expiry rec cfg.fallback_interval cfg.max_registration_age ≡ (t, source)
    → source ≢ unknown
    → add rec.current_registration min_refresh ≤ℤ t
    → t ≤ℤ add rec.current_registration (pos two_62)
    → cfg.jitter_max ≡ pos m
    → m < two_62
    → env.random s.calls ≡ some (pos n)
    → n ≤ m
    → EndsBy (add t (pos (m - m / 2))) (env.now s.calls) (next_proactive_delay env cfg s).1
unfolding next_proactive_delay
next_proactive_delay-EndsBy env cfg s rec t source m n readable expiry known late short jitter k
      random l =
    rw (readable, random)
      (delay_of-EndsBy cfg rec (env.now s.calls) t m n
        (unborn_lem rec cfg.fallback_interval cfg.max_registration_age t source expiry known)
        (refresh_before_expiry rec cfg.fallback_interval cfg.max_registration_age expiry known late)
        short jitter k l)
