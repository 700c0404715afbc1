-- ===== src/Tests/LifetimeTests.antt =====
-- The lifetime record at concrete values.
use pia_wg_config_generator.Base.{none, some, [], ◌∷◌, ◌+◌, ◌≡◌, refl, arith}
use pia_wg_config_generator.Base.Int.{pos, wrap64, ◌*ℤ◌, ◌+ℤ◌}
use pia_wg_config_generator.Clock.{add, seconds, times}
use pia_wg_config_generator.Lifetime.{
  LifetimeRecord, holds, fresh_record, load, measured_lifetime, safe_refresh_interval,
  expected_expiry, measured, record_new_registration, record_observed_loss,
}
use pia_wg_config_generator.Lifetime.Cadence.{safe_refresh_interval-eq_half}
use pia_wg_config_generator.Refresh.{Settings, Env, Runtime}
use pia_wg_config_generator.Refresh.Schedule.{next_proactive_delay}
use pia_wg_config_generator.Refresh.Planned.{EndsBy, next_proactive_delay-EndsBy}
use pia_wg_config_generator.Tests.RefreshTests.{silent, settings, initial}
use pia_wg_config_generator.Lifetime.Losses.{Records, record_observed_loss_cases, birth_then_loss}

-- Born a second after the zero time; lived 5 h, 3 h and 4 h before.
abbrev seen_three : LifetimeRecord
seen_three = record fresh_record {
  current_registration = seconds 1;
  observed = pos 18000 ∷ pos 10800 ∷ pos 14400 ∷ [];
}

seen_three_measured : measured_lifetime seen_three ≡ some (seconds 10800)
unfolding measured_lifetime times wrap64 ◌*ℤ◌
seen_three_measured = refl

safe_refresh_interval-eq_half_example :
    safe_refresh_interval seen_three (seconds 43200) (pos 7200000000000) ≡ pos 3600000000000
safe_refresh_interval-eq_half_example =
    safe_refresh_interval-eq_half seen_three (seconds 43200) 10800000000000 7200000000000
      seen_three_measured (omega arith) (omega arith)

seen_three_expiry : expected_expiry seen_three (seconds 43200) (pos 0) ≡ (seconds 10801, measured)
unfolding expected_expiry measured_lifetime times wrap64 ◌*ℤ◌ ◌+ℤ◌
seen_three_expiry = refl

-- Jitter of 15 minutes, which is half of its maximum.
abbrev jittery : Settings
jittery = record settings { jitter_max = seconds 1800 }

abbrev random : Env
random = record silent { random = λ n. some (seconds 900) }

abbrev after_three : Runtime
after_three = record initial { lifetime_file = holds seen_three }

next_proactive_delay-EndsBy_example :
    EndsBy
      (add (seconds 10801) (seconds 900))
      (random.now after_three.calls)
      (next_proactive_delay random jittery after_three).1
next_proactive_delay-EndsBy_example =
    next_proactive_delay-EndsBy random jittery after_three seen_three (seconds 10801) measured
      1800000000000 900000000000 (unfold load in refl) seen_three_expiry (λ e. cc)
      (unfold ◌+ℤ◌ in omega arith) (unfold ◌+ℤ◌ in omega arith) refl (omega arith) refl
      (omega arith)

record_observed_loss_cases_example :
    Records none
      (seconds 7201)
      (holds seen_three)
      (record_observed_loss none (seconds 7201) (holds seen_three))
record_observed_loss_cases_example =
    record_observed_loss_cases none (seconds 7201) (holds seen_three)

birth_then_loss_example :
    (load
      (record_observed_loss none
        (pos (2000000000 + 5000000000))
        (record_new_registration none (pos 2000000000) (holds seen_three)).0).0).0.observed
    ≡ pos 18000 ∷ pos 10800 ∷ pos 14400 ∷ pos 5 ∷ []
birth_then_loss_example =
    birth_then_loss 2000000000 5000000000 (holds seen_three) seen_three (unfold load in refl)
      (omega arith) (omega arith) (omega arith)
