-- ===== src/Tests/RunsTests.antt =====
-- Whole runs of the refresh daemon in a concrete world, with the account and the other processes that
-- read what it writes.
use pia_wg_config_generator.Base.{ℕ, some, List, [], ◌∷◌, ◌≡◌, ◌≢◌, refl, inr, All, arith}
use pia_wg_config_generator.Base.Text.{codes, trim_space, is_space, contains, has_prefix}
use pia_wg_config_generator.Clock.{seconds, zero_time}
use pia_wg_config_generator.Outage.{new_outage_policy}
use pia_wg_config_generator.Api.Requests.{Account}
use pia_wg_config_generator.Refresh.{Effect}
use pia_wg_config_generator.Lifetime.{load}
use pia_wg_config_generator.WgConfig.Endpoint.{parse_endpoint_from_config}
use pia_wg_config_generator.Refresh.Schedule.{arm_next_refresh, flush_status, next_proactive_delay}
use pia_wg_config_generator.Refresh.Regenerate.{regenerate_with_backoff, attempts, regenerate_once}
use pia_wg_config_generator.Refresh.Loop.{on_health_tick, run_refresh, start_by, try_adopt}
use pia_wg_config_generator.Refresh.Secrets.{Hides, redacting, run_refresh-Hides}
use pia_wg_config_generator.Refresh.Monitored.{IsMonitored}
use pia_wg_config_generator.Refresh.Monitored.Whole.{run_refresh-IsMonitored}
use pia_wg_config_generator.Status.{DaemonStatus}
use pia_wg_config_generator.Refresh.Reported.{Adds, IsReport, on_health_tick-Reports}
use pia_wg_config_generator.Refresh.HandOver.{Runs}
use pia_wg_config_generator.PortForward.Daemon.{Poll, pending, poll, new_pf_state}
use pia_wg_config_generator.PortForward.Daemon.Acquired.{acquisitions}
use pia_wg_config_generator.PortForward.HandOver.{
  newest, Interleaved, starts, refresh_does, pf_polls, IsHanded, Advances, KeepsUp,
}
use pia_wg_config_generator.PortForward.HandOver.Whole.{Interleaved-KeepsUp}
use pia_wg_config_generator.Tests.RedactTests.{no_match, kept}
use pia_wg_config_generator.Tests.HealthcheckTests.{options}
use pia_wg_config_generator.Tests.PortForwardTests.{pf_settings, good_poll}
use pia_wg_config_generator.Tests.RefreshTests.{settings, made, silent, initial, ticks}

abbrev account : Account
account = record { username = codes "p1234567"; password = codes "hunter2" }

abbrev run_log : List Effect
run_log = (run_refresh silent settings initial []).runtime.log

-- The refresh daemon has run; the other process has done nothing yet.
idle : (log : List Effect) → Interleaved pf_settings log new_pf_state
idle [] = starts
idle (e ∷ log) = refresh_does e (idle log)

-- A poll that reads the registration handed over in second 1240.
abbrev reading_poll : Poll
reading_poll = record good_poll {
  read = pending (record { created_utc = seconds 1240; key = made.key });
}

handed_over : newest run_log ≡ some record { created_utc = seconds 1240; key = made.key }
unfolding run_refresh arm_next_refresh flush_status next_proactive_delay start_by try_adopt load
    parse_endpoint_from_config regenerate_with_backoff attempts regenerate_once trim_space
handed_over = refl

silent-Runs : Runs silent.now
silent-Runs = record { start = ground arith; forward = λ n. ground arith }

Interleaved-KeepsUp_example :
    All
      (IsHanded run_log)
      (acquisitions (poll pf_settings reading_poll reading_poll.read new_pf_state).log)
    × Advances (acquisitions (poll pf_settings reading_poll reading_poll.read new_pf_state).log)
    × KeepsUp (newest run_log) (poll pf_settings reading_poll reading_poll.read new_pf_state)
Interleaved-KeepsUp_example =
    Interleaved-KeepsUp silent settings initial [] pf_settings
      (poll pf_settings reading_poll reading_poll.read new_pf_state) silent-Runs refl
      (pf_polls reading_poll handed_over (idle run_log))

run_refresh-Hides_example :
    All
      (Hides (trim_space (codes "hunter2")))
      (run_refresh (redacting no_match (λ t. t) account silent) settings initial ticks).runtime.log
run_refresh-Hides_example =
    run_refresh-Hides no_match (λ t. t) account silent settings initial ticks (codes "hunter2")
      (refl, unfold new_outage_policy in refl) refl refl (inr refl)
      (kept, (kept, (kept, (kept, tt)))) (λ f returned s k secret h. h)
      (unfold trim_space is_space in omega arith)
      (unfold trim_space is_space contains has_prefix in (refl, refl, refl))

silent_clock : (n : ℕ) → silent.now n ≢ zero_time
silent_clock n h = ground arith

run_refresh-IsMonitored_example :
    All
      (IsMonitored options 300 (seconds 99990))
      (run_refresh silent settings initial ticks).runtime.log
run_refresh-IsMonitored_example =
    run_refresh-IsMonitored silent settings initial ticks options 300 (seconds 99990)
      (refl, unfold new_outage_policy in refl) (refl, refl, refl) silent_clock

on_health_tick-Reports_example :
    (st : DaemonStatus) × Adds st initial.log (on_health_tick silent settings initial).log
    × IsReport silent settings initial st
on_health_tick-Reports_example = on_health_tick-Reports silent settings initial (λ n. refl)
