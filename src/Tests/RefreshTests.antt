-- ===== src/Tests/RefreshTests.antt =====
-- The refresh daemon in a concrete world.
use Prim.Native.Nat.{min}
use pia_wg_config_generator.Base.{
  ◌+◌, ◌*◌, ◌^◌, true, false, none, some, List, [], ◌∷◌, ◌≡◌, ◌≢◌, refl,
}
use pia_wg_config_generator.Base.Int.{pos}
use pia_wg_config_generator.Base.Text.{codes}
use pia_wg_config_generator.Clock.{seconds, zero_time}
use pia_wg_config_generator.Api.{GenerateResult}
use pia_wg_config_generator.Lifetime.{missing}
use pia_wg_config_generator.Outage.{new_outage_policy}
use pia_wg_config_generator.Tunnel.{no_reply}
use pia_wg_config_generator.Refresh.{Settings, Env, Runtime, generated}
use pia_wg_config_generator.Refresh.Cooldown.{cap_ns, effective_cooldown-eq_min}
use pia_wg_config_generator.Refresh.Outcome.{effective_cooldown}
use pia_wg_config_generator.Refresh.Log.{RestartsLoad, AlertsAlternate}
use pia_wg_config_generator.Refresh.Frame.{registrations}
use pia_wg_config_generator.Refresh.Recovery.{
  Reacts, sample, observed, on_health_tick-registrations,
}
use pia_wg_config_generator.Refresh.Regenerate.{
  startup, reactive_recovery, attempts, regenerate_once, regenerate_with_backoff,
}
use pia_wg_config_generator.Refresh.Outcome.{observe}
use pia_wg_config_generator.Refresh.Schedule.{flush_status}
use pia_wg_config_generator.Tunnel.{check_tunnel, fetch_gluetun_status}
use pia_wg_config_generator.Base.Text.{trim_right_byte, trim_space, is_space}
use pia_wg_config_generator.Base.Int.{wrap64, ◌+ℤ◌}
use pia_wg_config_generator.Refresh.Recovery.Works.{HasRecovered, on_health_tick-HasRecovered}
use pia_wg_config_generator.Refresh.Regenerate.Works.{CanRecover}
use pia_wg_config_generator.Refresh.Regenerate.Success.{
  IsRecovery, regenerate_with_backoff-IsRecovery,
}
use pia_wg_config_generator.Refresh.Regenerate.Storm.{CannotRestart, regenerate_with_backoff_storm}
use pia_wg_config_generator.Refresh.Loop.{
  Tick, health_tick, proactive_tick, threshold_of, in_cooldown, on_health_tick, run_refresh,
}
use pia_wg_config_generator.Refresh.Restarts.{run_refresh-RestartsLoad, run_refresh-AlertsAlternate}

abbrev pub settings : Settings
settings = record {
  region = codes "nl";
  server_name = false;
  port_forwarding = true;
  ipv6_mode_str = codes "on";
  fallback_interval = seconds 43200;
  jitter_max = pos 0;
  max_registration_age = pos 0;
  adopt_healthy = true;
  health_interval = seconds 60;
  unhealthy_threshold = pos 2;
  control_url = codes "http://gluetun:8000";
  control_timeout = seconds 5;
  backoff_min = seconds 30;
  backoff_max = seconds 600;
  recovery_cooldown = seconds 180;
  restart_container = codes "gluetun";
  config_hook_cmd = [];
}

abbrev pub made : GenerateResult
made = record {
  config = codes "Endpoint = 1.2.3.4:1337";
  key = record {
    status = codes "OK";
    server_key = codes "k";
    server_port = pos 1337;
    server_ip = codes "1.2.3.4";
    server_vip = codes "10.0.0.1";
    gateway = [];
    peer_ip = codes "10.0.0.2";
    peer_pubkey = codes "p";
    dns_servers = codes "10.0.0.3" ∷ [];
  };
}

-- A minute passes with each call; all writes and restarts succeed; the control server is silent.
abbrev pub silent : Env
silent = record {
  now = λ n. seconds (1000 + n * 60);
  generate = λ n. generated made;
  write = λ n. none;
  restart = λ n. none;
  random = λ n. none;
  fetch = λ n timeout url. no_reply;
  config_file = λ n. none;
  previous_region = λ n. none;
  redacted = λ e. codes "failed";
}

abbrev pub initial : Runtime
initial = record {
  last_generate = zero_time;
  next_refresh = zero_time;
  last_recovery = zero_time;
  recovery_count = pos 0;
  tunnel_healthy = false;
  control_status = [];
  public_ip_known = false;
  public_ip_present = false;
  last_health_check = zero_time;
  last_healthy = zero_time;
  unhealthy_since = zero_time;
  consecutive_unhealthy = pos 0;
  confirmed_healthy = false;
  healthy_since_recovery = false;
  ineffective_recoveries = pos 0;
  regen_error = [];
  health_error = [];
  ip_signal_warn = false;
  policy = new_outage_policy (pos 3);
  lifetime_file = missing;
  calls = 0;
  log = [];
}

abbrev pub ticks : List Tick
ticks = health_tick ∷ health_tick ∷ proactive_tick ∷ []

effective_cooldown-eq_min_example :
    effective_cooldown (seconds 180) (pos 2) ≡ pos (min (180000000000 * 2 ^ 2) cap_ns)
effective_cooldown-eq_min_example = effective_cooldown-eq_min (seconds 180) 2 180000000000 refl

run_refresh-RestartsLoad_example :
    RestartsLoad (run_refresh silent settings initial ticks).runtime.log
run_refresh-RestartsLoad_example =
    run_refresh-RestartsLoad silent settings initial ticks (refl, unfold new_outage_policy in refl)

run_refresh-AlertsAlternate_example :
    AlertsAlternate
      (run_refresh silent settings initial ticks).runtime.policy.alerted
      (run_refresh silent settings initial ticks).runtime.log
run_refresh-AlertsAlternate_example =
    run_refresh-AlertsAlternate silent settings initial ticks
      (refl, unfold new_outage_policy in refl)

-- The world of `silent`, where Docker is out of reach.
abbrev stuck : Env
stuck = record silent { restart = λ n. some (codes "no such container") }

abbrev stuck-CannotRestart : CannotRestart stuck settings
stuck-CannotRestart = record {
  gen = λ n. made;
  why = λ n. codes "no such container";
  generates = λ n. refl;
  restarts_fail = λ n. refl;
  container = refl;
}

regenerate_with_backoff_storm_example :
    (registrations (regenerate_with_backoff stuck settings startup initial).0.log ≡ 6)
    × ((regenerate_with_backoff stuck settings startup initial).1 ≢ none)
    × ((regenerate_with_backoff stuck settings startup initial).0.last_recovery ≡ zero_time)
regenerate_with_backoff_storm_example =
    regenerate_with_backoff_storm stuck settings startup initial stuck-CannotRestart

on_health_tick-registrations_example :
    Reacts settings
      (sample silent settings initial)
      (silent.now (observed silent settings initial).calls)
      initial
      (on_health_tick silent settings initial)
on_health_tick-registrations_example = on_health_tick-registrations silent settings initial

regenerated : (regenerate_with_backoff silent settings reactive_recovery initial).1 ≡ none
unfolding regenerate_with_backoff attempts regenerate_once
regenerated = refl

regenerate_with_backoff-IsRecovery_example :
    IsRecovery initial (regenerate_with_backoff silent settings reactive_recovery initial).0
regenerate_with_backoff-IsRecovery_example =
    regenerate_with_backoff-IsRecovery silent settings initial regenerated

-- One unhealthy sample is enough.
abbrev eager : Settings
eager = record settings { unhealthy_threshold = pos 1 }

abbrev silent-CanRecover : CanRecover silent
silent-CanRecover = record {
  gen = λ n. made;
  generates = λ n. refl;
  writes = λ n. refl;
  restarts = λ n. refl;
}

on_health_tick-HasRecovered_example : HasRecovered initial (on_health_tick silent eager initial)
unfolding observe threshold_of in_cooldown check_tunnel trim_right_byte trim_space is_space
    fetch_gluetun_status flush_status wrap64 ◌+ℤ◌
on_health_tick-HasRecovered_example =
    on_health_tick-HasRecovered silent eager initial silent-CanRecover
      record { unhealthy = refl; long_enough = refl; cooled = refl }
