-- ===== src/Refresh.antt =====
-- The refresh daemon of refresh.go: its settings, its state, and the world that answers its calls.
-- refreshRuntime is split in two: Settings holds the fields that runRefresh sets once, Runtime
-- those that the loop changes. Each call to the outside (the clock, PIA, files, Docker, the
-- control server) gets its answer from an Env, by the number of calls made so far, which Runtime
-- counts; what was done to the outside is logged, the newest first. Logging under `verbose` and
-- the mutexes leave no trace: runRefresh calls every method from one goroutine.
pub mod Schedule
pub mod Outcome
pub mod Regenerate
pub mod Loop
pub mod Cooldown
pub mod Log
pub mod Frame
pub mod Restarts
pub mod Seen
pub mod Recovery
pub mod Views
pub mod Secrets
pub mod Monitored
pub mod HandOver
pub mod Reported
pub mod Planned
use pia_wg_config_generator.Base.{ℕ, ◌+◌, Bool, Option, List, ◌∷◌}
use pia_wg_config_generator.Base.Int.{ℤ}
use pia_wg_config_generator.Base.Text.{Text}
use pia_wg_config_generator.Clock.{Time, Duration}
use pia_wg_config_generator.Api.{AddKeyResult, GenerateResult}
use pia_wg_config_generator.Lifetime.{RecordFile}
use pia_wg_config_generator.Outage.{OutagePolicy}
use pia_wg_config_generator.Status.{DaemonStatus}
use pia_wg_config_generator.Tunnel.{Fetch, TunnelError}

pub record Settings : Type 0 where
  pub region : Text
  pub server_name : Bool
  pub port_forwarding : Bool
  pub ipv6_mode_str : Text
  pub fallback_interval : Duration
  pub jitter_max : Duration
  pub max_registration_age : Duration
  pub adopt_healthy : Bool
  pub health_interval : Duration
  pub unhealthy_threshold : ℤ  -- int
  pub control_url : Text
  pub control_timeout : Duration
  pub backoff_min : Duration
  pub backoff_max : Duration
  pub recovery_cooldown : Duration
  pub restart_container : Text
  pub config_hook_cmd : Text

-- An error of a regeneration, with the text of what it wraps; `exhausted` is the one that
-- regenerateWithBackoff returns. A TunnelError is that of a health check.
pub data Error : Type 0 where
  config_generation config_write pending_write gluetun_restart : Text → Error
  exhausted : Error → Error
  tunnel : TunnelError → Error

pub data Generated : Type 0 where
  generated : GenerateResult → Generated
  not_generated : Text → Generated

-- The answer to the call of each number. `write` is that of an atomic write, an error or none;
-- `random` is rand.Int below jitterMax, `none` its error; `config_file` and `previous_region` are
-- what is read of wg0.conf and of the region in status.json.
pub record Env : Type 0 where
  pub now : ℕ → Time
  pub generate : ℕ → Generated
  pub write : ℕ → Option Text
  pub restart : ℕ → Option Text
  pub random : ℕ → Option Duration
  pub fetch : ℕ → Fetch
  pub config_file : ℕ → Option Text
  pub previous_region : ℕ → Option Text
  -- rt.redact(err.Error())
  pub redacted : Error → Text

-- alertEvent, with the parts of its message.
pub data AlertEvent : Type 0 where
  failure_event : ℤ → Text → Text → AlertEvent
  recovered_event : Duration → ℤ → AlertEvent

pub data Effect : Type 0 where
  registered : GenerateResult → Effect
  wrote_config : Text → Effect
  wrote_pending : Time → AddKeyResult → Effect
  ran_config_hook : Text → Effect
  asked_restart : Text → Effect
  wrote_status : DaemonStatus → Effect
  alerted : AlertEvent → Effect
  slept : Duration → Effect

pub record Runtime : Type 0 where
  pub last_generate : Time
  pub next_refresh : Time
  pub last_recovery : Time
  pub recovery_count : ℤ  -- int64
  pub tunnel_healthy : Bool
  pub control_status : Text
  pub public_ip_known : Bool
  pub public_ip_present : Bool
  pub last_health_check : Time
  pub last_healthy : Time
  pub unhealthy_since : Time
  pub consecutive_unhealthy : ℤ  -- int
  pub confirmed_healthy : Bool
  pub healthy_since_recovery : Bool
  pub ineffective_recoveries : ℤ  -- int
  pub regen_error : Text
  pub health_error : Text
  pub ip_signal_warn : Bool
  pub policy : OutagePolicy
  pub lifetime_file : RecordFile
  pub calls : ℕ
  pub log : List Effect

-- One more call was made.
abbrev pub called : Runtime → Runtime
called s = record s { calls = s.calls + 1 }

abbrev pub emit : Effect → Runtime → Runtime
emit e s = record s { log = e ∷ s.log }
