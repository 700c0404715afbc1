-- ===== src/Daemon/World.antt =====
-- What a round of runDaemon (main.go) reads, changes and does: its settings, the world of one round,
-- the variables of the loop, and the status that it writes.
use pia_wg_config_generator.Base.{Bool, false, Option, none, List, [], ◌∷◌}
use pia_wg_config_generator.Base.Int.{pos}
use pia_wg_config_generator.Base.Text.{Text}
use pia_wg_config_generator.Clock.{Time, Duration, add, zero_time}
use pia_wg_config_generator.Api.{Answer, AddKeyResult}
use pia_wg_config_generator.Status.{DaemonStatus}
use pia_wg_config_generator.Refresh.Schedule.{apply_jitter}
use pia_wg_config_generator.WgConfig.Generate.{PiaWgClient, GeneratorConfig, GenerateError}
use pia_wg_config_generator.PortForward.{PfSignatureResponse, PfError}
use pia_wg_config_generator.PortForward.Daemon.{Poll, PfSettings, PfLeaseState, disable}

-- What runDaemon reads of its flags.
pub record DaemonSettings : Type 0 where
  pub region : Text
  pub port_forwarding : Bool
  pub server_name : Bool
  pub ipv6_mode_str : Text
  pub generator : GeneratorConfig
  pub interval : Duration
  pub jitter_max : Duration
  pub retry_delay : Duration
  pub pf : PfSettings
  pub restart_container : Text
  pub config_hook_cmd : Text

-- The errors of a round, by their stage.
pub data DaemonError : Type 0 where
  client_setup pending_read config_write config_hook_failed restart_failed pending_write
        port_write :
      Text → DaemonError
  generation : GenerateError → DaemonError
  port_forward : PfError → DaemonError

-- The world of one round. `client` is the error of NewPIAClient and `removed` that of the removal of
-- the pending file, if they fail, and so on; `gateway` answers what concerns port forwarding.
pub record RoundWorld : Type 0 where
  pub now : Time
  pub generated_at : Time
  pub random : Option Duration
  pub client : Option Text
  pub pia : PiaWgClient
  pub made : Answer (Text × Text)
  pub written : Option Text
  pub hook : Option Text
  pub restart : Option Text
  pub pending_written : Option Text
  pub port_written : Option Text
  pub removed : Option Text
  pub gateway : Poll
  pub text : DaemonError → Text

pub data DaemonEffect : Type 0 where
  wrote_config : Text → DaemonEffect
  restarted : Text → DaemonEffect
  wrote_pending : AddKeyResult → DaemonEffect
  removed_pending : DaemonEffect
  wrote_port : Text → DaemonEffect
  -- the call of runHook with a port, whose error is ignored
  ran_port_hook : Text → DaemonEffect
  ran_config_hook : Text → Text → DaemonEffect
  -- the call of writeStatus, whose error is ignored
  status_write : DaemonStatus → DaemonEffect
  slept_for : Duration → DaemonEffect
  -- sleepUntil, which returns at once if the time has come
  slept_until : Time → DaemonEffect
  renewed : Text → PfSignatureResponse → DaemonEffect

-- The variables of runDaemon.
pub record DaemonState : Type 0 where
  pub lease : PfLeaseState
  pub last_port : Text
  pub log : List DaemonEffect

-- How a round ends: on to the next one, or with the return of runDaemon.
pub data RoundEnd : Type 0 where
  continue exit : DaemonState → RoundEnd

abbrev pub logged : DaemonEffect → DaemonState → DaemonState
logged e s = record s { log = e ∷ s.log }

abbrev pub disable_lease : DaemonState → DaemonState
disable_lease s = record s { lease = disable s.lease }

-- The status of a round, with the port and the error that it has by the end.
abbrev pub round_status : DaemonSettings → RoundWorld → Text → Text → DaemonStatus
round_status cfg w port err = record {
  region = cfg.region;
  mode = [];
  last_generate_utc = w.generated_at;
  last_forward_port = port;
  last_error = err;
  next_refresh_utc = add w.now (apply_jitter cfg.interval cfg.jitter_max w.random);
  port_forwarding = cfg.port_forwarding;
  server_name_enabled = cfg.server_name;
  ipv6_mode = cfg.ipv6_mode_str;
  registration_utc = zero_time;
  registration_age_secs = pos 0;
  expected_expiry_utc = zero_time;
  lifetime_source = [];
  measured_lifetime_secs = pos 0;
  tunnel_healthy = false;
  control_status = [];
  public_ip_present = none;
  last_health_check_utc = zero_time;
  last_healthy_utc = zero_time;
  unhealthy_since_utc = zero_time;
  last_recovery_utc = zero_time;
  recovery_count = pos 0;
  failed_attempts = pos 0;
}
