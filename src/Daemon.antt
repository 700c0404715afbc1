-- ===== src/Daemon.antt =====
-- The first daemon (main.go, runDaemon): its loop, and the renewal goroutine beside it. The world of
-- one round answers what it asks for: the clock, PIA, files, hooks, Docker and the gateway. What was
-- done to the outside is logged, the newest first.
pub mod World
pub mod Served
pub mod Round
pub mod Exit
use pia_wg_config_generator.Base.{
  Bool, true, false, not, ◌&&◌, Option, none, some, List, [], ◌∷◌, ◌≡◌, if◌then◌else◌,
}
use pia_wg_config_generator.Base.Int.{ℤ, pos, leb_ℤ}
use pia_wg_config_generator.Base.Text.{Text, text_eq, is_empty, trim_space}
use pia_wg_config_generator.Clock.{Time, Duration, add, zero_time}
use pia_wg_config_generator.Api.{Answer, AddKeyResult, GenerateResult}
use pia_wg_config_generator.Status.{DaemonStatus}
use pia_wg_config_generator.Refresh.Schedule.{apply_jitter}
use pia_wg_config_generator.WgConfig.Generate.{
  PiaWgClient, GeneratorConfig, GenerateError, Generation, generated, not_generated,
  generate_with_metadata,
}
use pia_wg_config_generator.PortForward.{
  PfSignatureResponse, PfError, Result, value, error, gateway_from_key_meta, normalize_gateway,
  wait_for_gateway,
}
use pia_wg_config_generator.PortForward.Daemon.{
  Poll, PfSettings, Lease, PfLeaseState, set, disable, PendingRead, pending_unreadable, no_pending,
  pending, acquire_and_bind_port, acquire_port_forward_after_gateway_wait, wait_result,
}
pub use pia_wg_config_generator.Daemon.World.{
  DaemonSettings, DaemonError, client_setup, pending_read, config_write, config_hook_failed,
  restart_failed, pending_write, port_write, generation, port_forward, RoundWorld, DaemonEffect,
  wrote_config, restarted, wrote_pending, removed_pending, wrote_port, ran_port_hook,
  ran_config_hook, status_write, slept_for, slept_until, renewed, DaemonState, RoundEnd, continue,
  exit, logged, disable_lease, round_status,
}

-- The end of a round with an error: the status, and sleepAfterFailure.
unfoldable pub fail : DaemonSettings → RoundWorld → Text → DaemonError → DaemonState → RoundEnd
fail cfg w port e s =
    let s' = logged (status_write (round_status cfg w port (w.text e))) s in
    continue (if leb_ℤ cfg.retry_delay (pos 0) then s' else logged (slept_for cfg.retry_delay) s')

-- The end of a round without one: the status, and sleepUntil.
unfoldable pub succeed : DaemonSettings → RoundWorld → Text → DaemonState → RoundEnd
succeed cfg w port s =
    let status = round_status cfg w port [] in
    continue (logged (slept_until status.next_refresh_utc) (logged (status_write status) s))

-- The hook for a port that is not the last one; a failed hook is ignored.
abbrev announce : Text → DaemonState → DaemonState
announce port s =
    if text_eq port s.last_port
    then s
    else record s { last_port = port; log = ran_port_hook port ∷ s.log }

-- A port that was acquired, and written unless that fails.
abbrev adopt_port : Lease → DaemonState → DaemonState
adopt_port l s =
    let told = announce l.port (logged (wrote_port l.port) s) in
    record told { lease = set l told.lease }

abbrev remove_pending : Option Text → DaemonState → DaemonState
remove_pending none s = logged removed_pending s
remove_pending (some e) s = s

-- The end of a round that has a lease, behind the write of its port: `finish` is what is left to do.
port_result :
    DaemonSettings
    → RoundWorld
    → Lease
    → (DaemonState → DaemonState)
    → Option Text
    → DaemonState
    → RoundEnd
port_result cfg w l finish (some e) s = fail cfg w l.port (port_write e) s
port_result cfg w l finish none s = succeed cfg w l.port (finish (adopt_port l s))

-- The round of a daemon that finds pending metadata.
unfoldable pub from_pending : DaemonSettings → RoundWorld → Result Lease → DaemonState → RoundEnd
unfolding port_result
from_pending cfg w (error e) s = fail cfg w [] (port_forward e) (disable_lease s)
from_pending cfg w (value l) s = port_result cfg w l (remove_pending w.removed) w.port_written s

-- The rest of a round behind the gateway: acquireAndBindPort.
unfoldable pub bind_new : DaemonSettings → RoundWorld → Result Lease → DaemonState → RoundEnd
unfolding port_result
bind_new cfg w (error e) s = fail cfg w [] (port_forward e) (disable_lease s)
bind_new cfg w (value l) s = port_result cfg w l (λ t. t) w.port_written s

-- gatewayFromKeyMeta and waitForGateway
gateway_ready : DaemonSettings → RoundWorld → AddKeyResult → Result {0} Unit
gateway_ready cfg w key = elim (gateway_from_key_meta key) [
  | error e ↦ error e
  | value gateway ↦
      if cfg.pf.wait_enabled
      then wait_result (
          wait_for_gateway w.gateway.dialer cfg.pf.gateway_timeout cfg.pf.gateway_interval
            (normalize_gateway cfg.pf.has_port gateway))
      else value tt
]

with_gateway : DaemonSettings → RoundWorld → AddKeyResult → Result {0} Unit → DaemonState → RoundEnd
with_gateway cfg w key (error e) s = fail cfg w [] (port_forward e) (disable_lease s)
with_gateway cfg w key (value u) s = bind_new cfg w (acquire_and_bind_port cfg.pf w.gateway key) s

unfoldable pub forward : DaemonSettings → RoundWorld → AddKeyResult → DaemonState → RoundEnd
unfolding gateway_ready with_gateway
forward cfg w key s =
    if cfg.port_forwarding
    then with_gateway cfg w key (gateway_ready cfg w key) s
    else succeed cfg w [] s

-- Behind a restart that succeeded: the metadata waits for the next start of the daemon.
pending_result : DaemonSettings → RoundWorld → AddKeyResult → Option Text → DaemonState → RoundEnd
pending_result cfg w key (some e) s = fail cfg w [] (pending_write e) (disable_lease s)
pending_result cfg w key none s =
    exit (logged (status_write (round_status cfg w [] [])) (logged (wrote_pending key) s))

unfoldable pub after_restart : DaemonSettings → RoundWorld → AddKeyResult → DaemonState → RoundEnd
unfolding pending_result
after_restart cfg w key s =
    if cfg.port_forwarding then pending_result cfg w key w.pending_written s else succeed cfg w [] s

-- Behind the config hook.
restart_result : DaemonSettings → RoundWorld → AddKeyResult → Option Text → DaemonState → RoundEnd
restart_result cfg w key (some e) s = fail cfg w [] (restart_failed e) (disable_lease s)
restart_result cfg w key none s =
    after_restart cfg w key (logged (restarted cfg.restart_container) s)

unfoldable pub after_hook : DaemonSettings → RoundWorld → AddKeyResult → DaemonState → RoundEnd
unfolding restart_result
after_hook cfg w key s =
    if is_empty cfg.restart_container
    then forward cfg w key s
    else restart_result cfg w key w.restart s

-- runConfigHook, with the port that is active; a blank command is not run.
abbrev run_config_hook : DaemonSettings → RoundWorld → DaemonState → DaemonState × Option Text
run_config_hook cfg w s =
    if is_empty (trim_space cfg.config_hook_cmd)
    then (s, none)
    else (logged (ran_config_hook cfg.config_hook_cmd s.last_port) s, w.hook)

hooked : DaemonSettings → RoundWorld → AddKeyResult → DaemonState × Option Text → RoundEnd
hooked cfg w key (s, some e) = fail cfg w [] (config_hook_failed e) (disable_lease s)
hooked cfg w key (s, none) = after_hook cfg w key s

-- Behind a generation.
applied : DaemonSettings → RoundWorld → GenerateResult → Option Text → DaemonState → RoundEnd
unfolding hooked
applied cfg w gen (some e) s = fail cfg w [] (config_write e) s
applied cfg w gen none s =
    hooked cfg w gen.key (run_config_hook cfg w (logged (wrote_config gen.config) s))

unfoldable pub apply : DaemonSettings → RoundWorld → Generation → DaemonState → RoundEnd
unfolding applied
apply cfg w (not_generated e) s = fail cfg w [] (generation e) s
apply cfg w (generated gen) s = applied cfg w gen w.written s

refresh : DaemonSettings → RoundWorld → DaemonState → RoundEnd
refresh cfg w s = apply cfg w (generate_with_metadata w.pia cfg.generator w.made) s

unfoldable pub by_pending : DaemonSettings → RoundWorld → PendingRead → DaemonState → RoundEnd
unfolding refresh
by_pending cfg w (pending_unreadable e) s = fail cfg w [] (pending_read e) s
by_pending cfg w no_pending s = refresh cfg w s
by_pending cfg w (pending p) s =
    from_pending cfg w (acquire_port_forward_after_gateway_wait cfg.pf w.gateway p.key) s

by_client : DaemonSettings → RoundWorld → Option Text → DaemonState → RoundEnd
unfolding by_pending refresh
by_client cfg w (some e) s = fail cfg w [] (client_setup e) s
by_client cfg w none s =
    if cfg.port_forwarding then by_pending cfg w w.gateway.read s else refresh cfg w s

-- One round of the loop of runDaemon.
unfoldable pub round : DaemonSettings → RoundWorld → DaemonState → RoundEnd
unfolding by_client
round cfg w s = by_client cfg w w.client s

-- One tick of startPFRenewLoop beside the loop.
unfoldable pub renew : DaemonState → DaemonState
renew s = if s.lease.enabled then logged (renewed s.lease.gateway s.lease.signature) s else s

-- A round of the loop, or a tick of the renewal, which is taken as one step between two rounds. A
-- renewal changes nothing that a round reads.
pub data DaemonEvent : Type 0 where
  round_event : RoundWorld → DaemonEvent
  renew_event : DaemonEvent

-- runDaemon, for as many events as happen; nothing happens once it has returned.
unfoldable pub run_daemon : DaemonSettings → RoundEnd → List DaemonEvent → RoundEnd
run_daemon cfg r [] = r
run_daemon cfg (exit s) (e ∷ es) = exit s
run_daemon cfg (continue s) (round_event w ∷ es) = run_daemon cfg (round cfg w s) es
run_daemon cfg (continue s) (renew_event ∷ es) = run_daemon cfg (continue (renew s)) es

abbrev pub new_daemon_state : DaemonState
new_daemon_state = record {
  lease = record {
    enabled = false;
    gateway = [];
    signature = record { status = []; payload = []; signature = [] };
    port = [];
  };
  last_port = [];
  log = [];
}
