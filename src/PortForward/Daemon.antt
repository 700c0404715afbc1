-- ===== src/PortForward/Daemon.antt =====
-- The acquisition and renewal of a lease (main.go) and the poll loop of pf_daemon.go. The world of one
-- poll answers what it asks for: the pending file, PIA, the gateway and the clock. What was done to the
-- outside is logged, the newest first.
pub mod Turns
pub mod Unbroken
pub mod Order
pub mod Renewals
pub mod Acquired
use pia_wg_config_generator.Base.{
  ℕ, zero, suc, ◌+◌, Bool, true, false, not, Option, none, some, List, [], ◌∷◌, if◌then◌else◌,
}
use pia_wg_config_generator.Base.Int.{ℤ}
use pia_wg_config_generator.Base.Text.{Text, text_eq}
use pia_wg_config_generator.Clock.{Time, Duration, zero_time, after}
use pia_wg_config_generator.Api.{Answer, ok, failed, AddKeyResult}
use pia_wg_config_generator.PortForward.{
  PfSignatureResponse, PfPayload, BindResponse, Reply, PfError, gateway_empty, token_failed,
  gateway_unreachable, still_waiting, Result, value, error, and_then, normalize_gateway,
  get_signature, bind_port, gateway_from_key_meta, Dialer, Reached, reached, out_of_fuel,
  no_address, unreachable, wait_for_gateway,
}

-- What one poll finds of the pending file.
pub record PendingPortForward : Type 0 where
  pub created_utc : Time
  pub key : AddKeyResult

pub data PendingRead : Type 0 where
  pending_unreadable : Text → PendingRead
  no_pending : PendingRead
  pending : PendingPortForward → PendingRead

pub record PfSettings : Type 0 where
  pub wait_enabled : Bool
  pub gateway_timeout : Duration
  pub gateway_interval : Duration
  pub has_port : Text → Bool

-- The world of one poll. `client` is the error of NewPIAClient, if it fails; `write` that of the
-- write of forwarded_port.
pub record Poll : Type 0 where
  pub read : PendingRead
  pub client : Option Text
  pub dialer : Dialer
  pub token : Answer Text
  pub signature : Reply PfSignatureResponse
  pub decode : Text → Answer PfPayload
  pub bind : Reply BindResponse
  pub write : Option Text
  pub itoa : ℤ → Text

-- What acquirePortForwardAfterGatewayWait returns: the port, the signature and the gateway.
pub record Lease : Type 0 where
  pub port : Text
  pub sig : PfSignatureResponse
  pub gateway : Text

unfoldable pub wait_result : Reached → Result {0} Unit
wait_result reached = value tt
wait_result no_address = error gateway_empty
wait_result (unreachable e) = error (gateway_unreachable e)
wait_result out_of_fuel = error still_waiting

token_result : Answer Text → Result Text
token_result (ok token) = value token
token_result (failed e) = error (token_failed e)

-- acquireAndBindPort
unfoldable pub acquire_and_bind_port : PfSettings → Poll → AddKeyResult → Result Lease
unfolding token_result
acquire_and_bind_port cfg w key = and_then (gateway_from_key_meta key) λ gateway.
    and_then (token_result w.token) λ token.
      and_then (get_signature (normalize_gateway cfg.has_port gateway) w.signature w.decode)
        λ (sig, payload).
          and_then (bind_port (normalize_gateway cfg.has_port gateway) w.bind)
            λ r. value record { port = w.itoa payload.port; sig = sig; gateway = gateway }

-- acquirePortForwardAfterGatewayWait
unfoldable pub acquire_port_forward_after_gateway_wait :
    PfSettings → Poll → AddKeyResult → Result Lease
unfolding wait_result
acquire_port_forward_after_gateway_wait cfg w key = and_then (gateway_from_key_meta key) λ gateway.
    and_then
      (if cfg.wait_enabled
        then wait_result (
            wait_for_gateway w.dialer cfg.gateway_timeout cfg.gateway_interval
              (normalize_gateway cfg.has_port gateway))
        else value tt)
      λ u. acquire_and_bind_port cfg w key

-- pfLeaseState, without its mutex.
pub record PfLeaseState : Type 0 where
  pub enabled : Bool
  pub gateway : Text
  pub signature : PfSignatureResponse
  pub port : Text

unfoldable pub set : Lease → PfLeaseState → PfLeaseState
set l s = record { enabled = true; gateway = l.gateway; signature = l.sig; port = l.port }

unfoldable pub disable : PfLeaseState → PfLeaseState
disable s = record s { enabled = false }

pub data PfEffect : Type 0 where
  acquired : Time → Lease → PfEffect
  acquire_failed : Time → PfError → PfEffect
  wrote_port : Text → PfEffect
  ran_port_hook : Text → PfEffect
  renewed : Text → PfSignatureResponse → PfEffect

-- The variables of runPF, and what it has done.
pub record PfState : Type 0 where
  pub lease : PfLeaseState
  pub active_registration : Time
  pub last_port : Text
  pub log : List PfEffect

abbrev log_write : Option Text → Text → List PfEffect → List PfEffect
log_write none port log = wrote_port port ∷ log
log_write (some e) port log = log

-- The hook, for a port that is not the last one; a failed hook is ignored.
abbrev announce : Text → PfState → PfState
announce port s =
    if text_eq port s.last_port
    then s
    else record s { last_port = port; log = ran_port_hook port ∷ s.log }

-- The end of a poll, behind the acquisition.
unfoldable pub after_acquire : Poll → Time → Result Lease → PfState → PfState
after_acquire w created (error e) s = record s {
  lease = disable s.lease;
  log = acquire_failed created e ∷ s.log;
}
after_acquire w created (value l) s =
    let written = record s { log = log_write w.write l.port (acquired created l ∷ s.log) } in
    let told = announce l.port written in
    record told { lease = set l told.lease; active_registration = created }

unfoldable pub poll_pending : PfSettings → Poll → PendingPortForward → PfState → PfState
poll_pending cfg w p s =
    if not (after p.created_utc s.active_registration) then s else elim w.client [
      | some e ↦ s
      | none ↦ after_acquire w p.created_utc (acquire_port_forward_after_gateway_wait cfg w p.key) s
    ]

-- One poll of the loop of runPF, where no renewal comes between its effects; Daemon/Turns has the turns
-- of both goroutines.
unfoldable pub poll : PfSettings → Poll → PendingRead → PfState → PfState
poll cfg w (pending_unreadable e) s = s
poll cfg w no_pending s = s
poll cfg w (pending p) s = poll_pending cfg w p s

-- One tick of startPFRenewLoop, where no poll comes between its snapshot and its bind: BindPort with the
-- lease, if it is enabled. Its result is only logged by the source.
unfoldable pub renew : PfState → PfState
renew s =
    if s.lease.enabled
    then record s { log = renewed s.lease.gateway s.lease.signature ∷ s.log }
    else s

abbrev pub new_pf_state : PfState
new_pf_state = record {
  lease = record {
    enabled = false;
    gateway = [];
    signature = record { status = []; payload = []; signature = [] };
    port = [];
  };
  active_registration = zero_time;
  last_port = [];
  log = [];
}
