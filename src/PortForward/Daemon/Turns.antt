-- ===== src/PortForward/Daemon/Turns.antt =====
-- The two goroutines of the port-forwarding daemon in turns: the poll loop of pf_daemon.go, runPF, and
-- startPFRenewLoop of main.go. They share the lease, whose mutex is held for one set, disable or
-- snapshot only. A turn of the poll loop is what it does up to the next of its effects, so a renewal
-- can run between any two of them; a turn of the renewal takes the snapshot, or binds with it.
use pia_wg_config_generator.Base.{not, Option, none, some, List, [], ◌∷◌, if◌then◌else◌}
use pia_wg_config_generator.Base.Text.{Text, text_eq}
use pia_wg_config_generator.Clock.{Time, after}
use pia_wg_config_generator.PortForward.{PfSignatureResponse, Result, value, error}
use pia_wg_config_generator.PortForward.Daemon.{
  Poll, PendingPortForward, PendingRead, pending_unreadable, no_pending, pending, PfSettings, Lease,
  PfLeaseState, set, disable, acquired, acquire_failed, renewed, PfState, log_write, announce,
  new_pf_state, acquire_port_forward_after_gateway_wait,
}

-- Where the poll loop is: between polls, or in a poll that has acquired a lease and is to write its
-- port, to announce it or to set the lease, or in one that has failed to and is to disable the lease.
pub data PollPhase : Type 0 where
  waiting : PollPhase
  to_write : Time → Lease → PollPhase
  to_announce : Time → Lease → PollPhase
  to_set : Time → Lease → PollPhase
  to_disable : PollPhase

-- What the goroutines do to the lease and with it.
pub data PfAction : Type 0 where
  acquired_lease : Lease → PfAction
  failed_to_acquire : PfAction
  ran_hook : Text → PfAction
  set_lease : Lease → PfAction
  disabled_lease : PfAction
  took_snapshot : PfAction
  bound_port : Text → PfSignatureResponse → PfAction

-- The variables of runPF, the place of its loop, the enabled snapshot that the renewal holds, and the
-- actions up to now, the newest first.
pub record PfTurns : Type 0 where
  pub pf : PfState
  pub phase : PollPhase
  pub snapshot : Option PfLeaseState
  pub actions : List PfAction

-- The end of the acquisition of a poll.
unfoldable pub end_acquire : Time → Result Lease → PfTurns → PfTurns
end_acquire created (error e) s = record s {
  pf = record s.pf { log = acquire_failed created e ∷ s.pf.log };
  phase = to_disable;
  actions = failed_to_acquire ∷ s.actions;
}
end_acquire created (value l) s = record s {
  pf = record s.pf { log = acquired created l ∷ s.pf.log };
  phase = to_write created l;
  actions = acquired_lease l ∷ s.actions;
}

unfoldable pub begin_pending : PfSettings → Poll → PendingPortForward → PfTurns → PfTurns
begin_pending cfg w p s =
    if not (after p.created_utc s.pf.active_registration) then s else elim w.client [
      | some e ↦ s
      | none ↦ end_acquire p.created_utc (acquire_port_forward_after_gateway_wait cfg w p.key) s
    ]

unfoldable pub begin_poll : PfSettings → Poll → PendingRead → PfTurns → PfTurns
begin_poll cfg w (pending_unreadable e) s = s
begin_poll cfg w no_pending s = s
begin_poll cfg w (pending p) s = begin_pending cfg w p s

-- A turn of the poll loop from a given place.
unfoldable pub turn_from : PfSettings → Poll → PollPhase → PfTurns → PfTurns
turn_from cfg w waiting s = begin_poll cfg w w.read s
turn_from cfg w (to_write created l) s = record s {
  pf = record s.pf { log = log_write w.write l.port s.pf.log };
  phase = to_announce created l;
}
turn_from cfg w (to_announce created l) s = record s {
  pf = announce l.port s.pf;
  phase = to_set created l;
  actions = if text_eq l.port s.pf.last_port then s.actions else ran_hook l.port ∷ s.actions;
}
turn_from cfg w (to_set created l) s = record s {
  pf = record s.pf { lease = set l s.pf.lease; active_registration = created };
  phase = waiting;
  actions = set_lease l ∷ s.actions;
}
turn_from cfg w to_disable s = record s {
  pf = record s.pf { lease = disable s.pf.lease };
  phase = waiting;
  actions = disabled_lease ∷ s.actions;
}

unfoldable pub poll_turn : PfSettings → Poll → PfTurns → PfTurns
poll_turn cfg w s = turn_from cfg w s.phase s

-- A tick of startPFRenewLoop: the snapshot, if the lease is enabled.
unfoldable pub take_snapshot : PfTurns → PfTurns
take_snapshot s =
    if s.pf.lease.enabled
    then record s { snapshot = some s.pf.lease; actions = took_snapshot ∷ s.actions }
    else s

-- BindPort with the snapshot; its result is only logged by the source.
unfoldable pub bind_snapshot : PfLeaseState → PfTurns → PfTurns
bind_snapshot l s = record s {
  pf = record s.pf { log = renewed l.gateway l.signature ∷ s.pf.log };
  snapshot = none;
  actions = bound_port l.gateway l.signature ∷ s.actions;
}

unfoldable pub renew_from : Option PfLeaseState → PfTurns → PfTurns
renew_from none s = take_snapshot s
renew_from (some l) s = bind_snapshot l s

unfoldable pub renew_turn : PfTurns → PfTurns
unfolding renew_from
renew_turn s = renew_from s.snapshot s

-- A turn of one goroutine; `poll_next` has the world of the poll.
pub data PfTurn : Type 0 where
  poll_next : Poll → PfTurn
  renew_next : PfTurn

unfoldable pub run_turns : PfSettings → PfTurns → List PfTurn → PfTurns
run_turns cfg s [] = s
run_turns cfg s (poll_next w ∷ ts) = run_turns cfg (poll_turn cfg w s) ts
run_turns cfg s (renew_next ∷ ts) = run_turns cfg (renew_turn s) ts

abbrev pub new_pf_turns : PfTurns
new_pf_turns = record { pf = new_pf_state; phase = waiting; snapshot = none; actions = [] }
