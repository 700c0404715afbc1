-- ===== src/PortForward/Daemon/Renewals.antt =====
-- The actions of the poll loop and the renewal (pf_daemon.go, runPF, and main.go, startPFRenewLoop) in
-- any turns that the two goroutines take, against Daemon/Order.
use pia_wg_config_generator.Base.{
  true, Option, none, some, List, [], ◌∷◌, ◌≡◌, refl, sym, ◌∙◌, inl, inr, if◌then◌else◌, Bool-cases,
  Option-cases,
}
use pia_wg_config_generator.Base.Text.{text_eq, text_eq_iff}
use pia_wg_config_generator.Clock.{Time, after}
use pia_wg_config_generator.PortForward.{Result, value, error}
use pia_wg_config_generator.PortForward.Daemon.{
  Poll, PendingRead, pending_unreadable, no_pending, pending, PfSettings, Lease, PfLeaseState, set,
  disable, acquire_port_forward_after_gateway_wait,
}
use pia_wg_config_generator.PortForward.Daemon.Turns.{
  PollPhase, waiting, to_write, to_announce, to_set, to_disable, PfAction, acquired_lease,
  failed_to_acquire, ran_hook, set_lease, disabled_lease, took_snapshot, bound_port, PfTurns,
  end_acquire, begin_pending, begin_poll, turn_from, poll_turn, take_snapshot, bind_snapshot,
  renew_from, renew_turn, PfTurn, poll_next, renew_next, run_turns, new_pf_turns,
}
use pia_wg_config_generator.PortForward.Daemon.Order.{
  acquisition, in_force, snapped, announced, IsSettled, IsInOrder,
}

-- The lease that the state holds, if it is enabled.
abbrev held : PfLeaseState → Option Lease
held s =
    if s.enabled
    then some record { port = s.port; sig = s.signature; gateway = s.gateway }
    else none

-- What is known in the middle of a poll.
abbrev IsPlaced : PollPhase → List PfAction → Type 0
IsPlaced waiting past = IsSettled past
IsPlaced (to_write created l) past = acquisition past ≡ some l
IsPlaced (to_announce created l) past = acquisition past ≡ some l
IsPlaced (to_set created l) past = (acquisition past ≡ some l) × (announced past ≡ l.port)
IsPlaced to_disable past = acquisition past ≡ none

-- The snapshot that the renewal holds is of the lease in force at its time.
abbrev IsSnapped : Option PfLeaseState → List PfAction → Type 0
IsSnapped none past = Unit
IsSnapped (some s) past =
    snapped past ≡ some record { port = s.port; sig = s.signature; gateway = s.gateway }

record Inv (s : PfTurns) : Type 0 where
  order : IsInOrder s.actions
  lease : held s.pf.lease ≡ in_force s.actions
  port : s.pf.last_port ≡ announced s.actions
  placed : IsPlaced s.phase s.actions
  snap : IsSnapped s.snapshot s.actions

IsSnapped-skip :
    (o : Option PfLeaseState) (past more : List PfAction)
    → snapped more ≡ snapped past
    → IsSnapped o past
    → IsSnapped o more
IsSnapped-skip none past more e h = tt
IsSnapped-skip (some s) past more e h = e ∙ h

IsPlaced-skip :
    (p : PollPhase) (past more : List PfAction)
    → acquisition more ≡ acquisition past
    → announced more ≡ announced past
    → (IsSettled past → IsSettled more)
    → IsPlaced p past
    → IsPlaced p more
IsPlaced-skip waiting past more e f g h = g h
IsPlaced-skip (to_write created l) past more e f g h = e ∙ h
IsPlaced-skip (to_announce created l) past more e f g h = e ∙ h
IsPlaced-skip (to_set created l) past more e f g h = (e ∙ h.0, f ∙ h.1)
IsPlaced-skip to_disable past more e f g h = e ∙ h

end_acquire-Inv :
    (created : Time) (r : Result Lease) (s : PfTurns)
    → IsSettled s.actions
    → Inv s
    → Inv (end_acquire created r s)
unfolding end_acquire
end_acquire-Inv created (error e) s settled h = record {
  order = (settled, h.order);
  lease = h.lease;
  port = h.port;
  placed = refl;
  snap = IsSnapped-skip s.snapshot s.actions (failed_to_acquire ∷ s.actions) refl h.snap;
}
end_acquire-Inv created (value l) s settled h = record {
  order = (settled, h.order);
  lease = h.lease;
  port = h.port;
  placed = refl;
  snap = IsSnapped-skip s.snapshot s.actions (acquired_lease l ∷ s.actions) refl h.snap;
}

begin_poll-Inv :
    (cfg : PfSettings) (w : Poll) (r : PendingRead) (s : PfTurns)
    → IsSettled s.actions
    → Inv s
    → Inv (begin_poll cfg w r s)
unfolding begin_poll begin_pending
begin_poll-Inv cfg w (pending_unreadable e) s settled h = h
begin_poll-Inv cfg w no_pending s settled h = h
begin_poll-Inv cfg w (pending p) s settled h =
    elim (Bool-cases (after p.created_utc s.pf.active_registration)) [
      | inr old ↦ rw old h
      | inl new ↦ rw new (elim (Option-cases w.client) [
        | inr (e, broken) ↦ rw broken h
        | inl made ↦ rw made (
            end_acquire-Inv p.created_utc (acquire_port_forward_after_gateway_wait cfg w p.key) s
              settled h)
      ])
    ]

to_announce-Inv :
    (cfg : PfSettings) (w : Poll) (created : Time) (l : Lease) (s : PfTurns)
    → acquisition s.actions ≡ some l
    → Inv s
    → Inv (turn_from cfg w (to_announce created l) s)
unfolding turn_from
to_announce-Inv cfg w created l s is_last h = elim (Bool-cases (text_eq l.port s.pf.last_port)) [
  | inl same ↦ rw same (record {
    order = h.order;
    lease = h.lease;
    port = h.port;
    placed = (is_last, sym h.port ∙ sym ((text_eq_iff l.port s.pf.last_port).0 same));
    snap = h.snap;
  })
  | inr new ↦ rw new (record {
    order = ((l, is_last, refl, rw h.port at new), h.order);
    lease = h.lease;
    port = refl;
    placed = (is_last, refl);
    snap = IsSnapped-skip s.snapshot s.actions (ran_hook l.port ∷ s.actions) refl h.snap;
  })
]

-- A turn of the poll loop, from where it is.
turn_from-Inv :
    (cfg : PfSettings) (w : Poll) (p : PollPhase) (s : PfTurns)
    → IsPlaced p s.actions
    → Inv s
    → Inv (turn_from cfg w p s)
unfolding turn_from set disable
turn_from-Inv cfg w waiting s placed h = begin_poll-Inv cfg w w.read s placed h
turn_from-Inv cfg w (to_write created l) s placed h = record {
  order = h.order;
  lease = h.lease;
  port = h.port;
  placed = placed;
  snap = h.snap;
}
turn_from-Inv cfg w (to_announce created l) s placed h = to_announce-Inv cfg w created l s placed h
turn_from-Inv cfg w (to_set created l) s placed h = record {
  order = (placed, h.order);
  lease = refl;
  port = h.port;
  placed = tt;
  snap = IsSnapped-skip s.snapshot s.actions (set_lease l ∷ s.actions) refl h.snap;
}
turn_from-Inv cfg w to_disable s placed h = record {
  order = (placed, h.order);
  lease = refl;
  port = h.port;
  placed = tt;
  snap = IsSnapped-skip s.snapshot s.actions (disabled_lease ∷ s.actions) refl h.snap;
}

held_on :
    (l : PfLeaseState)
    → l.enabled ≡ true
    → held l ≡ some record { port = l.port; sig = l.signature; gateway = l.gateway }
held_on l on = rw on refl

take_snapshot-Inv : (s : PfTurns) → Inv s → Inv (take_snapshot s)
unfolding take_snapshot
take_snapshot-Inv s h = elim (Bool-cases s.pf.lease.enabled) [
  | inl on ↦ simp on (record {
    order = h.order;
    lease = h.lease;
    port = h.port;
    placed =
        IsPlaced-skip s.phase s.actions (took_snapshot ∷ s.actions) refl refl (λ k. k) h.placed;
    snap = sym h.lease ∙ held_on s.pf.lease on;
  })
  | inr off ↦ simp off h
]

renew_from-Inv :
    (o : Option PfLeaseState) (s : PfTurns) → IsSnapped o s.actions → Inv s → Inv (renew_from o s)
unfolding renew_from bind_snapshot
renew_from-Inv none s snap h = take_snapshot-Inv s h
renew_from-Inv (some l) s snap h = record {
  order = (
    (record { port = l.port; sig = l.signature; gateway = l.gateway }, snap, refl, refl),
    h.order,
  );
  lease = h.lease;
  port = h.port;
  placed =
      IsPlaced-skip s.phase s.actions (bound_port l.gateway l.signature ∷ s.actions) refl refl
        (λ k. k) h.placed;
  snap = tt;
}

run_turns-Inv :
    (cfg : PfSettings) (s : PfTurns) (ts : List PfTurn) → Inv s → Inv (run_turns cfg s ts)
unfolding run_turns poll_turn renew_turn
run_turns-Inv cfg s [] h = h
run_turns-Inv cfg s (poll_next w ∷ ts) h =
    run_turns-Inv cfg (turn_from cfg w s.phase s) ts (turn_from-Inv cfg w s.phase s h.placed h)
run_turns-Inv cfg s (renew_next ∷ ts) h =
    run_turns-Inv cfg (renew_from s.snapshot s) ts (renew_from-Inv s.snapshot s h.snap h)

initial-Inv : Inv new_pf_turns
initial-Inv = record { order = tt; lease = refl; port = refl; placed = tt; snap = tt }

-- However the poll loop and the renewal of the port-forwarding daemon interleave from its start, with a
-- renewal between any two effects of a poll and polls between the snapshot of a renewal and its bind:
-- each renewal binds the gateway and the signature of the lease that was set last before its snapshot
-- and had not been disabled then; after each acquisition, the lease that it gave is set, or the lease is
-- disabled, before the next one; a lease is set only if the last acquisition gave it and its port is
-- the one announced last, and disabled only if the last acquisition failed; and the hook runs only for
-- the port of the last acquisition, where it is not the port that it ran for before.
pub run_turns-IsInOrder :
    (cfg : PfSettings) (ts : List PfTurn) → IsInOrder (run_turns cfg new_pf_turns ts).actions
run_turns-IsInOrder cfg ts = (run_turns-Inv cfg new_pf_turns ts initial-Inv).order
