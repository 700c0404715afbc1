-- ===== src/PortForward/Daemon/Unbroken.antt =====
-- A poll that no renewal interrupts: its turns (Daemon/Turns) are the one step `poll` of PortForward/Daemon
-- (pf_daemon.go, runPF).
use pia_wg_config_generator.Base.{◌≡◌, refl, ap, ◌∙◌, inl, inr, Bool-cases, Option-cases}
use pia_wg_config_generator.Clock.{Time, after}
use pia_wg_config_generator.PortForward.{Result, value, error}
use pia_wg_config_generator.PortForward.Daemon.{
  Poll, PendingRead, pending_unreadable, no_pending, pending, PfSettings, Lease, after_acquire,
  poll_pending, poll, acquire_port_forward_after_gateway_wait,
}
use pia_wg_config_generator.PortForward.Daemon.Turns.{
  PollPhase, waiting, to_write, to_announce, to_set, to_disable, PfTurns, end_acquire,
  begin_pending, begin_poll, turn_from, poll_turn,
}

-- The rest of a poll that nothing interrupts.
finish_from : PfSettings → Poll → PollPhase → PfTurns → PfTurns
finish_from cfg w waiting s = s
finish_from cfg w (to_write created l) s = poll_turn cfg w (poll_turn cfg w (poll_turn cfg w s))
finish_from cfg w (to_announce created l) s = poll_turn cfg w (poll_turn cfg w s)
finish_from cfg w (to_set created l) s = poll_turn cfg w s
finish_from cfg w to_disable s = poll_turn cfg w s

abbrev finish : PfSettings → Poll → PfTurns → PfTurns
finish cfg w s = finish_from cfg w s.phase s

-- The end of an acquisition and the turns that follow it are the end of the poll in one step.
finish-end_acquire :
    (cfg : PfSettings) (w : Poll) (created : Time) (r : Result Lease) (s : PfTurns)
    → (finish cfg w (end_acquire created r s)).pf ≡ after_acquire w created r s.pf
unfolding finish_from poll_turn turn_from end_acquire after_acquire
finish-end_acquire cfg w created (error e) s = refl
finish-end_acquire cfg w created (value l) s = refl

finish-waiting :
    (cfg : PfSettings) (w : Poll) (s : PfTurns) → s.phase ≡ waiting → (finish cfg w s).pf ≡ s.pf
unfolding finish_from
finish-waiting cfg w s idle = rw idle refl

finish-begin_poll :
    (cfg : PfSettings) (w : Poll) (r : PendingRead) (s : PfTurns)
    → s.phase ≡ waiting
    → (finish cfg w (begin_poll cfg w r s)).pf ≡ poll cfg w r s.pf
unfolding begin_poll begin_pending poll poll_pending
finish-begin_poll cfg w (pending_unreadable e) s idle = finish-waiting cfg w s idle
finish-begin_poll cfg w no_pending s idle = finish-waiting cfg w s idle
finish-begin_poll cfg w (pending p) s idle =
    elim (Bool-cases (after p.created_utc s.pf.active_registration)) [
      | inr old ↦ rw old (finish-waiting cfg w s idle)
      | inl new ↦ rw new (elim (Option-cases w.client) [
        | inr (e, broken) ↦ simp broken (finish-waiting cfg w s idle)
        | inl made ↦ simp made (
            finish-end_acquire cfg w p.created_utc
              (acquire_port_forward_after_gateway_wait cfg w p.key) s)
      ])
    ]

turn_from_waiting :
    (cfg : PfSettings) (w : Poll) (s : PfTurns)
    → s.phase ≡ waiting
    → poll_turn cfg w s ≡ begin_poll cfg w w.read s
unfolding poll_turn turn_from
turn_from_waiting cfg w s idle = simp idle refl

-- The turns of a poll without a renewal between them do what `poll` does in one step.
finish-poll_turn :
    (cfg : PfSettings) (w : Poll) (s : PfTurns)
    → s.phase ≡ waiting
    → (finish cfg w (poll_turn cfg w s)).pf ≡ poll cfg w w.read s.pf
finish-poll_turn cfg w s idle =
    ap (λ (t : PfTurns). (finish cfg w t).pf) (turn_from_waiting cfg w s idle)
    ∙ finish-begin_poll cfg w w.read s idle
