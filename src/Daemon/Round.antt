-- ===== src/Daemon/Round.antt =====
-- What every round of the daemon does (main.go, runDaemon).
use pia_wg_config_generator.Base.{
  Option, none, some, List, [], ◌∷◌, refl, inl, inr, arith, Bool-cases,
}
use pia_wg_config_generator.Base.Text.{Text, is_empty, trim_space}
use pia_wg_config_generator.Api.{AddKeyResult, GenerateResult}
use pia_wg_config_generator.WgConfig.Generate.{Generation, generated, not_generated}
use pia_wg_config_generator.PortForward.{Result, value, error}
use pia_wg_config_generator.PortForward.Daemon.{
  Lease, PendingRead, pending_unreadable, no_pending, pending,
}
use pia_wg_config_generator.Daemon.{
  DaemonSettings, RoundWorld, DaemonState, RoundEnd, continue, exit, logged, adopt_port,
  from_pending, bind_new, port_result, applied, restart_result, by_client, gateway_ready,
  with_gateway, pending_result, forward, after_restart, after_hook, run_config_hook, hooked, apply,
  refresh, by_pending, round, renew, DaemonEvent, round_event, renew_event, run_daemon,
  new_daemon_state, wrote_config, restarted,
}
use pia_wg_config_generator.Daemon.Served.{
  IsServed, Mid, IsDone, end_state, fail-IsDone, succeed-IsDone, disable_lease-Mid, adopt_port-Mid,
  remove_pending-Mid,
}

module _ (cfg : DaemonSettings) (w : RoundWorld) (s : DaemonState) where
  port_result-IsDone :
      (l : Lease) (finish : DaemonState → DaemonState) (o : Option Text) (t : DaemonState)
      → ((u : DaemonState) → Mid s u → Mid s (finish u))
      → Mid s t
      → IsDone s (port_result cfg w l finish o t)
  unfolding port_result
  port_result-IsDone l finish (some e) t f m = fail-IsDone cfg w s l.port _ t m
  port_result-IsDone l finish none t f m =
      succeed-IsDone cfg w s l.port _ (f (adopt_port l t) (adopt_port-Mid cfg w s l t m))

  from_pending-IsDone :
      (r : Result Lease) (t : DaemonState) → Mid s t → IsDone s (from_pending cfg w r t)
  unfolding from_pending
  from_pending-IsDone (error e) t m = fail-IsDone cfg w s [] _ _ (disable_lease-Mid cfg w s t m)
  from_pending-IsDone (value l) t m =
      port_result-IsDone l _ w.port_written t (remove_pending-Mid cfg w s w.removed) m

  bind_new-IsDone : (r : Result Lease) (t : DaemonState) → Mid s t → IsDone s (bind_new cfg w r t)
  unfolding bind_new
  bind_new-IsDone (error e) t m = fail-IsDone cfg w s [] _ _ (disable_lease-Mid cfg w s t m)
  bind_new-IsDone (value l) t m = port_result-IsDone l _ w.port_written t (λ u k. k) m

  with_gateway-IsDone :
      (key : AddKeyResult) (r : Result {0} Unit) (t : DaemonState)
      → Mid s t
      → IsDone s (with_gateway cfg w key r t)
  unfolding with_gateway
  with_gateway-IsDone key (error e) t m = fail-IsDone cfg w s [] _ _ (disable_lease-Mid cfg w s t m)
  with_gateway-IsDone key (value u) t m = bind_new-IsDone _ t m

  forward-IsDone : (key : AddKeyResult) (t : DaemonState) → Mid s t → IsDone s (forward cfg w key t)
  unfolding forward
  forward-IsDone key t m = elim (Bool-cases cfg.port_forwarding) [
    | inl on ↦ simp on (with_gateway-IsDone key (gateway_ready cfg w key) t m)
    | inr off ↦ simp off (succeed-IsDone cfg w s [] t m)
  ]

  pending_result-IsDone :
      (key : AddKeyResult) (o : Option Text) (t : DaemonState)
      → Mid s t
      → IsDone s (pending_result cfg w key o t)
  unfolding pending_result
  pending_result-IsDone key (some e) t m =
      fail-IsDone cfg w s [] _ _ (disable_lease-Mid cfg w s t m)
  pending_result-IsDone key none t m = record {
    served = record {
      remembered = m.served.remembered;
      announced = m.served.announced;
      in_file = m.served.in_file;
    };
    once = omega (arith, m.unreported);
    last = tt;
  }

  after_restart-IsDone :
      (key : AddKeyResult) (t : DaemonState) → Mid s t → IsDone s (after_restart cfg w key t)
  unfolding after_restart
  after_restart-IsDone key t m = elim (Bool-cases cfg.port_forwarding) [
    | inl on ↦ simp on (pending_result-IsDone key w.pending_written t m)
    | inr off ↦ simp off (succeed-IsDone cfg w s [] t m)
  ]

  restarted-Mid : (name : Text) (t : DaemonState) → Mid s t → Mid s (logged (restarted name) t)
  restarted-Mid name t m = record {
    served = record {
      remembered = m.served.remembered;
      announced = m.served.announced;
      in_file = m.served.in_file;
    };
    unreported = m.unreported;
  }

  restart_result-IsDone :
      (key : AddKeyResult) (o : Option Text) (t : DaemonState)
      → Mid s t
      → IsDone s (restart_result cfg w key o t)
  unfolding restart_result
  restart_result-IsDone key (some e) t m =
      fail-IsDone cfg w s [] _ _ (disable_lease-Mid cfg w s t m)
  restart_result-IsDone key none t m =
      after_restart-IsDone key _ (restarted-Mid cfg.restart_container t m)

  after_hook-IsDone :
      (key : AddKeyResult) (t : DaemonState) → Mid s t → IsDone s (after_hook cfg w key t)
  unfolding after_hook
  after_hook-IsDone key t m = elim (Bool-cases (is_empty cfg.restart_container)) [
    | inl absent ↦ simp absent (forward-IsDone key t m)
    | inr named ↦ simp named (restart_result-IsDone key w.restart t m)
  ]

  hooked-IsDone :
      (key : AddKeyResult) (t : DaemonState) (e : Option Text)
      → Mid s t
      → IsDone s (hooked cfg w key (t, e))
  unfolding hooked
  hooked-IsDone key t (some e) m = fail-IsDone cfg w s [] _ _ (disable_lease-Mid cfg w s t m)
  hooked-IsDone key t none m = after_hook-IsDone key t m

  run_config_hook-Mid : (t : DaemonState) → Mid s t → Mid s (run_config_hook cfg w t).0
  run_config_hook-Mid t m = elim (Bool-cases (is_empty (trim_space cfg.config_hook_cmd))) [
    | inl blank ↦ simp blank m
    | inr given ↦ simp given (record {
      served = record {
        remembered = m.served.remembered;
        announced = m.served.announced;
        in_file = m.served.in_file;
      };
      unreported = m.unreported;
    })
  ]

  applied-IsDone :
      (gen : GenerateResult) (o : Option Text) → Mid s s → IsDone s (applied cfg w gen o s)
  unfolding applied
  applied-IsDone gen (some e) m = fail-IsDone cfg w s [] _ s m
  applied-IsDone gen none m =
      let t = logged (wrote_config gen.config) s in
      hooked-IsDone gen.key (run_config_hook cfg w t).0 (run_config_hook cfg w t).1 (
        run_config_hook-Mid t (record {
          served = record {
            remembered = m.served.remembered;
            announced = m.served.announced;
            in_file = m.served.in_file;
          };
          unreported = m.unreported;
        }))

  apply-IsDone : (g : Generation) → Mid s s → IsDone s (apply cfg w g s)
  unfolding apply
  apply-IsDone (not_generated e) m = fail-IsDone cfg w s [] _ s m
  apply-IsDone (generated gen) m = applied-IsDone gen w.written m

  by_pending-IsDone : (p : PendingRead) → Mid s s → IsDone s (by_pending cfg w p s)
  unfolding by_pending refresh
  by_pending-IsDone (pending_unreadable e) m = fail-IsDone cfg w s [] _ s m
  by_pending-IsDone no_pending m = apply-IsDone _ m
  by_pending-IsDone (pending p) m = from_pending-IsDone _ s m

  by_client-IsDone : (o : Option Text) → Mid s s → IsDone s (by_client cfg w o s)
  unfolding by_client refresh
  by_client-IsDone (some e) m = fail-IsDone cfg w s [] _ s m
  by_client-IsDone none m = elim (Bool-cases cfg.port_forwarding) [
    | inl on ↦ simp on (by_pending-IsDone w.gateway.read m)
    | inr off ↦ simp off (apply-IsDone _ m)
  ]

-- Every round ends with one write of the status, behind everything else but the sleep; and if the
-- lease was disabled, or for the port that the hook was called with last and that forwarded_port
-- holds, it is so again.
pub round-IsDone :
    (cfg : DaemonSettings) (w : RoundWorld) (s : DaemonState)
    → IsServed s
    → IsDone s (round cfg w s)
unfolding round
round-IsDone cfg w s h =
    by_client-IsDone cfg w s w.client (record { served = h; unreported = refl })

renew-IsServed : (s : DaemonState) → IsServed s → IsServed (renew s)
unfolding renew
renew-IsServed s h = elim (Bool-cases s.lease.enabled) [
  | inl on ↦
      simp on (record { remembered = h.remembered; announced = h.announced; in_file = h.in_file })
  | inr off ↦ simp off h
]

run-IsServed :
    (cfg : DaemonSettings) (r : RoundEnd) (es : List DaemonEvent)
    → IsServed (end_state r)
    → IsServed (end_state (run_daemon cfg r es))
unfolding run_daemon
run-IsServed cfg r [] h = h
run-IsServed cfg (exit s) (e ∷ es) h = h
run-IsServed cfg (continue s) (round_event w ∷ es) h =
    run-IsServed cfg (round cfg w s) es (round-IsDone cfg w s h).served
run-IsServed cfg (continue s) (renew_event ∷ es) h =
    run-IsServed cfg (continue (renew s)) es (renew-IsServed s h)

-- However many rounds the daemon has done from its start, with renewals between them, at the end of
-- each the lease is disabled, or for the port that the hook was called with last and that
-- forwarded_port holds.
pub run_daemon-IsServed :
    (cfg : DaemonSettings) (es : List DaemonEvent)
    → IsServed (end_state (run_daemon cfg (continue new_daemon_state) es))
run_daemon-IsServed cfg es =
    run-IsServed cfg (continue new_daemon_state) es
      (record { remembered = refl; announced = λ h. absurd (cc); in_file = λ h. absurd (cc) })
