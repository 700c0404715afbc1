-- ===== src/Daemon/Exit.antt =====
-- When runDaemon returns (main.go, runDaemon).
use pia_wg_config_generator.Base.{
  true, false, Option, none, some, [], ◌∷◌, ◌≡◌, ◌≢◌, refl, sym, ap, inl, inr, Bool-cases,
}
use pia_wg_config_generator.Base.Text.{Text, is_empty}
use pia_wg_config_generator.Api.{AddKeyResult, GenerateResult}
use pia_wg_config_generator.WgConfig.Generate.{
  Generation, generated, not_generated, generate_with_metadata,
}
use pia_wg_config_generator.PortForward.{Result, value, error}
use pia_wg_config_generator.PortForward.Daemon.{
  Lease, PendingRead, pending_unreadable, no_pending, pending,
}
use pia_wg_config_generator.Daemon.{
  DaemonSettings, RoundWorld, DaemonError, status_write, DaemonState, RoundEnd, exit, logged, fail,
  succeed, remove_pending, from_pending, bind_new, port_result, applied, restart_result, by_client,
  gateway_ready, with_gateway, pending_result, forward, after_restart, after_hook, run_config_hook,
  hooked, apply, refresh, by_pending, round, wrote_config, restarted, wrote_pending,
}
use pia_wg_config_generator.Daemon.{round_status}
use pia_wg_config_generator.Daemon.Served.{end_state}

-- What a round has done when it returns from runDaemon in `t`: the config that it generated is
-- written, the container is restarted behind it, and the metadata of that config is written for
-- the next start.
pub record HandsOver (cfg : DaemonSettings) (w : RoundWorld) (s t : DaemonState) : Type 0 where
  pub gen : GenerateResult
  pub generates : generate_with_metadata w.pia cfg.generator w.made ≡ generated gen
  pub named : is_empty cfg.restart_container ≡ false
  pub forwards : cfg.port_forwarding ≡ true
  pub no_errors :
      (w.client ≡ none) × (w.written ≡ none) × (w.restart ≡ none) × (w.pending_written ≡ none)
  pub log :
      t.log
      ≡ status_write (round_status cfg w [] [])
        ∷ wrote_pending gen.key
        ∷ restarted cfg.restart_container
        ∷ (run_config_hook cfg w (logged (wrote_config gen.config) s)).0.log

module _ (cfg : DaemonSettings) (w : RoundWorld) (t : DaemonState) where
  fail_goes_on : (port : Text) (e : DaemonError) (s : DaemonState) → fail cfg w port e s ≢ exit t
  unfolding fail
  fail_goes_on port e s h = cc

  succeed_goes_on : (port : Text) (s : DaemonState) → succeed cfg w port s ≢ exit t
  unfolding succeed
  succeed_goes_on port s h = cc

  port_result_goes_on :
      (l : Lease) (finish : DaemonState → DaemonState) (o : Option Text) (s : DaemonState)
      → port_result cfg w l finish o s ≢ exit t
  unfolding port_result
  port_result_goes_on l finish (some e) s = fail_goes_on l.port _ s
  port_result_goes_on l finish none s = succeed_goes_on l.port _

  from_pending_goes_on : (r : Result Lease) (s : DaemonState) → from_pending cfg w r s ≢ exit t
  unfolding from_pending
  from_pending_goes_on (error e) s = fail_goes_on [] _ _
  from_pending_goes_on (value l) s =
      port_result_goes_on l (remove_pending w.removed) w.port_written s

  bind_new_goes_on : (r : Result Lease) (s : DaemonState) → bind_new cfg w r s ≢ exit t
  unfolding bind_new
  bind_new_goes_on (error e) s = fail_goes_on [] _ _
  bind_new_goes_on (value l) s = port_result_goes_on l (λ u. u) w.port_written s

  with_gateway_goes_on :
      (key : AddKeyResult) (r : Result {0} Unit) (s : DaemonState)
      → with_gateway cfg w key r s ≢ exit t
  unfolding with_gateway
  with_gateway_goes_on key (error e) s = fail_goes_on [] _ _
  with_gateway_goes_on key (value u) s = bind_new_goes_on _ s

  forward_goes_on : (key : AddKeyResult) (s : DaemonState) → forward cfg w key s ≢ exit t
  unfolding forward
  forward_goes_on key s h = elim (Bool-cases cfg.port_forwarding) [
    | inl on ↦ with_gateway_goes_on key (gateway_ready cfg w key) s (simp on at h)
    | inr off ↦ succeed_goes_on [] s (simp off at h)
  ]

  exits_of_pending :
      (key : AddKeyResult) (o : Option Text) (s : DaemonState)
      → pending_result cfg w key o s ≡ exit t
      → (o ≡ none) × (t.log ≡ status_write (round_status cfg w [] []) ∷ wrote_pending key ∷ s.log)
  unfolding pending_result
  exits_of_pending key (some e) s h = absurd (fail_goes_on [] _ _ h)
  exits_of_pending key none s h = (refl, sym (ap (λ (r : RoundEnd). (end_state r).log) h))

  exits_of_restart :
      (key : AddKeyResult) (o : Option Text) (s : DaemonState)
      → restart_result cfg w key o s ≡ exit t
      → (o ≡ none)
        × (cfg.port_forwarding ≡ true)
        × (w.pending_written ≡ none)
        × (t.log
            ≡ status_write (round_status cfg w [] [])
              ∷ wrote_pending key
              ∷ restarted cfg.restart_container
              ∷ s.log)
  unfolding restart_result after_restart
  exits_of_restart key (some e) s h = absurd (fail_goes_on [] _ _ h)
  exits_of_restart key none s h = elim (Bool-cases cfg.port_forwarding) [
    | inl on ↦
        let (ok, log) =
          exits_of_pending key w.pending_written (logged (restarted cfg.restart_container) s)
            (simp on at h) in
        (refl, on, ok, log)
    | inr off ↦ absurd (succeed_goes_on [] _ (simp off at h))
  ]

  exits_of_hook :
      (key : AddKeyResult) (s : DaemonState) (o : Option Text)
      → hooked cfg w key (s, o) ≡ exit t
      → (is_empty cfg.restart_container ≡ false)
        × (w.restart ≡ none)
        × (cfg.port_forwarding ≡ true)
        × (w.pending_written ≡ none)
        × (t.log
            ≡ status_write (round_status cfg w [] [])
              ∷ wrote_pending key
              ∷ restarted cfg.restart_container
              ∷ s.log)
  unfolding hooked after_hook
  exits_of_hook key s (some e) h = absurd (fail_goes_on [] _ _ h)
  exits_of_hook key s none h = elim (Bool-cases (is_empty cfg.restart_container)) [
    | inl absent ↦ absurd (forward_goes_on key s (simp absent at h))
    | inr named ↦
        let (ok, on, pending_ok, log) = exits_of_restart key w.restart s (simp named at h) in
        (named, ok, on, pending_ok, log)
  ]

  exits_of_write :
      (s : DaemonState) (gen : GenerateResult) (o : Option Text)
      → w.client ≡ none
      → generate_with_metadata w.pia cfg.generator w.made ≡ generated gen
      → w.written ≡ o
      → applied cfg w gen o s ≡ exit t
      → HandsOver cfg w s t
  unfolding applied
  exits_of_write s gen (some e) c g ok h = absurd (fail_goes_on [] _ s h)
  exits_of_write s gen none c g ok h =
      let hook = run_config_hook cfg w (logged (wrote_config gen.config) s) in
      let (named, restart_ok, on, pending_ok, log) = exits_of_hook gen.key hook.0 hook.1 h in
      record {
        gen = gen;
        generates = g;
        named = named;
        forwards = on;
        no_errors = (c, ok, restart_ok, pending_ok);
        log = log;
      }

  exits_of_apply :
      (s : DaemonState) (g : Generation)
      → w.client ≡ none
      → generate_with_metadata w.pia cfg.generator w.made ≡ g
      → apply cfg w g s ≡ exit t
      → HandsOver cfg w s t
  unfolding apply
  exits_of_apply s (not_generated e) c g h = absurd (fail_goes_on [] _ s h)
  exits_of_apply s (generated gen) c g h = exits_of_write s gen w.written c g refl h

  exits_of_by_pending :
      (s : DaemonState) (p : PendingRead)
      → w.client ≡ none
      → by_pending cfg w p s ≡ exit t
      → HandsOver cfg w s t
  unfolding by_pending refresh
  exits_of_by_pending s (pending_unreadable e) c h = absurd (fail_goes_on [] _ s h)
  exits_of_by_pending s no_pending c h = exits_of_apply s _ c refl h
  exits_of_by_pending s (pending p) c h = absurd (from_pending_goes_on _ s h)

  exits_of_client :
      (s : DaemonState) (o : Option Text)
      → w.client ≡ o
      → by_client cfg w o s ≡ exit t
      → HandsOver cfg w s t
  unfolding by_client refresh
  exits_of_client s (some e) c h = absurd (fail_goes_on [] _ s h)
  exits_of_client s none c h = elim (Bool-cases cfg.port_forwarding) [
    | inl on ↦ exits_of_by_pending s w.gateway.read c (simp on at h)
    | inr off ↦ exits_of_apply s _ c refl (simp off at h)
  ]

-- runDaemon returns from a round only when port forwarding is on and a container to restart is named,
-- and then the round has, in this order, written the config that it generated, run the config hook (if
-- one is given), restarted the container, written the metadata of that config for the next start, and
-- written the status.
pub round-HandsOver :
    (cfg : DaemonSettings) (w : RoundWorld) (s t : DaemonState)
    → round cfg w s ≡ exit t
    → HandsOver cfg w s t
unfolding round
round-HandsOver cfg w s t h = exits_of_client cfg w t s w.client refl h
