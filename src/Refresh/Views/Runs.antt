-- ===== src/Refresh/Views/Runs.antt =====
-- Every run of the refresh daemon keeps what each update keeps (refresh.go, runRefresh).
use pia_wg_config_generator.Base.{◌+◌, Bool, true, false, ◌&&◌, List, [], ◌∷◌, inl, inr, Bool-cases}
use pia_wg_config_generator.Base.Int.{ltb_ℤ}
use pia_wg_config_generator.Clock.{Time}
use pia_wg_config_generator.Tunnel.{TunnelState, check_tunnel}
use pia_wg_config_generator.Lifetime.{load}
use pia_wg_config_generator.Refresh.{Settings, Env, Runtime, called}
use pia_wg_config_generator.Refresh.Schedule.{arm_next_refresh}
use pia_wg_config_generator.Refresh.Views.{
  View, view, IsTracked, arm_next_refresh-Tracked, rearm-Tracked, observe-Tracked, account-Tracked,
  record_loss-Tracked,
}
use pia_wg_config_generator.Refresh.Regenerate.{startup, proactive, reactive_recovery}
use pia_wg_config_generator.Refresh.Regenerate.Tracked.{regenerate_with_backoff-Tracked}
use pia_wg_config_generator.Refresh.Loop.{
  on_health_tick, react, recover, threshold_of, in_cooldown, try_adopt, is_adoptable, start_by,
  LoopState, Tick, health_tick, proactive_tick, round, run_rounds, run_refresh,
}

module _ (env : Env) (cfg : Settings) (I : View → Type 0) (t : IsTracked env I) where
  recover-Tracked : (now : Time) (s : Runtime) → I (view s) → I (view (recover env cfg now s))
  unfolding recover
  recover-Tracked now s h =
      regenerate_with_backoff-Tracked env cfg I t reactive_recovery _
        (record_loss-Tracked env cfg I t _ (account-Tracked env cfg I t now s h))

  pub react-Tracked :
      (st : TunnelState) (now : Time) (s : Runtime) → I (view s) → I (view (react env cfg st now s))
  unfolding react
  react-Tracked st now s h = elim (Bool-cases st.healthy) [
    | inl well ↦ rw well h
    | inr ill ↦ elim (Bool-cases (ltb_ℤ s.consecutive_unhealthy (threshold_of cfg))) [
      | inl few ↦ rw (ill, few) (t.called (view s) h)
      | inr enough ↦ elim (Bool-cases (in_cooldown cfg (env.now s.calls) s)) [
        | inl cooling ↦ rw (ill, enough, cooling) (t.called (view s) h)
        | inr ready ↦ rw (ill, enough, ready) (recover-Tracked now (called s) (t.called (view s) h))
      ]
    ]
  ]

  on_health_tick-Tracked : (s : Runtime) → I (view s) → I (view (on_health_tick env cfg s))
  unfolding on_health_tick
  on_health_tick-Tracked s h =
      react-Tracked _ (env.now s.calls) _
        (observe-Tracked env cfg I t _ s.calls (called s) (t.called (view s) h))

  try_adopt-Tracked : (s : Runtime) → I (view s) → I (view (try_adopt env cfg s).0)
  unfolding try_adopt
  try_adopt-Tracked s h =
      let st = check_tunnel (env.fetch s.calls) cfg.control_url cfg.control_timeout in
      elim (Bool-cases (is_adoptable env cfg s.calls (load s.lifetime_file) && st.healthy)) [
        | inl adoptable ↦ rw adoptable (
            observe-Tracked env cfg I t st (s.calls + 1) _
              (t.called (view (called s)) (t.called (view s) h)))
        | inr not_adoptable ↦ rw not_adoptable (t.called (view s) h)
      ]

  start_by-Tracked : (adopt : Bool) (s : Runtime) → I (view s) → I (view (start_by env cfg adopt s))
  unfolding start_by
  start_by-Tracked false s h = regenerate_with_backoff-Tracked env cfg I t startup s h
  start_by-Tracked true s h =
      let adopted = try_adopt-Tracked s h in
      elim (Bool-cases (try_adopt env cfg s).1) [
        | inl did ↦ rw did adopted
        | inr did_not ↦
            rw did_not
              (regenerate_with_backoff-Tracked env cfg I t startup (try_adopt env cfg s).0 adopted)
      ]

  pub start-Tracked :
      (s : Runtime)
      → I (view s)
      → I (view (arm_next_refresh env cfg (start_by env cfg cfg.adopt_healthy s)).0)
  start-Tracked s h =
      arm_next_refresh-Tracked env cfg I t _ (start_by-Tracked cfg.adopt_healthy s h)

  pub round-Tracked :
      (l : LoopState) (tick : Tick) → I (view l.runtime) → I (view (round env cfg l tick).runtime)
  unfolding round
  round-Tracked l health_tick h =
      rearm-Tracked env cfg I t (on_health_tick env cfg l.runtime)
        (on_health_tick-Tracked l.runtime h)
  round-Tracked l proactive_tick h =
      arm_next_refresh-Tracked env cfg I t _
        (regenerate_with_backoff-Tracked env cfg I t proactive l.runtime h)

  run_rounds-Tracked :
      (l : LoopState) (ticks : List Tick)
      → I (view l.runtime)
      → I (view (run_rounds env cfg l ticks).runtime)
  unfolding run_rounds
  run_rounds-Tracked l [] h = h
  run_rounds-Tracked l (tick ∷ ticks) h =
      run_rounds-Tracked (round env cfg l tick) ticks (round-Tracked l tick h)

  pub run_refresh-Tracked :
      (s : Runtime) (ticks : List Tick)
      → I (view s)
      → I (view (run_refresh env cfg s ticks).runtime)
  unfolding run_refresh
  run_refresh-Tracked s ticks h = run_rounds-Tracked _ ticks (start-Tracked s h)
