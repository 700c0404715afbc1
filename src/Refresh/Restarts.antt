-- ===== src/Refresh/Restarts.antt =====
-- What the log of every run of the refresh daemon shows, whatever the world answers.
use pia_wg_config_generator.Base.{
  ◌+◌, Bool, true, false, ◌&&◌, List, [], ◌∷◌, ◌≡◌, inl, inr, Bool-cases,
}
use pia_wg_config_generator.Base.Int.{ltb_ℤ}
use pia_wg_config_generator.Clock.{Time}
use pia_wg_config_generator.Tunnel.{TunnelState, check_tunnel}
use pia_wg_config_generator.Lifetime.{load}
use pia_wg_config_generator.Refresh.{Settings, Env, Runtime, called}
use pia_wg_config_generator.Refresh.Log.{
  Inv, RestartsLoad, AlertsAlternate, arm_next_refresh-Inv, rearm-Inv, observe-Inv, account-Inv,
  record_loss-Inv,
}
use pia_wg_config_generator.Refresh.Regenerate.{startup, proactive, reactive_recovery}
use pia_wg_config_generator.Refresh.Regenerate.Steps.{regenerate_with_backoff-Inv}
use pia_wg_config_generator.Refresh.Loop.{
  on_health_tick, react, recover, threshold_of, in_cooldown, try_adopt, is_adoptable, start_by,
  LoopState, Tick, health_tick, proactive_tick, round, run_rounds, run_refresh,
}

called-Inv : (s : Runtime) → Inv s → Inv (called s)
called-Inv s h = record { restarts = h.restarts; alerts = h.alerts }

recover-Inv :
    (env : Env) (cfg : Settings) (now : Time) (s : Runtime) → Inv s → Inv (recover env cfg now s)
unfolding recover
recover-Inv env cfg now s h =
    regenerate_with_backoff-Inv env cfg reactive_recovery _
      (record_loss-Inv env _ (account-Inv cfg now s h))

react-Inv :
    (env : Env) (cfg : Settings) (st : TunnelState) (now : Time) (s : Runtime)
    → Inv s
    → Inv (react env cfg st now s)
unfolding react
react-Inv env cfg st now s h =
    let waits = called-Inv s h in
    let acts = recover-Inv env cfg now (called s) waits in
    elim (Bool-cases st.healthy) [
      | inl well ↦ rw well h
      | inr ill ↦ elim (Bool-cases (ltb_ℤ s.consecutive_unhealthy (threshold_of cfg))) [
        | inl few ↦ rw (ill, few) waits
        | inr enough ↦ elim (Bool-cases (in_cooldown cfg (env.now s.calls) s)) [
          | inl cooling ↦ rw (ill, enough, cooling) waits
          | inr ready ↦ rw (ill, enough, ready) acts
        ]
      ]
    ]

on_health_tick-Inv :
    (env : Env) (cfg : Settings) (s : Runtime) → Inv s → Inv (on_health_tick env cfg s)
unfolding on_health_tick
on_health_tick-Inv env cfg s h =
    react-Inv env cfg _ (env.now s.calls) _
      (observe-Inv env cfg _ (env.now s.calls) (called s) (called-Inv s h))

try_adopt-Inv : (env : Env) (cfg : Settings) (s : Runtime) → Inv s → Inv (try_adopt env cfg s).0
unfolding try_adopt
try_adopt-Inv env cfg s h =
    let st = check_tunnel (env.fetch s.calls) cfg.control_url cfg.control_timeout in
    elim (Bool-cases (is_adoptable env cfg s.calls (load s.lifetime_file) && st.healthy)) [
      | inl adoptable ↦ rw adoptable (
          observe-Inv env cfg st (env.now (s.calls + 1)) _
            (record { restarts = h.restarts; alerts = h.alerts }))
      | inr not_adoptable ↦ rw not_adoptable (called-Inv s h)
    ]

start_by-Inv :
    (env : Env) (cfg : Settings) (adopt : Bool) (s : Runtime)
    → Inv s
    → Inv (start_by env cfg adopt s)
unfolding start_by
start_by-Inv env cfg false s h = regenerate_with_backoff-Inv env cfg startup s h
start_by-Inv env cfg true s h =
    let adopted = try_adopt-Inv env cfg s h in
    elim (Bool-cases (try_adopt env cfg s).1) [
      | inl did ↦ rw did adopted
      | inr did_not ↦
          rw did_not (regenerate_with_backoff-Inv env cfg startup (try_adopt env cfg s).0 adopted)
    ]

round-Inv :
    (env : Env) (cfg : Settings) (l : LoopState) (t : Tick)
    → Inv l.runtime
    → Inv (round env cfg l t).runtime
unfolding round
round-Inv env cfg l health_tick h =
    rearm-Inv env cfg (on_health_tick env cfg l.runtime) (on_health_tick-Inv env cfg l.runtime h)
round-Inv env cfg l proactive_tick h =
    arm_next_refresh-Inv env cfg _ (regenerate_with_backoff-Inv env cfg proactive l.runtime h)

run_rounds-Inv :
    (env : Env) (cfg : Settings) (l : LoopState) (ts : List Tick)
    → Inv l.runtime
    → Inv (run_rounds env cfg l ts).runtime
unfolding run_rounds
run_rounds-Inv env cfg l [] h = h
run_rounds-Inv env cfg l (t ∷ ts) h =
    run_rounds-Inv env cfg (round env cfg l t) ts (round-Inv env cfg l t h)

run_refresh-Inv :
    (env : Env) (cfg : Settings) (s : Runtime) (ts : List Tick)
    → Inv s
    → Inv (run_refresh env cfg s ts).runtime
unfolding run_refresh
run_refresh-Inv env cfg s ts h =
    run_rounds-Inv env cfg _ ts
      (arm_next_refresh-Inv env cfg _ (start_by-Inv env cfg cfg.adopt_healthy s h))

-- A runtime as runRefresh makes it: nothing done yet and no outage alerted.
abbrev pub IsInitial : Runtime → Type 0
IsInitial s = (s.log ≡ []) × (s.policy.alerted ≡ false)

initial-Inv : (s : Runtime) → IsInitial s → Inv s
initial-Inv s (empty, quiet) = record { restarts = rw empty tt; alerts = rw empty quiet }

-- In every run of the refresh daemon from its start, for any answers of the world and any order of
-- ticks, each restart of gluetun is asked for only after a config was written that no earlier
-- restart has loaded. No restart is spent on an old config, whatever fails.
pub run_refresh-RestartsLoad :
    (env : Env) (cfg : Settings) (s : Runtime) (ts : List Tick)
    → IsInitial s
    → RestartsLoad (run_refresh env cfg s ts).runtime.log
run_refresh-RestartsLoad env cfg s ts i = (run_refresh-Inv env cfg s ts (initial-Inv s i)).restarts

-- In every such run the failure alerts and recovered notices that are sent strictly alternate,
-- beginning with an alert; the policy's flag says whether the last one sent was an alert.
pub run_refresh-AlertsAlternate :
    (env : Env) (cfg : Settings) (s : Runtime) (ts : List Tick)
    → IsInitial s
    → AlertsAlternate
        (run_refresh env cfg s ts).runtime.policy.alerted
        (run_refresh env cfg s ts).runtime.log
run_refresh-AlertsAlternate env cfg s ts i = (run_refresh-Inv env cfg s ts (initial-Inv s i)).alerts
