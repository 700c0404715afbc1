-- ===== src/Refresh/Monitored.antt =====
-- What the health check makes of the status that the refresh daemon writes: the runs of refresh.go, the
-- JSON of status.json (main.go) and evaluateHealth (healthcheck.go) together.
pub mod Whole
use pia_wg_config_generator.Base.{
  ℕ, suc, Bool, true, false, none, List, [], ◌∷◌, ◌≡◌, ◌≢◌, ◌⊎◌, ◌↔◌, inl, inr, refl, All,
  Bool-cases, arith,
}
use pia_wg_config_generator.Base.Int.{◌≤ℤ◌}
use pia_wg_config_generator.Clock.{Time, zero_time, is_zero, sub}
use pia_wg_config_generator.Status.{DaemonStatus}
use pia_wg_config_generator.Status.Json.{marshal_json, unmarshal_json}
use pia_wg_config_generator.Status.Json.Reading.{unmarshal_json-marshal_json}
use pia_wg_config_generator.Healthcheck.{
  HealthOptions, StateFiles, config_size, written_at, decoded, evaluate_health,
}
use pia_wg_config_generator.Healthcheck.Verdict.{Within, IsServing, IsHealthy, evaluate_health_iff}
use pia_wg_config_generator.Tunnel.{TunnelState}
use pia_wg_config_generator.Refresh.{
  Settings, Env, Runtime, Effect, registered, wrote_config, wrote_pending, ran_config_hook,
  asked_restart, wrote_status, alerted, slept,
}
use pia_wg_config_generator.Refresh.Outcome.{fold_sample, health_error_after}
use pia_wg_config_generator.Refresh.Loop.{Tick, run_refresh}
use pia_wg_config_generator.Refresh.Restarts.{IsInitial}
use pia_wg_config_generator.Refresh.Views.{View, view, IsSilent, Shows, IsTracked}
use pia_wg_config_generator.Refresh.Views.Runs.{run_refresh-Tracked}

-- Of the time of the last sample, its verdict and the start of the outage: no sample was taken yet,
-- or one was, and the tunnel is healthy or its outage has a start.
abbrev HasStart : Time → Bool → Time → Type 0
HasStart last well since =
    ((last ≡ zero_time) × (well ≡ false) × (since ≡ zero_time))
    ⊎ ((last ≢ zero_time) × ((well ≡ true) ⊎ ((well ≡ false) × (since ≢ zero_time))))

abbrev Told : Effect → Type 0
Told (wrote_status st) = HasStart st.last_health_check_utc st.tunnel_healthy st.unhealthy_since_utc
Told _ = Unit

record Tells (v : View) : Type 0 where
  start : HasStart v.last_health_check v.tunnel_healthy v.unhealthy_since
  log : All Told v.log

-- The files of a state directory with a config of `size + 1` bytes, and with the status at time `t`.
abbrev pub files_of : ℕ → Time → DaemonStatus → StateFiles
files_of size t st = record {
  config = config_size (suc size);
  stat = written_at t;
  content = decoded (unmarshal_json (marshal_json st));
}

-- A status, written at time `t`, that is within the limits of the health check.
pub record IsWithin (o : HealthOptions) (t : Time) (st : DaemonStatus) : Type 0 where
  pub fresh : Within o.max_status_age (sub o.now t)
  pub outage :
      (st.tunnel_healthy ≡ true) ⊎ Within o.max_unhealthy (sub o.now st.unhealthy_since_utc)
  pub expiry :
      (st.expected_expiry_utc ≡ zero_time) ⊎ (sub o.now st.expected_expiry_utc ≤ℤ o.expiry_grace)

-- A status that shows no sample, and whose check fails; or one that shows a sample, and whose check
-- passes just within the limits.
abbrev pub IsMonitored : HealthOptions → ℕ → Time → Effect → Type 0
IsMonitored o size t (wrote_status st) =
    ((st.last_health_check_utc ≡ zero_time) × (evaluate_health o (files_of size t st) ≢ none))
    ⊎ ((st.last_health_check_utc ≢ zero_time)
        × ((evaluate_health o (files_of size t st) ≡ none) ↔ IsWithin o t st))
IsMonitored o size t _ = Unit

silent-Told : (e : Effect) → IsSilent e → Told e
silent-Told (registered gen) h = tt
silent-Told (wrote_config text) h = tt
silent-Told (wrote_pending t key) h = absurd h
silent-Told (ran_config_hook cmd) h = tt
silent-Told (asked_restart name) h = tt
silent-Told (wrote_status st) h = absurd h
silent-Told (alerted e) h = tt
silent-Told (slept d) h = tt

is_zero_no : (t : Time) → is_zero t ≡ false → t ≢ zero_time
is_zero_no t h = ground arith

shown-Told :
    (v : View) (st : DaemonStatus)
    → Shows v st
    → Tells v
    → HasStart st.last_health_check_utc st.tunnel_healthy st.unhealthy_since_utc
shown-Told v st shows h =
    rw (shows.last_health_check, shows.tunnel_healthy, shows.unhealthy_since) h.start

module _ (env : Env) (runs : (n : ℕ) → env.now n ≢ zero_time) where
  sampled-Tells :
      (st : TunnelState) (n : ℕ) (s : Runtime)
      → Tells (view s)
      → Tells (view (fold_sample env st (env.now n) s))
  unfolding fold_sample health_error_after
  sampled-Tells st n s h = elim (Bool-cases st.healthy) [
    | inl well ↦ rw well (record { start = inr (runs n, inl refl); log = h.log })
    | inr ill ↦ elim (Bool-cases (is_zero s.unhealthy_since)) [
      | inl first ↦
          rw (ill, first) (record { start = inr (runs n, inr (refl, runs n)); log = h.log })
      | inr later ↦
          rw (ill, later)
            (record {
              start = inr (runs n, inr (refl, is_zero_no s.unhealthy_since later));
              log = h.log;
            })
    ]
  ]

  Tells-Tracked : IsTracked env Tells
  Tells-Tracked = record {
    called = λ v h. record { start = h.start; log = h.log };
    pending = λ v gen made h. record { start = h.start; log = (tt, h.log) };
    silent = λ v e quiet h. record { start = h.start; log = (silent-Told e quiet, h.log) };
    status = λ v st shows h. record { start = h.start; log = (shown-Told v st shows h, h.log) };
    alert = λ v n region cause known h. record { start = h.start; log = (tt, h.log) };
    no_error = λ v h. record { start = h.start; log = h.log };
    some_error = λ v e h. record { start = h.start; log = h.log };
    sample = sampled-Tells;
  }
