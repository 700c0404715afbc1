-- ===== src/Refresh/Monitored/Whole.antt =====
-- The health check (healthcheck.go) of each status in a run of the refresh daemon (refresh.go).
use pia_wg_config_generator.Base.{
  ℕ, true, false, none, List, [], ◌∷◌, ◌≡◌, ◌≢◌, ◌⊎◌, ◌↔◌, inl, inr, refl, All,
}
use pia_wg_config_generator.Clock.{Time, zero_time, sub}
use pia_wg_config_generator.Status.{DaemonStatus}
use pia_wg_config_generator.Status.Json.{marshal_json, unmarshal_json}
use pia_wg_config_generator.Status.Json.Reading.{unmarshal_json-marshal_json}
use pia_wg_config_generator.Healthcheck.{HealthOptions, written_at, decoded, evaluate_health}
use pia_wg_config_generator.Healthcheck.Verdict.{Within, IsServing, IsHealthy, evaluate_health_iff}
use pia_wg_config_generator.Refresh.{
  Settings, Env, Runtime, Effect, registered, wrote_config, wrote_pending, ran_config_hook,
  asked_restart, wrote_status, alerted, slept,
}
use pia_wg_config_generator.Refresh.Loop.{Tick, run_refresh}
use pia_wg_config_generator.Refresh.Restarts.{IsInitial}
use pia_wg_config_generator.Refresh.Views.Runs.{run_refresh-Tracked}
use pia_wg_config_generator.Refresh.Monitored.{
  Told, Tells, Tells-Tracked, files_of, IsWithin, IsMonitored,
}

module _ (o : HealthOptions) (size : ℕ) (t : Time) where
  -- What the JSON gives back of the fields that the check reads.
  IsServing-read :
      (st : DaemonStatus) → IsServing o (unmarshal_json (marshal_json st)) ↔ IsServing o st
  IsServing-read st = rw (unmarshal_json-marshal_json st) (
    (λ h. record { tunnel = h.tunnel; expiry = h.expiry }),
    λ h. record { tunnel = h.tunnel; expiry = h.expiry },
  )

  passes_iff :
      (st : DaemonStatus)
      → (evaluate_health o (files_of size t st) ≡ none)
        ↔ (Within o.max_status_age (sub o.now t) × IsServing o st)
  passes_iff st = (
    (λ h. passed ((evaluate_health_iff o (files_of size t st)).0 h)),
    λ (fresh, serving). (evaluate_health_iff o (files_of size t st)).1 (record {
      size = size;
      mod_time = t;
      status = unmarshal_json (marshal_json st);
      has_config = refl;
      has_status = refl;
      fresh = fresh;
      reads = refl;
      serving = (IsServing-read st).1 serving;
    }),
  )
    where
      same_time : (u : Time) → written_at t ≡ written_at u → t ≡ u
      same_time u h = cc

      same_status : (a b : DaemonStatus) → decoded a ≡ decoded b → a ≡ b
      same_status a b h = cc

      passed :
          IsHealthy o (files_of size t st) → Within o.max_status_age (sub o.now t) × IsServing o st
      passed i = (
        rw (same_time i.mod_time i.has_status) i.fresh,
        (IsServing-read st).0
            (rw (same_status (unmarshal_json (marshal_json st)) i.status i.reads) i.serving),
      )

  unsampled_fails :
      (st : DaemonStatus)
      → st.tunnel_healthy ≡ false
      → st.unhealthy_since_utc ≡ zero_time
      → evaluate_health o (files_of size t st) ≢ none
  unsampled_fails st ill no_start h = elim ((passes_iff st).0 h).1.tunnel [
    | inl well ↦ absurd (cc)
    | inr (start, within) ↦ absurd (start no_start)
  ]

  sampled_iff :
      (st : DaemonStatus)
      → (st.tunnel_healthy ≡ true)
        ⊎ ((st.tunnel_healthy ≡ false) × (st.unhealthy_since_utc ≢ zero_time))
      → (evaluate_health o (files_of size t st) ≡ none) ↔ IsWithin o t st
  sampled_iff st told = (
    (λ h. within ((passes_iff st).0 h)),
    λ i. (passes_iff st).1 (i.fresh, record { tunnel = serves told i.outage; expiry = i.expiry }),
  )
    where
      outage_of :
          (st.tunnel_healthy ≡ true)
            ⊎ ((st.unhealthy_since_utc ≢ zero_time)
                × Within o.max_unhealthy (sub o.now st.unhealthy_since_utc))
          → (st.tunnel_healthy ≡ true) ⊎ Within o.max_unhealthy (sub o.now st.unhealthy_since_utc)
      outage_of (inl well) = inl well
      outage_of (inr (start, limit)) = inr limit

      within : Within o.max_status_age (sub o.now t) × IsServing o st → IsWithin o t st
      within (fresh, serving) = record {
        fresh = fresh;
        outage = outage_of serving.tunnel;
        expiry = serving.expiry;
      }

      serves :
          (st.tunnel_healthy ≡ true)
            ⊎ ((st.tunnel_healthy ≡ false) × (st.unhealthy_since_utc ≢ zero_time))
          → (st.tunnel_healthy ≡ true) ⊎ Within o.max_unhealthy (sub o.now st.unhealthy_since_utc)
          → (st.tunnel_healthy ≡ true)
            ⊎ ((st.unhealthy_since_utc ≢ zero_time)
                × Within o.max_unhealthy (sub o.now st.unhealthy_since_utc))
      serves (inl well) i = inl well
      serves (inr (ill, start)) (inl well) = inl well
      serves (inr (ill, start)) (inr limit) = inr (start, limit)

  Told-IsMonitored : (e : Effect) → Told e → IsMonitored o size t e
  Told-IsMonitored (registered gen) h = tt
  Told-IsMonitored (wrote_config text) h = tt
  Told-IsMonitored (wrote_pending u key) h = tt
  Told-IsMonitored (ran_config_hook cmd) h = tt
  Told-IsMonitored (asked_restart name) h = tt
  Told-IsMonitored (wrote_status st) (inl (unsampled, ill, no_start)) =
      inl (unsampled, unsampled_fails st ill no_start)
  Told-IsMonitored (wrote_status st) (inr (taken, sampled)) = inr (taken, sampled_iff st sampled)
  Told-IsMonitored (alerted e) h = tt
  Told-IsMonitored (slept d) h = tt

  all-IsMonitored : (log : List Effect) → All Told log → All (IsMonitored o size t) log
  all-IsMonitored [] h = tt
  all-IsMonitored (e ∷ log) h = (Told-IsMonitored e h.0, all-IsMonitored log h.1)

-- In every run of the refresh daemon from its start, under any clock that does not show the zero
-- time: each status that it writes, read back from its JSON beside a config that is not empty, fails
-- the health check while it shows the zero time as that of the last sample, whatever the limits;
-- with another time there it passes just if it was written within the limit on its age, the tunnel is healthy or went down within the
-- limit on outages, and the registration is not past its expected expiry by more than the grace. A
-- limit that is not positive is no limit.
pub run_refresh-IsMonitored :
    (env : Env) (cfg : Settings) (s : Runtime) (ts : List Tick) (o : HealthOptions) (size : ℕ)
    (t : Time)
    → IsInitial s
    → (s.last_health_check ≡ zero_time)
      × (s.tunnel_healthy ≡ false)
      × (s.unhealthy_since ≡ zero_time)
    → ((n : ℕ) → env.now n ≢ zero_time)
    → All (IsMonitored o size t) (run_refresh env cfg s ts).runtime.log
run_refresh-IsMonitored env cfg s ts o size t start unsampled runs =
    all-IsMonitored o size t _
      (run_refresh-Tracked env cfg Tells (Tells-Tracked env runs) s ts
        (record { start = inl unsampled; log = rw start.0 tt })).log
