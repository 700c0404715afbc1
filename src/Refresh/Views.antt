-- ===== src/Refresh/Views.antt =====
-- What the refresh daemon (refresh.go) shows and does: its errors, the outage, its log, and how many
-- calls it has made. A predicate of that view which every single update keeps holds in every run; the
-- children of this module carry it through the methods.
pub mod Runs
use mathlib.Core.List.{Memᴰ}
use pia_wg_config_generator.Base.{
  ℕ, ◌+◌, Bool, true, false, not, ◌&&◌, ◌||◌, Option, none, some, List, [], ◌∷◌, ◌≡◌, ◌⊎◌, inl, inr,
  refl, if◌then◌else◌, Bool-cases, Option-cases,
}
use pia_wg_config_generator.Base.Int.{ℤ, pos, ◌+ℤ◌, ltb_ℤ, wrap64}
use pia_wg_config_generator.Base.Text.{Text, is_empty}
use pia_wg_config_generator.Clock.{Time, Duration, is_zero, after, add, sub, seconds, times}
use pia_wg_config_generator.Api.{GenerateResult}
use pia_wg_config_generator.Lifetime.{LifetimeRecord, load}
use pia_wg_config_generator.Outage.{failure, healthy}
use pia_wg_config_generator.Status.{DaemonStatus}
use pia_wg_config_generator.Tunnel.{TunnelState}
use pia_wg_config_generator.Refresh.{
  Settings, Env, Runtime, Error, Effect, registered, wrote_config, wrote_pending, ran_config_hook,
  asked_restart, wrote_status, alerted, slept, failure_event, recovered_event, called, emit,
}
use pia_wg_config_generator.Refresh.Schedule.{
  flush_status, build_status, arm_next_refresh, rearm, rearm_by, next_proactive_delay,
}
use pia_wg_config_generator.Refresh.Outcome.{
  observe, fold_sample, note_healthy, note_failed_attempt, ineffective_cause, was_ineffective,
  account_for_previous_recovery, record_loss_if_measurable,
}

pub record View : Type 0 where
  pub regen_error : Text
  pub health_error : Text
  pub tunnel_healthy : Bool
  pub unhealthy_since : Time
  pub last_health_check : Time
  pub calls : ℕ
  pub log : List Effect

abbrev pub view : Runtime → View
view s = record {
  regen_error = s.regen_error;
  health_error = s.health_error;
  tunnel_healthy = s.tunnel_healthy;
  unhealthy_since = s.unhealthy_since;
  last_health_check = s.last_health_check;
  calls = s.calls;
  log = s.log;
}

abbrev pub log_on : Effect → View → View
log_on e v = record v { log = e ∷ v.log }

-- An effect that shows nothing of the state and hands nothing over.
abbrev pub IsSilent : Effect → Type 0
IsSilent (wrote_status st) = ⊥
IsSilent (wrote_pending t key) = ⊥
IsSilent (alerted (failure_event n r c)) = ⊥
IsSilent _ = Unit

-- The status of a view, by the fields that show it.
pub record Shows (v : View) (st : DaemonStatus) : Type 0 where
  pub last_error :
      st.last_error ≡ (if not (is_empty v.regen_error) then v.regen_error else v.health_error)
  pub tunnel_healthy : st.tunnel_healthy ≡ v.tunnel_healthy
  pub unhealthy_since : st.unhealthy_since_utc ≡ v.unhealthy_since
  pub last_health_check : st.last_health_check_utc ≡ v.last_health_check

-- A predicate that each update keeps.
pub record IsTracked (env : Env) (I : View → Type 0) : Type 0 where
  pub called : (v : View) → I v → I (record v { calls = v.calls + 1 })
  pub silent : (v : View) (e : Effect) → IsSilent e → I v → I (log_on e v)
  pub status : (v : View) (st : DaemonStatus) → Shows v st → I v → I (log_on (wrote_status st) v)
  pub pending :
      (v : View) (gen : GenerateResult)
      → Memᴰ (registered gen) v.log
      → I v
      → I (log_on (wrote_pending (env.now v.calls) gen.key) (record v { calls = v.calls + 1 }))
  pub alert :
      (v : View) (n : ℤ) (region cause : Text)
      → (cause ≡ ineffective_cause) ⊎ ((e : Error) × (cause ≡ env.redacted e))
      → I v
      → I (log_on (alerted (failure_event n region cause)) v)
  pub no_error : (v : View) → I v → I (record v { regen_error = [] })
  pub some_error : (v : View) (e : Error) → I v → I (record v { regen_error = env.redacted e })
  pub sample :
      (st : TunnelState) (n : ℕ) (s : Runtime)
      → I (view s)
      → I (view (fold_sample env st (env.now n) s))

module _ (env : Env) (cfg : Settings) (I : View → Type 0) (t : IsTracked env I) where
  build_status-Shows : (now : Time) (s : Runtime) → Shows (view (called s)) (build_status cfg now s)
  unfolding build_status
  build_status-Shows now s = record {
    last_error = refl;
    tunnel_healthy = refl;
    unhealthy_since = refl;
    last_health_check = refl;
  }

  pub flush_status-Tracked : (s : Runtime) → I (view s) → I (view (flush_status env cfg s))
  unfolding flush_status
  flush_status-Tracked s h = elim (Option-cases (env.write s.calls)) [
    | inl ok ↦ rw ok (
        t.status (view (called s)) (build_status cfg (env.now s.calls) s)
          (build_status-Shows (env.now s.calls) s) (t.called (view s) h))
    | inr (e, failed) ↦ rw failed (t.called (view s) h)
  ]

  pub arm_next_refresh-Tracked :
      (s : Runtime) → I (view s) → I (view (arm_next_refresh env cfg s).0)
  unfolding arm_next_refresh next_proactive_delay
  arm_next_refresh-Tracked s h =
      flush_status-Tracked _ (t.called (view (called s)) (t.called (view s) h))

  rearm_by-Tracked :
      (s : Runtime) (r : LifetimeRecord × Option Text)
      → I (view s)
      → I (view (rearm_by env cfg s r).0)
  unfolding rearm_by
  rearm_by-Tracked s (rec, some e) h = h
  rearm_by-Tracked s (rec, none) h = elim (Bool-cases (is_zero rec.current_registration)) [
    | inl unborn ↦ rw unborn h
    | inr born ↦
        elim (Bool-cases (
          after s.next_refresh (add rec.current_registration (seconds 60))
          && ltb_ℤ (times cfg.health_interval 2)
              (sub (env.now s.calls) rec.current_registration))) [
                | inl later ↦ rw (born, later) (t.called (view s) h)
                | inr due ↦
                    rw (born, due) (arm_next_refresh-Tracked (called s) (t.called (view s) h))
              ]
  ]

  pub rearm-Tracked : (s : Runtime) → I (view s) → I (view (rearm env cfg s).0)
  unfolding rearm
  rearm-Tracked s h = rearm_by-Tracked s (load s.lifetime_file) h

  pub note_failed_attempt-Tracked :
      (now : Time) (cause : Text) (s : Runtime)
      → (cause ≡ ineffective_cause) ⊎ ((e : Error) × (cause ≡ env.redacted e))
      → I (view s)
      → I (view (note_failed_attempt cfg now cause s))
  unfolding note_failed_attempt
  note_failed_attempt-Tracked now cause s known h = elim (Bool-cases (failure now s.policy).1) [
    | inl fires ↦ rw fires (t.alert (view s) (failure now s.policy).2 cfg.region cause known h)
    | inr quiet ↦ rw quiet h
  ]

  note_healthy-Tracked : (now : Time) (s : Runtime) → I (view s) → I (view (note_healthy now s))
  unfolding note_healthy
  note_healthy-Tracked now s h = elim (Bool-cases (healthy now s.policy).1) [
    | inl ends ↦ rw ends (
        t.silent (view s)
          (alerted (recovered_event (healthy now s.policy).2 (healthy now s.policy).3)) tt h)
    | inr goes_on ↦ rw goes_on h
  ]

  pub observe-Tracked :
      (st : TunnelState) (n : ℕ) (s : Runtime)
      → I (view s)
      → I (view (observe env cfg st (env.now n) s))
  unfolding observe
  observe-Tracked st n s h = flush_status-Tracked _ (noted st.healthy)
    where
      sampled : Runtime
      sampled = fold_sample env st (env.now n) s

      noted : (well : Bool) → I (view (if well then note_healthy (env.now n) sampled else sampled))
      noted true = note_healthy-Tracked (env.now n) sampled (t.sample st n s h)
      noted false = t.sample st n s h

  pub account-Tracked :
      (now : Time) (s : Runtime) → I (view s) → I (view (account_for_previous_recovery cfg now s))
  unfolding account_for_previous_recovery
  account-Tracked now s h =
      let counted = record s {
        ineffective_recoveries = wrap64 (s.ineffective_recoveries +ℤ pos 1);
      } in
      elim (Bool-cases (was_ineffective s)) [
        | inl yes_it_was ↦
            rw yes_it_was (note_failed_attempt-Tracked now ineffective_cause counted (inl refl) h)
        | inr it_was_not ↦ rw it_was_not h
      ]

  pub record_loss-Tracked : (s : Runtime) → I (view s) → I (view (record_loss_if_measurable env s))
  unfolding record_loss_if_measurable
  record_loss-Tracked s h = elim (Bool-cases (not s.confirmed_healthy || is_zero s.last_healthy)) [
    | inl no_measure ↦ rw no_measure h
    | inr measured ↦ rw measured (t.called (view s) h)
  ]
