-- ===== src/Refresh/Log.antt =====
-- Properties of the log of effects that every method of the refresh daemon keeps, and the methods
-- that schedule and judge.
use pia_wg_config_generator.Base.{
  Bool, true, false, List, [], ◌∷◌, ◌≡◌, inl, inr, arith, Bool-cases,
}
use pia_wg_config_generator.Base.Int.{pos, ◌+ℤ◌, wrap64}
use pia_wg_config_generator.Base.Text.{Text}
use pia_wg_config_generator.Clock.{Time}
use pia_wg_config_generator.Tunnel.{TunnelState}
use pia_wg_config_generator.Outage.{failure, healthy}
use pia_wg_config_generator.Refresh.{
  Settings, Env, Runtime, Effect, wrote_config, asked_restart, alerted, failure_event,
  recovered_event, called,
}
use pia_wg_config_generator.Refresh.Schedule.{
  flush_status, arm_next_refresh, rearm, next_proactive_delay,
}
use pia_wg_config_generator.Refresh.Outcome.{
  observe, fold_sample, note_failed_attempt, account_for_previous_recovery,
  record_loss_if_measurable, was_ineffective, ineffective_cause,
}

-- A config was written after the last restart. (The log has the newest effect first.)
abbrev pub has_new_config : List Effect → Bool
has_new_config [] = false
has_new_config (wrote_config c ∷ log) = true
has_new_config (asked_restart c ∷ log) = false
has_new_config (_ ∷ log) = has_new_config log

-- Every restart found a config written after the restart before it.
abbrev pub RestartsLoad : List Effect → Type 0
RestartsLoad [] = Unit
RestartsLoad (asked_restart c ∷ log) = (has_new_config log ≡ true) × RestartsLoad log
RestartsLoad (_ ∷ log) = RestartsLoad log

-- Failure alerts and recovered notices alternate; the flag says whether the last was an alert.
abbrev pub AlertsAlternate : Bool → List Effect → Type 0
AlertsAlternate out [] = out ≡ false
AlertsAlternate out (alerted (failure_event n r c) ∷ log) = (out ≡ true) × AlertsAlternate false log
AlertsAlternate out (alerted (recovered_event d n) ∷ log) = (out ≡ false) × AlertsAlternate true log
AlertsAlternate out (_ ∷ log) = AlertsAlternate out log

-- The log of a state is in order.
pub record Inv (s : Runtime) : Type 0 where
  pub restarts : RestartsLoad s.log
  pub alerts : AlertsAlternate s.policy.alerted s.log

pub flush_status-Inv :
    (env : Env) (cfg : Settings) (s : Runtime) → Inv s → Inv (flush_status env cfg s)
unfolding flush_status
flush_status-Inv env cfg s h = ground arith

pub arm_next_refresh-Inv :
    (env : Env) (cfg : Settings) (s : Runtime) → Inv s → Inv (arm_next_refresh env cfg s).0
unfolding arm_next_refresh next_proactive_delay
arm_next_refresh-Inv env cfg s h =
    flush_status-Inv env cfg _ (record { restarts = h.restarts; alerts = h.alerts })

pub rearm-Inv : (env : Env) (cfg : Settings) (s : Runtime) → Inv s → Inv (rearm env cfg s).0
unfolding rearm
rearm-Inv env cfg s h =
    let armed =
      arm_next_refresh-Inv env cfg (called s)
        (record { restarts = h.restarts; alerts = h.alerts }) in
    ground arith

pub note_failed_attempt-Inv :
    (cfg : Settings) (now : Time) (cause : Text) (s : Runtime)
    → Inv s
    → Inv (note_failed_attempt cfg now cause s)
unfolding note_failed_attempt failure
note_failed_attempt-Inv cfg now cause s h = ground arith

fold_sample-Inv :
    (env : Env) (st : TunnelState) (now : Time) (s : Runtime)
    → Inv s
    → Inv (fold_sample env st now s)
unfolding fold_sample
fold_sample-Inv env st now s h = ground arith

pub observe-Inv :
    (env : Env) (cfg : Settings) (st : TunnelState) (now : Time) (s : Runtime)
    → Inv s
    → Inv (observe env cfg st now s)
unfolding observe healthy
observe-Inv env cfg st now s h = flush_status-Inv env cfg _ (ground arith)

pub account-Inv :
    (cfg : Settings) (now : Time) (s : Runtime)
    → Inv s
    → Inv (account_for_previous_recovery cfg now s)
unfolding account_for_previous_recovery
account-Inv cfg now s h =
    let counted = record s {
      ineffective_recoveries = wrap64 (s.ineffective_recoveries +ℤ pos 1);
    } in
    elim (Bool-cases (was_ineffective s)) [
      | inl yes_it_was ↦ rw yes_it_was (
          note_failed_attempt-Inv cfg now ineffective_cause counted
            (record { restarts = h.restarts; alerts = h.alerts }))
      | inr it_was_not ↦ rw it_was_not h
    ]

pub record_loss-Inv : (env : Env) (s : Runtime) → Inv s → Inv (record_loss_if_measurable env s)
unfolding record_loss_if_measurable
record_loss-Inv env s h = ground arith
