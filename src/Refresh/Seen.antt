-- ===== src/Refresh/Seen.antt =====
-- What a sample of the tunnel does to the fields that decide about a recovery (refresh.go, observe).
use pia_wg_config_generator.Base.{true, false, ◌≡◌, refl, ◌∙◌, ap, arith}
use pia_wg_config_generator.Base.Int.{ℤ, pos, ◌+ℤ◌, wrap64}
use pia_wg_config_generator.Clock.{Time}
use pia_wg_config_generator.Tunnel.{TunnelState}
use pia_wg_config_generator.Refresh.{Settings, Env, Runtime}
use pia_wg_config_generator.Refresh.Schedule.{flush_status}
use pia_wg_config_generator.Refresh.Outcome.{observe, fold_sample, note_healthy}
use pia_wg_config_generator.Refresh.Frame.{registrations, flush_status-Keeps}

-- The count of unhealthy samples in a row, with one more; an int64 of the source.
abbrev pub one_more : Runtime → ℤ
one_more s = wrap64 (s.consecutive_unhealthy +ℤ pos 1)

-- What an unhealthy sample changes of the fields that decide about a recovery.
pub record IsSeen (s o : Runtime) : Type 0 where
  pub count : o.consecutive_unhealthy ≡ one_more s
  pub recovered_at : o.last_recovery ≡ s.last_recovery
  pub ineffective : o.ineffective_recoveries ≡ s.ineffective_recoveries
  pub registered : registrations o.log ≡ registrations s.log

fold_sample-IsSeen :
    (env : Env) (st : TunnelState) (now : Time) (s : Runtime)
    → st.healthy ≡ false
    → IsSeen s (fold_sample env st now s)
unfolding fold_sample
fold_sample-IsSeen env st now s ill =
    rw ill (record { count = refl; recovered_at = refl; ineffective = refl; registered = refl })

flush_status-ineffective :
    (env : Env) (cfg : Settings) (s : Runtime)
    → (flush_status env cfg s).ineffective_recoveries ≡ s.ineffective_recoveries
unfolding flush_status
flush_status-ineffective env cfg s = ground arith

flush_status-IsSeen :
    (env : Env) (cfg : Settings) (s o : Runtime) → IsSeen s o → IsSeen s (flush_status env cfg o)
flush_status-IsSeen env cfg s o h =
    let k = flush_status-Keeps env cfg o in
    record {
      count = k.consecutive ∙ h.count;
      recovered_at = k.last_recovery ∙ h.recovered_at;
      ineffective = flush_status-ineffective env cfg o ∙ h.ineffective;
      registered = k.registered_as_often ∙ h.registered;
    }

observe_ill :
    (env : Env) (cfg : Settings) (st : TunnelState) (now : Time) (s : Runtime)
    → st.healthy ≡ false
    → observe env cfg st now s ≡ flush_status env cfg (fold_sample env st now s)
unfolding observe
observe_ill env cfg st now s ill = rw ill refl

observe_well :
    (env : Env) (cfg : Settings) (st : TunnelState) (now : Time) (s : Runtime)
    → st.healthy ≡ true
    → observe env cfg st now s ≡ flush_status env cfg (note_healthy now (fold_sample env st now s))
unfolding observe
observe_well env cfg st now s healthy = rw healthy refl

pub observe-IsSeen :
    (env : Env) (cfg : Settings) (st : TunnelState) (now : Time) (s : Runtime)
    → st.healthy ≡ false
    → IsSeen s (observe env cfg st now s)
observe-IsSeen env cfg st now s ill =
    rw (observe_ill env cfg st now s ill)
      (flush_status-IsSeen env cfg s _ (fold_sample-IsSeen env st now s ill))

note_healthy-count :
    (now : Time) (s : Runtime)
    → (note_healthy now s).consecutive_unhealthy ≡ s.consecutive_unhealthy
unfolding note_healthy
note_healthy-count now s = ground arith

fold_sample-count :
    (env : Env) (st : TunnelState) (now : Time) (s : Runtime)
    → st.healthy ≡ true
    → (fold_sample env st now s).consecutive_unhealthy ≡ pos 0
unfolding fold_sample
fold_sample-count env st now s healthy = rw healthy refl

pub observe-count :
    (env : Env) (cfg : Settings) (st : TunnelState) (now : Time) (s : Runtime)
    → st.healthy ≡ true
    → (observe env cfg st now s).consecutive_unhealthy ≡ pos 0
observe-count env cfg st now s healthy =
    ap (λ (t : Runtime). t.consecutive_unhealthy) (observe_well env cfg st now s healthy)
    ∙ (flush_status-Keeps env cfg _).consecutive
    ∙ note_healthy-count now (fold_sample env st now s)
    ∙ fold_sample-count env st now s healthy
