-- ===== src/Healthcheck/Verdict.antt =====
-- When the health check passes (healthcheck.go).
use pia_wg_config_generator.Base.{
  ℕ, zero, suc, true, Option, none, some, ◌≡◌, ◌≢◌, ◌↔◌, ◌⊎◌, refl, arith,
}
use pia_wg_config_generator.Base.Int.{pos, ◌≤ℤ◌}
use pia_wg_config_generator.Clock.{Time, Duration, zero_time, sub}
use pia_wg_config_generator.Status.{DaemonStatus}
use pia_wg_config_generator.Healthcheck.{
  HealthOptions, ConfigStat, config_size, no_config, StatusStat, written_at, no_status,
  StatusContent, decoded, unreadable_content, invalid_content, StateFiles, Complaint, or_then,
  check_config, check_stat, check_outage, check_expiry, check_content, evaluate_health,
}

-- A limit that is set, by a positive value, is kept.
abbrev pub Within : Duration → Duration → Type 0
Within limit d = (limit ≤ℤ pos 0) ⊎ (d ≤ℤ limit)

pub record IsServing (o : HealthOptions) (st : DaemonStatus) : Type 0 where
  pub tunnel :
      (st.tunnel_healthy ≡ true)
      ⊎ ((st.unhealthy_since_utc ≢ zero_time)
          × Within o.max_unhealthy (sub o.now st.unhealthy_since_utc))
  pub expiry :
      (st.expected_expiry_utc ≡ zero_time) ⊎ (sub o.now st.expected_expiry_utc ≤ℤ o.expiry_grace)

pub record IsHealthy (o : HealthOptions) (files : StateFiles) : Type 0 where
  pub size : ℕ
  pub mod_time : Time
  pub status : DaemonStatus
  pub has_config : files.config ≡ config_size (suc size)
  pub has_status : files.stat ≡ written_at mod_time
  pub fresh : Within o.max_status_age (sub o.now mod_time)
  pub reads : files.content ≡ decoded status
  pub serving : IsServing o status

check_config_iff :
    (c : ConfigStat) → (check_config c ≡ none) ↔ ((n : ℕ) × (c ≡ config_size (suc n)))
unfolding check_config
check_config_iff (no_config e) = ((λ h. absurd (cc)), λ (n, h). absurd (cc))
check_config_iff (config_size zero) = ((λ h. absurd (cc)), λ (n, h). absurd (cc))
check_config_iff (config_size (suc n)) = ((λ h. (n, refl)), λ h. refl)

written_at_iff :
    (o : HealthOptions) (t : Time)
    → (check_stat o (written_at t) ≡ none) ↔ Within o.max_status_age (sub o.now t)
unfolding check_stat
written_at_iff o t = ground arith

written_at-injective : (t u : Time) → written_at t ≡ written_at u → t ≡ u
written_at-injective t u h = cc

decoded-injective : (s t : DaemonStatus) → decoded s ≡ decoded t → s ≡ t
decoded-injective s t h = cc

check_stat_iff :
    (o : HealthOptions) (s : StatusStat)
    → (check_stat o s ≡ none)
      ↔ ((t : Time) × (s ≡ written_at t) × Within o.max_status_age (sub o.now t))
check_stat_iff o (no_status e) = ((λ h. absurd (unfold check_stat in cc)), λ (n, h, k). absurd (cc))
check_stat_iff o (written_at t) = (
  (λ h. (t, refl, (written_at_iff o t).0 h)),
  λ (u, e, h). (written_at_iff o t).1 (rw (written_at-injective t u e) h),
)

check_outage_iff :
    (o : HealthOptions) (st : DaemonStatus)
    → (check_outage o st ≡ none) ↔ (
        (st.tunnel_healthy ≡ true)
        ⊎ ((st.unhealthy_since_utc ≢ zero_time)
            × Within o.max_unhealthy (sub o.now st.unhealthy_since_utc)))
unfolding check_outage
check_outage_iff o st = ground arith

check_expiry_iff :
    (o : HealthOptions) (st : DaemonStatus)
    → (check_expiry o st ≡ none) ↔ (
        (st.expected_expiry_utc ≡ zero_time) ⊎ (sub o.now st.expected_expiry_utc ≤ℤ o.expiry_grace))
unfolding check_expiry
check_expiry_iff o st = ground arith

or_then_iff : (a b : Option Complaint) → (or_then a b ≡ none) ↔ ((a ≡ none) × (b ≡ none))
or_then_iff none b = ((λ h. (refl, h)), λ h. h.1)
or_then_iff (some c) b = ((λ h. absurd (cc)), λ h. absurd (cc))

IsServing-iff :
    (o : HealthOptions) (st : DaemonStatus)
    → (or_then (check_outage o st) (check_expiry o st) ≡ none) ↔ IsServing o st
IsServing-iff o st = (
  (λ h.
      let (a, b) = (or_then_iff (check_outage o st) (check_expiry o st)).0 h in
      record { tunnel = (check_outage_iff o st).0 a; expiry = (check_expiry_iff o st).0 b }),
  λ s.
      (or_then_iff (check_outage o st) (check_expiry o st)).1
        ((check_outage_iff o st).1 s.tunnel, (check_expiry_iff o st).1 s.expiry),
)

check_content_iff :
    (o : HealthOptions) (c : StatusContent)
    → (check_content o c ≡ none) ↔ ((st : DaemonStatus) × (c ≡ decoded st) × IsServing o st)
unfolding check_content
check_content_iff o (unreadable_content e) = ((λ h. absurd (cc)), λ (n, h, k). absurd (cc))
check_content_iff o (invalid_content e) = ((λ h. absurd (cc)), λ (n, h, k). absurd (cc))
check_content_iff o (decoded st) = (
  (λ h. (st, refl, (IsServing-iff o st).0 h)),
  λ (u, e, h). (IsServing-iff o st).1 (rw (decoded-injective st u e) h),
)

-- The health check passes just if wg0.conf exists and is not empty, status.json exists, decodes and
-- was written within the limit on its age, the tunnel is healthy or its outage has a recorded start
-- within the limit on outages, and the registration has no expected expiry or is past it by the
-- grace at most. A limit on the age or on outages that is not positive is no limit.
pub evaluate_health_iff :
    (o : HealthOptions) (files : StateFiles) → (evaluate_health o files ≡ none) ↔ IsHealthy o files
unfolding evaluate_health
evaluate_health_iff o files = (
  (λ h.
      let (a, rest) = (or_then_iff (check_config files.config) _).0 h in
      let (b, c) = (or_then_iff (check_stat o files.stat) (check_content o files.content)).0 rest in
      let (n, size) = (check_config_iff files.config).0 a in
      let (t, written, fresh) = (check_stat_iff o files.stat).0 b in
      let (st, reads, serving) = (check_content_iff o files.content).0 c in
      record {
        size = n;
        mod_time = t;
        status = st;
        has_config = size;
        has_status = written;
        fresh = fresh;
        reads = reads;
        serving = serving;
      }),
  λ i. (or_then_iff (check_config files.config) _).1 (
    (check_config_iff files.config).1 (i.size, i.has_config),
    (or_then_iff (check_stat o files.stat) (check_content o files.content)).1 (
      (check_stat_iff o files.stat).1 (i.mod_time, i.has_status, i.fresh),
      (check_content_iff o files.content).1 (i.status, i.reads, i.serving),
    ),
  ),
)
