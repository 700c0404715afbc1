-- ===== src/PortForward/HandOver.antt =====
-- The refresh daemon (refresh.go) and the port-forwarding daemon (pf_daemon.go) at one state
-- directory. They meet in one file, in which the first leaves a registration and of which the second
-- reads the newest; their steps interleave in any way, where a poll is one step. The file gives back
-- what was written to it.
pub mod Newest
pub mod Steps
pub mod Whole
use mathlib.Core.List.{Memᴰ}
use pia_wg_config_generator.Base.{
  Bool, true, false, Option, none, some, List, [], ◌∷◌, ◌≡◌, ◌⊎◌, inl, inr, refl, sym, ◌∙◌, All,
  All-map, arith,
}
use pia_wg_config_generator.Base.Int.{◌≤ℤ◌, ◌<ℤ◌}
use pia_wg_config_generator.Base.Text.{Text}
use pia_wg_config_generator.Clock.{Time, zero_time, after}
use pia_wg_config_generator.Api.{AddKeyResult, GenerateResult}
use pia_wg_config_generator.PortForward.{value, gateway_from_key_meta}
use pia_wg_config_generator.PortForward.Daemon.{
  PendingPortForward, PendingRead, pending_unreadable, no_pending, pending, PfSettings, Poll, Lease,
  PfState, poll, renew, new_pf_state,
}
use pia_wg_config_generator.PortForward.Daemon.Acquired.{
  acquisitions, Acquires, acquires_nothing, acquires_lease, poll-Acquires, renew-Acquires,
}
use pia_wg_config_generator.Refresh.{
  Settings, Env, Runtime, Effect, registered, wrote_config, wrote_pending, ran_config_hook,
  asked_restart, wrote_status, alerted, slept, failure_event, recovered_event,
}
use pia_wg_config_generator.Refresh.Loop.{Tick, run_refresh}
use pia_wg_config_generator.Refresh.HandOver.{Runs, HandsBefore, HandsOver, run_refresh-HandsOver}

-- What the pending file holds behind the effects of the refresh daemon.
abbrev pub newest : List Effect → Option PendingPortForward
newest [] = none
newest (wrote_pending t key ∷ log) = some record { created_utc = t; key = key }
newest (_ ∷ log) = newest log

-- What a poll may find there: the content, or an error at any time.
abbrev pub Finds : List Effect → PendingRead → Type 0
Finds log (pending_unreadable e) = Unit
Finds log no_pending = newest log ≡ none
Finds log (pending p) = newest log ≡ some p

-- The two processes take turns, from a state directory without a pending file.
pub data Interleaved (cfg : PfSettings) : List Effect → PfState → Type 0 where
  starts : Interleaved cfg [] new_pf_state
  refresh_does :
      {log : List Effect} {s : PfState}
      → (e : Effect) → Interleaved cfg log s
      → Interleaved cfg (e ∷ log) s
  pf_polls :
      {log : List Effect} {s : PfState}
      → (w : Poll) → Finds log w.read
      → Interleaved cfg log s
      → Interleaved cfg log (poll cfg w w.read s)
  pf_renews :
      {log : List Effect} {s : PfState} → Interleaved cfg log s → Interleaved cfg log (renew s)

-- An acquisition of a registration that was made and handed over, at its gateway.
abbrev pub IsHanded : List Effect → Time × Lease → Type 0
IsHanded log (t, l) =
    (gen : GenerateResult) × Memᴰ (registered gen) log
    × Memᴰ (wrote_pending t gen.key) log
    × (gateway_from_key_meta gen.key ≡ value l.gateway)

-- Each acquisition is of a later hand-over than those before it.
abbrev pub Advances : List (Time × Lease) → Type 0
Advances [] = Unit
Advances ((t, l) ∷ acqs) = All (λ a. a.0 <ℤ t) acqs × Advances acqs

-- The last acquisition is of this hand-over, at its gateway; or the hand-over is newer than the active
-- one, so that the next poll that reads it acquires it.
abbrev pub KeepsUp : Option PendingPortForward → PfState → Type 0
KeepsUp none s = acquisitions s.log ≡ []
KeepsUp (some p) s =
    ((l : Lease) × (acqs : List (Time × Lease)) × (acquisitions s.log ≡ (p.created_utc, l) ∷ acqs)
      × (gateway_from_key_meta p.key ≡ value l.gateway))
    ⊎ (after p.created_utc s.active_registration ≡ true)
