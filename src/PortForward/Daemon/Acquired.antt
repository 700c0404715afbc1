-- ===== src/PortForward/Daemon/Acquired.antt =====
-- Which leases a poll of pf_daemon.go acquires.
use pia_wg_config_generator.Base.{
  true, Option, none, some, List, [], ◌∷◌, ◌≡◌, ◌⊎◌, inl, inr, refl, ◌∙◌, if◌then◌else◌, Bool-cases,
  Option-cases,
}
use pia_wg_config_generator.Base.Text.{Text, text_eq}
use pia_wg_config_generator.Clock.{Time, after}
use pia_wg_config_generator.Api.{AddKeyResult}
use pia_wg_config_generator.PortForward.{
  Result, PfError, value, error, gateway_from_key_meta, normalize_gateway, get_signature, bind_port,
  wait_for_gateway,
}
use pia_wg_config_generator.PortForward.Daemon.{
  PendingPortForward, PendingRead, pending_unreadable, no_pending, pending, PfSettings, Poll, Lease,
  PfEffect, acquired, PfState, log_write, announce, wait_result, token_result, after_acquire,
  poll_pending, poll, renew, set, disable, acquire_and_bind_port,
  acquire_port_forward_after_gateway_wait,
}

-- The acquisitions of a log, the newest first.
abbrev pub acquisitions : List PfEffect → List (Time × Lease)
acquisitions [] = []
acquisitions (acquired t l ∷ log) = (t, l) ∷ acquisitions log
acquisitions (_ ∷ log) = acquisitions log

-- What one poll or renewal does to them: nothing, or it acquires one lease, at the gateway of a
-- pending registration that is newer than the active one, which it becomes.
pub data Acquires (w : PendingRead) (s : PfState) : PfState → Type 0 where
  acquires_nothing :
      {s' : PfState}
      → acquisitions s'.log ≡ acquisitions s.log
      → s'.active_registration ≡ s.active_registration
      → Acquires w s s'
  acquires_lease :
      {s' : PfState}
      → (p : PendingPortForward) (l : Lease) → w ≡ pending p
      → after p.created_utc s.active_registration ≡ true
      → gateway_from_key_meta p.key ≡ value l.gateway
      → acquisitions s'.log ≡ (p.created_utc, l) ∷ acquisitions s.log
      → s'.active_registration ≡ p.created_utc
      → Acquires w s s'

Result-cases :
    {A : Type 0} (r : Result A) → ((a : A) × (r ≡ value a)) ⊎ ((e : PfError) × (r ≡ error e))
Result-cases (value a) = inl (a, refl)
Result-cases (error e) = inr (e, refl)

error-ne-value : {A : Type 0} (e : PfError) (a : A) → error e ≡ value a → ⊥
error-ne-value e a h = cc

value-gateway : (m l : Lease) → value m ≡ value l → m.gateway ≡ l.gateway
value-gateway m l h = cc

acquire_and_bind_port-gateway :
    (cfg : PfSettings) (w : Poll) (key : AddKeyResult) (l : Lease)
    → acquire_and_bind_port cfg w key ≡ value l
    → gateway_from_key_meta key ≡ value l.gateway
unfolding acquire_and_bind_port
acquire_and_bind_port-gateway cfg w key l h = elim (Result-cases (gateway_from_key_meta key)) [
  | inr (e, lost) ↦ absurd (error-ne-value e l (rw lost at h))
  | inl (gw, known) ↦
      let h₁ = rw known at h in
      let address = normalize_gateway cfg.has_port gw in
      elim (Result-cases (token_result w.token)) [
        | inr (e, lost) ↦ absurd (error-ne-value e l (rw lost at h₁))
        | inl (tok, got) ↦
            let h₂ = rw got at h₁ in
            elim (Result-cases (get_signature address w.signature w.decode)) [
              | inr (e, lost) ↦ absurd (error-ne-value e l (rw lost at h₂))
              | inl ((sig, payload), signed) ↦
                  let h₃ = rw signed at h₂ in
                  elim (Result-cases (bind_port address w.bind)) [
                    | inr (e, lost) ↦ absurd (error-ne-value e l (rw lost at h₃))
                    | inl (r, is_bound) ↦
                        let same : gw ≡ l.gateway = value-gateway _ l (rw is_bound at h₃) in cc
                  ]
            ]
      ]
]

acquire-gateway :
    (cfg : PfSettings) (w : Poll) (key : AddKeyResult) (l : Lease)
    → acquire_port_forward_after_gateway_wait cfg w key ≡ value l
    → gateway_from_key_meta key ≡ value l.gateway
unfolding acquire_port_forward_after_gateway_wait
acquire-gateway cfg w key l h = elim (Result-cases (gateway_from_key_meta key)) [
  | inr (e, lost) ↦ absurd (error-ne-value e l (rw lost at h))
  | inl (gw, known) ↦
      let address = normalize_gateway cfg.has_port gw in
      let waited : Result {0} Unit =
        if cfg.wait_enabled
        then wait_result
            (wait_for_gateway w.dialer cfg.gateway_timeout cfg.gateway_interval address)
        else value tt in
      let h₁ = rw known at h in
      elim (Result-cases waited) [
        | inr (e, lost) ↦ absurd (error-ne-value e l (rw lost at h₁))
        | inl (u, did) ↦ acquire_and_bind_port-gateway cfg w key l (rw did at h₁)
      ]
]

announce-acquisitions :
    (port : Text) (s : PfState)
    → (acquisitions (announce port s).log ≡ acquisitions s.log)
      × ((announce port s).active_registration ≡ s.active_registration)
announce-acquisitions port s = elim (Bool-cases (text_eq port s.last_port)) [
  | inl same ↦ rw same (refl, refl)
  | inr new ↦ rw new (refl, refl)
]

log_write-acquisitions :
    (write : Option Text) (port : Text) (log : List PfEffect)
    → acquisitions (log_write write port log) ≡ acquisitions log
log_write-acquisitions none port log = refl
log_write-acquisitions (some e) port log = refl

after_acquire-Acquires :
    (w : Poll) (p : PendingPortForward) (s : PfState) (r : Result Lease)
    → after p.created_utc s.active_registration ≡ true
    → ((l : Lease) → r ≡ value l → gateway_from_key_meta p.key ≡ value l.gateway)
    → Acquires (pending p) s (after_acquire w p.created_utc r s)
unfolding after_acquire set disable
after_acquire-Acquires w p s (error e) new at = acquires_nothing refl refl
after_acquire-Acquires w p s (value l) new at =
    acquires_lease p l refl new (at l refl)
      ((announce-acquisitions l.port _).0
        ∙ log_write-acquisitions w.write l.port (acquired p.created_utc l ∷ s.log))
      refl

-- A poll acquires nothing or, at its gateway, the newer registration that it read.
pub poll-Acquires :
    (cfg : PfSettings) (w : Poll) (r : PendingRead) (s : PfState) → Acquires r s (poll cfg w r s)
unfolding poll poll_pending
poll-Acquires cfg w (pending_unreadable e) s = acquires_nothing refl refl
poll-Acquires cfg w no_pending s = acquires_nothing refl refl
poll-Acquires cfg w (pending p) s = elim (Bool-cases (after p.created_utc s.active_registration)) [
  | inr old ↦ rw old (acquires_nothing refl refl)
  | inl new ↦ elim (Option-cases w.client) [
    | inr (e, broken) ↦ rw (new, broken) (acquires_nothing refl refl)
    | inl made ↦
        rw (new, made)
          (after_acquire-Acquires w p s (acquire_port_forward_after_gateway_wait cfg w p.key) new
            (acquire-gateway cfg w p.key))
  ]
]

pub renew-Acquires :
    (s : PfState)
    → (acquisitions (renew s).log ≡ acquisitions s.log)
      × ((renew s).active_registration ≡ s.active_registration)
unfolding renew
renew-Acquires s = elim (Bool-cases s.lease.enabled) [
  | inl on ↦ rw on (refl, refl)
  | inr off ↦ rw off (refl, refl)
]
