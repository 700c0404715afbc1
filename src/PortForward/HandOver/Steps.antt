-- ===== src/PortForward/HandOver/Steps.antt =====
-- What every step of the two processes at one state directory keeps (refresh.go, pf_daemon.go).
use mathlib.Core.List.{Memᴰ}
use pia_wg_config_generator.Base.{
  true, none, some, List, [], ◌∷◌, ◌≡◌, ◌⊎◌, inl, inr, refl, sym, ◌∙◌, All, All-map, Option-cases,
  arith,
}
use pia_wg_config_generator.Base.Int.{◌≤ℤ◌, ◌<ℤ◌}
use pia_wg_config_generator.Clock.{Time, zero_time, after}
use pia_wg_config_generator.Api.{AddKeyResult}
use pia_wg_config_generator.PortForward.{value, gateway_from_key_meta}
use pia_wg_config_generator.PortForward.Daemon.{
  PendingPortForward, PendingRead, PfSettings, Lease, PfState, poll, renew,
}
use pia_wg_config_generator.PortForward.Daemon.Acquired.{
  acquisitions, Acquires, acquires_nothing, acquires_lease, poll-Acquires, renew-Acquires,
}
use pia_wg_config_generator.Refresh.{Effect, wrote_pending}
use pia_wg_config_generator.Refresh.HandOver.{HandsOver}
use pia_wg_config_generator.PortForward.HandOver.{
  newest, Finds, Interleaved, starts, refresh_does, pf_polls, pf_renews, IsHanded, Advances,
  KeepsUp,
}
use pia_wg_config_generator.PortForward.HandOver.Newest.{
  kind, newest-IsNewest, given_cases, none_given, HandsOver-behind,
}

-- The last acquisition, of a key that was handed over at the time that is the active registration.
pub record LastAcquired (log : List Effect) (s : PfState) : Type 0 where
  key : AddKeyResult
  lease : Lease
  rest : List (Time × Lease)
  is_last : acquisitions s.log ≡ (s.active_registration, lease) ∷ rest
  is_handed : Memᴰ (wrote_pending s.active_registration key) log
  is_at : gateway_from_key_meta key ≡ value lease.gateway

pub record InStep (log : List Effect) (s : PfState) : Type 0 where
  pub handed : All (IsHanded log) (acquisitions s.log)
  pub advances : Advances (acquisitions s.log)
  bound : All (λ a. a.0 ≤ℤ s.active_registration) (acquisitions s.log)
  active : ((acquisitions s.log ≡ []) × (s.active_registration ≡ zero_time)) ⊎ LastAcquired log s

does-InStep : (e : Effect) (log : List Effect) (s : PfState) → InStep log s → InStep (e ∷ log) s
does-InStep e log s h = record {
  handed =
      All-map (IsHanded log) (IsHanded (e ∷ log))
        (λ a (gen, made, given, at). (gen, Memᴰ.tail made, Memᴰ.tail given, at))
        (acquisitions s.log) h.handed;
  advances = h.advances;
  bound = h.bound;
  active = elim h.active [
    | inl nothing ↦ inl nothing
    | inr last ↦ inr (record {
      key = last.key;
      lease = last.lease;
      rest = last.rest;
      is_last = last.is_last;
      is_handed = Memᴰ.tail last.is_handed;
      is_at = last.is_at;
    })
  ];
}

same-InStep :
    (log : List Effect) (s s' : PfState)
    → acquisitions s'.log ≡ acquisitions s.log
    → s'.active_registration ≡ s.active_registration
    → InStep log s
    → InStep log s'
same-InStep log s s' same still h = record {
  handed = rw same h.handed;
  advances = rw same h.advances;
  bound = rw (same, still) h.bound;
  active = elim h.active [
    | inl nothing ↦ inl (same ∙ nothing.0, still ∙ nothing.1)
    | inr last ↦ inr (record {
      key = last.key;
      lease = last.lease;
      rest = last.rest;
      is_last = rw (same, still) last.is_last;
      is_handed = rw still last.is_handed;
      is_at = last.is_at;
    })
  ];
}

le_later : (t u : Time) → after u t ≡ true → (a : Time × Lease) → a.0 ≤ℤ t → a.0 <ℤ u
le_later t u h a b = ground arith

lt_le : (u : Time) (a : Time × Lease) → a.0 <ℤ u → a.0 ≤ℤ u
lt_le u a b = ground arith

poll-InStep :
    (w : PendingRead) (log : List Effect) (s s' : PfState)
    → HandsOver log
    → Finds log w
    → Acquires w s s'
    → InStep log s
    → InStep log s'
poll-InStep w log s s' over finds (acquires_nothing same still) h =
    same-InStep log s s' same still h
poll-InStep w log s s' over finds (acquires_lease p l is_p new at more now) h =
    let found : newest log ≡ some p = rw is_p at finds in
    let n = newest-IsNewest log p over found in
    let le_self : p.created_utc ≤ℤ p.created_utc = omega arith in
    let lower =
      All-map (λ a. a.0 ≤ℤ s.active_registration) (λ a. a.0 <ℤ p.created_utc)
        (le_later s.active_registration p.created_utc new) (acquisitions s.log) h.bound in
    record {
      handed = rw more ((n.gen, n.made, rw n.is_key n.given, rw n.is_key at), h.handed);
      advances = rw more (lower, h.advances);
      bound = rw more (
        rw now le_self,
        All-map (λ a. a.0 <ℤ p.created_utc) (λ a. a.0 ≤ℤ s'.active_registration)
            (λ a b. lt_le s'.active_registration a (rw now b)) (acquisitions s.log) lower,
      );
      active = inr (record {
        key = p.key;
        lease = l;
        rest = acquisitions s.log;
        is_last = rw (more, now) refl;
        is_handed = rw now n.given;
        is_at = at;
      });
    }

pub Interleaved-InStep :
    (cfg : PfSettings) (log : List Effect) (s : PfState)
    → Interleaved cfg log s
    → HandsOver log
    → InStep log s
Interleaved-InStep cfg _ _ starts over = record {
  handed = tt;
  advances = tt;
  bound = tt;
  active = inl (refl, refl);
}
Interleaved-InStep cfg _ _ (refresh_does {log} {s} e i) over =
    does-InStep e log s (Interleaved-InStep cfg log s i (HandsOver-behind e log (kind e) over))
Interleaved-InStep cfg _ _ (pf_polls {log} {s} w finds i) over =
    poll-InStep w.read log s (poll cfg w w.read s) over finds (poll-Acquires cfg w w.read s)
      (Interleaved-InStep cfg log s i over)
Interleaved-InStep cfg _ _ (pf_renews {log} {s} i) over =
    same-InStep log s (renew s) (renew-Acquires s).0 (renew-Acquires s).1
      (Interleaved-InStep cfg log s i over)

pub InStep-KeepsUp :
    (log : List Effect) (s : PfState) → HandsOver log → InStep log s → KeepsUp (newest log) s
InStep-KeepsUp log s over h = elim (Option-cases (newest log)) [
  | inl nothing ↦ rw nothing (empty nothing h.active)
  | inr (p, now) ↦ rw now (kept p now h.active)
]
  where
    empty :
        newest log ≡ none
        → ((acquisitions s.log ≡ []) × (s.active_registration ≡ zero_time)) ⊎ LastAcquired log s
        → acquisitions s.log ≡ []
    empty nothing (inl (no_lease, start)) = no_lease
    empty nothing (inr last) =
        absurd (none_given log s.active_registration last.key nothing last.is_handed)

    older : (t u : Time) → t <ℤ u → after u t ≡ true
    older t u b = ground arith

    kept :
        (p : PendingPortForward)
        → newest log ≡ some p
        → ((acquisitions s.log ≡ []) × (s.active_registration ≡ zero_time)) ⊎ LastAcquired log s
        → KeepsUp (some p) s
    kept p now (inl (no_lease, start)) =
        let n = newest-IsNewest log p over now in
        inr (rw start (older zero_time p.created_utc n.positive))
    kept p now (inr last) =
        elim (given_cases log p s.active_registration last.key over now last.is_handed) [
          | inl (same, is_key) ↦
              inl (last.lease, last.rest, rw (sym same) last.is_last, rw (sym is_key) last.is_at)
          | inr before ↦ inr (older s.active_registration p.created_utc before)
        ]
