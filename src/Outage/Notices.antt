-- ===== src/Outage/Notices.antt =====
-- What the outage policy sends over a history of failed attempts and healthy samples: the calls of
-- `failure` and `healthy` as the refresh daemon makes them (refresh.go, noteFailedAttempt and
-- observe), each sending its event just if the first result is true.
use pia_wg_config_generator.Base.{
  ℕ, suc, ◌+◌, ◌<◌, Bool, true, false, ◌&&◌, List, [], ◌∷◌, ◌++◌, map, ◌≡◌, refl, arith,
  if◌then◌else◌, leb, ltb, length,
}
use pia_wg_config_generator.Base.Int.{ℤ, pos, ◌+ℤ◌, ◌≤ℤ◌, wrap64, two_63}
use pia_wg_config_generator.Clock.{Time, Duration, is_zero, sub}
use pia_wg_config_generator.Outage.{OutagePolicy, new_outage_policy, failure, healthy}

pub data Event : Type 0 where
  failed : Time → Event
  seen_healthy : Time → Event

pub data Notice : Type 0 where
  failure_alert : ℤ → Notice
  recovered : Duration → ℤ → Notice

-- One call, and the notice that it sends.
unfoldable pub step : OutagePolicy → Event → OutagePolicy × List Notice
step p (failed now) =
    let (q, fire, attempts) = failure now p in
    (q, (if fire then failure_alert attempts ∷ [] else []))
step p (seen_healthy now) =
    let (q, ended, outage, attempts) = healthy now p in
    (q, (if ended then recovered outage attempts ∷ [] else []))

unfoldable pub run : OutagePolicy → List Event → OutagePolicy × List Notice
run p [] = (p, [])
run p (e ∷ es) = let (q, sent) = step p e in let (r, later) = run q es in (r, sent ++ later)

-- An alert can only follow a recovery, and a recovery an alert; the flag says that an alert is out.
abbrev pub Alternates : Bool → List Notice → Type 0
Alternates out [] = Unit
Alternates out (failure_alert n ∷ ns) = (out ≡ false) × Alternates true ns
Alternates out (recovered d n ∷ ns) = (out ≡ true) × Alternates false ns

step-Alternates :
    (p : OutagePolicy) (e : Event) (ns : List Notice)
    → Alternates (step p e).0.alerted ns
    → Alternates p.alerted ((step p e).1 ++ ns)
unfolding step failure healthy
step-Alternates p (failed now) ns h = ground arith
step-Alternates p (seen_healthy now) ns h = ground arith

run-Alternates' : (p : OutagePolicy) (es : List Event) → Alternates p.alerted (run p es).1
unfolding run
run-Alternates' p [] = tt
run-Alternates' p (e ∷ es) =
    step-Alternates p e (run (step p e).0 es).1 (run-Alternates' (step p e).0 es)

-- Over any history from a new policy, whatever its threshold, failure alerts and recovered notices
-- strictly alternate, an alert first: an outage is alerted at most once, and a recovery is
-- reported just for an outage that was alerted.
pub run-Alternates :
    (threshold : ℤ) (es : List Event) → Alternates false (run (new_outage_policy threshold) es).1
unfolding new_outage_policy
run-Alternates threshold es = run-Alternates' (new_outage_policy threshold) es

-- A threshold of 0 or less sends nothing.
step_disabled :
    (p : OutagePolicy) (e : Event)
    → p.threshold ≤ℤ pos 0
    → p.alerted ≡ false
    → ((step p e).1 ≡ []) × ((step p e).0.threshold ≡ p.threshold) × ((step p e).0.alerted ≡ false)
unfolding step failure healthy
step_disabled p (failed now) h a = ground arith
step_disabled p (seen_healthy now) h a = ground arith

run_disabled :
    (p : OutagePolicy) (es : List Event)
    → p.threshold ≤ℤ pos 0
    → p.alerted ≡ false
    → (run p es).1 ≡ []
unfolding run
run_disabled p [] h a = refl
run_disabled p (e ∷ es) h a =
    let (none_sent, same, quiet) = step_disabled p e h a in
    rw none_sent (run_disabled (step p e).0 es (rw same h) quiet)

-- With a threshold of 0 or less no history sends any notice.
run-disabled :
    (threshold : ℤ) (es : List Event)
    → threshold ≤ℤ pos 0
    → (run (new_outage_policy threshold) es).1 ≡ []
unfolding new_outage_policy
run-disabled threshold es h = run_disabled (new_outage_policy threshold) es h refl

-- A policy inside an outage that began at `start`, after `n` failures.
abbrev inside : ℤ → ℕ → Bool → Time → OutagePolicy
inside threshold n alerted start = record {
  threshold = threshold;
  failures = pos n;
  alerted = alerted;
  outage_start = start;
}

abbrev pub failures_at : List Time → List Event
failures_at = map failed

-- One failure inside an outage, with the threshold `k + 1`.
step-inside :
    (k n : ℕ) (start now : Time)
    → is_zero start ≡ false
    → suc n < two_63
    → step (inside (pos (suc k)) n (ltb k n) start) (failed now) ≡ (
      inside (pos (suc k)) (suc n) (ltb k (suc n)) start,
      (if leb n k && leb k n then failure_alert (pos (suc k)) ∷ [] else []),
    )
unfolding step failure ◌+ℤ◌ wrap64
step-inside k n start now z h = ground arith

-- What is still to be sent when `n` failures of an outage are behind and `m` lie ahead.
abbrev still_sent : ℕ → ℕ → ℕ → Duration → List Notice
still_sent k n m outage =
    (if leb n k && ltb k (n + m) then failure_alert (pos (suc k)) ∷ [] else [])
    ++ (if ltb k (n + m) then recovered outage (pos (n + m)) ∷ [] else [])

step_recovery :
    (k n : ℕ) (start now : Time)
    → is_zero start ≡ false
    → step (inside (pos (suc k)) n (ltb k n) start) (seen_healthy now) ≡ (
      new_outage_policy (pos (suc k)),
      (if ltb k n then recovered (sub now start) (pos n) ∷ [] else []),
    )
unfolding step healthy new_outage_policy
step_recovery k n start now z = rw z

run-inside :
    (k n : ℕ) (start now : Time) (ts : List Time)
    → is_zero start ≡ false
    → n + length ts < two_63
    → run (inside (pos (suc k)) n (ltb k n) start) (failures_at ts ++ seen_healthy now ∷ [])
      ≡ (new_outage_policy (pos (suc k)), still_sent k n (length ts) (sub now start))
unfolding run
run-inside k n start now [] z b = ground (arith, step_recovery k n start now z)
run-inside k n start now (t ∷ ts) z b =
    ground (arith, step-inside k n start t z, run-inside k (suc n) start now ts z)

-- The failure that begins an outage.
step_first :
    (k : ℕ) (start : Time)
    → step (new_outage_policy (pos (suc k))) (failed start) ≡ (
      inside (pos (suc k)) 1 (ltb k 1) start,
      (if leb k 0 then failure_alert (pos (suc k)) ∷ [] else []),
    )
unfolding step failure new_outage_policy ◌+ℤ◌ wrap64
step_first k start = ground arith

-- A whole outage under the threshold `k + 1`, from the first failed attempt at `start` over further
-- ones at the times `ts` to the healthy sample at `now`, fewer than 2^63 failures in all: if the
-- failures reach the threshold then exactly one alert is sent, with the count `k + 1`, and then one
-- recovered notice with the time since `start` and the number of failures; if they do not reach
-- it, nothing is sent. The policy is then as a new one.
pub run_outage :
    (k : ℕ) (start now : Time) (ts : List Time)
    → is_zero start ≡ false
    → suc (length ts) < two_63
    → run (new_outage_policy (pos (suc k))) (failures_at (start ∷ ts) ++ seen_healthy now ∷ []) ≡ (
      new_outage_policy (pos (suc k)),
      (if ltb k (suc (length ts))
          then failure_alert (pos (suc k)) ∷ recovered (sub now start) (pos (suc (length ts))) ∷ []
          else []),
    )
unfolding run
run_outage k start now ts z b = ground (arith, step_first k start, run-inside k 1 start now ts z)
