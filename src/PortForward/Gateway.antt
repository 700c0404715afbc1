-- ===== src/PortForward/Gateway.antt =====
-- The wait for the gateway ends (main.go, waitForGateway).
use pia_wg_config_generator.Base.{
  ℕ, zero, suc, ◌+◌, ◌≤◌, ◌<◌, Bool, true, false, ◌||◌, ◌≡◌, ◌≢◌, inl, inr, arith, Bool-cases,
  Option-cases,
}
use pia_wg_config_generator.Base.Int.{
  ℤ, pos, pos_part, ◌+ℤ◌, ◌≤ℤ◌, ◌<ℤ◌, leb_ℤ, ltb_ℤ, +ℤ_parts, ltb→lt_ℤ,
}
use pia_wg_config_generator.Base.Text.{Text, is_empty}
use pia_wg_config_generator.Clock.{Duration, add}
use pia_wg_config_generator.PortForward.{
  Dialer, out_of_fuel, gives_up, dial_loop, interval_of, wait_for_gateway,
}

-- Time does not run backwards, and a sleep takes as long as asked for.
pub record Sleeps (d : Dialer) (interval : Duration) : Type 0 where
  pub starts : d.now 0 ≤ℤ d.now 1
  pub sleeps : (i : ℕ) → d.now (suc i) +ℤ interval ≤ℤ d.now (suc (suc i))

one_more :
    (a b c e : ℤ) (i : ℕ) → a +ℤ pos i ≤ℤ b → b +ℤ e ≤ℤ c → pos 0 <ℤ e → a +ℤ pos (suc i) ≤ℤ c
one_more a b c e i h k p = omega (arith, +ℤ_parts a (pos i), +ℤ_parts b e, +ℤ_parts a (pos (suc i)))

below_timeout :
    (start now interval timeout : ℤ) (i : ℕ)
    → start +ℤ pos i ≤ℤ now
    → now +ℤ interval <ℤ start +ℤ timeout
    → pos 0 <ℤ interval
    → i + 1 < pos_part timeout
below_timeout start now interval timeout i h k p =
    omega (arith, +ℤ_parts start (pos i), +ℤ_parts now interval, +ℤ_parts start timeout)

module _ (d : Dialer) (timeout interval : Duration) (positive : pos 0 <ℤ interval)
    (w : Sleeps d interval) where
  passed : (i : ℕ) → d.now 0 +ℤ pos i ≤ℤ d.now (suc i)
  passed zero = omega (arith, w.starts, +ℤ_parts (d.now 0) (pos 0))
  passed (suc i) =
      one_more (d.now 0) (d.now (suc i)) (d.now (suc (suc i))) interval i (passed i) (w.sleeps i)
        positive

  goes_on : (i : ℕ) → gives_up d timeout interval i ≡ false → i + 1 < pos_part timeout
  unfolding gives_up
  goes_on i h = elim (Bool-cases (ltb_ℤ (add (d.now (suc i)) interval) (add (d.now 0) timeout))) [
    | inl early ↦
        below_timeout (d.now 0) (d.now (suc i)) interval timeout i (passed i)
          (ltb→lt_ℤ (add (d.now (suc i)) interval) (add (d.now 0) timeout) early) positive
    | inr late ↦ absurd (not_false (leb_ℤ timeout (pos 0)) (rw late at h))
  ]
    where
      not_false : (b : Bool) → b || true ≡ false → ⊥
      not_false true h = cc
      not_false false h = cc

  dial_loop_ends :
      (fuel i : ℕ)
      → pos_part timeout < i + fuel
      → 1 ≤ fuel
      → dial_loop fuel d timeout interval i ≢ out_of_fuel
  unfolding dial_loop
  dial_loop_ends zero i h k = absurd (omega arith)
  dial_loop_ends (suc fuel) i h k = elim (Option-cases (d.dial i)) [
    | inl answered ↦ rw (answered, dial_loop) (λ e. cc)
    | inr (e, refused) ↦ elim (Bool-cases (gives_up d timeout interval i)) [
      | inl over ↦ rw (refused, over, dial_loop) (λ e. cc)
      | inr on ↦
          rw (refused, on, dial_loop)
            (dial_loop_ends fuel (suc i) (omega (arith, h)) (omega (arith, goes_on i on, h)))
    ]
  ]

interval_of-positive : (interval : Duration) → pos 0 <ℤ interval_of interval
unfolding interval_of
interval_of-positive interval = ground arith

-- waitForGateway ends, with the gateway reached or an error, however the dials go, when time does
-- not run backwards and each sleep lasts the interval: as many dials as the timeout has nanoseconds,
-- and one more, are enough.
pub wait_for_gateway_ends :
    (d : Dialer) (timeout interval : Duration) (address : Text)
    → Sleeps d (interval_of interval)
    → wait_for_gateway d timeout interval address ≢ out_of_fuel
unfolding wait_for_gateway
wait_for_gateway_ends d timeout interval address w = elim (Bool-cases (is_empty address)) [
  | inl e ↦ rw e (λ h. cc)
  | inr given ↦ rw given (
      dial_loop_ends d timeout (interval_of interval) (interval_of-positive interval) w
        (suc (pos_part timeout)) 0 (omega arith) (omega arith))
]
