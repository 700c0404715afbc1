-- ===== src/Refresh/Cooldown.antt =====
-- The escalating cooldown between reactive recoveries (refresh.go, effectiveCooldownLocked).
use Prim.Native.Nat.{min}
use native.Mathlib.Nat.{pow-suc}
use pia_wg_config_generator.Base.{
  ℕ, zero, suc, ◌*◌, ◌^◌, ◌≤◌, ◌<◌, ◌≡◌, refl, inl, inr, arith, if◌then◌else◌, ltb, Bool-cases,
}
use pia_wg_config_generator.Base.Int.{pos, ◌*ℤ◌, ltb_ℤ, leb_ℤ, wrap64}
use pia_wg_config_generator.Clock.{Duration, times}
use pia_wg_config_generator.Refresh.Outcome.{
  cooldown_cap, default_cooldown, escalate, effective_cooldown,
}

abbrev pub cap_ns : ℕ
cap_ns = 1800000000000

abbrev clamp : Duration → Duration
clamp c = if ltb_ℤ cooldown_cap c then cooldown_cap else c

times_two : (c : ℕ) → c < cap_ns → times (pos c) 2 ≡ pos (2 * c)
unfolding times wrap64 ◌*ℤ◌
times_two c h = ground arith

pow_ge_one : (k : ℕ) → 1 ≤ 2 ^ k
pow_ge_one zero = omega arith
pow_ge_one (suc k) = rw pow-suc (omega (arith, pow_ge_one k))

escalate_below : (k c : ℕ) → c < cap_ns → escalate (suc k) (pos c) ≡ escalate k (pos (2 * c))
unfolding escalate
escalate_below k c h = ground (arith, times_two c h)

escalate_above : (k c : ℕ) → cap_ns ≤ c → escalate k (pos c) ≡ pos c
unfolding escalate
escalate_above zero c h = refl
escalate_above (suc k) c h = ground arith

pow_step : (c k : ℕ) → c * 2 ^ suc k ≡ 2 * c * 2 ^ k
pow_step c k = rw pow-suc (grind arith)

above_cap : (c k : ℕ) → cap_ns ≤ c → cap_ns ≤ c * 2 ^ k
above_cap c k h = let one = pow_ge_one k in grind arith

escalate-min : (k c : ℕ) → clamp (escalate k (pos c)) ≡ pos (min (c * 2 ^ k) cap_ns)
escalate-min zero c = unfold escalate in ground arith
escalate-min (suc k) c = elim (Bool-cases (ltb c cap_ns)) [
  | inl below ↦ rw (escalate_below k c (ground arith), pow_step c k) (escalate-min k (2 * c))
  | inr above ↦
      rw (escalate_above (suc k) c (ground arith))
        (ground (arith, above_cap c (suc k) (ground arith)))
]

-- The cooldown after `k` recoveries in a row that did not restore the tunnel: the base, which is
-- `n` ns and stands for 3 minutes where the setting is not positive, doubled `k` times and cut at
-- 30 minutes; no `k` makes it overflow.
pub effective_cooldown-eq_min :
    (setting : Duration) (k n : ℕ)
    → (if leb_ℤ setting (pos 0) then default_cooldown else setting) ≡ pos n
    → effective_cooldown setting (pos k) ≡ pos (min (n * 2 ^ k) cap_ns)
unfolding effective_cooldown
effective_cooldown-eq_min setting k n base = rw base (escalate-min k n)
