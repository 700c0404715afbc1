-- ===== src/Lifetime/Cadence.antt =====
-- The refresh cadence that follows from a lifetime record (pia/lifetime.go, MeasuredLifetime,
-- SafeRefreshInterval, ExpectedExpiry).
use mathlib.Core.List.{Memᴰ}
use Prim.Native.Nat.{min, max}
use pia_wg_config_generator.Base.{
  ℕ, ◌<◌, ◌/◌, ◌==◌, if◌then◌else◌, Option, none, some, List, [], ◌∷◌, ◌≡◌, ◌≢◌, refl, sym, ap, inl,
  inr, arith, All, Bool-cases,
}
use pia_wg_config_generator.Base.Int.{ℤ, pos, negsuc, ◌≤ℤ◌, ◌<ℤ◌, leb_ℤ, ltb_ℤ, int_laws}
use pia_wg_config_generator.Clock.{Time, Duration, add, times, second_ns, is_zero}
use pia_wg_config_generator.Clock.Float.{half-le, half-eq-div, two_53}
use pia_wg_config_generator.Lifetime.{
  LifetimeRecord, measured_lifetime, min_refresh, safe_half, safe_refresh_interval, expected_expiry,
  Source, unknown, insert_sorted, sort, measured_interval, planned_life, expiry_after, expiry_of,
}

-- `x` is in the list, and no element is less.
abbrev pub IsLeast : ℤ → List ℤ → Type 0
IsLeast x xs = Memᴰ x xs × All (λ y. x ≤ℤ y) xs

All-le_trans : (x y : ℤ) (xs : List ℤ) → x ≤ℤ y → All (λ z. y ≤ℤ z) xs → All (λ z. x ≤ℤ z) xs
All-le_trans x y [] h a = tt
All-le_trans x y (z ∷ zs) h a = (omega (arith, a.0), All-le_trans x y zs h a.1)

insert_sorted-IsLeast :
    (a y : ℤ) (xs ys : List ℤ)
    → IsLeast y xs
    → (z : ℤ) × (zs : List ℤ) × (insert_sorted a (y ∷ ys) ≡ z ∷ zs) × IsLeast z (a ∷ xs)
unfolding insert_sorted
insert_sorted-IsLeast a y xs ys l = elim (Bool-cases (ltb_ℤ y a)) [
  | inl below ↦ (y, insert_sorted a ys, rw below, (Memᴰ.tail l.0, (ground arith, l.1)))
  | inr above ↦
      (a, y ∷ ys, rw above, (Memᴰ.head refl, (omega arith, All-le_trans a y xs (ground arith) l.1)))
]

sort-IsLeast :
    (a : ℤ) (xs : List ℤ) → (z : ℤ) × (zs : List ℤ) × (sort (a ∷ xs) ≡ z ∷ zs) × IsLeast z (a ∷ xs)
unfolding sort
sort-IsLeast a [] = (a, [], refl, (Memᴰ.head refl, (omega arith, tt)))
sort-IsLeast a (b ∷ xs) =
    let (z, zs, e, l) = sort-IsLeast b xs in rw e (insert_sorted-IsLeast a z (b ∷ xs) zs l)

-- The measured lifetime is known just if a lifetime was observed, and it is then the shortest
-- observed one, in nanoseconds as an int64 holds them.
pub measured_lifetime-IsLeast :
    (r : LifetimeRecord) (a : ℤ) (xs : List ℤ)
    → r.observed ≡ a ∷ xs
    → (s : ℤ) × (measured_lifetime r ≡ some (times s second_ns)) × IsLeast s (a ∷ xs)
unfolding measured_lifetime
measured_lifetime-IsLeast r a xs e =
    let (z, zs, sorted, l) = sort-IsLeast a xs in (z, rw e (rw sorted refl), l)

safe_half-ge : (d : Duration) → min_refresh ≤ℤ safe_half d
unfolding safe_half
safe_half-ge d = ground arith

-- For a duration of at least 30 minutes, the half, or 30 minutes if that is more, is no longer.
safe_half-le : (d : Duration) → min_refresh ≤ℤ d → safe_half d ≤ℤ d
unfolding safe_half
safe_half-le (pos n) h = let (m, e, le) = half-le n in rw e (ground arith)
safe_half-le (negsuc n) h = absurd (omega arith)

safe_half-eq_max : (n : ℕ) → n < two_53 → safe_half (pos n) ≡ pos (max 1800000000000 (n / 2))
unfolding safe_half
safe_half-eq_max n h = rw (half-eq-div n h) (ground arith)

-- For a measured lifetime of `n` ns and a maximal age of `m` ns, 0 for none, both below 104 days: the
-- interval before jitter is half of the lifetime, where less than 30 minutes counts as 30 minutes; and
-- no more than half of the maximal age, in the same sense, if one is set; whatever is configured.
pub safe_refresh_interval-eq_half :
    (r : LifetimeRecord) (configured : Duration) (n m : ℕ)
    → measured_lifetime r ≡ some (pos n)
    → n < two_53
    → m < two_53
    → safe_refresh_interval r configured (pos m)
      ≡ pos (
          if m == 0
          then max 1800000000000 (n / 2)
          else min (max 1800000000000 (n / 2)) (max 1800000000000 (m / 2)))
unfolding safe_refresh_interval measured_interval
safe_refresh_interval-eq_half r configured n m known short young =
    rw (known, safe_half-eq_max n short, safe_half-eq_max m young) (ground arith)

-- With a measured lifetime the interval is at least 30 minutes and at most the code's half of it.
safe_refresh_interval-le_life :
    (r : LifetimeRecord) (configured user_max_age : Duration) {life : Duration}
    → measured_lifetime r ≡ some life
    → (min_refresh ≤ℤ safe_refresh_interval r configured user_max_age)
      × (safe_refresh_interval r configured user_max_age ≤ℤ safe_half life)
unfolding safe_refresh_interval
safe_refresh_interval-le_life r configured user_max_age {life} known =
    (ground arith, rw known (ground (arith, safe_half-ge life)))

-- With a maximal age set the interval is at least 30 minutes and at most half of that age, where a
-- half below 30 minutes counts as 30 minutes; whatever was measured or configured.
pub safe_refresh_interval-le_age :
    (r : LifetimeRecord) (configured user_max_age : Duration)
    → pos 0 <ℤ user_max_age
    → (min_refresh ≤ℤ safe_refresh_interval r configured user_max_age)
      × (safe_refresh_interval r configured user_max_age ≤ℤ safe_half user_max_age)
unfolding safe_refresh_interval
safe_refresh_interval-le_age r configured user_max_age positive =
    (ground arith, ground (arith, safe_half-ge user_max_age))

-- The interval is no longer than a life of at least 30 minutes that the estimate is made of.
interval-le_measured :
    (configured user_max_age life : Duration)
    → min_refresh ≤ℤ life
    → (r : LifetimeRecord) → measured_lifetime r ≡ some life
    → safe_refresh_interval r configured user_max_age ≤ℤ life
interval-le_measured configured user_max_age life h r known =
    omega (
      arith,
      safe_half-le life h,
      (safe_refresh_interval-le_life r configured user_max_age known).1,
    )

interval-le_planned :
    (configured user_max_age : Duration) (r : LifetimeRecord)
    → measured_lifetime r ≡ none
    → min_refresh ≤ℤ planned_life configured user_max_age
    → safe_refresh_interval r configured user_max_age ≤ℤ planned_life configured user_max_age
unfolding planned_life safe_refresh_interval measured_interval
interval-le_planned configured user_max_age r u h = rw u (ground (arith, safe_half-le user_max_age))

add-le : (t : Time) (a b : Duration) → a ≤ℤ b → add t a ≤ℤ add t b
add-le t a b h = omega int_laws

add-le_cancel : (t : Time) (a b : Duration) → add t a ≤ℤ add t b → a ≤ℤ b
add-le_cancel t a b h = omega int_laws

before_planned :
    (configured user_max_age : Duration) (r : LifetimeRecord) (birth : Time) {t : Time}
    {source : Source}
    → measured_lifetime r ≡ none
    → expiry_after birth (planned_life configured user_max_age) ≡ (t, source)
    → source ≢ unknown
    → add birth min_refresh ≤ℤ t
    → add birth (safe_refresh_interval r configured user_max_age) ≤ℤ t
unfolding expiry_after
before_planned configured user_max_age r birth {t} {source} u e known h =
    elim (Bool-cases (leb_ℤ (planned_life configured user_max_age) (pos 0))) [
      | inl dead ↦ absurd (known (ground (arith, e, dead)))
      | inr alive ↦ ground (
        arith,
        e,
        alive,
        add-le birth (safe_refresh_interval r configured user_max_age)
            (planned_life configured user_max_age),
        add-le_cancel birth min_refresh (planned_life configured user_max_age),
        interval-le_planned configured user_max_age r u,
      )
    ]

before_expiry_of :
    (configured user_max_age : Duration) (r : LifetimeRecord) (birth t : Time) (source : Source)
    (life : Option Duration)
    → measured_lifetime r ≡ life
    → expiry_of birth configured user_max_age life ≡ (t, source)
    → source ≢ unknown
    → add birth min_refresh ≤ℤ t
    → add birth (safe_refresh_interval r configured user_max_age) ≤ℤ t
unfolding expiry_of
before_expiry_of configured user_max_age r birth t source none u e known h =
    before_planned configured user_max_age r birth u e known h
before_expiry_of configured user_max_age r birth t source (some life) m e known h =
    let at : add birth life ≡ t = ap (λ p. p.0) e in
    let long = add-le_cancel birth min_refresh life (rw at h) in
    rw (← at) (
      add-le birth (safe_refresh_interval r configured user_max_age) life
        (interval-le_measured configured user_max_age life long r m))

-- The interval from the birth on, before jitter and the floor of a minute, ends no later than the
-- expected expiry that status.json shows, for every record and every setting of the flags: whenever an expiry is estimated, from a measurement
-- or from the fallback, and it is at least 30 minutes after the birth of the registration.
pub refresh_before_expiry :
    (r : LifetimeRecord) (configured user_max_age : Duration) {t : Time} {source : Source}
    → expected_expiry r configured user_max_age ≡ (t, source)
    → source ≢ unknown
    → add r.current_registration min_refresh ≤ℤ t
    → add r.current_registration (safe_refresh_interval r configured user_max_age) ≤ℤ t
unfolding expected_expiry
refresh_before_expiry r configured user_max_age {t = t} {source = source} e known h =
    elim (Bool-cases (is_zero r.current_registration)) [
      | inl unborn ↦ absurd (known (sym (ap (λ p. p.1) (rw unborn at e))))
      | inr born ↦
          before_expiry_of configured user_max_age r r.current_registration t source
            (measured_lifetime r) refl (rw born at e) known h
    ]
