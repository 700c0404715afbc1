-- ===== src/Base/Int.antt =====
-- Signed integers over the native numbers, and the int64 of Go: its wrap-around, and the
-- saturation of `time.Time.Sub`.
use Prim.Native.Nat.{ℕ, suc, ◌+◌, ◌-◌, ◌*◌, ◌%◌, ◌≤◌, ◌<◌}
use mathlib.Core.Path.{◌≡◌}
use mathlib.Core.Bool.{Bool, true, false}
use native.Mathlib.Omega.{arith}
use pia_wg_config_generator.Base.Tests.{ltb, leb, if◌then◌else◌}

-- `negsuc n` is -(n + 1).
pub data ℤ : Type 0 where
  pos : ℕ → ℤ
  negsuc : ℕ → ℤ

abbrev pub pos_part : ℤ → ℕ
pos_part (pos n) = n
pos_part (negsuc n) = 0

abbrev pub neg_part : ℤ → ℕ
neg_part (pos n) = 0
neg_part (negsuc n) = suc n

-- a - b, as an integer.
abbrev pub sub_ℕ : ℕ → ℕ → ℤ
sub_ℕ a b = if leb b a then pos (a - b) else negsuc (b - a - 1)

infixl 65 ◌+ℤ◌ ◌-ℤ◌
infixl 70 ◌*ℤ◌
infix 50 ◌≤ℤ◌ ◌<ℤ◌
unfoldable pub ◌+ℤ◌ : ℤ → ℤ → ℤ
a +ℤ b = sub_ℕ (pos_part a + pos_part b) (neg_part a + neg_part b)

unfoldable pub ◌-ℤ◌ : ℤ → ℤ → ℤ
a -ℤ b = sub_ℕ (pos_part a + neg_part b) (neg_part a + pos_part b)

-- A multiple by a number that is not negative.
unfoldable pub ◌*ℤ◌ : ℤ → ℕ → ℤ
a *ℤ k = sub_ℕ (pos_part a * k) (neg_part a * k)

abbrev pub ◌≤ℤ◌ : ℤ → ℤ → Type 0
a ≤ℤ b = pos_part a + neg_part b ≤ pos_part b + neg_part a

abbrev pub ◌<ℤ◌ : ℤ → ℤ → Type 0
a <ℤ b = pos_part a + neg_part b < pos_part b + neg_part a

abbrev pub ltb_ℤ : ℤ → ℤ → Bool
ltb_ℤ a b = ltb (pos_part a + neg_part b) (pos_part b + neg_part a)

abbrev pub leb_ℤ : ℤ → ℤ → Bool
leb_ℤ a b = leb (pos_part a + neg_part b) (pos_part b + neg_part a)

-- The bounds of int64: 2^63 and 2^64.
abbrev pub two_63 : ℕ
two_63 = 9223372036854775808

abbrev pub two_64 : ℕ
two_64 = 18446744073709551616

-- The int64 with a given bit pattern below 2^64.
abbrev pub of_bits : ℕ → ℤ
of_bits u = if ltb u two_63 then pos u else negsuc (two_64 - 1 - u)

-- What an int64 holds of the integer that an operation yields.
unfoldable pub wrap64 : ℤ → ℤ
wrap64 (pos n) = of_bits (n % two_64)
wrap64 (negsuc n) = of_bits (two_64 - 1 - n % two_64)

-- The nearest int64.
unfoldable pub sat64 : ℤ → ℤ
sat64 (pos n) = if ltb n two_63 then pos n else pos (two_63 - 1)
sat64 (negsuc n) = if ltb n two_63 then negsuc n else negsuc (two_63 - 1)

-- The integers that an int64 holds.
abbrev pub Fits64 : ℤ → Type 0
Fits64 (pos n) = n < two_63
Fits64 (negsuc n) = n < two_63

pub wrap64_of_Fits64 : (z : ℤ) → Fits64 z → wrap64 z ≡ z
unfolding wrap64
wrap64_of_Fits64 (pos n) h = ground arith
wrap64_of_Fits64 (negsuc n) h = ground arith

pub sat64_of_Fits64 : (z : ℤ) → Fits64 z → sat64 z ≡ z
unfolding sat64
sat64_of_Fits64 (pos n) h = ground arith
sat64_of_Fits64 (negsuc n) h = ground arith

-- One lemma for each operation lets `omega` work with the operations shut.
pub +ℤ_parts :
    (a b : ℤ)
    → pos_part (a +ℤ b) + neg_part a + neg_part b ≡ neg_part (a +ℤ b) + pos_part a + pos_part b
unfolding ◌+ℤ◌
+ℤ_parts a b = ground arith

pub -ℤ_parts :
    (a b : ℤ)
    → pos_part (a -ℤ b) + neg_part a + pos_part b ≡ neg_part (a -ℤ b) + pos_part a + neg_part b
unfolding ◌-ℤ◌
-ℤ_parts a b = ground arith

pub eq_of_parts : (a b : ℤ) → pos_part a + neg_part b ≡ pos_part b + neg_part a → a ≡ b
eq_of_parts a b h = ground arith

pub ltb→lt_ℤ : (a b : ℤ) → ltb_ℤ a b ≡ true → a <ℤ b
ltb→lt_ℤ a b h = ground arith

pub ltb→le_ℤ : (a b : ℤ) → ltb_ℤ a b ≡ false → b ≤ℤ a
ltb→le_ℤ a b h = ground arith

pub ruleset int_laws = (arith, +ℤ_parts, -ℤ_parts, eq_of_parts, ltb→lt_ℤ, ltb→le_ℤ)
