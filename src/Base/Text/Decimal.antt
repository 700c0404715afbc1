-- ===== src/Base/Text/Decimal.antt =====
-- Integers in decimal, as fmt, strconv and text/template print them.
use Prim.Native.Nat.{ℕ, zero, suc, ◌+◌, ◌/◌, ◌%◌}
use mathlib.Core.Bool.{Bool, true, false}
use mathlib.Core.List.{[], ◌∷◌}
use pia_wg_config_generator.Base.Tests.{if◌then◌else◌}
use pia_wg_config_generator.Base.Int.{ℤ, pos, negsuc}
use pia_wg_config_generator.Base.Text.{Text, codes}

-- The decimal digits of a number, before `rest`; the number itself is fuel enough.
unfoldable pub digits : ℕ → ℕ → Text → Text
digits zero n rest = rest
digits (suc fuel) n rest =
    let shorter = digits fuel (n / 10) ((n % 10 + b'0') ∷ rest) in
    if is_zero n then rest else shorter
  where
    is_zero : ℕ → Bool
    is_zero zero = true
    is_zero (suc m) = false

-- An int as %d and text/template print it.
unfoldable pub decimal : ℤ → Text
unfolding digits
decimal (pos zero) = codes "0"
decimal (pos (suc n)) = digits (suc n) (suc n) []
decimal (negsuc n) = b'-' ∷ digits (suc n) (suc n) []
