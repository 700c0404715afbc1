-- ===== src/Base/Text/Replace.antt =====
-- strings.ReplaceAll.
pub mod Occurs
use Prim.Native.Nat.{ℕ, zero, suc, ◌-◌}
use mathlib.Core.List.{[], ◌∷◌, ◌++◌}
use pia_wg_config_generator.Base.Tests.{if◌then◌else◌}
use pia_wg_config_generator.Base.Lists.{length}
use pia_wg_config_generator.Base.Text.{Text, has_prefix}

-- The replacement from left to right, for an `old` that is not empty; `skip` bytes of an occurrence
-- are still to be passed.
unfoldable pub replace_from : Text → Text → ℕ → Text → Text
replace_from old new skip [] = []
replace_from old new (suc skip) (c ∷ cs) = replace_from old new skip cs
replace_from old new zero (c ∷ cs) =
    let behind = replace_from old new (length old - 1) cs in
    let rest = replace_from old new zero cs in
    if has_prefix (c ∷ cs) old then new ++ behind else c ∷ rest

-- An empty `old` is found before each byte and at the end.
between : Text → Text → Text
between new [] = new
between new (c ∷ cs) = new ++ (c ∷ between new cs)

unfoldable pub replace_all : Text → Text → Text → Text
unfolding between
replace_all s [] new = between new s
replace_all s (o ∷ old) new = replace_from (o ∷ old) new zero s
