-- ===== src/Base/Text.antt =====
-- Go strings and byte slices as lists of bytes, with the functions of package strings that the
-- program calls. Texts are ASCII: Unicode white space and case folding beyond it are left out.
pub mod Search
pub mod Decimal
pub mod Replace
pub mod Trim
use Prim.Native.Nat.{ℕ, ◌+◌}
use Prim.Native.Char.{code}
use Prim.Native.String.{String}
use mathlib.Core.Path.{◌≡◌}
use mathlib.Core.Logic.{◌↔◌}
use mathlib.Core.Bool.{Bool, true, false, ◌&&◌, ◌||◌}
use mathlib.Core.Option.{Option, none, some}
use mathlib.Core.List.{List, [], ◌∷◌, map, reverse}
use native.Mathlib.Omega.{arith}
use pia_wg_config_generator.Base.Tests.{leb, ◌==◌, if◌then◌else◌}

abbrev pub Text : Type 0
Text = List ℕ

-- The code points of a literal: its bytes, since every literal of the development is ASCII.
abbrev pub codes : String → Text
codes String.[] = []
codes (String.◌∷◌ c s) = code c ∷ codes s

-- `a == b` on strings.
unfoldable pub text_eq : Text → Text → Bool
text_eq [] [] = true
text_eq (x ∷ xs) (y ∷ ys) = x == y && text_eq xs ys
text_eq _ _ = false

pub text_eq_iff : (a b : Text) → (text_eq a b ≡ true) ↔ (a ≡ b)
unfolding text_eq
text_eq_iff (x ∷ a) (y ∷ b) = ground (arith, text_eq_iff a b)
text_eq_iff _ _ = ground arith

abbrev pub is_empty : Text → Bool
is_empty [] = true
is_empty (x ∷ xs) = false

-- The ASCII bytes that `unicode.IsSpace` accepts.
unfoldable pub is_space : ℕ → Bool
is_space c = c == b' ' || (leb 9 c && leb c 13)

unfoldable pub trim_left : Text → Text
trim_left [] = []
trim_left (c ∷ cs) = if is_space c then trim_left cs else c ∷ cs

unfoldable pub trim_right : Text → Text
unfolding trim_left
trim_right s = reverse (trim_left (reverse s))

-- strings.TrimSpace
unfoldable pub trim_space : Text → Text
unfolding trim_left trim_right
trim_space s = trim_right (trim_left s)

strip_byte : ℕ → Text → Text
strip_byte b [] = []
strip_byte b (c ∷ cs) = if c == b then strip_byte b cs else c ∷ cs

-- strings.TrimRight with a cutset of one byte
unfoldable pub trim_right_byte : ℕ → Text → Text
unfolding strip_byte
trim_right_byte b s = reverse (strip_byte b (reverse s))

lower_byte : ℕ → ℕ
lower_byte c = if leb b'A' c && leb c b'Z' then c + 32 else c

-- strings.ToLower
unfoldable pub to_lower : Text → Text
unfolding lower_byte
to_lower = map lower_byte

-- strings.EqualFold
abbrev pub equal_fold : Text → Text → Bool
equal_fold s t = text_eq (to_lower s) (to_lower t)

-- strings.HasPrefix
unfoldable pub has_prefix : Text → Text → Bool
has_prefix s [] = true
has_prefix [] (p ∷ ps) = false
has_prefix (c ∷ cs) (p ∷ ps) = c == p && has_prefix cs ps

drop_text : Text → Text → Text
drop_text s [] = s
drop_text [] (p ∷ ps) = []
drop_text (c ∷ cs) (p ∷ ps) = drop_text cs ps

-- strings.TrimPrefix
unfoldable pub trim_prefix : Text → Text → Text
unfolding has_prefix drop_text
trim_prefix s p = if has_prefix s p then drop_text s p else s

-- strings.Contains
unfoldable pub contains : Text → Text → Bool
unfolding has_prefix
contains [] p = has_prefix [] p
contains (c ∷ cs) p = has_prefix (c ∷ cs) p || contains cs p

-- A byte before the pieces of a split.
cons_piece : ℕ → List Text → List Text
cons_piece c [] = (c ∷ []) ∷ []
cons_piece c (piece ∷ pieces) = (c ∷ piece) ∷ pieces

-- strings.Split with a separator of one byte
unfoldable pub split_byte : ℕ → Text → List Text
unfolding cons_piece
split_byte b [] = [] ∷ []
split_byte b (c ∷ cs) =
    let pieces = split_byte b cs in if c == b then [] ∷ pieces else cons_piece c pieces

-- The second part of strings.SplitN(s, sep, 2) for a separator of one byte, if there are two.
unfoldable pub after_byte : ℕ → Text → Option Text
after_byte b [] = none
after_byte b (c ∷ cs) = let rest = after_byte b cs in if c == b then some cs else rest
