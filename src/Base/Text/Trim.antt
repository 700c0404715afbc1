-- ===== src/Base/Text/Trim.antt =====
-- strings.TrimSpace of a text that was put together from parts.
use mathlib.Core.List
use Prim.Native.Nat.{ℕ, zero, suc, ◌+◌, ◌/◌, ◌%◌}
use mathlib.Core.Path.{◌≡◌, refl, ap, ◌∙◌}
use mathlib.Core.Logic.{inl, inr}
use mathlib.Core.Bool.{false}
use mathlib.Core.List.{List, [], ◌∷◌, ◌++◌, reverse}
use native.Mathlib.Omega.{arith}
use pia_wg_config_generator.Base.Tests.{Bool-cases}
use pia_wg_config_generator.Base.Lists.{All}
use pia_wg_config_generator.Base.Int.{ℤ, pos, negsuc}
use pia_wg_config_generator.Base.Text.{Text, is_space, trim_left, trim_right}
use pia_wg_config_generator.Base.Text.Decimal.{digits, decimal}

-- A text without white space.
abbrev pub IsVisible : Text → Type 0
IsVisible = All (λ c. is_space c ≡ false)

pub trim_left-append :
    (u : Text) (c : ℕ) (s : Text)
    → is_space c ≡ false
    → trim_left (u ++ (c ∷ s)) ≡ trim_left u ++ (c ∷ s)
unfolding trim_left
trim_left-append [] c s h = rw h refl
trim_left-append (d ∷ u) c s h = elim (Bool-cases (is_space d)) [
  | inl space ↦ rw space (trim_left-append u c s h)
  | inr visible ↦ rw visible refl
]

reverse-append_cons :
    (u : Text) (c : ℕ) (s : Text) → reverse (u ++ (c ∷ s)) ≡ reverse s ++ (c ∷ reverse u)
reverse-append_cons u c s =
    List.reverse-append u (c ∷ s)
    ∙ ap (λ (r : Text). r ++ reverse u) (List.reverse-cons c s)
    ∙ List.append_assoc (reverse s) (c ∷ []) (reverse u)

pub trim_right-append :
    (u : Text) (c : ℕ) (s : Text)
    → is_space c ≡ false
    → trim_right (u ++ (c ∷ s)) ≡ u ++ (c ∷ trim_right s)
unfolding trim_right
trim_right-append u c s h =
    ap (λ (r : Text). reverse (trim_left r)) (reverse-append_cons u c s)
    ∙ ap reverse (trim_left-append (reverse s) c (reverse u) h)
    ∙ reverse-append_cons (trim_left (reverse s)) c (reverse u)
    ∙ ap (λ (r : Text). r ++ (c ∷ reverse (trim_left (reverse s)))) (List.reverse-reverse u)

pub trim_right_visible : (s : Text) → IsVisible s → trim_right s ≡ s
unfolding trim_right trim_left
trim_right_visible [] h = refl
trim_right_visible (c ∷ s) (h, hs) =
    trim_right-append [] c s h ∙ ap (λ (r : Text). c ∷ r) (trim_right_visible s hs)

digit-IsVisible : (n : ℕ) → is_space (n % 10 + b'0') ≡ false
unfolding is_space
digit-IsVisible n = ground arith

digits-IsVisible : (fuel n : ℕ) (rest : Text) → IsVisible rest → IsVisible (digits fuel n rest)
unfolding digits
digits-IsVisible zero n rest h = h
digits-IsVisible (suc fuel) zero rest h = h
digits-IsVisible (suc fuel) (suc n) rest h =
    digits-IsVisible fuel (suc n / 10) ((suc n % 10 + b'0') ∷ rest) (digit-IsVisible (suc n), h)

pub decimal-IsVisible : (z : ℤ) → IsVisible (decimal z)
unfolding decimal is_space
decimal-IsVisible (pos zero) = (refl, tt)
decimal-IsVisible (pos (suc n)) = digits-IsVisible (suc n) (suc n) [] tt
decimal-IsVisible (negsuc n) = (refl, digits-IsVisible (suc n) (suc n) [] tt)
