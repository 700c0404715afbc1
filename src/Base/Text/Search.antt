-- ===== src/Base/Text/Search.antt =====
-- strings.LastIndex, and how it and strings.Split read a text that was put together from parts.
use Prim.Native.Nat.{ℕ}
use mathlib.Core.Path.{◌≡◌, refl}
use mathlib.Core.Logic.{inl, inr}
use mathlib.Core.Bool.{Bool, true, false, ◌||◌}
use mathlib.Core.Option.{Option, none, some}
use mathlib.Core.List.{[], ◌∷◌, ◌++◌}
use pia_wg_config_generator.Base.Tests.{◌==◌, ==_iff, Bool-cases, if◌then◌else◌}
use pia_wg_config_generator.Base.Text.{Text, has_prefix, split_byte, cons_piece, after_byte}

-- `s[:i]` and `s[i:]` for `i := strings.LastIndex(s, p)`, if there is one.
unfoldable pub split_last : Text → Text → Option (Text × Text)
split_last p [] = if has_prefix [] p then some ([], []) else none
split_last p (c ∷ cs) = elim (split_last p cs) [
  | some (before, found) ↦ some (c ∷ before, found)
  | none ↦ if has_prefix (c ∷ cs) p then some ([], c ∷ cs) else none
]

-- Whether a byte occurs.
abbrev pub has_byte : ℕ → Text → Bool
has_byte b [] = false
has_byte b (c ∷ cs) = c == b || has_byte b cs

pub has_byte_cons :
    (b c : ℕ) (cs : Text)
    → has_byte b (c ∷ cs) ≡ false
    → ((c == b) ≡ false) × (has_byte b cs ≡ false)
has_byte_cons b c cs h = elim (Bool-cases (c == b)) [
  | inl hit ↦ absurd (true-ne-false (rw hit at h))
  | inr miss ↦ (miss, rw miss at h)
]
  where
    true-ne-false : true ≡ false → ⊥
    true-ne-false e = cc

eq_self : (b : ℕ) → (b == b) ≡ true
eq_self b = (==_iff b b).1 refl

pub has_byte-append :
    (b : ℕ) (w v : Text) → has_byte b w ≡ false → has_byte b v ≡ false → has_byte b (w ++ v) ≡ false
has_byte-append b [] v h k = k
has_byte-append b (c ∷ cs) v h k =
    let (miss, rest) = has_byte_cons b c cs h in rw miss (has_byte-append b cs v rest k)

pub split_last-append :
    (p before found : Text)
    → split_last p found ≡ some ([], found)
    → split_last p (before ++ found) ≡ some (before, found)
unfolding split_last
split_last-append p [] found h = h
split_last-append p (c ∷ cs) found h = rw (split_last-append p cs found h) refl

-- An occurrence of a pattern starts with the first byte of the pattern.
pub split_last-none :
    (b : ℕ) (p w rest : Text)
    → has_byte b w ≡ false
    → split_last (b ∷ p) rest ≡ none
    → split_last (b ∷ p) (w ++ rest) ≡ none
unfolding split_last has_prefix
split_last-none b p [] rest h k = k
split_last-none b p (c ∷ cs) rest h k =
    let (miss, none_in) = has_byte_cons b c cs h in
    rw (split_last-none b p cs rest none_in k, miss) refl

pub split_byte-append :
    (b : ℕ) (w rest : Text)
    → has_byte b w ≡ false
    → split_byte b (w ++ (b ∷ rest)) ≡ w ∷ split_byte b rest
unfolding split_byte cons_piece
split_byte-append b [] rest h = rw (eq_self b) refl
split_byte-append b (c ∷ cs) rest h =
    let (miss, none_in) = has_byte_cons b c cs h in
    rw (miss, split_byte-append b cs rest none_in) refl

pub split_byte_whole : (b : ℕ) (w : Text) → has_byte b w ≡ false → split_byte b w ≡ w ∷ []
unfolding split_byte cons_piece
split_byte_whole b [] h = refl
split_byte_whole b (c ∷ cs) h =
    let (miss, none_in) = has_byte_cons b c cs h in rw (miss, split_byte_whole b cs none_in) refl

pub after_byte-append :
    (b : ℕ) (w rest : Text) → has_byte b w ≡ false → after_byte b (w ++ (b ∷ rest)) ≡ some rest
unfolding after_byte
after_byte-append b [] rest h = rw (eq_self b) refl
after_byte-append b (c ∷ cs) rest h =
    let (miss, none_in) = has_byte_cons b c cs h in
    rw (miss, after_byte-append b cs rest none_in) refl
