-- ===== src/Base/Text/Replace/Occurs.antt =====
-- What occurs in a text behind strings.ReplaceAll: the old text does not, and no other text does that
-- was not there before, where the new text has brackets and the text that is looked for has none.
use Prim.Native.Nat.{ℕ, zero, suc, ◌-◌}
use mathlib.Core.List
use mathlib.Core.Path.{◌≡◌, refl, sym, ◌∙◌}
use mathlib.Core.Logic.{◌⊎◌, inl, inr}
use mathlib.Core.Bool.{Bool, true, false}
use mathlib.Core.List.{List, [], ◌∷◌, ◌++◌}
use native.Mathlib.Omega.{arith}
use pia_wg_config_generator.Base.Tests.{◌==◌, Bool-cases}
use pia_wg_config_generator.Base.Lists.{length}
use pia_wg_config_generator.Base.Text.{Text, has_prefix, contains}
use pia_wg_config_generator.Base.Text.Search.{has_byte, has_byte_cons}
use pia_wg_config_generator.Base.Text.Replace.{replace_from, replace_all}

-- A word in angle brackets.
abbrev pub bracketed : Text → Text
bracketed word = b'<' ∷ (word ++ (b'>' ∷ []))

-- A text without angle brackets that does not occur in a word.
abbrev pub IsPlain : Text → Text → Type 0
IsPlain word k = (has_byte b'<' k ≡ false) × (has_byte b'>' k ≡ false) × (contains word k ≡ false)

true-ne-false : true ≡ false → ⊥
true-ne-false e = cc

has_prefix_cons :
    (c : ℕ) (cs : Text) (p : ℕ) (ps : Text)
    → has_prefix (c ∷ cs) (p ∷ ps) ≡ true
    → ((c == p) ≡ true) × (has_prefix cs ps ≡ true)
unfolding has_prefix
has_prefix_cons c cs p ps e = elim (Bool-cases (c == p)) [
  | inl hit ↦ (hit, rw hit at e)
  | inr miss ↦ absurd (true-ne-false (sym (rw miss at e)))
]

-- A text does not start with a byte that the pattern does not have.
no_start :
    (b : ℕ) (t : Text) (x : ℕ) (k : Text)
    → has_byte b (x ∷ k) ≡ false
    → has_prefix (b ∷ t) (x ∷ k) ≡ true
    → ⊥
no_start b t x k h e =
    let (miss, rest) = has_byte_cons b x k h in
    let (hit, after) = has_prefix_cons b t x k e in ground (arith, miss, hit)

-- An occurrence that starts before a byte that it does not have ends before it.
has_prefix-append :
    (u : Text) (b : ℕ) (t k : Text)
    → has_byte b k ≡ false
    → has_prefix (u ++ (b ∷ t)) k ≡ true
    → has_prefix u k ≡ true
unfolding has_prefix
has_prefix-append u b t [] h e = refl
has_prefix-append [] b t (x ∷ k) h e = absurd (no_start b t x k h e)
has_prefix-append (c ∷ u) b t (x ∷ k) h e =
    let (miss, rest) = has_byte_cons b x k h in
    let (hit, after) = has_prefix_cons c (u ++ (b ∷ t)) x k e in
    rw hit (has_prefix-append u b t k rest after)

contains_cases :
    (c : ℕ) (cs k : Text)
    → contains (c ∷ cs) k ≡ true
    → (has_prefix (c ∷ cs) k ≡ true) ⊎ (contains cs k ≡ true)
unfolding contains
contains_cases c cs k e = elim (Bool-cases (has_prefix (c ∷ cs) k)) [
  | inl hit ↦ inl hit
  | inr miss ↦ inr (rw miss at e)
]

contains_here : (c : ℕ) (cs k : Text) → has_prefix (c ∷ cs) k ≡ true → contains (c ∷ cs) k ≡ true
unfolding contains
contains_here c cs k e = rw e refl

contains_later : (c : ℕ) (cs k : Text) → contains cs k ≡ true → contains (c ∷ cs) k ≡ true
unfolding contains
contains_later c cs k e = elim (Bool-cases (has_prefix (c ∷ cs) k)) [
  | inl hit ↦ rw hit refl
  | inr miss ↦ rw miss e
]

-- An occurrence lies before or behind a byte that it does not have.
contains-append :
    (u : Text) (b : ℕ) (t : Text) (x : ℕ) (k : Text)
    → has_byte b (x ∷ k) ≡ false
    → contains (u ++ (b ∷ t)) (x ∷ k) ≡ true
    → (contains u (x ∷ k) ≡ true) ⊎ (contains t (x ∷ k) ≡ true)
contains-append [] b t x k h e = elim (contains_cases b t (x ∷ k) e) [
  | inl here ↦ absurd (no_start b t x k h here)
  | inr later ↦ inr later
]
contains-append (c ∷ u) b t x k h e = elim (contains_cases c (u ++ (b ∷ t)) (x ∷ k) e) [
  | inl here ↦ inl (contains_here c u (x ∷ k) (has_prefix-append (c ∷ u) b t (x ∷ k) h here))
  | inr later ↦ elim (contains-append u b t x k h later) [
    | inl before ↦ inl (contains_later c u (x ∷ k) before)
    | inr behind ↦ inr behind
  ]
]

contains-nil : (t : Text) → contains t [] ≡ true
unfolding contains has_prefix
contains-nil [] = refl
contains-nil (c ∷ t) = refl

-- An occurrence of a plain text in a text behind a bracketed word lies behind it.
contains-bracketed :
    (word t k : Text)
    → IsPlain word k
    → contains (bracketed word ++ t) k ≡ true
    → contains t k ≡ true
unfolding contains
contains-bracketed word t [] (no_open, no_close, out) e = contains-nil t
contains-bracketed word t (x ∷ k) (no_open, no_close, out) e =
    elim (contains_cases b'<' ((word ++ (b'>' ∷ [])) ++ t) (x ∷ k) e) [
      | inl here ↦ absurd (no_start b'<' ((word ++ (b'>' ∷ [])) ++ t) x k no_open here)
      | inr later ↦
          elim (contains-append word b'>' t x k no_close
            (rw (List.append_assoc word (b'>' ∷ []) t) at later)) [
              | inl inside ↦ absurd (true-ne-false (sym inside ∙ out))
              | inr behind ↦ behind
            ]
    ]

-- What starts the result and has no bracket started the text.
has_prefix-replace_from :
    (old word s k : Text)
    → has_byte b'<' k ≡ false
    → has_prefix (replace_from old (bracketed word) 0 s) k ≡ true
    → has_prefix s k ≡ true
unfolding replace_from has_prefix
has_prefix-replace_from old word s [] h e = refl
has_prefix-replace_from old word [] (x ∷ k) h e = e
has_prefix-replace_from old word (c ∷ cs) (x ∷ k) h e =
    elim (Bool-cases (has_prefix (c ∷ cs) old)) [
      | inl found ↦ absurd (
          no_start b'<'
            ((word ++ (b'>' ∷ [])) ++ replace_from old (bracketed word) (length old - 1) cs) x k h
            (rw found at e))
      | inr passed ↦
          let (miss, rest) = has_byte_cons b'<' x k h in
          let (hit, after) =
            has_prefix_cons c (replace_from old (bracketed word) 0 cs) x k (rw passed at e) in
          rw hit (has_prefix-replace_from old word cs k rest after)
    ]

-- What occurs in the result and is plain occurred in the text.
contains-replace_from :
    (old word : Text) (skip : ℕ) (s k : Text)
    → IsPlain word k
    → contains (replace_from old (bracketed word) skip s) k ≡ true
    → contains s k ≡ true
unfolding replace_from
contains-replace_from old word skip [] k plain e = e
contains-replace_from old word (suc skip) (c ∷ cs) k plain e =
    contains_later c cs k (contains-replace_from old word skip cs k plain e)
contains-replace_from old word zero (c ∷ cs) k plain e =
    elim (Bool-cases (has_prefix (c ∷ cs) old)) [
      | inl found ↦ contains_later c cs k (
          contains-replace_from old word (length old - 1) cs k plain (
            contains-bracketed word (replace_from old (bracketed word) (length old - 1) cs) k plain
              (rw found at e)))
      | inr passed ↦
          elim (contains_cases c (replace_from old (bracketed word) 0 cs) k (rw passed at e)) [
            | inl here ↦
                contains_here c cs k
                  (has_prefix-replace_from old word (c ∷ cs) k plain.0 (rw passed here))
            | inr later ↦
                contains_later c cs k (contains-replace_from old word zero cs k plain later)
          ]
    ]

-- The old text does not occur in the result.
replace_from_gone :
    (o : ℕ) (old word : Text) (skip : ℕ) (s : Text)
    → IsPlain word (o ∷ old)
    → contains (replace_from (o ∷ old) (bracketed word) skip s) (o ∷ old) ≡ true
    → ⊥
unfolding replace_from contains has_prefix
replace_from_gone o old word skip [] plain e = true-ne-false (sym e)
replace_from_gone o old word (suc skip) (c ∷ cs) plain e =
    replace_from_gone o old word skip cs plain e
replace_from_gone o old word zero (c ∷ cs) plain e =
    elim (Bool-cases (has_prefix (c ∷ cs) (o ∷ old))) [
      | inl found ↦ replace_from_gone o old word (length (o ∷ old) - 1) cs plain (
          contains-bracketed word
            (replace_from (o ∷ old) (bracketed word) (length (o ∷ old) - 1) cs) (o ∷ old) plain
            (rw found at e))
      | inr passed ↦
          elim (contains_cases c (replace_from (o ∷ old) (bracketed word) 0 cs) (o ∷ old)
            (rw passed at e)) [
              | inl here ↦ true-ne-false (
                  sym (
                    has_prefix-replace_from (o ∷ old) word (c ∷ cs) (o ∷ old) plain.0
                      (rw passed here))
                  ∙ passed)
              | inr later ↦ replace_from_gone o old word zero cs plain later
            ]
    ]

not_true : {b : Bool} → (b ≡ true → ⊥) → b ≡ false
not_true {b = true} h = absurd (h refl)
not_true {b = false} h = refl

-- A plain text that does not occur in a text does not occur behind a replacement in it.
pub contains-replace_all :
    (s : Text) (o : ℕ) (old word k : Text)
    → IsPlain word k
    → contains s k ≡ false
    → contains (replace_all s (o ∷ old) (bracketed word)) k ≡ false
unfolding replace_all
contains-replace_all s o old word k plain h =
    not_true (λ e. true-ne-false (sym (contains-replace_from (o ∷ old) word 0 s k plain e) ∙ h))

-- A plain text that is replaced does not occur any more.
pub replace_all_gone :
    (s : Text) (o : ℕ) (old word : Text)
    → IsPlain word (o ∷ old)
    → contains (replace_all s (o ∷ old) (bracketed word)) (o ∷ old) ≡ false
unfolding replace_all
replace_all_gone s o old word plain = not_true (λ e. replace_from_gone o old word 0 s plain e)
