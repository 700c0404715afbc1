-- ===== src/Redact/Known.antt =====
-- Redact (pia/redact.go) leaves no known value in its result.
use pia_wg_config_generator.Base.{
  true, false, List, [], ◌∷◌, ◌++◌, ◌≡◌, ◌⊎◌, inl, inr, refl, leb, length, Bool-cases, ◌≤◌, ◌&&◌,
  All, arith,
}
use pia_wg_config_generator.Base.Text.{Text, codes, trim_space, contains, has_prefix}
use pia_wg_config_generator.Base.Text.Replace.Occurs.{
  IsPlain, contains-replace_all, replace_all_gone,
}
use pia_wg_config_generator.Redact.{
  Regexp, redacted_placeholder, templates, re_long_blob, redact_blob, redact_value, redact_known,
  redact_templates, redact_heuristic, redact, has_letter, has_digit,
}

-- A value that the placeholder can stand for: it has no angle brackets and is no part of "redacted".
abbrev pub IsSecret : Text → Type 0
IsSecret k = IsPlain (codes "redacted") (trim_space k)

-- Whether a secret that does not occur in a text does not occur in its image either.
abbrev pub KeepsApart : (Text → Text) → Type 0
KeepsApart f =
    (s k : Text)
    → IsSecret k
    → contains s (trim_space k) ≡ false
    → contains (f s) (trim_space k) ≡ false

redact_value-KeepsApart : (j : Text) → KeepsApart (redact_value j)
unfolding redact_value
redact_value-KeepsApart [] s k secret h = h
redact_value-KeepsApart (o ∷ old) s k secret h = elim (Bool-cases (leb 4 (length (o ∷ old)))) [
  | inl long ↦ rw long (contains-replace_all s o old (codes "redacted") (trim_space k) secret h)
  | inr short ↦ rw short h
]

redact_known-KeepsApart : (known : List Text) → KeepsApart (redact_known known)
unfolding redact_known
redact_known-KeepsApart [] s k secret h = h
redact_known-KeepsApart (j ∷ known) s k secret h =
    redact_known-KeepsApart known (redact_value (trim_space j) s) k secret
      (redact_value-KeepsApart (trim_space j) s k secret h)

redact_value_gone :
    (k s : Text)
    → 4 ≤ length k
    → IsPlain (codes "redacted") k
    → contains (redact_value k s) k ≡ false
unfolding redact_value
redact_value_gone [] s long secret = absurd (omega (arith, long))
redact_value_gone (o ∷ old) s long secret =
    let is_long : leb 4 (length (o ∷ old)) ≡ true = ground (arith, long) in
    rw is_long (replace_all_gone s o old (codes "redacted") secret)

redact_known_gone :
    (before after : List Text) (k s : Text)
    → 4 ≤ length (trim_space k)
    → IsSecret k
    → contains (redact_known (before ++ (k ∷ after)) s) (trim_space k) ≡ false
unfolding redact_known
redact_known_gone [] after k s long secret =
    redact_known-KeepsApart after (redact_value (trim_space k) s) k secret
      (redact_value_gone (trim_space k) s long secret)
redact_known_gone (j ∷ before) after k s long secret =
    redact_known_gone before after k (redact_value (trim_space j) s) long secret

redact_templates-KeepsApart :
    (re : Regexp) (ts : List (Text × Text))
    → All (λ t. KeepsApart (λ s. re.replace_all_string t.0 s t.1)) ts
    → KeepsApart (redact_templates re ts)
unfolding redact_templates
redact_templates-KeepsApart re [] cuts s k secret h = h
redact_templates-KeepsApart re ((expr, template) ∷ ts) (cut, cuts) s k secret h =
    redact_templates-KeepsApart re ts cuts (re.replace_all_string expr s template) k secret
      (cut s k secret h)

redact_blob_cases : (m : Text) → (redact_blob m ≡ m) ⊎ (redact_blob m ≡ redacted_placeholder)
unfolding redact_blob
redact_blob_cases m = elim (Bool-cases (has_letter m && has_digit m)) [
  | inl both ↦ inr (rw both refl)
  | inr not_both ↦ inl (rw not_both refl)
]

pub contains_empty : (k : Text) → 4 ≤ length k → contains [] k ≡ false
unfolding contains has_prefix
contains_empty [] long = absurd (omega (arith, long))
contains_empty (x ∷ k) long = refl

-- No known value of four bytes or more occurs in the result of Redact, if the placeholder can stand
-- for it and the engine of package regexp, with the templates of Redact or with a function that
-- returns its argument or the placeholder, brings nothing together that was apart.
pub redact_gone :
    (re : Regexp) (s : Text) (before after : List Text) (k : Text)
    → (cuts : All (λ t. KeepsApart (λ u. re.replace_all_string t.0 u t.1)) templates)
    → (cuts_func : (f : Text → Text)
        → ((m : Text) → (f m ≡ m) ⊎ (f m ≡ redacted_placeholder))
        → KeepsApart (λ u. re.replace_all_string_func re_long_blob u f))
    → 4 ≤ length (trim_space k)
    → IsSecret k
    → contains (redact re s (before ++ (k ∷ after))) (trim_space k) ≡ false
unfolding redact redact_heuristic contains
redact_gone re [] before after k cuts cuts_func long secret = contains_empty (trim_space k) long
redact_gone re (c ∷ s) before after k cuts cuts_func long secret =
    cuts_func redact_blob redact_blob_cases
      (redact_templates re templates (redact_known (before ++ (k ∷ after)) (c ∷ s))) k secret
      (redact_templates-KeepsApart re templates cuts (redact_known (before ++ (k ∷ after)) (c ∷ s))
        k secret (redact_known_gone before after k (c ∷ s) long secret))
