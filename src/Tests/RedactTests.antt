-- ===== src/Tests/RedactTests.antt =====
-- Redact on an error that names the account, with an engine that finds no match.
use pia_wg_config_generator.Base.{false, [], ◌∷◌, ◌≡◌, refl, arith, List}
use pia_wg_config_generator.Base.Text.{Text, codes, trim_space, contains, is_space, has_prefix}
use pia_wg_config_generator.Base.Text.Replace.{replace_all, replace_from}
use pia_wg_config_generator.Redact.{
  Regexp, redact, redact_known, redact_value, redact_templates, redact_heuristic,
}
use pia_wg_config_generator.Redact.Known.{KeepsApart, redact_gone}

abbrev pub no_match : Regexp
no_match = record {
  replace_all_string = λ expr s template. s;
  replace_all_string_func = λ expr s f. s;
}

abbrev account : List Text
account = codes "abc" ∷ codes " p1234567 " ∷ codes "hunter2" ∷ []

abbrev error_text : Text
error_text = codes "login p1234567:hunter2 failed, abc"

redacted_text : redact no_match error_text account ≡ codes "login <redacted>:<redacted> failed, abc"
unfolding redact redact_known redact_value redact_templates redact_heuristic trim_space is_space
    replace_all replace_from has_prefix
redacted_text = refl

pub kept : KeepsApart (λ s. s)
kept s k secret h = h

redact_gone_example : contains (redact no_match error_text account) (codes "p1234567") ≡ false
unfolding trim_space is_space contains has_prefix
redact_gone_example =
    redact_gone no_match error_text (codes "abc" ∷ []) (codes "hunter2" ∷ []) (codes " p1234567 ")
      (kept, (kept, (kept, (kept, tt)))) (λ f returned s k secret h. h) (omega arith)
      (refl, refl, refl)
