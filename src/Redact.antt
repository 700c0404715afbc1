-- ===== src/Redact.antt =====
-- Redact (pia/redact.go), which takes the secrets out of a text. The regular expressions stand as the
-- program writes them; the engine that runs them is an argument.
pub mod Known
use pia_wg_config_generator.Base.{
  Bool, true, false, ◌&&◌, ◌||◌, List, [], ◌∷◌, ◌++◌, if◌then◌else◌, leb, length,
}
use pia_wg_config_generator.Base.Text.{Text, codes, is_empty, trim_space}
use pia_wg_config_generator.Base.Text.Replace.{replace_all}

-- redactedPlaceholder
abbrev pub redacted_placeholder : Text
redacted_placeholder = codes "<redacted>"

abbrev pub re_url_user_info : Text
re_url_user_info = codes "(?i)([a-z][a-z0-9+.\\-]*://)[^/\\s@]+@"

abbrev pub re_query_secret : Text
re_query_secret =
    codes
      "(?i)([?&;])(pt|token|payload|signature|password|passwd|username|user|privatekey|private_key|key|auth|authorization)=([^&\\s\"'<>]*)"

abbrev pub re_keyed_secret : Text
re_keyed_secret =
    codes
      "(?i)\\b(privatekey|private_key|token|payload|signature|password|passwd|username)\\b([\"']?\\s*[:=]\\s*[\"']?)([^\\s\"',&}\\]]+)"

abbrev pub re_auth_header : Text
re_auth_header = codes "(?i)\\b(basic|bearer)\\s+[A-Za-z0-9+/=._\\-]{8,}"

abbrev pub re_long_blob : Text
re_long_blob = codes "[A-Za-z0-9+/_\\-]{40,}={0,2}"

-- Package regexp: ReplaceAllString of an expression, a text and a template, and ReplaceAllStringFunc.
pub record Regexp : Type 0 where
  pub replace_all_string : Text → Text → Text → Text
  pub replace_all_string_func : Text → Text → (Text → Text) → Text

-- hasLetter
unfoldable pub has_letter : Text → Bool
has_letter [] = false
has_letter (r ∷ s) = (leb b'a' r && leb r b'z') || (leb b'A' r && leb r b'Z') || has_letter s

-- hasDigit
unfoldable pub has_digit : Text → Bool
has_digit [] = false
has_digit (r ∷ s) = (leb b'0' r && leb r b'9') || has_digit s

-- The function that replaces a long run.
unfoldable pub redact_blob : Text → Text
redact_blob m = if has_letter m && has_digit m then redacted_placeholder else m

-- The replacement of one known value.
unfoldable pub redact_value : Text → Text → Text
redact_value k s = if leb 4 (length k) then replace_all s k redacted_placeholder else s

-- The loop over the known values.
unfoldable pub redact_known : List Text → Text → Text
redact_known [] s = s
redact_known (k ∷ known) s = redact_known known (redact_value (trim_space k) s)

-- The replacements by an expression and a template, in their order.
abbrev pub templates : List (Text × Text)
templates =
    (re_url_user_info, codes "${1}" ++ (redacted_placeholder ++ codes "@"))
    ∷ (re_query_secret, codes "${1}${2}=" ++ redacted_placeholder)
    ∷ (re_keyed_secret, codes "${1}${2}" ++ redacted_placeholder)
    ∷ (re_auth_header, codes "${1} " ++ redacted_placeholder)
    ∷ []

unfoldable pub redact_templates : Regexp → List (Text × Text) → Text → Text
redact_templates re [] s = s
redact_templates re ((expr, template) ∷ rest) s =
    redact_templates re rest (re.replace_all_string expr s template)

unfoldable pub redact_heuristic : Regexp → Text → Text
redact_heuristic re s =
    re.replace_all_string_func re_long_blob (redact_templates re templates s) redact_blob

-- Redact
unfoldable pub redact : Regexp → Text → List Text → Text
redact re s known = if is_empty s then s else redact_heuristic re (redact_known known s)
