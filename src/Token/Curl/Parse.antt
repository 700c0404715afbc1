-- ===== src/Token/Curl/Parse.antt =====
-- The parse of what curl printed yields no empty token (pia/token_fetcher.go).
use pia_wg_config_generator.Base.{false, ◌||◌, ◌≡◌, sym, inl, inr, Bool-cases}
use pia_wg_config_generator.Base.Text.{
  Text, codes, is_empty, trim_space, has_prefix, contains, to_lower,
}
use pia_wg_config_generator.Api.{Answer, ok, failed}
use pia_wg_config_generator.Token.Curl.{
  parsed, not_parsed, TokenDenial, decoded_token, parse_token_from_curl_output,
}

-- A text that has a byte.
abbrev pub IsGiven : Text → Type 0
IsGiven t = is_empty t ≡ false

parsed-injective : {a b : Text} → parsed a ≡ parsed b → a ≡ b
parsed-injective h = cc

not_refused : {why : TokenDenial} {t : Text} → not_parsed why ≡ parsed t → ⊥
not_refused h = cc

decoded_token-IsGiven : (a : Answer Text) (t : Text) → decoded_token a ≡ parsed t → IsGiven t
unfolding decoded_token
decoded_token-IsGiven (failed e) t h = absurd (not_refused h)
decoded_token-IsGiven (ok u) t h = elim (Bool-cases (is_empty (trim_space u))) [
  | inl blank ↦ absurd (not_refused (rw blank at h))
  | inr given ↦ let same = parsed-injective (rw given at h) in rw (sym same) given
]

pub parse-IsGiven :
    (decode : Text → Answer Text) (body t : Text)
    → parse_token_from_curl_output decode body ≡ parsed t
    → IsGiven t
unfolding parse_token_from_curl_output
parse-IsGiven decode body t h = elim (Bool-cases (is_empty (trim_space body))) [
  | inl blank ↦ absurd (not_refused (rw blank at h))
  | inr body_given ↦
      elim (Bool-cases (
        has_prefix (trim_space body) (codes "HTTP ")
        || contains (to_lower (trim_space body)) (codes "access denied"))) [
          | inl refused ↦ absurd (not_refused (rw (body_given, refused) at h))
          | inr on ↦ decoded_token-IsGiven (decode (trim_space body)) t (rw (body_given, on) at h)
        ]
]
