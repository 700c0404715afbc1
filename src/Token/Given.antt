-- ===== src/Token/Given.antt =====
-- GetToken returns no empty token (pia/pia.go).
use pia_wg_config_generator.Base.{◌≡◌, refl, sym, inl, inr, Bool-cases}
use pia_wg_config_generator.Base.Text.{Text, is_empty, trim_space}
use pia_wg_config_generator.Clock.{Time, is_zero, after}
use pia_wg_config_generator.Api.{Answer, ok, failed}
use pia_wg_config_generator.Token.Curl.{
  CurlAnswer, fetched, too_many_attempts, curl_failed, fetch_token_via_curl,
}
use pia_wg_config_generator.Token.Curl.Parse.{IsGiven, parse-IsGiven}
use pia_wg_config_generator.Token.Curl.Sound.{fetch_token_via_curl-IsFetched}
use pia_wg_config_generator.Token.{
  TokenFile, missing, corrupt, unreadable, holds, CacheRead, cached, no_cached_token, read_error,
  read_cached_token, usable_until, TokenWorld, token, no_token, TokenError, get_token, by_cache,
  by_network, by_metadata, keep,
}

not_none : {e : TokenError} {t : Text} → no_token e ≡ token t → ⊥
not_none h = cc

token-injective : {a b : Text} → token a ≡ token b → a ≡ b
token-injective h = cc

cached-injective : {a b : Text} {x y : Time} → cached a x ≡ cached b y → a ≡ b
cached-injective h = cc

not_missed : {t : Text} {x : Time} → no_cached_token ≡ cached t x → ⊥
not_missed h = cc

fetched-IsGiven :
    (w : TokenWorld) (t : Text) → fetch_token_via_curl w.curl w.curl_path ≡ fetched t → IsGiven t
fetched-IsGiven w t h =
    let (path, source, by_it) = fetch_token_via_curl-IsFetched w.curl w.curl_path t h in
    parse-IsGiven w.curl.decode _ t by_it.parses

cached-IsGiven :
    (now : Time) (file : TokenFile) (t : Text) (expires : Time)
    → read_cached_token now file ≡ cached t expires
    → IsGiven t
unfolding read_cached_token
cached-IsGiven now missing t expires h = absurd (not_missed h)
cached-IsGiven now corrupt t expires h = absurd (not_missed h)
cached-IsGiven now (unreadable e) t expires h = absurd (cc)
cached-IsGiven now (holds f) t expires h = elim (Bool-cases (is_empty (trim_space f.token))) [
  | inl blank ↦ absurd (not_missed (rw blank at h))
  | inr given ↦ elim (Bool-cases (is_zero f.expires_utc)) [
    | inl zero ↦ absurd (not_missed (rw (given, zero) at h))
    | inr dated ↦ elim (Bool-cases (after now (usable_until f.expires_utc))) [
      | inl late ↦ absurd (not_missed (rw (given, dated, late) at h))
      | inr fresh ↦
          let same = cached-injective (rw (given, dated, fresh) at h) in rw (sym same) given
    ]
  ]
]

by_network-IsGiven :
    (w : TokenWorld) (file : TokenFile) (a : CurlAnswer) (t : Text)
    → fetch_token_via_curl w.curl w.curl_path ≡ a
    → ((m : Text) → w.metadata ≡ ok m → IsGiven m)
    → (by_network w file a).result ≡ token t
    → IsGiven t
unfolding by_network by_metadata keep
by_network-IsGiven w file (fetched u) t e meta h =
    let same = token-injective h in rw (sym same) (fetched-IsGiven w u e)
by_network-IsGiven w file too_many_attempts t e meta h = absurd (not_none h)
by_network-IsGiven w file (curl_failed x) t e meta h = by_answer w.metadata refl h
  where
    by_answer :
        (m : Answer Text) → w.metadata ≡ m → (by_metadata w file x m).result ≡ token t → IsGiven t
    by_answer (ok u) k g = let same = token-injective g in rw (sym same) (meta u k)
    by_answer (failed why) k g = absurd (not_none g)

pub get_token-IsGiven :
    (w : TokenWorld) (file : TokenFile) (t : Text)
    → ((m : Text) → w.metadata ≡ ok m → IsGiven m)
    → (get_token w file).result ≡ token t
    → IsGiven t
unfolding get_token by_cache
get_token-IsGiven w file t meta h = by_read (read_cached_token w.now file) refl h
  where
    by_read :
        (r : CacheRead)
        → read_cached_token w.now file ≡ r
        → (by_cache w file r).result ≡ token t
        → IsGiven t
    by_read (cached u expires) e g =
        let same = token-injective g in rw (sym same) (cached-IsGiven w.now file u expires e)
    by_read no_cached_token e g = by_network-IsGiven w file _ t refl meta g
    by_read (read_error x) e g = by_network-IsGiven w file _ t refl meta g
