-- ===== src/Token/Reuse.antt =====
-- A token is used again while it is fresh (pia/token_cacher.go; pia/pia.go, GetToken).
use pia_wg_config_generator.Base.{false, none, [], ◌≡◌, refl, arith}
use pia_wg_config_generator.Base.Int.{ℤ, pos, ◌≤ℤ◌, ◌<ℤ◌, +ℤ_parts}
use pia_wg_config_generator.Base.Text.{Text, is_empty, trim_space}
use pia_wg_config_generator.Clock.{Time, is_zero, add, after}
use pia_wg_config_generator.Token.Curl.{fetched, fetch_token_via_curl}
use pia_wg_config_generator.Token.{
  TokenFile, cached, no_cached_token, read_cached_token, write_cached_token, TokenWorld, token,
  get_token, by_cache, by_network, keep, token_ttl, usable_until, fetched,
}

still_usable : (now until : Time) → now ≤ℤ until → after now until ≡ false
still_usable now until h = ground arith

after_start : (now : Time) → pos 0 ≤ℤ now → is_zero (add now token_ttl) ≡ false
after_start now h = nonzero (add now token_ttl) (omega (arith, h, +ℤ_parts now token_ttl))
  where
    nonzero : (z : ℤ) → pos 0 <ℤ z → is_zero z ≡ false
    nonzero z k = ground arith

write_then_read :
    (now later : Time) (t : Text) (file : TokenFile)
    → trim_space t ≡ t
    → is_empty t ≡ false
    → pos 0 ≤ℤ now
    → later ≤ℤ usable_until (add now token_ttl)
    → read_cached_token later (write_cached_token none now t token_ttl file).0
      ≡ cached t (add now token_ttl)
unfolding read_cached_token write_cached_token
write_then_read now later t file trimmed given start fresh =
    rw
      (
        trimmed,
        given,
        trimmed,
        given,
        after_start now start,
        still_usable later (usable_until (add now token_ttl)) fresh,
      )
      refl

-- Once GetToken has missed the cache, curl has fetched a token that is not empty and has no blanks
-- around it, and the cache file was written, at a time not before the zero time, GetToken returns
-- that token again without a request, until thirty seconds before the 23 hours from the write are
-- over, and leaves the file as it is.
pub get_token_again :
    (w v : TokenWorld) (t : Text) (file : TokenFile)
    → read_cached_token w.now file ≡ no_cached_token
    → fetch_token_via_curl w.curl w.curl_path ≡ fetched t
    → trim_space t ≡ t
    → is_empty t ≡ false
    → w.written ≡ none
    → pos 0 ≤ℤ w.write_now
    → v.now ≤ℤ usable_until (add w.write_now token_ttl)
    → get_token v (get_token w file).file
      ≡ record { result = token t; file = (get_token w file).file; requests = [] }
unfolding get_token by_cache by_network keep
get_token_again w v t file missed got trimmed given written start fresh =
    rw (missed, got, written, write_then_read w.write_now v.now t file trimmed given start fresh)
      refl
