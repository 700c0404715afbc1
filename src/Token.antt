-- ===== src/Token.antt =====
-- The cached token (pia/token_cacher.go) and GetToken (pia/pia.go). The file is what its decoder
-- makes of it; what curl runs and the metadata server answer are arguments.
pub mod Reuse
pub mod Given
pub mod Curl
use pia_wg_config_generator.Base.{
  Bool, true, false, Option, none, some, List, [], ◌∷◌, if◌then◌else◌,
}
use pia_wg_config_generator.Base.Int.{ℤ, pos, ◌-ℤ◌}
use pia_wg_config_generator.Base.Text.{Text, codes, is_empty, trim_space}
use pia_wg_config_generator.Clock.{Time, Duration, is_zero, add, after, seconds}
use pia_wg_config_generator.Api.{Answer, ok, failed}
use pia_wg_config_generator.Token.Curl.{
  CurlAnswer, fetched, too_many_attempts, curl_failed, CurlError, CurlWorld, fetch_token_via_curl,
}

pub record CachedTokenFile : Type 0 where
  pub token : Text
  pub expires_utc : Time
  pub issued_utc : Time
  pub version : ℤ

pub data TokenFile : Type 0 where
  missing corrupt : TokenFile
  unreadable : Text → TokenFile
  holds : CachedTokenFile → TokenFile

-- What readCachedToken returns; its errors are all a miss to GetToken.
pub data CacheRead : Type 0 where
  cached : Text → Time → CacheRead
  no_cached_token : CacheRead
  read_error : Text → CacheRead

-- `file.ExpiresUTC.Add(-skew)`
abbrev pub usable_until : Time → Time
usable_until expires = expires -ℤ seconds 30

unfoldable pub read_cached_token : Time → TokenFile → CacheRead
read_cached_token now missing = no_cached_token
read_cached_token now corrupt = no_cached_token
read_cached_token now (unreadable e) = read_error e
read_cached_token now (holds file) =
    if is_empty (trim_space file.token)
    then no_cached_token
    else if is_zero file.expires_utc
    then no_cached_token
    else if after now (usable_until file.expires_utc)
    then no_cached_token
    else cached (trim_space file.token) file.expires_utc

-- writeCachedToken: the file, and the error if one is returned. `written` is the error of the write,
-- which replaces the file as a whole.
unfoldable pub write_cached_token :
    Option Text → Time → Text → Duration → TokenFile → TokenFile × Option Text
write_cached_token written now token ttl file =
    if is_empty (trim_space token)
    then (file, some (codes "token cannot be empty"))
    else elim written [
      | some e ↦ (file, some e)
      | none ↦ (
        holds record {
          token = trim_space token;
          expires_utc = add now ttl;
          issued_utc = now;
          version = pos 1;
        },
        none,
      )
    ]

pub data TokenError : Type 0 where
  rate_limited : TokenError
  all_methods_failed : CurlError → Text → TokenError

-- The world of one call of GetToken. `now` is the clock of the read, `write_now` that of the write.
pub record TokenWorld : Type 0 where
  pub now : Time
  pub curl_path : Text
  pub curl : CurlWorld
  pub metadata : Answer Text
  pub written : Option Text
  pub write_now : Time

-- A request that GetToken makes.
pub data Request : Type 0 where
  by_curl by_metadata_server : Request

pub data TokenResult : Type 0 where
  token : Text → TokenResult
  no_token : TokenError → TokenResult

-- What GetToken returns, the file that it leaves, and the requests that it made, in order.
pub record GetToken : Type 0 where
  pub result : TokenResult
  pub file : TokenFile
  pub requests : List Request

-- The 23*time.Hour that GetToken caches a token for.
abbrev pub token_ttl : Duration
token_ttl = seconds 82800

keep : TokenWorld → TokenFile → Text → List Request → GetToken
keep w file t requests = record {
  result = token t;
  file = (write_cached_token w.written w.write_now t token_ttl file).0;
  requests = requests;
}

by_metadata : TokenWorld → TokenFile → CurlError → Answer Text → GetToken
unfolding keep
by_metadata w file curl_error (ok t) = keep w file t (by_curl ∷ by_metadata_server ∷ [])
by_metadata w file curl_error (failed e) = record {
  result = no_token (all_methods_failed curl_error e);
  file = file;
  requests = by_curl ∷ by_metadata_server ∷ [];
}

by_network : TokenWorld → TokenFile → CurlAnswer → GetToken
unfolding keep by_metadata
by_network w file (fetched t) = keep w file t (by_curl ∷ [])
by_network w file too_many_attempts = record {
  result = no_token rate_limited;
  file = file;
  requests = by_curl ∷ [];
}
by_network w file (curl_failed e) = by_metadata w file e w.metadata

by_cache : TokenWorld → TokenFile → CacheRead → GetToken
unfolding by_network
by_cache w file (cached t expires) = record { result = token t; file = file; requests = [] }
by_cache w file no_cached_token = by_network w file (fetch_token_via_curl w.curl w.curl_path)
by_cache w file (read_error e) = by_network w file (fetch_token_via_curl w.curl w.curl_path)

-- GetToken
unfoldable pub get_token : TokenWorld → TokenFile → GetToken
unfolding by_cache
get_token w file = by_cache w file (read_cached_token w.now file)
