-- ===== src/Token/Curl.antt =====
-- fetchTokenViaCurl of pia/token_fetcher.go, with findOpenSSLCurl and sanitizeBody of pia/helpers.go. The
-- lookups in PATH, the runs of curl and the JSON decoder are arguments.
pub mod Footer
pub mod Sound
pub mod Parse
use pia_wg_config_generator.Base.{
  ℕ, Bool, true, false, ◌||◌, Option, none, some, List, [], ◌∷◌, ◌++◌, ltb, length, take,
  if◌then◌else◌,
}
use pia_wg_config_generator.Base.Text.{
  Text, codes, text_eq, is_empty, trim_space, trim_right_byte, to_lower, has_prefix, trim_prefix,
  contains, split_byte,
}
use pia_wg_config_generator.Base.Text.Search.{split_last}
use pia_wg_config_generator.Base.Text.Replace.{replace_all}
use pia_wg_config_generator.Api.{Answer, ok, failed}

pub record CurlDebug : Type 0 where
  pub http_code : Text
  pub content_type : Text
  pub final_url : Text

abbrev pub no_debug : CurlDebug
no_debug = record { http_code = []; content_type = []; final_url = [] }

-- What cmd.Run leaves: stdout, or the error with stdout and stderr.
pub data CurlRun : Type 0 where
  exited_well : Text → CurlRun
  exited_with : Text → Text → Text → CurlRun

pub record CurlResult : Type 0 where
  pub raw_body : Text
  pub debug : CurlDebug
  pub exit_error : Option Text

first_value : Text → List Text → Text
first_value key [] = []
first_value key (line ∷ lines) =
    let rest = first_value key lines in
    if has_prefix line key then trim_space (trim_prefix line key) else rest

-- extractFooterValue
unfoldable pub extract_footer_value : Text → Text → Text
unfolding first_value
extract_footer_value footer key = first_value key (split_byte b'\n' footer)

-- splitCurlBodyAndDebug
split_at : Text → Option (Text × Text) → Text × CurlDebug
split_at out none = (out, no_debug)
split_at out (some (before, footer)) = (
  trim_right_byte b'\n' before,
  record {
    http_code = extract_footer_value footer (codes "http_code=");
    content_type = extract_footer_value footer (codes "content_type=");
    final_url = extract_footer_value footer (codes "final_url=");
  },
)

unfoldable pub split_curl_body_and_debug : Text → Text × CurlDebug
unfolding split_at
split_curl_body_and_debug out = split_at out (split_last (codes "\nhttp_code=") out)

-- runCurlTokenRequest, of a run of curl
unfoldable pub run_curl_token_request : CurlRun → CurlResult
run_curl_token_request (exited_with err stdout stderr) = record {
  raw_body = if is_empty stderr then stdout else stdout ++ (codes "\n---stderr---\n" ++ stderr);
  debug = no_debug;
  exit_error = some err;
}
run_curl_token_request (exited_well stdout) =
    let (body, dbg) = split_curl_body_and_debug stdout in
    record { raw_body = body; debug = dbg; exit_error = none }

pub data TokenDenial : Type 0 where
  empty_response denied : TokenDenial
  invalid_json : Text → TokenDenial

pub data Parsed : Type 0 where
  parsed : Text → Parsed
  not_parsed : TokenDenial → Parsed

decoded_token : Answer Text → Parsed
decoded_token (failed e) = not_parsed (invalid_json e)
decoded_token (ok token) =
    if is_empty (trim_space token) then not_parsed denied else parsed (trim_space token)

-- parseTokenFromCurlOutput; `decode` is json.Unmarshal and the field `token`, empty if it is missing.
unfoldable pub parse_token_from_curl_output : (Text → Answer Text) → Text → Parsed
unfolding decoded_token
parse_token_from_curl_output decode body =
    let trim = trim_space body in
    if is_empty trim
    then not_parsed empty_response
    else if has_prefix trim (codes "HTTP ") || contains (to_lower trim) (codes "access denied")
    then not_parsed denied
    else decoded_token (decode trim)

-- isTooManyAttempts of pia/token_cacher.go
unfoldable pub is_too_many_attempts : Text → Bool
is_too_many_attempts body =
    contains body (codes "too_many_attempts") || contains (to_lower body) (codes "try again later")

-- sanitizeBody
unfoldable pub sanitize_body : Text → Text
sanitize_body body =
    let s =
      replace_all (replace_all (trim_space body) (codes "\r\n") (codes "\n")) (codes "\n")
        (codes " | ") in
    if ltb 512 (length s)
    then take 512 s ++ codes " ...[truncated]"
    else if is_empty s
    then codes "<empty>"
    else s

pub data CurlError : Type 0 where
  openssl_curl_missing : Text → CurlError
  curl_not_found : CurlError
  curl_failed_to_run : Text → Text → CurlError
  request_denied : Text → CurlDebug → Text → CurlError

-- What fetchTokenViaCurl returns; ErrTooManyAttempts stands by itself, since GetToken tells it apart.
pub data CurlAnswer : Type 0 where
  fetched : Text → CurlAnswer
  too_many_attempts : CurlAnswer
  curl_failed : CurlError → CurlAnswer

-- The world of one call: exec.LookPath, and a run of the curl at a path.
pub record CurlWorld : Type 0 where
  pub look_path : Text → Option Text
  pub run : Text → CurlRun
  pub decode : Text → Answer Text

found_or : Option Text → Option Text → Option Text
found_or none other = other
found_or (some path) other = if is_empty (trim_space path) then other else some path

-- findSystemCurl
unfoldable pub find_system_curl : CurlWorld → Option Text
unfolding found_or
find_system_curl w =
    found_or (w.look_path (codes "curl")) (found_or (w.look_path (codes "curl.exe")) none)

pub data OpenSslCurl : Type 0 where
  not_set : OpenSslCurl
  found : Text → OpenSslCurl
  missing_curl : CurlError → OpenSslCurl

resolved : Text → Option Text → OpenSslCurl
resolved path none = missing_curl (openssl_curl_missing path)
resolved path (some p) = found p

-- findOpenSSLCurl
unfoldable pub find_openssl_curl : CurlWorld → Text → OpenSslCurl
unfolding resolved
find_openssl_curl w curl_path =
    let path = trim_space curl_path in
    if is_empty path then not_set else resolved path (w.look_path path)

-- A curl to attempt: its name, and its path if there is one.
pub record Attempt : Type 0 where
  pub name : Text
  pub path : Option Text

-- The error behind the loop.
last_answer : Option CurlError → CurlAnswer
last_answer none = curl_failed curl_not_found
last_answer (some e) = curl_failed e

abbrev Next : Type 0
Next = Option CurlError → CurlAnswer

-- An answer of HTTP: a token, or a denial, which ends the loop if PIA limits the rate.
judge_body : Text → CurlResult → Next → Parsed → CurlAnswer
judge_body name res next (parsed token) = fetched token
judge_body name res next (not_parsed why) =
    if text_eq (trim_space res.debug.http_code) (codes "429") || is_too_many_attempts res.raw_body
    then too_many_attempts
    else next (some (request_denied name res.debug (sanitize_body res.raw_body)))

judge_run : CurlWorld → Text → CurlResult → Next → Option Text → CurlAnswer
unfolding judge_body
judge_run w name res next (some e) = next (some (curl_failed_to_run name e))
judge_run w name res next none =
    judge_body name res next (parse_token_from_curl_output w.decode res.raw_body)

-- One attempt; `next` is the rest of the loop, by the error so far.
try_path : CurlWorld → Text → Option CurlError → Next → Option Text → CurlAnswer
unfolding judge_run
try_path w name last next none = next last
try_path w name last next (some path) =
    let res = run_curl_token_request (w.run path) in judge_run w name res next res.exit_error

-- The loop of fetchTokenViaCurl; `last` is lastErr.
unfoldable pub try_attempts : CurlWorld → List Attempt → Option CurlError → CurlAnswer
unfolding last_answer try_path
try_attempts w [] last = last_answer last
try_attempts w (a ∷ rest) last = try_path w a.name last (λ l. try_attempts w rest l) a.path

abbrev pub both : CurlWorld → Option Text → List Attempt
both w openssl =
    record { name = codes "system curl"; path = find_system_curl w }
    ∷ record { name = codes "OpenSSL curl"; path = openssl }
    ∷ []

with_openssl : CurlWorld → OpenSslCurl → CurlAnswer
with_openssl w (missing_curl e) = curl_failed e
with_openssl w not_set = try_attempts w (both w none) none
with_openssl w (found path) = try_attempts w (both w (some path)) none

-- fetchTokenViaCurl
unfoldable pub fetch_token_via_curl : CurlWorld → Text → CurlAnswer
unfolding with_openssl
fetch_token_via_curl w curl_path = with_openssl w (find_openssl_curl w curl_path)
