-- ===== src/Tests/TokenTests.antt =====
-- GetToken in two concrete worlds, a day of seconds apart.
use pia_wg_config_generator.Base.{none, some, [], ◌≡◌, ◌++◌, refl, arith, if◌then◌else◌}
use pia_wg_config_generator.Base.Int.{◌+ℤ◌, ◌-ℤ◌}
use pia_wg_config_generator.Base.Text.{
  codes, trim_space, is_space, text_eq, trim_right_byte, has_prefix, contains, to_lower,
}
use pia_wg_config_generator.Base.Text.Search.{split_last}
use pia_wg_config_generator.Clock.{seconds}
use pia_wg_config_generator.Api.{ok, failed}
use pia_wg_config_generator.Token.{missing, TokenWorld, token, read_cached_token, get_token}
use pia_wg_config_generator.Token.Curl.{
  CurlWorld, exited_well, exited_with, fetched, fetch_token_via_curl, find_openssl_curl,
  find_system_curl, try_attempts, split_curl_body_and_debug, run_curl_token_request,
  parse_token_from_curl_output,
}
use pia_wg_config_generator.Token.Curl.Footer.{footer, split_curl_body_and_debug-footer}
use pia_wg_config_generator.Token.Curl.Sound.{IsFetched, fetch_token_via_curl-IsFetched}
use pia_wg_config_generator.Token.Reuse.{get_token_again}

-- The system's curl fetches a token.
abbrev curl : CurlWorld
curl = record {
  look_path = λ name. if text_eq name (codes "curl") then some (codes "/usr/bin/curl") else none;
  run = λ path.
      exited_well
        (codes "{}\nhttp_code=200\ncontent_type=application/json\nfinal_url=https://pia\n");
  decode = λ t. ok (codes " abc ");
}

fetched_abc : fetch_token_via_curl curl [] ≡ fetched (codes "abc")
unfolding fetch_token_via_curl find_openssl_curl find_system_curl try_attempts trim_space text_eq
    is_space run_curl_token_request parse_token_from_curl_output split_curl_body_and_debug
    split_last has_prefix trim_right_byte contains to_lower
fetched_abc = refl

fetch_token_via_curl-IsFetched_example : IsFetched curl [] (codes "abc")
fetch_token_via_curl-IsFetched_example =
    fetch_token_via_curl-IsFetched curl [] (codes "abc") fetched_abc

-- A body with a footer of its own.
split_curl_body_and_debug-footer_example :
    split_curl_body_and_debug (
      codes "a\nhttp_code=500\n\n"
      ++ footer (codes "200") (codes "text/plain") (codes "https://pia"))
    ≡ (
      codes "a\nhttp_code=500",
      record {
        http_code = codes "200";
        content_type = codes "text/plain";
        final_url = codes "https://pia";
      },
    )
unfolding trim_right_byte trim_space is_space
split_curl_body_and_debug-footer_example =
    split_curl_body_and_debug-footer (codes "a\nhttp_code=500\n\n") (codes "200")
      (codes "text/plain") (codes "https://pia") refl refl refl

abbrev first_call : TokenWorld
first_call = record {
  now = seconds 100000;
  curl_path = [];
  curl = curl;
  metadata = failed (codes "unreachable");
  written = none;
  write_now = seconds 100002;
}

-- No curl reaches PIA any more.
abbrev second_call : TokenWorld
second_call = record {
  now = seconds 180000;
  curl_path = [];
  curl = record curl { run = λ path. exited_with (codes "6") [] (codes "no route") };
  metadata = failed (codes "unreachable");
  written = none;
  write_now = seconds 180002;
}

get_token_again_example : get_token second_call (get_token first_call missing).file ≡ record {
  result = token (codes "abc");
  file = (get_token first_call missing).file;
  requests = [];
}
unfolding read_cached_token trim_space is_space ◌+ℤ◌ ◌-ℤ◌
get_token_again_example =
    get_token_again first_call second_call (codes "abc") missing refl fetched_abc refl refl refl
      (ground arith) (ground arith)
