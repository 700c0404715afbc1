-- ===== src/Tests/RequestsTests.antt =====
-- A generation whose token comes from the metadata server.
use pia_wg_config_generator.Base.{none, some, [], ◌∷◌, ◌≡◌, refl, All}
use pia_wg_config_generator.Base.Text.{codes, trim_space}
use pia_wg_config_generator.Clock.{seconds}
use pia_wg_config_generator.Api.{ok, failed}
use pia_wg_config_generator.Api.Requests.{
  Account, ApiWorld, body_read, answered, get_token_from_metadata_server, execute_pia_request,
  download_pia_certificate, auth_of, add_key, query_escape,
}
use pia_wg_config_generator.Api.Requests.Generation.{
  ClientState, GenerationWorld, generation_requests, client_token,
}
use pia_wg_config_generator.Api.Requests.Confidential.{
  IsConfidential, generation_requests-IsConfidential,
}
use pia_wg_config_generator.Regions.{Server}
use pia_wg_config_generator.Token.Curl.{
  exited_with, fetch_token_via_curl, find_openssl_curl, try_attempts, find_system_curl,
}
use pia_wg_config_generator.Token.{missing, get_token, read_cached_token}
use pia_wg_config_generator.WgConfig.Generate.{generate_keys}
use pia_wg_config_generator.Tests.GenerateTests.{key, config, pair}

abbrev account : Account
account = record { username = codes "p1234567"; password = codes "hunter2" }

abbrev metadata_server : Server
metadata_server = record { cn = codes "meta"; ip = codes "1.1.1.1" }

abbrev wireguard_server : Server
wireguard_server = record { cn = codes "wg"; ip = codes "2.2.2.2" }

abbrev client : ClientState
client = record {
  account = account;
  ca_cert = [];
  metadata_server = metadata_server;
  wireguard_server = wireguard_server;
  token_file = missing;
}

abbrev answering : ApiWorld
answering = record {
  request = none;
  certificate = body_read (codes "PEM") none;
  exchange = answered 200 (codes "{}");
}

-- There is no curl.
abbrev world : GenerationWorld
world = record {
  token = record {
    now = seconds 100000;
    curl_path = [];
    curl = record {
      look_path = λ name. none;
      run = λ path. exited_with (codes "6") [] [];
      decode = λ body. failed (codes "no JSON");
    };
    metadata = failed [];
    written = none;
    write_now = seconds 100002;
  };
  metadata = answering;
  decode_token = λ body. ok (codes "a/b");
  key = answering;
  decode_key = λ body. ok key;
  text = λ e. [];
}

requests :
    generation_requests client world config pair
    ≡ record {
      url = codes "https://meta/authv3/generateToken";
      server = metadata_server;
      basic_auth = some account;
      ca_cert = codes "PEM";
    }
      ∷ record {
        url = codes "https://wg:1337/addKey?pt=a%2Fb&pubkey=pub";
        server = wireguard_server;
        basic_auth = none;
        ca_cert = codes "PEM";
      }
      ∷ []
unfolding generation_requests client_token get_token generate_keys read_cached_token
    fetch_token_via_curl find_openssl_curl trim_space try_attempts find_system_curl
    get_token_from_metadata_server execute_pia_request download_pia_certificate auth_of add_key
    query_escape
requests = refl

generation_requests-IsConfidential_example :
    All (IsConfidential metadata_server) (generation_requests client world config pair)
generation_requests-IsConfidential_example =
    generation_requests-IsConfidential client world config pair
