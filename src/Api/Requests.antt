-- ===== src/Api/Requests.antt =====
-- The HTTPS requests of PIAClient (pia/pia.go): executePIARequest with the CA certificate that it
-- downloads, getTokenFromMetadataServer and AddKey, and how a generation (pia/wg.go) combines them
-- with GetToken. What the servers answer, and what JSON decodes to, are arguments.
pub mod Generation
pub mod Confidential
use pia_wg_config_generator.Base.{
  ℕ, ◌+◌, ◌/◌, ◌%◌, Bool, true, false, not, ◌&&◌, ◌||◌, ◌==◌, leb, ltb, Option, none, some, List,
  [], ◌∷◌, ◌++◌, if◌then◌else◌,
}
use pia_wg_config_generator.Base.Int.{pos}
use pia_wg_config_generator.Base.Text.{Text, codes, is_empty}
use pia_wg_config_generator.Base.Text.Decimal.{decimal}
use pia_wg_config_generator.Api.{Answer, ok, failed, AddKeyResult}
use pia_wg_config_generator.Regions.{Server}
use pia_wg_config_generator.Token.{
  TokenFile, TokenWorld, TokenResult, token, no_token, TokenError, Request, by_curl,
  by_metadata_server, GetToken, get_token,
}
use pia_wg_config_generator.WgConfig.Generate.{GeneratorConfig, PiaWgClient, generate_keys}

pub record Account : Type 0 where
  pub username : Text
  pub password : Text

-- The bytes that url.QueryEscape leaves as they are.
unreserved : ℕ → Bool
unreserved c =
    (leb b'a' c && leb c b'z')
    || ((leb b'A' c && leb c b'Z')
        || ((leb b'0' c && leb c b'9') || (c == b'-' || (c == b'_' || (c == b'.' || c == b'~')))))

hex_digit : ℕ → ℕ
hex_digit d = if ltb d 10 then d + b'0' else d + 55

-- url.QueryEscape
unfoldable pub query_escape : Text → Text
unfolding unreserved hex_digit
query_escape [] = []
query_escape (c ∷ s) =
    let rest = query_escape s in
    if c == b' '
    then b'+' ∷ rest
    else if unreserved c
    then c ∷ rest
    else b'%' ∷ hex_digit (c / 16) ∷ hex_digit (c % 16) ∷ rest

-- A GET of the CA certificate: no answer, or what was read of the body, with the error if one ended it.
pub data Download : Type 0 where
  no_answer : Text → Download
  body_read : Text → Option Text → Download

-- What comes of client.Do and the reading of the body.
pub data Exchange : Type 0 where
  not_exchanged : Text → Exchange
  answered : ℕ → Text → Exchange

-- The world of one executePIARequest. `request` is the error of http.NewRequest.
pub record ApiWorld : Type 0 where
  pub request : Option Text
  pub certificate : Download
  pub exchange : Exchange

-- A request that went out: to the address of the server by its common name, with the account as
-- Basic Auth if it has one, and with the certificates that it trusts.
pub record SentRequest : Type 0 where
  pub url : Text
  pub server : Server
  pub basic_auth : Option Account
  pub ca_cert : Text

-- The client's certificate behind a call, the requests that it sent, and its result.
pub record Call (A : Type 0) : Type 0 where
  pub ca_cert : Text
  pub sent : List SentRequest
  pub result : Answer A

downloaded : Download → Text × Option Text
downloaded (no_answer e) = ([], some e)
downloaded (body_read body e) = (body, e)

-- downloadPIACertificate: what p.caCert holds, and the error.
unfoldable pub download_pia_certificate : Text → Download → Text × Option Text
unfolding downloaded
download_pia_certificate ca_cert d =
    if not (is_empty ca_cert) then (ca_cert, none) else downloaded d

exchanged : Exchange → Answer Text
exchanged (not_exchanged e) = failed e
exchanged (answered code body) =
    if code == 200
    then ok body
    else failed (codes "HTTP " ++ (decimal (pos code) ++ (codes ": " ++ body)))

-- The account goes along only if there is no token.
unfoldable pub auth_of : Account → Text → Option Account
auth_of account t = if is_empty t then some account else none

with_certificate : Account → Server → Text → Text → Exchange → Text × Option Text → Call Text
unfolding exchanged
with_certificate account server url t exchange (ca_cert, some e) = record {
  ca_cert = ca_cert;
  sent = [];
  result = failed (codes "Error Downloading CA Certificate: " ++ e);
}
with_certificate account server url t exchange (ca_cert, none) = record {
  ca_cert = ca_cert;
  sent =
      record { url = url; server = server; basic_auth = auth_of account t; ca_cert = ca_cert } ∷ [];
  result = exchanged exchange;
}

by_request : Account → Text → Server → Text → Text → ApiWorld → Option Text → Call Text
unfolding with_certificate
by_request account ca_cert server url t w (some e) = record {
  ca_cert = ca_cert;
  sent = [];
  result = failed e;
}
by_request account ca_cert server url t w none =
    with_certificate account server url t w.exchange
      (download_pia_certificate ca_cert w.certificate)

-- executePIARequest
unfoldable pub execute_pia_request : Account → Text → Server → Text → Text → ApiWorld → Call Text
unfolding by_request
execute_pia_request account ca_cert server url t w =
    by_request account ca_cert server url t w w.request

-- The address of getTokenFromMetadataServer.
abbrev pub generate_token_url : Server → Text
generate_token_url server = codes "https://" ++ (server.cn ++ codes "/authv3/generateToken")

empty_token : Text
empty_token =
    codes "metadata server returned an empty token "
    ++ (226 ∷ 128 ∷ 148 ∷ codes " check your credentials")

token_decoded : Answer Text → Answer Text
unfolding empty_token
token_decoded (failed e) = failed (codes "error decoding token response: " ++ e)
token_decoded (ok t) = if is_empty t then failed empty_token else ok t

token_of : (Text → Answer Text) → Answer Text → Answer Text
unfolding token_decoded
token_of decode (failed e) = failed (codes "metadata server token request failed: " ++ e)
token_of decode (ok body) = token_decoded (decode body)

-- getTokenFromMetadataServer, with the client's metadata server.
unfoldable pub get_token_from_metadata_server :
    Account → Text → Server → (Text → Answer Text) → ApiWorld → Call Text
unfolding token_of
get_token_from_metadata_server account ca_cert server decode w =
    let call = execute_pia_request account ca_cert server (generate_token_url server) [] w in
    record { ca_cert = call.ca_cert; sent = call.sent; result = token_of decode call.result }

-- The address of AddKey.
abbrev pub add_key_url : Server → Text → Text → Text
add_key_url server t publickey =
    codes "https://"
    ++ (server.cn
        ++ (codes ":1337/addKey?pt="
            ++ (query_escape t ++ (codes "&pubkey=" ++ query_escape publickey))))

key_decoded : Answer AddKeyResult → Answer AddKeyResult
key_decoded (failed e) = failed (codes "Error Decoding Add Key Response: " ++ e)
key_decoded (ok key) = ok key

key_of : (Text → Answer AddKeyResult) → Answer Text → Answer AddKeyResult
unfolding key_decoded
key_of decode (failed e) = failed (codes "Error Executing Request: " ++ e)
key_of decode (ok body) = key_decoded (decode body)

-- AddKey, with the client's WireGuard server.
unfoldable pub add_key :
    Account
    → Text
    → Server
    → (Text → Answer AddKeyResult)
    → ApiWorld
    → Text
    → Text
    → Call AddKeyResult
unfolding key_of
add_key account ca_cert server decode w t publickey =
    let call = execute_pia_request account ca_cert server (add_key_url server t publickey) t w in
    record { ca_cert = call.ca_cert; sent = call.sent; result = key_of decode call.result }
