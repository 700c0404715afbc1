-- ===== src/Api/Requests/Generation.antt =====
-- The requests of one generation: GetToken and AddKey of a client (pia/pia.go) with what
-- GenerateWithMetadata (pia/wg.go) asks of it.
use pia_wg_config_generator.Base.{List, [], ◌∷◌, ◌++◌}
use pia_wg_config_generator.Base.Text.{Text}
use pia_wg_config_generator.Api.{Answer, ok, failed, AddKeyResult}
use pia_wg_config_generator.Regions.{Server}
use pia_wg_config_generator.Token.{
  TokenFile, TokenWorld, TokenResult, token, no_token, TokenError, Request, by_curl,
  by_metadata_server, GetToken, get_token,
}
use pia_wg_config_generator.WgConfig.Generate.{GeneratorConfig, PiaWgClient, generate_keys}
use pia_wg_config_generator.Api.Requests.{
  Account, ApiWorld, SentRequest, Call, get_token_from_metadata_server, add_key,
}

-- The world of one generation: of GetToken, whose metadata server answers by `metadata`, and of
-- AddKey. `text` is the text of an error of GetToken.
pub record GenerationWorld : Type 0 where
  pub token : TokenWorld
  pub metadata : ApiWorld
  pub decode_token : Text → Answer Text
  pub key : ApiWorld
  pub decode_key : Text → Answer AddKeyResult
  pub text : TokenError → Text

-- A client and what concerns it: the account, the certificate that it holds, its two servers, and
-- the file of the cached token.
pub record ClientState : Type 0 where
  pub account : Account
  pub ca_cert : Text
  pub metadata_server : Server
  pub wireguard_server : Server
  pub token_file : TokenFile

abbrev pub metadata_call : ClientState → GenerationWorld → Call Text
metadata_call c w =
    get_token_from_metadata_server c.account c.ca_cert c.metadata_server w.decode_token w.metadata

-- GetToken of the client.
unfoldable pub client_token : ClientState → GenerationWorld → GetToken
client_token c w = get_token (record w.token { metadata = (metadata_call c w).result }) c.token_file

-- The certificate and the requests behind GetToken, which may not have come to the metadata server.
unfoldable pub behind_token : ClientState → Call Text → List Request → Text × List SentRequest
behind_token c call (by_curl ∷ by_metadata_server ∷ []) = (call.ca_cert, call.sent)
behind_token c call _ = (c.ca_cert, [])

unfoldable pub key_call : ClientState → GenerationWorld → Text → Text → Text → Call AddKeyResult
key_call c w ca_cert t publickey =
    add_key c.account ca_cert c.wireguard_server w.decode_key w.key t publickey

-- The requests of AddKey, if GenerateWithMetadata comes to it.
unfoldable pub key_requests :
    ClientState → GenerationWorld → Text → Answer (Text × Text) → TokenResult → List SentRequest
unfolding key_call
key_requests c w ca_cert keys (no_token e) = []
key_requests c w ca_cert (failed e) (token t) = []
key_requests c w ca_cert (ok (privatekey, publickey)) (token t) =
    (key_call c w ca_cert t publickey).sent

token_answer : (TokenError → Text) → TokenResult → Answer Text
token_answer text (token t) = ok t
token_answer text (no_token e) = failed (text e)

-- The client as GenerateWithMetadata sees it.
unfoldable pub pia_wg_client : ClientState → GenerationWorld → PiaWgClient
unfolding behind_token key_call token_answer
pia_wg_client c w =
    let got = client_token c w in
    let behind = behind_token c (metadata_call c w) got.requests in
    record {
      get_token = token_answer w.text got.result;
      add_key = λ t publickey. (key_call c w behind.0 t publickey).result;
      get_metadata_server_for_region = c.metadata_server;
    }

-- The requests that GenerateWithMetadata sends, in order.
unfoldable pub generation_requests :
    ClientState → GenerationWorld → GeneratorConfig → Answer (Text × Text) → List SentRequest
unfolding behind_token key_requests
generation_requests c w p made =
    let got = client_token c w in
    let behind = behind_token c (metadata_call c w) got.requests in
    behind.1 ++ key_requests c w behind.0 (generate_keys p made) got.result
