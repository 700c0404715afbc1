-- ===== src/Api/Requests/Confidential.antt =====
-- Where the account's name and password go (pia/pia.go).
use pia_wg_config_generator.Base.{
  Option, none, some, List, [], ◌∷◌, ◌≡◌, ◌⊎◌, inl, inr, refl, sym, ◌∙◌, All, All-append,
  Bool-cases,
}
use pia_wg_config_generator.Base.Text.{Text, is_empty}
use pia_wg_config_generator.Api.{Answer, ok, failed}
use pia_wg_config_generator.Api.Requests.{
  Account, SentRequest, Call, ApiWorld, auth_of, generate_token_url, execute_pia_request,
  by_request, with_certificate, get_token_from_metadata_server, download_pia_certificate, Exchange,
  token_of, token_decoded, add_key, add_key_url,
}
use pia_wg_config_generator.Api.Requests.Generation.{
  ClientState, GenerationWorld, metadata_call, client_token, behind_token, key_call, key_requests,
  generation_requests,
}
use pia_wg_config_generator.Token.Curl.Parse.{IsGiven}
use pia_wg_config_generator.Token.Given.{get_token-IsGiven}
use pia_wg_config_generator.Token.{
  TokenResult, token, no_token, Request, by_curl, by_metadata_server,
}
use pia_wg_config_generator.Regions.{Server}
use pia_wg_config_generator.WgConfig.Generate.{GeneratorConfig, generate_keys}

-- Every request of a call has what the token decides as Basic Auth, and goes to its server.
abbrev IsOf : Account → Server → Text → Text → SentRequest → Type 0
IsOf account server url t r =
    (r.basic_auth ≡ auth_of account t) × (r.server ≡ server) × (r.url ≡ url)

with_certificate-IsOf :
    (account : Account) (server : Server) (url t : Text) (x : Exchange) (d : Text × Option Text)
    → All (IsOf account server url t) (with_certificate account server url t x d).sent
unfolding with_certificate
with_certificate-IsOf account server url t x (ca_cert, some e) = tt
with_certificate-IsOf account server url t x (ca_cert, none) = ((refl, refl, refl), tt)

by_request-IsOf :
    (account : Account) (ca_cert : Text) (server : Server) (url t : Text) (w : ApiWorld)
    (o : Option Text)
    → All (IsOf account server url t) (by_request account ca_cert server url t w o).sent
unfolding by_request
by_request-IsOf account ca_cert server url t w (some e) = tt
by_request-IsOf account ca_cert server url t w none =
    with_certificate-IsOf account server url t w.exchange
      (download_pia_certificate ca_cert w.certificate)

execute_pia_request-IsOf :
    (account : Account) (ca_cert : Text) (server : Server) (url t : Text) (w : ApiWorld)
    → All (IsOf account server url t) (execute_pia_request account ca_cert server url t w).sent
unfolding execute_pia_request
execute_pia_request-IsOf account ca_cert server url t w =
    by_request-IsOf account ca_cert server url t w w.request

ok-injective : {a b : Text} → ok a ≡ ok b → a ≡ b
ok-injective h = cc

not_ok : {e m : Text} → failed e ≡ ok m → ⊥
not_ok h = cc

token_decoded-IsGiven : (a : Answer Text) (m : Text) → token_decoded a ≡ ok m → IsGiven m
unfolding token_decoded
token_decoded-IsGiven (failed e) m h = absurd (not_ok h)
token_decoded-IsGiven (ok t) m h = elim (Bool-cases (is_empty t)) [
  | inl empty ↦ absurd (not_ok (rw empty at h))
  | inr given ↦ let same = ok-injective (rw given at h) in rw (sym same) given
]

token_of-IsGiven :
    (decode : Text → Answer Text) (a : Answer Text) (m : Text)
    → token_of decode a ≡ ok m
    → IsGiven m
unfolding token_of
token_of-IsGiven decode (failed e) m h = absurd (not_ok h)
token_of-IsGiven decode (ok body) m h = token_decoded-IsGiven (decode body) m h

-- A request that carries no account, or asks the metadata server for a token.
abbrev pub IsConfidential : Server → SentRequest → Type 0
IsConfidential metadata_server r =
    (r.basic_auth ≡ none)
    ⊎ ((r.server ≡ metadata_server) × (r.url ≡ generate_token_url metadata_server))

-- With a token, no account goes along.
no_account :
    (account : Account) (server : Server) (url t : Text) (metadata_server : Server)
    (rs : List SentRequest)
    → IsGiven t
    → All (IsOf account server url t) rs
    → All (IsConfidential metadata_server) rs
unfolding auth_of
no_account account server url t metadata_server [] given h = tt
no_account account server url t metadata_server (r ∷ rs) given (of_call, rest) =
    let without : auth_of account t ≡ none = rw given refl in
    (inl (of_call.0 ∙ without), no_account account server url t metadata_server rs given rest)

to_metadata :
    (account : Account) (server : Server) (t : Text) (rs : List SentRequest)
    → All (IsOf account server (generate_token_url server) t) rs
    → All (IsConfidential server) rs
to_metadata account server t [] h = tt
to_metadata account server t (r ∷ rs) (of_call, rest) =
    (inr (of_call.1, of_call.2), to_metadata account server t rs rest)

client_token-IsGiven :
    (c : ClientState) (w : GenerationWorld) (t : Text)
    → (client_token c w).result ≡ token t
    → IsGiven t
unfolding client_token get_token_from_metadata_server
client_token-IsGiven c w t h =
    get_token-IsGiven (record w.token { metadata = (metadata_call c w).result }) c.token_file t
      (λ m answer. token_of-IsGiven w.decode_token _ m answer) h

metadata_call-IsConfidential :
    (c : ClientState) (w : GenerationWorld)
    → All (IsConfidential c.metadata_server) (metadata_call c w).sent
unfolding get_token_from_metadata_server
metadata_call-IsConfidential c w = to_metadata c.account c.metadata_server [] _ (
    execute_pia_request-IsOf c.account c.ca_cert c.metadata_server
      (generate_token_url c.metadata_server) [] w.metadata)

behind_token-IsConfidential :
    (c : ClientState) (call : Call Text) (requests : List Request)
    → All (IsConfidential c.metadata_server) call.sent
    → All (IsConfidential c.metadata_server) (behind_token c call requests).1
unfolding behind_token
behind_token-IsConfidential c call (by_curl ∷ by_metadata_server ∷ []) h = h
behind_token-IsConfidential c call _ h = tt

key_requests-IsConfidential :
    (c : ClientState) (w : GenerationWorld) (ca_cert : Text) (keys : Answer (Text × Text))
    (r : TokenResult)
    → ((t : Text) → r ≡ token t → IsGiven t)
    → All (IsConfidential c.metadata_server) (key_requests c w ca_cert keys r)
unfolding key_requests key_call add_key
key_requests-IsConfidential c w ca_cert keys (no_token e) given = tt
key_requests-IsConfidential c w ca_cert (failed e) (token t) given = tt
key_requests-IsConfidential c w ca_cert (ok (privatekey, publickey)) (token t) given =
    no_account c.account c.wireguard_server (add_key_url c.wireguard_server t publickey) t
      c.metadata_server _ (given t refl)
      (execute_pia_request-IsOf c.account ca_cert c.wireguard_server
        (add_key_url c.wireguard_server t publickey) t w.key)

-- Of the requests that PIAClient sends itself in a generation, only the one that asks the metadata
-- server of the region for a token carries the account's name and password: whatever the cache, curl
-- and the servers answer, the registration of the key with a WireGuard server goes without them.
pub generation_requests-IsConfidential :
    (c : ClientState) (w : GenerationWorld) (p : GeneratorConfig) (made : Answer (Text × Text))
    → All (IsConfidential c.metadata_server) (generation_requests c w p made)
unfolding generation_requests
generation_requests-IsConfidential c w p made =
    let got = client_token c w in
    let behind = behind_token c (metadata_call c w) got.requests in
    All-append (IsConfidential c.metadata_server) behind.1
      (key_requests c w behind.0 (generate_keys p made) got.result)
      (behind_token-IsConfidential c (metadata_call c w) got.requests
        (metadata_call-IsConfidential c w))
      (key_requests-IsConfidential c w behind.0 (generate_keys p made) got.result
        (λ t h. client_token-IsGiven c w t h))
