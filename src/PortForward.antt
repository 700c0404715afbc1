-- ===== src/PortForward.antt =====
-- Port forwarding: PFClient of pia/pf.go and the gateway of main.go. The replies of the gateway and
-- the clock are arguments.
pub mod Gateway
pub mod Daemon
pub mod HandOver
use pia_wg_config_generator.Base.{
  ℕ, zero, suc, ◌+◌, Bool, true, false, not, ◌&&◌, ◌||◌, Option, none, some, List, [], ◌∷◌, ◌++◌,
  if◌then◌else◌,
}
use pia_wg_config_generator.Base.Int.{ℤ, pos, pos_part, leb_ℤ, ltb_ℤ}
use pia_wg_config_generator.Base.Text.{Text, codes, text_eq, is_empty, trim_space}
use pia_wg_config_generator.Clock.{Time, Duration, zero_time, add, after, seconds}
use pia_wg_config_generator.Api.{Answer, ok, failed, AddKeyResult}

pub record PfSignatureResponse : Type 0 where
  pub status : Text
  pub payload : Text
  pub signature : Text

pub record PfPayload : Type 0 where
  pub token : Text
  pub port : ℤ
  pub expires_at : Time
  pub created_at : Time

pub record BindResponse : Type 0 where
  pub status : Text
  pub message : Text

-- An HTTP reply of the gateway, with its body decoded.
pub data Reply {ℓ} (A : Type ℓ) : Type ℓ where
  no_reply bad_status undecodable : Text → Reply A
  body : A → Reply A

pub data PfError : Type 0 where
  gateway_empty no_gateway : PfError
  request_failed signature_status payload_undecodable : Text → PfError
  bind_status : BindResponse → PfError
  token_failed client_failed gateway_unreachable : Text → PfError
  still_waiting : PfError

pub data Result {ℓ} (A : Type ℓ) : Type ℓ where
  value : A → Result A
  error : PfError → Result A

abbrev pub and_then {ℓ κ} : {A : Type ℓ} {B : Type κ} → Result A → (A → Result B) → Result B
and_then (value a) next = next a
and_then (error e) next = error e

-- NormalizeGateway; `has_port` says whether net.SplitHostPort accepts its argument.
unfoldable pub normalize_gateway : (Text → Bool) → Text → Text
normalize_gateway has_port gateway =
    let gw = trim_space gateway in
    if is_empty gw then [] else if has_port gw then gw else gw ++ codes ":19999"

sent : {A : Type 0} → Reply A → Result A
sent (no_reply e) = error (request_failed e)
sent (bad_status s) = error (request_failed s)
sent (undecodable e) = error (request_failed e)
sent (body a) = value a

decoded_payload : PfSignatureResponse → Answer PfPayload → Result (PfSignatureResponse × PfPayload)
decoded_payload sig (failed e) = error (payload_undecodable e)
decoded_payload sig (ok payload) = value (sig, payload)

-- GetSignature, behind the normalised gateway; `decode` is base64 and JSON.
unfoldable pub get_signature :
    Text
    → Reply PfSignatureResponse
    → (Text → Answer PfPayload)
    → Result (PfSignatureResponse × PfPayload)
unfolding sent decoded_payload
get_signature gw reply decode =
    if is_empty gw
    then error gateway_empty
    else and_then (sent reply) λ sig.
      if text_eq sig.status (codes "OK")
      then decoded_payload sig (decode sig.payload)
      else error (signature_status sig.status)

-- BindPort, behind the normalised gateway.
unfoldable pub bind_port : Text → Reply BindResponse → Result BindResponse
unfolding sent
bind_port gw reply =
    if is_empty gw
    then error gateway_empty
    else and_then (sent reply)
        λ resp. if text_eq resp.status (codes "OK") then value resp else error (bind_status resp)

-- gatewayFromKeyMeta
unfoldable pub gateway_from_key_meta : AddKeyResult → Result Text
gateway_from_key_meta key =
    let gateway = trim_space key.gateway in
    let vip = trim_space key.server_vip in
    if not (is_empty gateway)
    then value gateway
    else if not (is_empty vip)
    then value vip
    else error no_gateway

-- The dials of waitForGateway, an error or none, and its clock: `now 0` is read before the first
-- dial, `now (i + 1)` behind dial i.
pub record Dialer : Type 0 where
  pub dial : ℕ → Option Text
  pub now : ℕ → Time

pub data Reached : Type 0 where
  reached out_of_fuel no_address : Reached
  unreachable : Text → Reached

-- Whether waitForGateway gives up behind dial i.
unfoldable pub gives_up : Dialer → Duration → Duration → ℕ → Bool
gives_up d timeout interval i =
    leb_ℤ timeout (pos 0) || not (ltb_ℤ (add (d.now (suc i)) interval) (add (d.now 0) timeout))

-- The loop of waitForGateway from dial i on, for as many dials as the fuel.
unfoldable pub dial_loop : ℕ → Dialer → Duration → Duration → ℕ → Reached
dial_loop zero d timeout interval i = out_of_fuel
dial_loop (suc fuel) d timeout interval i =
    let later = dial_loop fuel d timeout interval (suc i) in
    elim (d.dial i) [
      | none ↦ reached
      | some e ↦ if gives_up d timeout interval i then unreachable e else later
    ]

-- defaultGatewayInterval
abbrev pub default_gateway_interval : Duration
default_gateway_interval = seconds 5

unfoldable pub interval_of : Duration → Duration
interval_of interval = if leb_ℤ interval (pos 0) then default_gateway_interval else interval

-- waitForGateway, behind the normalised gateway: as many dials as the timeout has nanoseconds.
unfoldable pub wait_for_gateway : Dialer → Duration → Duration → Text → Reached
wait_for_gateway d timeout interval address =
    if is_empty address
    then no_address
    else dial_loop (suc (pos_part timeout)) d timeout (interval_of interval) 0
