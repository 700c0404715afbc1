-- ===== src/Tunnel.antt =====
-- pia/health.go: the state of the tunnel as gluetun's control server shows it. What the server
-- answers is an argument: for a timeout and a URL, the reply to GET with the one string field that
-- the caller decodes from its JSON body.
pub mod Verdict
use pia_wg_config_generator.Base.{
  ℕ, Bool, true, false, not, Option, none, some, List, [], ◌∷◌, ◌++◌, ◌==◌, if◌then◌else◌,
}
use pia_wg_config_generator.Base.Int.{pos, leb_ℤ}
use pia_wg_config_generator.Base.Text.{
  Text, codes, is_empty, trim_space, trim_right_byte, equal_fold, text_eq, to_lower,
}
use pia_wg_config_generator.Clock.{Duration, seconds}

-- Why a tunnel could not be confirmed healthy.
pub data TunnelError : Type 0 where
  empty_url no_public_ip no_usable_status : TunnelError
  not_running : Text → TunnelError

pub record TunnelState : Type 0 where
  pub healthy : Bool
  pub status : Text
  pub public_ip_known : Bool
  pub public_ip_present : Bool
  pub endpoint : Text
  pub err : Option TunnelError

-- The zero value with an error.
abbrev unknown_state : TunnelError → TunnelState
unknown_state e = record {
  healthy = false;
  status = [];
  public_ip_known = false;
  public_ip_present = false;
  endpoint = [];
  err = some e;
}

-- The request failed; or the HTTP status, and the decoded field if the body is such JSON.
pub data Reply : Type 0 where
  no_reply : Reply
  replied : ℕ → Option Text → Reply

abbrev pub Fetch : Type 0
Fetch = Duration → Text → Reply

-- getJSON; `none` is its error.
get_json : Reply → Option Text
get_json no_reply = none
get_json (replied code field) = if not (code == 200) then none else field

nonempty : Text → Option Text
nonempty [] = none
nonempty s = some s

status_of : Option Text → Option Text
status_of none = none
status_of (some s) = nonempty (trim_space s)

-- fetchGluetunStatus
unfoldable pub fetch_gluetun_status : Reply → Option Text
unfolding get_json nonempty status_of
fetch_gluetun_status r = status_of (get_json r)

trimmed : Option Text → Option Text
trimmed none = none
trimmed (some s) = some (trim_space s)

-- fetchGluetunPublicIP
unfoldable pub fetch_gluetun_public_ip : Reply → Option Text
unfolding get_json trimmed
fetch_gluetun_public_ip r = trimmed (get_json r)

-- The state when the status says running, by what is read of the public IP.
with_public_ip : Text → Option Text → TunnelState
with_public_ip status none = record {
  healthy = true;
  status = status;
  public_ip_known = false;
  public_ip_present = false;
  endpoint = [];
  err = none;
}
with_public_ip status (some ip) = record {
  healthy = not (is_empty ip);
  status = status;
  public_ip_known = true;
  public_ip_present = not (is_empty ip);
  endpoint = [];
  err = if is_empty ip then some no_public_ip else none;
}

abbrev running_text : Text
running_text = codes "running"

-- The body of the loop behind a status that could be read.
judge : Option Text → Text → TunnelState
judge ip status =
    if not (equal_fold status running_text)
    then record (unknown_state (not_running status)) { status = status }
    else with_public_ip status ip

-- The loop over the two paths: the first status that can be read decides.
first_status : Option Text → List (Option Text) → TunnelState
first_status ip [] = unknown_state no_usable_status
first_status ip (none ∷ rest) = first_status ip rest
first_status ip (some status ∷ rest) = judge ip status

abbrev pub vpn_path : Text
vpn_path = codes "/v1/vpn/status"

abbrev pub openvpn_path : Text
openvpn_path = codes "/v1/openvpn/status"

abbrev pub ip_path : Text
ip_path = codes "/v1/publicip/ip"

abbrev pub base_of : Text → Text
base_of control_url = trim_right_byte b'/' (trim_space control_url)

abbrev pub timeout_of : Duration → Duration
timeout_of timeout = if leb_ℤ timeout (pos 0) then seconds 5 else timeout

-- The reply at one path below the base URL.
abbrev pub reply_of : Fetch → Text → Duration → Text → Reply
reply_of fetch control_url timeout path = fetch (timeout_of timeout) (base_of control_url ++ path)

-- CheckTunnelViaControlServer
unfoldable pub check_tunnel : Fetch → Text → Duration → TunnelState
unfolding with_public_ip judge first_status
check_tunnel fetch control_url timeout =
    let reply = reply_of fetch control_url timeout in
    if is_empty (base_of control_url)
    then unknown_state empty_url
    else first_status (fetch_gluetun_public_ip (reply ip_path))
        (fetch_gluetun_status (reply vpn_path) ∷ fetch_gluetun_status (reply openvpn_path) ∷ [])
