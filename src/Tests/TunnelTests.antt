-- ===== src/Tests/TunnelTests.antt =====
-- The control server's answers, at concrete replies.
use pia_wg_config_generator.Base.{true, false, some, [], ◌≡◌, ◌↔◌, refl, if◌then◌else◌}
use pia_wg_config_generator.Base.Text.{
  Text, codes, text_eq, is_empty, trim_space, trim_right_byte, to_lower, is_space,
}
use pia_wg_config_generator.Clock.{seconds}
use pia_wg_config_generator.Tunnel.{
  Fetch, replied, check_tunnel, base_of, reply_of, vpn_path, openvpn_path, ip_path,
  fetch_gluetun_status, fetch_gluetun_public_ip,
}
use pia_wg_config_generator.Tunnel.Verdict.{IsVouchedFor, check_tunnel-healthy}

abbrev url : Text
url = codes " http://gluetun:8000/ "

-- Running with no public IP: PIA has dropped the peer.
abbrev evicted : Fetch
evicted timeout path =
    if text_eq path (codes "http://gluetun:8000/v1/publicip/ip")
    then replied 200 (some [])
    else replied 200 (some (codes "running"))

evicted_unhealthy : (check_tunnel evicted url (seconds 5)).healthy ≡ false
unfolding check_tunnel fetch_gluetun_status fetch_gluetun_public_ip trim_space trim_right_byte
    to_lower text_eq is_space
evicted_unhealthy = refl

check_tunnel-healthy_example : ((check_tunnel evicted url (seconds 5)).healthy ≡ true) ↔ (
    (is_empty (base_of url) ≡ false)
    × IsVouchedFor
        (fetch_gluetun_status (reply_of evicted url (seconds 5) vpn_path))
        (fetch_gluetun_status (reply_of evicted url (seconds 5) openvpn_path))
        (fetch_gluetun_public_ip (reply_of evicted url (seconds 5) ip_path)))
check_tunnel-healthy_example = check_tunnel-healthy evicted url (seconds 5)
