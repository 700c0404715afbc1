-- ===== src/Tests/PortForwardTests.antt =====
-- The port-forwarding daemon in a concrete world.
use pia_wg_config_generator.Base.{◌≡◌, refl, false, none, some, List, [], ◌∷◌, ◌*◌, ◌≢◌, arith}
use pia_wg_config_generator.Base.Int.{pos, ◌+ℤ◌}
use pia_wg_config_generator.Base.Text.{codes, trim_space, is_space, text_eq}
use pia_wg_config_generator.Clock.{seconds}
use pia_wg_config_generator.Api.{ok, AddKeyResult}
use pia_wg_config_generator.PortForward.{
  gateway_from_key_meta, get_signature, normalize_gateway, bind_port, body, Dialer, out_of_fuel,
  wait_for_gateway, interval_of,
}
use pia_wg_config_generator.PortForward.Gateway.{Sleeps, wait_for_gateway_ends}
use pia_wg_config_generator.PortForward.Daemon.{
  Lease, set, acquire_port_forward_after_gateway_wait, acquire_and_bind_port, Poll, pending,
  PfSettings,
}
use pia_wg_config_generator.PortForward.Daemon.Turns.{
  PfTurn, poll_next, renew_next, run_turns, new_pf_turns, bound_port, took_snapshot, set_lease,
  ran_hook, acquired_lease, poll_turn, turn_from, begin_poll, begin_pending, end_acquire,
  renew_turn, renew_from, take_snapshot, bind_snapshot,
}
use pia_wg_config_generator.PortForward.Daemon.Renewals.{run_turns-IsInOrder}
use pia_wg_config_generator.PortForward.Daemon.Order.{IsInOrder}

-- Refuses each dial, with two seconds from each reading of its clock to the next.
abbrev dialer : Dialer
dialer = record { dial = λ i. some (codes "refused"); now = λ i. pos (i * 2000000000) }

dialer-Sleeps : Sleeps dialer (interval_of (seconds 2))
unfolding interval_of ◌+ℤ◌
dialer-Sleeps = record { starts = ground arith; sleeps = λ i. ground arith }

wait_for_gateway_ends_example :
    wait_for_gateway dialer (seconds 120) (seconds 2) (codes "10.0.0.1:19999") ≢ out_of_fuel
wait_for_gateway_ends_example =
    wait_for_gateway_ends dialer (seconds 120) (seconds 2) (codes "10.0.0.1:19999") dialer-Sleeps

abbrev pub pf_settings : PfSettings
pf_settings = record {
  wait_enabled = false;
  gateway_timeout = seconds 120;
  gateway_interval = seconds 5;
  has_port = λ t. false;
}

abbrev key : AddKeyResult
key = record {
  status = codes "OK";
  server_key = codes "K";
  server_port = pos 1337;
  server_ip = codes "1.2.3.4";
  server_vip = codes "10.0.0.1";
  gateway = [];
  peer_ip = codes "10.0.0.2";
  peer_pubkey = codes "p";
  dns_servers = codes "10.0.0.3" ∷ [];
}

abbrev pub good_poll : Poll
good_poll = record {
  read = pending (record { created_utc = seconds 1000; key = key });
  client = none;
  dialer = dialer;
  token = ok (codes "token");
  signature = body (record { status = codes "OK"; payload = codes "e30="; signature = codes "s" });
  decode = λ t. ok (record {
    token = codes "token";
    port = pos 40000;
    expires_at = seconds 9000;
    created_at = seconds 1000;
  });
  bind = body (record { status = codes "OK"; message = [] });
  write = none;
  itoa = λ n. codes "40000";
}

abbrev good_lease : Lease
good_lease = record {
  port = codes "40000";
  sig = record { status = codes "OK"; payload = codes "e30="; signature = codes "s" };
  gateway = codes "10.0.0.1";
}

-- The renewal finds no lease before the first poll and in the middle of it; then it takes its snapshot,
-- and binds behind a poll that finds nothing new.
abbrev turns : List PfTurn
turns =
    renew_next
    ∷ poll_next good_poll
    ∷ poll_next good_poll
    ∷ renew_next
    ∷ poll_next good_poll
    ∷ poll_next good_poll
    ∷ renew_next
    ∷ poll_next good_poll
    ∷ renew_next
    ∷ []

run_turns-IsInOrder_example : IsInOrder (run_turns pf_settings new_pf_turns turns).actions
run_turns-IsInOrder_example = run_turns-IsInOrder pf_settings turns

-- What that comes to, the newest first.
did :
    (run_turns pf_settings new_pf_turns turns).actions
    ≡ bound_port good_lease.gateway good_lease.sig
      ∷ took_snapshot
      ∷ set_lease good_lease
      ∷ ran_hook good_lease.port
      ∷ acquired_lease good_lease
      ∷ []
unfolding run_turns poll_turn turn_from begin_poll begin_pending end_acquire renew_turn renew_from
    take_snapshot bind_snapshot set acquire_port_forward_after_gateway_wait gateway_from_key_meta
    trim_space is_space acquire_and_bind_port get_signature normalize_gateway text_eq bind_port
did = refl
