-- ===== src/Tests/DaemonTests.antt =====
-- The first daemon in concrete worlds.
use pia_wg_config_generator.Base.{true, none, List, [], ◌∷◌, ◌≡◌, refl}
use pia_wg_config_generator.Base.Int.{pos}
use pia_wg_config_generator.Base.Text.{codes, text_eq, trim_space, is_space}
use pia_wg_config_generator.Base.Text.Decimal.{decimal}
use pia_wg_config_generator.Clock.{seconds}
use pia_wg_config_generator.PortForward.Daemon.{no_pending}
use pia_wg_config_generator.WgConfig.Generate.{
  generate_with_metadata, after_token, generate_keys, after_keys, after_add_key, generate_config,
  execute, template_config,
}
use pia_wg_config_generator.Daemon.{
  DaemonSettings, RoundWorld, DaemonState, exit, continue, round, round_status, by_pending, apply,
  after_hook, after_restart, new_daemon_state, status_write, wrote_pending, restarted, wrote_config,
  DaemonEvent, round_event, renew_event, run_daemon,
}
use pia_wg_config_generator.Daemon.Served.{IsServed, IsDone, end_state}
use pia_wg_config_generator.Daemon.Round.{round-IsDone, run_daemon-IsServed}
use pia_wg_config_generator.Daemon.Exit.{HandsOver, round-HandsOver}
use pia_wg_config_generator.Tests.GenerateTests.{key, pia, config, pair, result}
use pia_wg_config_generator.Tests.PortForwardTests.{pf_settings, good_poll}

abbrev daemon_settings : DaemonSettings
daemon_settings = record {
  region = codes "nl";
  port_forwarding = true;
  server_name = true;
  ipv6_mode_str = codes "off";
  generator = config;
  interval = seconds 43200;
  jitter_max = pos 0;
  retry_delay = seconds 60;
  pf = pf_settings;
  restart_container = codes "gluetun";
  config_hook_cmd = [];
}

-- Everything succeeds; nothing is pending.
abbrev first_round : RoundWorld
first_round = record {
  now = seconds 1000;
  generated_at = seconds 1001;
  random = none;
  client = none;
  pia = pia;
  made = pair;
  written = none;
  hook = none;
  restart = none;
  pending_written = none;
  port_written = none;
  removed = none;
  gateway = record good_poll { read = no_pending };
  text = λ e. codes "failed";
}

-- The next start of the daemon, which finds the metadata.
abbrev second_round : RoundWorld
second_round = record first_round { gateway = good_poll }

abbrev handed_over : DaemonState
handed_over = record new_daemon_state {
  log =
      status_write (round_status daemon_settings first_round [] [])
      ∷ wrote_pending key
      ∷ restarted (codes "gluetun")
      ∷ wrote_config result.config
      ∷ [];
}

first_round_exits : round daemon_settings first_round new_daemon_state ≡ exit handed_over
unfolding round by_pending apply after_hook after_restart generate_with_metadata after_token
    generate_keys after_keys after_add_key generate_config execute template_config text_eq
    trim_space is_space decimal
first_round_exits = refl

round-HandsOver_example : HandsOver daemon_settings first_round new_daemon_state handed_over
round-HandsOver_example =
    round-HandsOver daemon_settings first_round new_daemon_state handed_over first_round_exits

new-IsServed : IsServed new_daemon_state
new-IsServed = record {
  remembered = refl;
  announced = λ h. absurd (cc);
  in_file = λ h. absurd (cc);
}

round-IsDone_example : IsDone new_daemon_state (round daemon_settings second_round new_daemon_state)
round-IsDone_example = round-IsDone daemon_settings second_round new_daemon_state new-IsServed

abbrev events : List DaemonEvent
events = round_event second_round ∷ renew_event ∷ round_event first_round ∷ []

run_daemon-IsServed_example :
    IsServed (end_state (run_daemon daemon_settings (continue new_daemon_state) events))
run_daemon-IsServed_example = run_daemon-IsServed daemon_settings events
