-- ===== src/Controller/Tests.antt =====
-- A daemon whose network never fails, on the disks of the other tests.
use varmlen_cli_linux.Common.{◌≡◌, refl, inr, Bool, true, false, none, List, [], ◌∷◌}
use varmlen_cli_linux.Common.Ip.{v4}
use varmlen_cli_linux.Common.Text.{codes}
use varmlen_cli_linux.Common.Outcome.{ok}
use varmlen_cli_linux.Protocol.{DaemonCommand, ConnectRequest, tun, recovery_required, connected}
use varmlen_cli_linux.Lifecycle.{Backend, idle_state, mark_recovery_required}
use varmlen_cli_linux.Log.{Disk, done, missing}
use varmlen_cli_linux.State.{write}
use varmlen_cli_linux.State.Tests.{
  Files, two_files, two_files-laws, phase_serde, phase-printed, empty_files,
}
use varmlen_cli_linux.Controller.{Daemon, Controller, persist}
use varmlen_cli_linux.Controller.Persisted.{
  IsPersisted, PrintsBack, Event, handled, polled, after, after-IsPersisted,
}

abbrev calm : Backend Bool
calm = record {
  data_plane_alive = λ b. (b, b);
  validate = λ request b. (ok tt, b);
  install_hold_block = λ request b. (ok tt, b);
  verify_hold_block = λ b. (ok tt, b);
  stop_data_plane = λ keep b. (ok tt, false);
  start_data_plane = λ request b. (ok tt, true);
  activate_network = λ request b. (ok tt, b);
  update_split = λ apps b. (ok true, b);
  verify_connection = λ request b. (ok tt, b);
  remove_hold_block = λ b. (ok tt, b);
}

abbrev no_log : Disk Bool
no_log = record {
  metadata_len = λ l. none;
  remove_file = λ i l. (done, l);
  rename = λ i j l. (done, l);
  write = λ bytes l. (true, l);
  read = λ l. missing;
}

abbrev daemon_on : Bool → Daemon Bool Files Bool
daemon_on renames = record {
  owner_uid = 1000;
  backend = calm;
  xray_identity = λ b. none;
  state_disk = two_files renames;
  serde = phase_serde;
  log_disk = no_log;
  from_utf8_lossy = λ bytes. bytes;
  run_tcp_ping = λ request. ok 20;
  run_proxy_ping = λ owner request. ok 30;
}

abbrev start : Controller Bool Files Bool
start = record {
  manager = record {
    backend = false;
    state = idle_state recovery_required;
    block_on_failure = false;
  };
  file = empty_files;
  log = false;
}

prints : (renames : Bool) → PrintsBack (daemon_on renames)
prints renames m = phase-printed m.state.phase

abbrev request : ConnectRequest
request = record {
  mode = tun;
  xray_config = codes "{}";
  validation_config = codes "{}";
  server_ips = v4 203 0 113 9 ∷ [];
  excluded_apps = [];
  killswitch = true;
  allow_lan = false;
}

abbrev events : List Event
events =
    handled (DaemonCommand.connect request)
    ∷ polled
    ∷ handled DaemonCommand.log_tail
    ∷ handled DaemonCommand.disconnect
    ∷ []

after-IsPersisted_example : IsPersisted (daemon_on true) (after (daemon_on true) events start)
after-IsPersisted_example =
    after-IsPersisted (daemon_on true) (λ s. s.state_file) (λ s. s.temporary_file)
      (two_files-laws true) (prints true) events start (inr refl)

abbrev online : Controller Bool Files Bool
online = record start {
  manager = record { backend = true; state = idle_state connected; block_on_failure = false };
}

unsaved_phase : (persist (daemon_on false) online).1.manager.state.phase ≡ recovery_required
unfolding persist write mark_recovery_required
unsaved_phase = refl
