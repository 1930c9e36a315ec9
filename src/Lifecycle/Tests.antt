-- ===== src/Lifecycle/Tests.antt =====
-- A backend of two switches, as in the tests of daemon/src/lifecycle.rs, and runs on it.
use varmlen_cli_linux.Common.{◌≡◌, ◌≢◌, refl, inl, Bool, true, false, not, [], ◌∷◌, arith}
use varmlen_cli_linux.Common.Tests.{if◌then◌else◌}
use varmlen_cli_linux.Common.Lists.{is_empty}
use varmlen_cli_linux.Common.Ip.{v4}
use varmlen_cli_linux.Common.Text.{codes}
use varmlen_cli_linux.Common.Outcome.{Result, ok, err, is_ok}
use varmlen_cli_linux.Protocol.{
  tun, ConnectRequest, ConnectionPhase, disconnected, connected, blocking, DaemonState, DaemonError,
  internal,
}
use varmlen_cli_linux.Lifecycle.{
  Backend, Manager, idle_state, new, begin, hold, drop_hold, stop_old, bring_up, abandon, release,
  commit, switch_over, connect, reconcile_health,
}
use varmlen_cli_linux.Lifecycle.Phases.{IsSettled, connect_settles}
use varmlen_cli_linux.Lifecycle.Hold.{HoldLaws, IsLeft, connect-IsLeft, connect_blocking}
use varmlen_cli_linux.Lifecycle.Protected.{
  IsProtected, connects, reconciles, here, next, Reach-IsProtected,
}
use varmlen_cli_linux.Lifecycle.Exposed.{IsUnverified, reconcile-connect_unblocked}
use varmlen_cli_linux.Lifecycle.Trace.{
  Call, validating, installing, verifying, starting, activating, confirming, removing, stopping,
  Watch, unheld, violated, watched, connect-watched,
}

record Fake : Type 0 where
  held : Bool
  alive : Bool

abbrev injected : DaemonError
injected = record { code = internal; message = "injected lifecycle failure" }

abbrev does : Bool → Fake → Fake → Result DaemonError (Unit {0}) × Fake
does fails before after = if fails then (err injected, before) else (ok tt, after)

-- Which calls fail.
abbrev fake : (Call → Bool) → Backend Fake
fake fails = record {
  data_plane_alive = λ b. (b.alive, b);
  validate = λ q b. does (fails validating) b b;
  install_hold_block = λ q b. does (fails installing) b (record b { held = true });
  verify_hold_block = λ b. does (fails verifying) b b;
  stop_data_plane = λ p b. does (fails (stopping p)) b (record b { alive = false });
  start_data_plane = λ q b. does (fails starting) b (record b { alive = true });
  activate_network = λ q b. does (fails activating) b b;
  update_split = λ apps b. (ok (not (is_empty apps)), b);
  verify_connection = λ q b. does (fails confirming) b b;
  remove_hold_block = λ b. does (fails removing) b (record b { held = false });
}

fake-laws : (fails : Call → Bool) → HoldLaws (fake fails) (λ b. b.held)
fake-laws fails = record {
  install_ok = λ q b h. ground arith;
  install_err = λ q b h. ground arith;
  alive_keeps = λ b. refl;
  validate_keeps = λ q b. ground arith;
  verify_keeps = λ b. ground arith;
  stop_keeps = λ p b. ground arith;
  start_keeps = λ q b. ground arith;
  activate_keeps = λ q b. ground arith;
  update_keeps = λ apps b. refl;
  confirm_keeps = λ q b. ground arith;
}

abbrev nothing : Call → Bool
nothing _ = false

abbrev at_verifying : Call → Bool
at_verifying verifying = true
at_verifying _ = false

abbrev at_activating : Call → Bool
at_activating activating = true
at_activating _ = false

abbrev request : Bool → ConnectRequest
request killswitch = record {
  mode = tun;
  xray_config = codes "{}";
  validation_config = codes "{}";
  server_ips = v4 203 0 113 9 ∷ [];
  excluded_apps = codes "cs2" ∷ [];
  killswitch = killswitch;
  allow_lan = false;
}

abbrev at : ConnectionPhase → Bool → Bool → Bool → Manager Fake
at phase held alive armed = record {
  backend = record { held = held; alive = alive };
  state = idle_state phase;
  block_on_failure = armed;
}

abbrev online : DaemonState
online = record (idle_state connected) { split_active = true; dns_protected = true }

connected_test :
    (connect (fake nothing) (request true) (at disconnected false false false)).0 ≡ ok online
unfolding connect begin hold switch_over bring_up commit
connected_test = refl

-- A failed first connection without the kill switch restores the direct network.
restored_test :
    (connect (fake at_activating) (request false) (at disconnected false false false)).1
    ≡ at disconnected false false false
unfolding connect begin hold switch_over bring_up abandon
restored_test = refl

connect_settles_example :
    IsSettled
      (connect (fake at_activating) (request true) (at connected true true true)).1.state.phase
connect_settles_example =
    connect_settles (fake at_activating) (request true) (at connected true true true)

released_test :
    (connect (fake nothing) (request false) (at disconnected false false false)).0 ≡ ok online
unfolding connect begin hold switch_over bring_up commit release
released_test = refl

connect-IsLeft_example :
    IsLeft
      (fake nothing)
      (λ b. b.held)
      (fake-laws nothing)
      false
      (connect (fake nothing) (request false) (at disconnected false false false)).1.backend
connect-IsLeft_example =
    connect-IsLeft (fake nothing) (λ b. b.held) (fake-laws nothing) (request false)
      (at disconnected false false false) online refl released_test

blocked_test :
    (connect (fake at_activating) (request true) (at connected false true false)).1.state.phase
    ≡ blocking
unfolding connect begin hold switch_over stop_old bring_up abandon
blocked_test = refl

connect_blocking_example :
    (connect (fake at_activating) (request true) (at connected false true false)).1.backend.held
    ≡ true
connect_blocking_example =
    connect_blocking (fake at_activating) (λ b. b.held) (fake-laws at_activating) (request true)
      (at connected false true false) blocked_test

nothing_verifies : (b : Fake) → b.held ≡ true → is_ok ((fake nothing).verify_hold_block b).0 ≡ true
nothing_verifies b h = refl

abbrev fresh : Fake
fresh = record { held = false; alive = false }

abbrev after_connect : Manager Fake
after_connect = (connect (fake nothing) (request true) (new fresh disconnected)).1

Reach-IsProtected_example :
    IsProtected (fake nothing) (λ b. b.held) (reconcile_health (fake nothing) after_connect).1
Reach-IsProtected_example =
    Reach-IsProtected (fake nothing) (λ b. b.held) (fake-laws nothing) nothing_verifies fresh
      disconnected (inl refl)
      (next (next here (connects (request true) (new fresh disconnected)))
        (reconciles after_connect))

abbrev watched_start : Manager (Watch × Fake)
watched_start = record {
  backend = (unheld, record { held = false; alive = true });
  state = idle_state connected;
  block_on_failure = false;
}

connect-watched_example :
    (connect (watched (fake at_activating)) (request false) watched_start).1.backend.0 ≢ violated
connect-watched_example =
    connect-watched (fake at_activating) (request false) watched_start refl refl

abbrev armed : Manager Fake
armed = at connected true false true

unverified :
    IsUnverified (fake at_verifying) (λ b. b.held) (fake-laws at_verifying) (request true) armed
unverified = record {
  guarded = refl;
  live = refl;
  armed = refl;
  valid = refl;
  installs = refl;
  unverified = refl;
  removes = refl;
  gone = refl;
}

reconcile-connect_unblocked_example :
    let m = (connect (fake at_verifying) (request true) armed).1 in
    ((reconcile_health (fake at_verifying) m).0 ≡ ok (idle_state blocking))
    × ((reconcile_health (fake at_verifying) m).1.backend.held ≡ false)
unfolding connect begin hold drop_hold
reconcile-connect_unblocked_example =
    reconcile-connect_unblocked (fake at_verifying) (λ b. b.held) (fake-laws at_verifying)
      (request true) armed unverified refl refl
