-- ===== src/Controller.antt =====
-- daemon/src/controller.rs: the daemon's handler of commands, over the lifecycle manager, the state
-- file and the log. The runs of a ping are parameters; the locks are not modelled: a command has the
-- manager to itself.
pub mod Persisted
pub mod Tests
use varmlen_cli_linux.Common.{ℕ, Bool, true, false, not, ◌&&◌, Option, none, some}
use varmlen_cli_linux.Common.Tests.{◌==◌, if◌then◌else◌}
use varmlen_cli_linux.Common.Text.{Text, text_eq}
use varmlen_cli_linux.Common.Outcome.{Result, ok, err}
use varmlen_cli_linux.Common.Action.{Action}
use varmlen_cli_linux.Protocol.{
  DaemonCommand, TcpPingRequest, ProxyPingRequest, DaemonState, DaemonError, internal,
  ConnectionPhase, disconnected, preparing, connected, blocking, reconnecting, recovery_required,
}
use varmlen_cli_linux.Recovery.{ProcessIdentity}
use varmlen_cli_linux.Log.{Disk, max_log_tail_bytes, tail, clear}
use varmlen_cli_linux.State.{PersistedState, StoreError, StateDisk, Serde, Bytes, new_state, write}
use varmlen_cli_linux.Lifecycle
use varmlen_cli_linux.Lifecycle.{Backend, Manager, mark_recovery_required, reconcile_health}

-- What the controller is built over.
pub record Daemon (B S L : Type 0) : Type 0 where
  pub owner_uid : ℕ
  pub backend : Backend B
  pub xray_identity : B → Option ProcessIdentity
  pub state_disk : StateDisk S
  pub serde : Serde
  pub log_disk : Disk L
  pub from_utf8_lossy : Bytes → Text
  pub run_tcp_ping : TcpPingRequest → Result DaemonError ℕ
  pub run_proxy_ping : ℕ → ProxyPingRequest → Result DaemonError ℕ

-- The manager, the state file and the log.
pub record Controller (B S L : Type 0) : Type 0 where
  pub manager : Manager B
  pub file : S
  pub log : L

abbrev pub phase_number : ConnectionPhase → ℕ
phase_number disconnected = 0
phase_number preparing = 1
phase_number connected = 2
phase_number blocking = 3
phase_number reconnecting = 4
phase_number recovery_required = 5

abbrev pub bool_eq : Bool → Bool → Bool
bool_eq true b = b
bool_eq false b = not b

abbrev pub rtt_eq : Option ℕ → Option ℕ → Bool
rtt_eq none none = true
rtt_eq (some a) (some b) = a == b
rtt_eq _ _ = false

abbrev pub log_eq : Option Text → Option Text → Bool
log_eq none none = true
log_eq (some a) (some b) = text_eq a b
log_eq _ _ = false

-- `PartialEq` of `DaemonState`.
unfoldable pub state_eq : DaemonState → DaemonState → Bool
state_eq a b =
    phase_number a.phase == phase_number b.phase
    && bool_eq a.split_active b.split_active
    && bool_eq a.dns_protected b.dns_protected
    && rtt_eq a.rtt_ms b.rtt_ms
    && log_eq a.log_tail b.log_tail

abbrev pub internal_error : DaemonError
internal_error = record { code = internal; message = "could not persist daemon recovery state" }

abbrev pub log_error : DaemonError
log_error = record { code = internal; message = "could not read Xray log" }

abbrev pub clear_error : DaemonError
clear_error = record { code = internal; message = "could not clear Xray log" }

module _ {B S L : Type 0} (daemon : Daemon B S L) where
  -- What is kept over a restart.
  abbrev pub persisted : Manager B → PersistedState
  persisted m = record (new_state daemon.owner_uid m.state.phase) {
    xray = daemon.xray_identity m.backend;
  }

  abbrev pub written :
      Controller B S L
      → Result StoreError (Unit {0}) × S
      → Result DaemonError (Unit {0}) × Controller B S L
  written c (ok u, s) = (ok tt, record c { file = s })
  written c (err e, s) =
      (err internal_error, record c { manager = mark_recovery_required c.manager; file = s })

  unfoldable pub persist : Action (Controller B S L) DaemonError (Unit {0})
  persist c = written c (write daemon.state_disk daemon.serde (persisted c.manager) c.file)

  -- `self.persist(&mut manager)?; result`
  abbrev pub and_result :
      Result DaemonError DaemonState
      → Result DaemonError (Unit {0}) × Controller B S L
      → Result DaemonError DaemonState × Controller B S L
  and_result result (ok u, c) = (result, c)
  and_result result (err e, c) = (err e, c)

  abbrev pub persisting :
      Controller B S L
      → Result DaemonError DaemonState × Manager B
      → Result DaemonError DaemonState × Controller B S L
  persisting c (result, m) = and_result result (persist (record c { manager = m }))

  abbrev pub shown :
      Controller B S L → Option Text → Result DaemonError DaemonState × Controller B S L
  shown c none = (err log_error, c)
  shown c (some text) = (ok (record (c.manager.state) { log_tail = some text }), c)

  abbrev pub cleared :
      Controller B S L → Bool × L → Result DaemonError DaemonState × Controller B S L
  cleared c (true, l) = (ok c.manager.state, record c { log = l })
  cleared c (false, l) = (err clear_error, record c { log = l })

  abbrev pub timed :
      Controller B S L → Result DaemonError ℕ → Result DaemonError DaemonState × Controller B S L
  timed c (ok rtt) = (ok (record (c.manager.state) { rtt_ms = some rtt }), c)
  timed c (err e) = (err e, c)

  unfoldable pub handle : DaemonCommand → Action (Controller B S L) DaemonError DaemonState
  unfolding persist
  handle DaemonCommand.log_tail c =
      shown c (tail daemon.log_disk daemon.from_utf8_lossy max_log_tail_bytes c.log)
  handle DaemonCommand.clear_log c = cleared c (clear daemon.log_disk c.log)
  handle (DaemonCommand.tcp_ping request) c = timed c (daemon.run_tcp_ping request)
  handle (DaemonCommand.proxy_ping request) c =
      timed c (daemon.run_proxy_ping daemon.owner_uid request)
  handle DaemonCommand.status c = persisting c (reconcile_health daemon.backend c.manager)
  handle (DaemonCommand.connect request) c =
      persisting c (Lifecycle.connect daemon.backend request c.manager)
  handle DaemonCommand.disconnect c = persisting c (Lifecycle.disconnect daemon.backend c.manager)
  handle (DaemonCommand.update_split request) c =
      persisting c (Lifecycle.update_split daemon.backend request.applications c.manager)

  -- `poll_health`: the state is written where it is another than before.
  abbrev pub persist_if :
      Bool
      → Result DaemonError DaemonState
      → Controller B S L
      → Result DaemonError DaemonState × Controller B S L
  persist_if true result c = and_result result (persist c)
  persist_if false result c = (result, c)

  unfoldable pub poll_health : Action (Controller B S L) DaemonError DaemonState
  unfolding persist state_eq
  poll_health c =
      let (result, m) = reconcile_health daemon.backend c.manager in
      persist_if (not (state_eq m.state c.manager.state)) result (record c { manager = m })
