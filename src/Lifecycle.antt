-- ===== src/Lifecycle.antt =====
-- daemon/src/lifecycle.rs: `LifecycleManager` over any `LifecycleBackend`. A method that mutates
-- `self` takes the manager and returns its result beside the new manager.
pub mod Phases
pub mod Hold
pub mod Protected
pub mod Exposed
pub mod Trace
mod Tests
use varmlen_cli_linux.Common.{Bool, true, false, not, ◌&&◌, ◌||◌, none, List}
use varmlen_cli_linux.Common.Tests.{if◌then◌else◌}
use varmlen_cli_linux.Common.Lists.{is_empty}
use varmlen_cli_linux.Common.Outcome.{Result, ok, err, is_ok, is_err}
use varmlen_cli_linux.Common.Action.{Action, ◌>>=◌, ◌>>◌, on_err, when}
use varmlen_cli_linux.Common.Text.{Text}
use varmlen_cli_linux.Protocol.{
  ConnectionMode, tun, proxy, ConnectRequest, ConnectionPhase, disconnected, preparing, connected,
  blocking, reconnecting, recovery_required, DaemonState, DaemonError, invalid_request,
  tunnel_cleanup_failed,
}

-- The trait `LifecycleBackend`: each operation changes the backend and may fail.
pub record Backend (B : Type 0) : Type 0 where
  pub data_plane_alive : B → Bool × B
  pub validate : ConnectRequest → B → Result DaemonError (Unit {0}) × B
  pub install_hold_block : ConnectRequest → B → Result DaemonError (Unit {0}) × B
  pub verify_hold_block : B → Result DaemonError (Unit {0}) × B
  pub stop_data_plane : Bool → B → Result DaemonError (Unit {0}) × B
  pub start_data_plane : ConnectRequest → B → Result DaemonError (Unit {0}) × B
  pub activate_network : ConnectRequest → B → Result DaemonError (Unit {0}) × B
  pub update_split : List Text → B → Result DaemonError Bool × B
  pub verify_connection : ConnectRequest → B → Result DaemonError (Unit {0}) × B
  pub remove_hold_block : B → Result DaemonError (Unit {0}) × B

pub record Manager (B : Type 0) : Type 0 where
  pub backend : B
  pub state : DaemonState
  pub block_on_failure : Bool

abbrev pub idle_state : ConnectionPhase → DaemonState
idle_state phase = record {
  phase = phase;
  split_active = false;
  dns_protected = false;
  rtt_ms = none;
  log_tail = none;
}

abbrev pub is_connected : ConnectionPhase → Bool
is_connected connected = true
is_connected _ = false

abbrev pub is_tun : ConnectionMode → Bool
is_tun tun = true
is_tun proxy = false

-- The phase that a refused `connect` goes back to.
abbrev pub resting : Bool → ConnectionPhase
resting was_connected = if was_connected then connected else disconnected

module _ {B : Type 0} where
  abbrev call : {A : Type 0} → Action B DaemonError A → Action (Manager B) DaemonError A
  call op m = let (r, b) = op m.backend in (r, record m { backend = b })

  abbrev pub set_phase : ConnectionPhase → Manager B → Manager B
  set_phase phase m = record m { state = record (m.state) { phase = phase } }

  abbrev enter : ConnectionPhase → Action (Manager B) DaemonError (Unit {0})
  enter phase m = (ok tt, set_phase phase m)

  pub new : B → ConnectionPhase → Manager B
  new backend phase = record {
    backend = backend;
    state = idle_state phase;
    block_on_failure = false;
  }

  unfoldable pub mark_recovery_required : Manager B → Manager B
  mark_recovery_required m = record m {
    state = record (m.state) {
      phase = recovery_required;
      split_active = false;
      dns_protected = false;
    };
  }

  module _ (backend : Backend B) where
    open backend use {
      data_plane_alive, validate, install_hold_block, verify_hold_block, stop_data_plane,
      start_data_plane, activate_network, verify_connection, remove_hold_block,
    }

    -- `connect` up to `validate`: the phase while it runs, and whether a tunnel was up.
    pub begin : Action (Manager B) DaemonError Bool
    begin m =
        let was_connected = is_connected m.state.phase in
        (
          ok was_connected,
          record m {
            state = record (m.state) {
              phase = if was_connected then reconnecting else preparing;
              split_active = false;
              dns_protected = false;
            };
          },
        )

    -- The hold block could not be verified: take it away again.
    pub drop_hold : Bool → Manager B → Manager B
    drop_hold was_connected m =
        let (r, b) = remove_hold_block m.backend in
        set_phase (if is_ok r then resting was_connected else recovery_required)
          (record m { backend = b })

    -- The guard of TUN mode: install the hold block and verify it before anything is stopped.
    pub hold : ConnectRequest → Bool → Action (Manager B) DaemonError (Unit {0})
    hold request was_connected = do
      on_err (call (install_hold_block request)) (set_phase (resting was_connected))
      on_err (call verify_hold_block) (drop_hold was_connected)
      enter blocking

    pub stop_old : Bool → Action (Manager B) DaemonError (Unit {0})
    stop_old guarded =
        on_err (call (stop_data_plane true))
          (set_phase (if guarded then blocking else recovery_required))

    pub bring_up : ConnectRequest → Action (Manager B) DaemonError (Unit {0})
    bring_up request = do
      call (start_data_plane request)
      call (activate_network request)
      call (verify_connection request)

    -- The new data plane did not come up.
    pub abandon : Bool → Bool → Bool → Manager B → Manager B
    abandon guarded was_connected killswitch m =
        let (stopped, b) = stop_data_plane false m.backend in
        let (ignored, b') = remove_hold_block b in
        if is_err stopped
        then set_phase recovery_required (record m { backend = b })
        else if guarded && (was_connected || killswitch)
        then set_phase blocking (record m { backend = b })
        else set_phase disconnected (record m { backend = if guarded then b' else b })

    pub release : Action (Manager B) DaemonError (Unit {0})
    release = on_err (call remove_hold_block) (set_phase recovery_required)

    pub commit : ConnectRequest → Bool → Action (Manager B) DaemonError DaemonState
    commit request guarded m =
        let state : DaemonState = record {
          phase = connected;
          split_active = not (is_empty request.excluded_apps);
          dns_protected = guarded;
          rtt_ms = none;
          log_tail = none;
        } in
        (ok state, record m { state = state; block_on_failure = guarded && request.killswitch })

    -- `connect` from the moment that the hold block stands, if it is wanted.
    pub switch_over : ConnectRequest → Bool → Action (Manager B) DaemonError DaemonState
    switch_over request was_connected = do
      let guarded = is_tun request.mode
      when was_connected (stop_old guarded)
      on_err (bring_up request) (abandon guarded was_connected request.killswitch)
      when (guarded && not request.killswitch) release
      commit request guarded

    pub connect : ConnectRequest → Action (Manager B) DaemonError DaemonState
    connect request = do
      was_connected ← begin
      on_err (call (validate request)) (set_phase (resting was_connected))
      when (is_tun request.mode) (hold request was_connected)
      switch_over request was_connected

    pub update_split : List Text → Action (Manager B) DaemonError DaemonState
    update_split applications m =
        let (r, b) = backend.update_split applications m.backend in
        if is_connected m.state.phase
        then elim r [
          | err e ↦ (err e, record m { backend = b })
          | ok split_active ↦
              let state = record (m.state) { split_active = split_active } in
              (ok state, record m { backend = b; state = state })
        ]
        else (err (record { code = invalid_request; message = "the tunnel is not connected" }), m)

    pub disconnect : Action (Manager B) DaemonError DaemonState
    disconnect m =
        let (data_plane, b) = stop_data_plane false m.backend in
        let (hold_block, b') = remove_hold_block b in
        if is_err data_plane || is_err hold_block
        then (
          err (record {
            code = tunnel_cleanup_failed;
            message = "VPN cleanup did not reach a verified empty state";
          }),
          set_phase recovery_required (record m { backend = b' }),
        )
        else (
          ok (idle_state disconnected),
          record { backend = b'; state = idle_state disconnected; block_on_failure = false },
        )

    pub reconcile_health : Action (Manager B) DaemonError DaemonState
    unfolding mark_recovery_required
    reconcile_health m =
        let (alive, b1) = data_plane_alive m.backend in
        let (cleanup, b) = stop_data_plane false b1 in
        let state = idle_state (if m.block_on_failure then blocking else disconnected) in
        if not (is_connected m.state.phase)
        then (ok m.state, m)
        else if alive
        then (ok m.state, record m { backend = b1 })
        else if is_err cleanup
        then (
          err (record {
            code = tunnel_cleanup_failed;
            message = "Xray exited and stale network state could not be removed";
          }),
          mark_recovery_required (record m { backend = b }),
        )
        else (ok state, record m { backend = b; state = state })
