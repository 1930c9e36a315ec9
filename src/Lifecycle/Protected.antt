-- ===== src/Lifecycle/Protected.antt =====
-- The kill switch over every sequence of operations: `Blocking` is reported only while the hold
-- block stands.
use varmlen_cli_linux.Common.{◌≡◌, ◌≢◌, ◌&&◌, inl, inr, Bool, true, false, arith, List, ◌⊎◌}
use varmlen_cli_linux.Common.Text.{Text}
use varmlen_cli_linux.Common.Outcome.{Result-cases, is_ok, ok, err}
use varmlen_cli_linux.Protocol.{
  ConnectRequest, DaemonState, DaemonError, ConnectionPhase, disconnected, connected, blocking,
  recovery_required,
}
use varmlen_cli_linux.Lifecycle.{
  Backend, Manager, is_connected, is_tun, new, begin, hold, drop_hold, stop_old, bring_up, abandon,
  release, commit, switch_over, connect, update_split, disconnect, reconcile_health,
  mark_recovery_required,
}
use varmlen_cli_linux.Lifecycle.Hold.{HoldLaws, connect_blocking, connect_kept}

module _ {B : Type 0} (be : Backend B) (held : B → Bool) where
  -- The hold block stands while the daemon says that it blocks, and under a connection that is
  -- to be blocked when it breaks.
  pub record IsProtected (m : Manager B) : Type 0 where
    pub blocks : m.state.phase ≡ blocking → held m.backend ≡ true
    pub armed : m.state.phase ≡ connected → m.block_on_failure ≡ true → held m.backend ≡ true

module _ {B : Type 0} (be : Backend B) where
  -- One call of the manager; an operation of the controller is one of these.
  pub data Step : Manager B → Manager B → Type 0 where
    connects : (q : ConnectRequest) (m : Manager B) → Step m (connect be q m).1
    updates : (apps : List Text) (m : Manager B) → Step m (update_split be apps m).1
    disconnects : (m : Manager B) → Step m (disconnect be m).1
    reconciles : (m : Manager B) → Step m (reconcile_health be m).1
    gives_up : (m : Manager B) → Step m (mark_recovery_required m)

  pub data Reach (m : Manager B) : Manager B → Type 0 where
    here : Reach m m
    next : {n o : Manager B} → Reach m n → Step n o → Reach m o

module _ {B : Type 0} (be : Backend B) (held : B → Bool) (laws : HoldLaws be held)
    (verifies : (b : B) → held b ≡ true → is_ok (be.verify_hold_block b).0 ≡ true) where
  -- A hold block that was installed passes its verification.
  hold_refused :
      (q : ConnectRequest) (w : Bool) (m : Manager B)
      → is_ok (hold be q w m).0 ≡ false
      → held (hold be q w m).1.backend ≡ held m.backend
  unfolding hold drop_hold
  hold_refused q w m h = ground (
    arith,
    laws.install_ok q m.backend,
    laws.install_err q m.backend,
    verifies (be.install_hold_block q m.backend).1,
  )

  hold-phase :
      (q : ConnectRequest) (w : Bool) (m : Manager B)
      → is_ok (hold be q w m).0 ≡ false
      → (hold be q w m).1.state.phase ≡ connected
      → w ≡ true
  unfolding hold drop_hold
  hold-phase q w m h k = ground arith

  hold-block_on_failure :
      (q : ConnectRequest) (w : Bool) (m : Manager B)
      → (hold be q w m).1.block_on_failure ≡ m.block_on_failure
  unfolding hold drop_hold
  hold-block_on_failure q w m = ground arith

  -- A `connect` that fails after its guard leaves no connection.
  switch_over_failed :
      (q : ConnectRequest) (w : Bool) (m : Manager B)
      → is_ok (switch_over be q w m).0 ≡ false
      → (switch_over be q w m).1.state.phase ≢ connected
  unfolding switch_over stop_old bring_up abandon release commit
  switch_over_failed q w m h = ground arith

  connect-block_on_failure :
      (q : ConnectRequest) (m : Manager B) (s : DaemonState)
      → (connect be q m).0 ≡ ok s
      → (connect be q m).1.block_on_failure ≡ (is_tun q.mode && q.killswitch)
  unfolding connect switch_over commit
  connect-block_on_failure q m s h = grind arith

  -- A `connect` that fails and still reports `Connected` was refused before it touched anything.
  connect_refused :
      (q : ConnectRequest) (m : Manager B) (e : DaemonError)
      → (connect be q m).0 ≡ err e
      → (connect be q m).1.state.phase ≡ connected
      → (m.state.phase ≡ connected)
        × ((connect be q m).1.block_on_failure ≡ m.block_on_failure)
        × (held (connect be q m).1.backend ≡ held m.backend)
  unfolding connect begin
  connect_refused q m e h k =
      let w = is_connected m.state.phase in
      let b = (be.validate q m.backend).1 in
      let n : Manager B = record ((begin be m).1) { backend = b } in
      ground (
        arith,
        hold_refused q w n,
        hold-block_on_failure q w n,
        hold-phase q w n,
        switch_over_failed q w n,
        switch_over_failed q w (hold be q w n).1,
        laws.validate_keeps q m.backend,
      )

  connect_armed :
      (q : ConnectRequest) (m : Manager B)
      → IsProtected be held m
      → (connect be q m).1.state.phase ≡ connected
      → (connect be q m).1.block_on_failure ≡ true
      → held (connect be q m).1.backend ≡ true
  connect_armed q m p h k = elim (Result-cases (connect be q m).0) [
    | inl (s, e) ↦
        ground (arith, connect-block_on_failure q m s e, connect_kept be held laws q m s, e)
    | inr (x, e) ↦ ground (arith, connect_refused q m x e h, p.armed)
  ]

  update_split-IsProtected :
      (apps : List Text) (m : Manager B)
      → IsProtected be held m
      → IsProtected be held (update_split be apps m).1
  unfolding update_split
  update_split-IsProtected apps m p = ground (arith, laws.update_keeps apps m.backend)

  disconnect-IsProtected : (m : Manager B) → IsProtected be held (disconnect be m).1
  unfolding disconnect
  disconnect-IsProtected m = ground arith

  reconcile_health-IsProtected :
      (m : Manager B) → IsProtected be held m → IsProtected be held (reconcile_health be m).1
  unfolding reconcile_health
  reconcile_health-IsProtected m p =
      ground
        (arith, laws.alive_keeps m.backend, laws.stop_keeps false (be.data_plane_alive m.backend).1)

  Step-IsProtected : {m n : Manager B} → Step be m n → IsProtected be held m → IsProtected be held n
  unfolding mark_recovery_required
  Step-IsProtected (connects q m) p = record {
    blocks = connect_blocking be held laws q m;
    armed = connect_armed q m p;
  }
  Step-IsProtected (updates apps m) p = update_split-IsProtected apps m p
  Step-IsProtected (disconnects m) p = disconnect-IsProtected m
  Step-IsProtected (reconciles m) p = reconcile_health-IsProtected m p
  Step-IsProtected (gives_up m) p = ground arith

  -- Under two conditions on the backend: an installation that succeeds leaves the hold block
  -- standing, one that fails does not change whether it stands, and no other operation but the
  -- removal does; and a hold block that stands always passes its verification. Then after any
  -- sequence of operations on a new manager that starts disconnected or in need of recovery,
  -- `Blocking` is reported only while the hold block stands, and a connection that is to be blocked
  -- when it breaks has the hold block under it.
  pub Reach-IsProtected :
      (b : B) (start : ConnectionPhase) {m : Manager B}
      → (start ≡ disconnected) ⊎ (start ≡ recovery_required)
      → Reach be (new b start) m
      → IsProtected be held m
  unfolding new
  Reach-IsProtected b start s here = ground arith
  Reach-IsProtected b start s (next r step) = Step-IsProtected step (Reach-IsProtected b start s r)
