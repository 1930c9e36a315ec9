-- ===== src/Lifecycle/Phases.antt =====
-- Which phase `LifecycleManager` reports after each operation.
use varmlen_cli_linux.Common.{◌≡◌, arith}
use varmlen_cli_linux.Common.Outcome.{ok}
use varmlen_cli_linux.Protocol.{
  ConnectRequest, ConnectionPhase, preparing, connected, reconnecting, DaemonState,
}
use varmlen_cli_linux.Lifecycle.{
  Backend, Manager, begin, drop_hold, hold, stop_old, bring_up, abandon, release, commit,
  switch_over, connect,
}

-- The phases that are not the middle of an operation.
abbrev pub IsSettled : ConnectionPhase → Type 0
IsSettled preparing = ⊥
IsSettled reconnecting = ⊥
IsSettled _ = Unit

module _ {B : Type 0} (be : Backend B) where
  -- Whatever its backend answers, `connect` ends in neither `Preparing` nor `Reconnecting`.
  pub connect_settles :
      (q : ConnectRequest) (m : Manager B) → IsSettled (connect be q m).1.state.phase
  unfolding connect begin drop_hold hold stop_old bring_up abandon release commit switch_over
  connect_settles q m = ground arith

  -- A successful `connect` returns the state that the manager keeps, in the phase `Connected`.
  pub connect_ok :
      (q : ConnectRequest) (m : Manager B) (s : DaemonState)
      → (connect be q m).0 ≡ ok s
      → ((connect be q m).1.state ≡ s) × (s.phase ≡ connected)
  unfolding connect commit switch_over
  connect_ok q m s h = ground arith
