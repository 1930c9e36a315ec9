-- ===== src/Lifecycle/Exposed.antt =====
-- Paths of `connect` on which the reported phase and the hold block part.
use varmlen_cli_linux.Common.{◌≡◌, Bool, true, false, arith}
use varmlen_cli_linux.Common.Outcome.{is_ok, ok}
use varmlen_cli_linux.Protocol.{ConnectRequest, connected, blocking, tun}
use varmlen_cli_linux.Lifecycle.{
  Backend, Manager, idle_state, begin, hold, drop_hold, connect, reconcile_health,
}
use varmlen_cli_linux.Lifecycle.Hold.{HoldLaws}

module _ {B : Type 0} (be : Backend B) (held : B → Bool) (laws : HoldLaws be held) where
  -- A reconnect whose hold block is installed, fails its verification and is removed again.
  pub record IsUnverified (q : ConnectRequest) (m : Manager B) : Type 0 where
    pub guarded : q.mode ≡ tun
    pub live : m.state.phase ≡ connected
    pub armed : m.block_on_failure ≡ true
    pub valid : is_ok (be.validate q m.backend).0 ≡ true
    pub installs : is_ok (be.install_hold_block q (be.validate q m.backend).1).0 ≡ true
    pub unverified :
        let b = (be.install_hold_block q (be.validate q m.backend).1).1 in
        is_ok (be.verify_hold_block b).0 ≡ false
    pub removes :
        let b = (be.install_hold_block q (be.validate q m.backend).1).1 in
        is_ok (be.remove_hold_block (be.verify_hold_block b).1).0 ≡ true
    pub gone :
        let b = (be.install_hold_block q (be.validate q m.backend).1).1 in
        held (be.remove_hold_block (be.verify_hold_block b).1).1 ≡ false

  unverified_reconnect :
      (q : ConnectRequest) (m : Manager B)
      → IsUnverified q m
      → ((connect be q m).1.state.phase ≡ connected)
        × ((connect be q m).1.block_on_failure ≡ true)
        × (held (connect be q m).1.backend ≡ false)
  unfolding connect begin hold drop_hold
  unverified_reconnect q m u = ground arith

  reconcile_unheld :
      (m : Manager B)
      → m.state.phase ≡ connected
      → m.block_on_failure ≡ true
      → held m.backend ≡ false
      → (be.data_plane_alive m.backend).0 ≡ false
      → is_ok (be.stop_data_plane false (be.data_plane_alive m.backend).1).0 ≡ true
      → ((reconcile_health be m).0 ≡ ok (idle_state blocking))
        × (held (reconcile_health be m).1.backend ≡ false)
  unfolding reconcile_health
  reconcile_unheld m c k h d s =
      ground
        (arith, laws.alive_keeps m.backend, laws.stop_keeps false (be.data_plane_alive m.backend).1)

  -- Under the kill switch, a reconnect whose hold block is installed, fails its verification and
  -- is removed leaves the old connection armed and without a hold block. When Xray then exits and
  -- is cleaned up, the health check reports `Blocking` although nothing is blocked. It needs of the
  -- backend that a look at Xray and its stop do not change whether the block stands.
  pub reconcile-connect_unblocked :
      (q : ConnectRequest) (m : Manager B)
      → IsUnverified q m
      → (be.data_plane_alive (connect be q m).1.backend).0 ≡ false
      → is_ok (be.stop_data_plane false (be.data_plane_alive (connect be q m).1.backend).1).0 ≡ true
      → ((reconcile_health be (connect be q m).1).0 ≡ ok (idle_state blocking))
        × (held (reconcile_health be (connect be q m).1).1.backend ≡ false)
  reconcile-connect_unblocked q m u d s =
      let (c, k, h) = unverified_reconnect q m u in reconcile_unheld (connect be q m).1 c k h d s
