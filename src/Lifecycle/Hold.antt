-- ===== src/Lifecycle/Hold.antt =====
-- The hold block, the nft table that drops all traffic outside the tunnel, across the operations
-- of `LifecycleManager`.
use varmlen_cli_linux.Common.{◌≡◌, ◌≢◌, sym, subst, ◌∙◌, inl, inr, Bool, true, false, List, arith}
use varmlen_cli_linux.Common.Tests.{Bool-cases}
use varmlen_cli_linux.Common.Text.{Text}
use varmlen_cli_linux.Common.Outcome.{ok, is_ok}
use varmlen_cli_linux.Protocol.{
  tun, proxy, ConnectRequest, blocking, recovery_required, DaemonState,
}
use varmlen_cli_linux.Lifecycle.{
  Backend, Manager, begin, drop_hold, hold, stop_old, bring_up, abandon, release, commit,
  switch_over, connect,
}

module _ {B : Type 0} (be : Backend B) where
  -- Without the guard, no failure ends in `Blocking`.
  switch_over_unguarded :
      (q : ConnectRequest) (w : Bool) (m : Manager B)
      → q.mode ≡ proxy
      → (switch_over be q w m).1.state.phase ≢ blocking
  unfolding switch_over stop_old bring_up abandon commit
  switch_over_unguarded q w m t h = ground arith

-- What a backend promises of the hold block, `held` telling whether it stands: the helper writes
-- it in one nft transaction, and no other operation touches it. Nothing is promised of its removal,
-- since the helper ends well whatever nft says of it.
pub record HoldLaws {B : Type 0} (be : Backend B) (held : B → Bool) : Type 0 where
  pub install_ok :
      (q : ConnectRequest) (b : B)
      → is_ok (be.install_hold_block q b).0 ≡ true
      → held (be.install_hold_block q b).1 ≡ true
  pub install_err :
      (q : ConnectRequest) (b : B)
      → is_ok (be.install_hold_block q b).0 ≡ false
      → held (be.install_hold_block q b).1 ≡ held b
  pub alive_keeps : (b : B) → held (be.data_plane_alive b).1 ≡ held b
  pub validate_keeps : (q : ConnectRequest) (b : B) → held (be.validate q b).1 ≡ held b
  pub verify_keeps : (b : B) → held (be.verify_hold_block b).1 ≡ held b
  pub stop_keeps : (preserve : Bool) (b : B) → held (be.stop_data_plane preserve b).1 ≡ held b
  pub start_keeps : (q : ConnectRequest) (b : B) → held (be.start_data_plane q b).1 ≡ held b
  pub activate_keeps : (q : ConnectRequest) (b : B) → held (be.activate_network q b).1 ≡ held b
  pub update_keeps : (apps : List Text) (b : B) → held (be.update_split apps b).1 ≡ held b
  pub confirm_keeps : (q : ConnectRequest) (b : B) → held (be.verify_connection q b).1 ≡ held b

module _ {B : Type 0} (be : Backend B) (held : B → Bool) (laws : HoldLaws be held) where
  open laws use {
    install_ok, install_err, validate_keeps, verify_keeps, stop_keeps, start_keeps, activate_keeps,
    update_keeps, confirm_keeps,
  }

  hold-held :
      (q : ConnectRequest) (w : Bool) (m : Manager B)
      → is_ok (hold be q w m).0 ≡ true
      → (held (hold be q w m).1.backend ≡ true) × ((hold be q w m).1.state.phase ≡ blocking)
  unfolding hold
  hold-held q w m h =
      ground (arith, install_ok q m.backend, verify_keeps (be.install_hold_block q m.backend).1)

  bring_up_keeps :
      (q : ConnectRequest) (m : Manager B) → held (bring_up be q m).1.backend ≡ held m.backend
  unfolding bring_up
  bring_up_keeps q m =
      let b1 = (be.start_data_plane q m.backend).1 in
      let b2 = (be.activate_network q b1).1 in
      ground (arith, start_keeps q m.backend, activate_keeps q b1, confirm_keeps q b2)

  stop_old_keeps : (g : Bool) (m : Manager B) → held (stop_old be g m).1.backend ≡ held m.backend
  unfolding stop_old
  stop_old_keeps g m = ground (arith, stop_keeps true m.backend)

  -- How a connection through the tunnel leaves the hold block: standing under the kill switch;
  -- else the removal of one that stood was the last thing done, and succeeded.
  abbrev pub IsLeft : Bool → B → Type 0
  IsLeft true b = held b ≡ true
  IsLeft false b =
      (last : B) × (held last ≡ true)
      × (is_ok (be.remove_hold_block last).0 ≡ true)
      × (b ≡ (be.remove_hold_block last).1)

  release-backend :
      (m : Manager B)
      → is_ok (release be m).0 ≡ true
      → (is_ok (be.remove_hold_block m.backend).0 ≡ true)
        × ((release be m).1.backend ≡ (be.remove_hold_block m.backend).1)
  unfolding release
  release-backend m h = ground arith

  release-phase :
      (m : Manager B)
      → is_ok (release be m).0 ≡ false
      → (release be m).1.state.phase ≡ recovery_required
  unfolding release
  release-phase m h = ground arith

  abandon-held :
      (w k : Bool) (m : Manager B)
      → (abandon be true w k m).state.phase ≡ blocking
      → held (abandon be true w k m).backend ≡ held m.backend
  unfolding abandon
  abandon-held w k m h = ground (arith, stop_keeps false m.backend)

  -- The new connection as it stands before the hold block is released.
  raised : ConnectRequest → Bool → Manager B → Manager B
  raised q true m = (bring_up be q (stop_old be true m).1).1
  raised q false m = (bring_up be q m).1

  raised-held :
      (q : ConnectRequest) (w : Bool) (m : Manager B) → held (raised q w m).backend ≡ held m.backend
  unfolding raised
  raised-held q true m =
      ground (arith, bring_up_keeps q (stop_old be true m).1, stop_old_keeps true m)
  raised-held q false m = bring_up_keeps q m

  switch_over_kept :
      (q : ConnectRequest) (w : Bool) (m : Manager B) (s : DaemonState)
      → q.mode ≡ tun
      → q.killswitch ≡ true
      → held m.backend ≡ true
      → (switch_over be q w m).0 ≡ ok s
      → held (switch_over be q w m).1.backend ≡ true
  unfolding switch_over commit
  switch_over_kept q true m s t k h o = grind (arith, bring_up_keeps, stop_old_keeps)
  switch_over_kept q false m s t k h o = grind (arith, bring_up_keeps)

  switch_over_released :
      (q : ConnectRequest) (w : Bool) (m : Manager B) (s : DaemonState)
      → q.mode ≡ tun
      → q.killswitch ≡ false
      → (switch_over be q w m).0 ≡ ok s
      → let last = (raised q w m).backend in
        (is_ok (be.remove_hold_block last).0 ≡ true)
        × ((switch_over be q w m).1.backend ≡ (be.remove_hold_block last).1)
  unfolding switch_over commit raised
  switch_over_released q true m s t k o = grind (arith, release-backend)
  switch_over_released q false m s t k o = grind (arith, release-backend)

  switch_over-IsLeft :
      (q : ConnectRequest) (w : Bool) (m : Manager B) (s : DaemonState)
      → q.mode ≡ tun
      → held m.backend ≡ true
      → (switch_over be q w m).0 ≡ ok s
      → IsLeft q.killswitch (switch_over be q w m).1.backend
  switch_over-IsLeft q w m s t h o = elim (Bool-cases q.killswitch) [
    | inl k ↦
        subst (λ k. IsLeft k (switch_over be q w m).1.backend) (sym k)
          (switch_over_kept q w m s t k h o)
    | inr k ↦
        let (removes, left) = switch_over_released q w m s t k o in
        subst (λ k. IsLeft k (switch_over be q w m).1.backend) (sym k)
          ((raised q w m).backend, raised-held q w m ∙ h, removes, left)
  ]

  switch_over_blocking :
      (q : ConnectRequest) (w : Bool) (m : Manager B)
      → q.mode ≡ tun
      → held m.backend ≡ true
      → (switch_over be q w m).1.state.phase ≡ blocking
      → held (switch_over be q w m).1.backend ≡ true
  unfolding switch_over commit
  switch_over_blocking q true m t h o =
      grind (arith, bring_up_keeps, stop_old_keeps, release-phase, abandon-held)
  switch_over_blocking q false m t h o = grind (arith, bring_up_keeps, release-phase, abandon-held)

  -- A connection through the tunnel that succeeds is left with the hold block standing where the
  -- kill switch is asked for. Where it is not, the last thing that was done to the machine, while
  -- the block still stood, is its removal, which was reported to succeed. It needs of the backend
  -- that an installation that succeeds leaves the block standing, and that no operation but the
  -- installation and the removal changes whether it stands.
  pub connect-IsLeft :
      (q : ConnectRequest) (m : Manager B) (s : DaemonState)
      → q.mode ≡ tun
      → (connect be q m).0 ≡ ok s
      → IsLeft q.killswitch (connect be q m).1.backend
  unfolding connect begin
  connect-IsLeft q m s t h = grind (arith, hold-held, switch_over-IsLeft)

  pub connect_kept :
      (q : ConnectRequest) (m : Manager B) (s : DaemonState)
      → q.mode ≡ tun
      → q.killswitch ≡ true
      → (connect be q m).0 ≡ ok s
      → held (connect be q m).1.backend ≡ true
  connect_kept q m s t k o =
      subst (λ k. IsLeft k (connect be q m).1.backend) k (connect-IsLeft q m s t o)

  -- Where `connect` ends in `Blocking`, the hold block stands. It needs of the backend that an
  -- installation that succeeds leaves the block standing, and that no operation but the installation
  -- and the removal changes whether it stands.
  pub connect_blocking :
      (q : ConnectRequest) (m : Manager B)
      → (connect be q m).1.state.phase ≡ blocking
      → held (connect be q m).1.backend ≡ true
  unfolding connect begin hold drop_hold
  connect_blocking q m h = grind (arith, hold-held, switch_over_blocking, switch_over_unguarded be)
