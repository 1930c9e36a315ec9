-- ===== src/Lifecycle/Trace.antt =====
-- The order in which `connect` calls its backend, watched by an automaton.
use varmlen_cli_linux.Common.{◌≡◌, ◌≢◌, Bool, true, false, arith}
use varmlen_cli_linux.Common.Outcome.{Result, is_ok}
use varmlen_cli_linux.Protocol.{ConnectRequest, tun}
use varmlen_cli_linux.Lifecycle.{
  Backend, Manager, begin, drop_hold, hold, stop_old, bring_up, abandon, release, commit,
  switch_over, connect,
}

pub data Call : Type 0 where
  validating installing verifying starting activating splitting confirming removing : Call
  stopping : Bool → Call

-- What the calls so far allow: nothing is held; the hold block is installed; it is verified; the
-- new connection is verified under it; all is stopped under it; a call came too early.
pub data Watch : Type 0 where
  unheld installed verified confirmed halted violated : Watch

-- A call and whether it succeeded. The data plane is touched only under a verified hold block,
-- and that block goes only when the new connection is verified or everything is stopped.
pub watch : Watch → Call → Bool → Watch
watch unheld validating done = unheld
watch unheld installing true = installed
watch unheld installing false = unheld
watch installed verifying true = verified
watch installed verifying false = installed
watch installed removing done = unheld
watch verified (stopping true) done = verified
watch verified (stopping false) true = halted
watch verified (stopping false) false = verified
watch verified starting done = verified
watch verified activating done = verified
watch verified confirming true = confirmed
watch verified confirming false = verified
watch confirmed removing done = unheld
watch halted removing done = unheld
watch _ _ _ = violated

-- The same operation, seen by the automaton.
abbrev seen : {B E A : Type 0} → Call → (B → Result E A × B) → Watch × B → Result E A × (Watch × B)
seen call op (w, b) = let (r, b') = op b in (r, (watch w call (is_ok r), b'))

abbrev pub watched : {B : Type 0} → Backend B → Backend (Watch × B)
watched be = record {
  data_plane_alive = λ s. let (alive, b) = be.data_plane_alive s.1 in (alive, (s.0, b));
  validate = λ q. seen validating (be.validate q);
  install_hold_block = λ q. seen installing (be.install_hold_block q);
  verify_hold_block = seen verifying be.verify_hold_block;
  stop_data_plane = λ preserve. seen (stopping preserve) (be.stop_data_plane preserve);
  start_data_plane = λ q. seen starting (be.start_data_plane q);
  activate_network = λ q. seen activating (be.activate_network q);
  update_split = λ apps. seen splitting (be.update_split apps);
  verify_connection = λ q. seen confirming (be.verify_connection q);
  remove_hold_block = seen removing be.remove_hold_block;
}

module _ {B : Type 0} (be : Backend B) where
  hold-watched :
      (q : ConnectRequest) (w : Bool) (m : Manager (Watch × B))
      → m.backend.0 ≡ unheld
      → (is_ok (hold (watched be) q w m).0 ≡ true
          → (hold (watched be) q w m).1.backend.0 ≡ verified)
        × ((hold (watched be) q w m).1.backend.0 ≢ violated)
  unfolding hold drop_hold watch
  hold-watched q w m h = ground arith

  switch_over-watched :
      (q : ConnectRequest) (w : Bool) (m : Manager (Watch × B))
      → q.mode ≡ tun
      → m.backend.0 ≡ verified
      → (switch_over (watched be) q w m).1.backend.0 ≢ violated
  unfolding switch_over stop_old bring_up abandon release commit watch
  switch_over-watched q w m t h = ground arith

  -- In TUN mode, whatever its calls answer, `connect` stops the old data plane and starts the new
  -- one only under a hold block that was installed and verified, and takes that block away only
  -- when it could not be verified, when the new connection was verified, or when everything was
  -- stopped.
  pub connect-watched :
      (q : ConnectRequest) (m : Manager (Watch × B))
      → q.mode ≡ tun
      → m.backend.0 ≡ unheld
      → (connect (watched be) q m).1.backend.0 ≢ violated
  unfolding connect begin watch
  connect-watched q m t h = grind (arith, hold-watched, switch_over-watched)
