-- ===== src/Controller/Persisted.antt =====
-- The state file follows the manager.
use varmlen_cli_linux.Common.{
  ℕ, zero, suc, List, [], ◌∷◌, ◌≤◌, ◌≡◌, refl, sym, ap, ◌∙◌, ◌⊎◌, inl, inr, Bool, true, false, not,
  Option, none, some, arith,
}
use varmlen_cli_linux.Common.Tests.{◌==◌}
use varmlen_cli_linux.Common.Lists.{length}
use varmlen_cli_linux.Common.Outcome.{Result, ok, err}
use varmlen_cli_linux.Protocol.{
  DaemonCommand, DaemonState, DaemonError, ConnectionPhase, disconnected, preparing, connected,
  blocking, reconnecting, recovery_required,
}
use varmlen_cli_linux.State.{PersistedState, StoreError, Bytes, max_state_bytes, read, write}
use varmlen_cli_linux.State.Atomic.{DiskLaws, IsAtomic, write-IsAtomic}
use varmlen_cli_linux.Lifecycle
use varmlen_cli_linux.Lifecycle.{Manager, mark_recovery_required, reconcile_health}
use varmlen_cli_linux.Controller.{
  Daemon, Controller, phase_number, state_eq, persisted, written, persist, and_result, persisting,
  shown, cleared, timed, handle, persist_if, poll_health,
}

-- A later run of the daemon finds the manager's phase in the state file, or the manager knows that
-- it does not.
module _ {B S L : Type 0} (daemon : Daemon B S L) where
  abbrev pub IsPersisted : Controller B S L → Type 0
  IsPersisted c =
      ((state : PersistedState) × (read daemon.state_disk daemon.serde c.file ≡ ok (some state))
        × (state.phase ≡ c.manager.state.phase)
        × (state.owner_uid ≡ daemon.owner_uid))
      ⊎ (c.manager.state.phase ≡ recovery_required)

  -- Every state of the manager is printed within the bound and parsed back.
  abbrev pub PrintsBack : Type 0
  PrintsBack =
      (m : Manager B)
      → (bytes : Bytes) × (daemon.serde.to_vec (persisted daemon m) ≡ some bytes)
        × (daemon.serde.from_slice bytes ≡ some (persisted daemon m))
        × (length bytes ≤ max_state_bytes)

-- What happens to a controller, in order: a client's command, or the daemon's own poll.
pub data Event : Type 0 where
  handled : DaemonCommand → Event
  polled : Event

abbrev pub step : {B S L : Type 0} → Daemon B S L → Event → Controller B S L → Controller B S L
step daemon (handled command) c = (handle daemon command c).1
step daemon polled c = (poll_health daemon c).1

abbrev pub after :
    {B S L : Type 0} → Daemon B S L → List Event → Controller B S L → Controller B S L
after daemon [] c = c
after daemon (event ∷ events) c = after daemon events (step daemon event c)

phase_number-injective : (p q : ConnectionPhase) → (phase_number p == phase_number q) ≡ true → p ≡ q
phase_number-injective p q h =
    sym (phase_of-phase_number p) ∙ (ap phase_of same ∙ phase_of-phase_number q)
  where
    phase_of : ℕ → ConnectionPhase
    phase_of zero = disconnected
    phase_of (suc zero) = preparing
    phase_of (suc (suc zero)) = connected
    phase_of (suc (suc (suc zero))) = blocking
    phase_of (suc (suc (suc (suc zero)))) = reconnecting
    phase_of (suc (suc (suc (suc (suc n))))) = recovery_required

    phase_of-phase_number : (r : ConnectionPhase) → phase_of (phase_number r) ≡ r
    phase_of-phase_number disconnected = refl
    phase_of-phase_number preparing = refl
    phase_of-phase_number connected = refl
    phase_of-phase_number blocking = refl
    phase_of-phase_number reconnecting = refl
    phase_of-phase_number recovery_required = refl

    same : phase_number p ≡ phase_number q
    same = ground (arith, h)

state_eq-phase : (a b : DaemonState) → state_eq a b ≡ true → a.phase ≡ b.phase
unfolding state_eq
state_eq-phase a b h = phase_number-injective a.phase b.phase (ground arith)

module _ {B S L : Type 0} (daemon : Daemon B S L) (saved temporary : S → Option Bytes)
    (laws : DiskLaws daemon.state_disk saved temporary) (prints : PrintsBack daemon) where
  persist-IsPersisted : (c : Controller B S L) → IsPersisted daemon (persist daemon c).1
  unfolding persist mark_recovery_required
  persist-IsPersisted c =
      let (bytes, printed, parsed, small) = prints c.manager in
      go (write daemon.state_disk daemon.serde (persisted daemon c.manager) c.file) (
        write-IsAtomic daemon.state_disk daemon.serde saved temporary laws
          (persisted daemon c.manager) bytes c.file refl printed parsed small)
    where
      go :
          (r : Result StoreError (Unit {0}) × S)
          → IsAtomic daemon.state_disk daemon.serde saved (persisted daemon c.manager) c.file r
          → IsPersisted daemon (written daemon c r).1
      go (ok u, s) e = inl (persisted daemon c.manager, e, refl, refl)
      go (err f, s) e = inr refl

  and_result-IsPersisted :
      (result : Result DaemonError DaemonState)
      (r : Result DaemonError (Unit {0}) × Controller B S L)
      → IsPersisted daemon r.1
      → IsPersisted daemon (and_result daemon result r).1
  and_result-IsPersisted result (ok u, c) h = h
  and_result-IsPersisted result (err e, c) h = h

  persisting-IsPersisted :
      (c : Controller B S L) (r : Result DaemonError DaemonState × Manager B)
      → IsPersisted daemon (persisting daemon c r).1
  persisting-IsPersisted c (result, m) =
      and_result-IsPersisted result (persist daemon (record c { manager = m }))
        (persist-IsPersisted (record c { manager = m }))

  shown-IsPersisted :
      (c : Controller B S L) (o : Option Bytes)
      → IsPersisted daemon c
      → IsPersisted daemon (shown daemon c o).1
  shown-IsPersisted c none h = h
  shown-IsPersisted c (some t) h = h

  cleared-IsPersisted :
      (c : Controller B S L) (r : Bool × L)
      → IsPersisted daemon c
      → IsPersisted daemon (cleared daemon c r).1
  cleared-IsPersisted c (true, l) h = h
  cleared-IsPersisted c (false, l) h = h

  timed-IsPersisted :
      (c : Controller B S L) (r : Result DaemonError ℕ)
      → IsPersisted daemon c
      → IsPersisted daemon (timed daemon c r).1
  timed-IsPersisted c (ok n) h = h
  timed-IsPersisted c (err e) h = h

  handle-IsPersisted :
      (command : DaemonCommand) (c : Controller B S L)
      → IsPersisted daemon c
      → IsPersisted daemon (handle daemon command c).1
  unfolding handle
  handle-IsPersisted DaemonCommand.log_tail c h = shown-IsPersisted c _ h
  handle-IsPersisted DaemonCommand.clear_log c h = cleared-IsPersisted c _ h
  handle-IsPersisted (DaemonCommand.tcp_ping request) c h = timed-IsPersisted c _ h
  handle-IsPersisted (DaemonCommand.proxy_ping request) c h = timed-IsPersisted c _ h
  handle-IsPersisted DaemonCommand.status c h =
      persisting-IsPersisted c (reconcile_health daemon.backend c.manager)
  handle-IsPersisted (DaemonCommand.connect request) c h =
      persisting-IsPersisted c (Lifecycle.connect daemon.backend request c.manager)
  handle-IsPersisted DaemonCommand.disconnect c h =
      persisting-IsPersisted c (Lifecycle.disconnect daemon.backend c.manager)
  handle-IsPersisted (DaemonCommand.update_split request) c h =
      persisting-IsPersisted c
        (Lifecycle.update_split daemon.backend request.applications c.manager)

  persist_if-IsPersisted :
      (test : Bool) (result : Result DaemonError DaemonState) (m : Manager B) (c : Controller B S L)
      → (test ≡ false → m.state.phase ≡ c.manager.state.phase)
      → IsPersisted daemon c
      → IsPersisted daemon (persist_if daemon test result (record c { manager = m })).1
  persist_if-IsPersisted true result m c same h =
      and_result-IsPersisted result (persist daemon (record c { manager = m }))
        (persist-IsPersisted (record c { manager = m }))
  persist_if-IsPersisted false result m c same (inl (state, e, phase, owner)) =
      inl (state, e, phase ∙ sym (same refl), owner)
  persist_if-IsPersisted false result m c same (inr e) = inr (same refl ∙ e)

  poll_health-IsPersisted :
      (c : Controller B S L) → IsPersisted daemon c → IsPersisted daemon (poll_health daemon c).1
  unfolding poll_health
  poll_health-IsPersisted c h =
      let r = reconcile_health daemon.backend c.manager in
      persist_if-IsPersisted (not (state_eq r.1.state c.manager.state)) r.0 r.1 c
        (λ f. state_eq-phase r.1.state c.manager.state (ground (arith, f))) h

  step-IsPersisted :
      (event : Event) (c : Controller B S L)
      → IsPersisted daemon c
      → IsPersisted daemon (step daemon event c)
  step-IsPersisted (handled command) c h = handle-IsPersisted command c h
  step-IsPersisted polled c h = poll_health-IsPersisted c h

  -- Over every sequence of commands and polls, whatever they are and however they end, a later run
  -- of the daemon finds the manager's phase and owner in the state file, or the manager's phase is
  -- RecoveryRequired. It needs that this holds at the start, a file system where only a rename
  -- changes the state file, and states that are printed within 1 MiB and parsed back.
  pub after-IsPersisted :
      (events : List Event) (c : Controller B S L)
      → IsPersisted daemon c
      → IsPersisted daemon (after daemon events c)
  after-IsPersisted [] c h = h
  after-IsPersisted (event ∷ events) c h =
      after-IsPersisted events (step daemon event c) (step-IsPersisted event c h)
