-- ===== src/State/Tests.antt =====
-- A state file on a disk of two files, which never fails or refuses its renames, and a print of one
-- byte for each phase.
use varmlen_cli_linux.Common.{
  zero, suc, ◌≤◌, ◌≡◌, refl, Bool, true, false, Option, none, some, [], ◌∷◌, arith,
}
use varmlen_cli_linux.Common.Lists.{length}
use varmlen_cli_linux.Common.Outcome.{ok, err}
use varmlen_cli_linux.Protocol.{
  ConnectionPhase, disconnected, preparing, connected, blocking, reconnecting, recovery_required,
}
use varmlen_cli_linux.State.{
  Bytes, PersistedState, new_state, io, Opened, opened, missing, StateDisk, Serde, read, write,
}
use varmlen_cli_linux.State.Atomic.{DiskLaws, IsAtomic, write-IsAtomic}

pub record Files : Type 0 where
  pub state_file : Option Bytes
  pub temporary_file : Option Bytes

abbrev open_option : Option Bytes → Opened
open_option none = missing
open_option (some bytes) = opened (length bytes) bytes

-- The flag says whether a rename is made.
abbrev pub two_files : Bool → StateDisk Files
two_files renames = record {
  open_file = λ s. open_option s.state_file;
  is_symlink = λ s. false;
  has_parent = true;
  create_temporary = λ s. (true, record s { temporary_file = some [] });
  write_all = λ bytes s. (true, record s { temporary_file = some bytes });
  sync_all = λ s. (true, s);
  rename = λ s. (
    renames,
    elim renames [
      | true ↦ record { state_file = s.temporary_file; temporary_file = none }
      | false ↦ s
    ],
  );
  sync_parent = λ s. (true, s);
  remove_temporary = λ s. record s { temporary_file = none };
}

pub two_files-laws :
    (renames : Bool) → DiskLaws (two_files renames) (λ s. s.state_file) (λ s. s.temporary_file)
two_files-laws true = record {
  creates = λ s. refl;
  writes = λ bytes s. refl;
  writes_all = λ bytes s h. refl;
  syncs = λ s. refl;
  syncs_temporary = λ s. refl;
  renames = λ s h. refl;
  renames_not = λ s h. cc;
  syncs_parent = λ s. refl;
  removes = λ s. refl;
  opens = λ s bytes h. rw h refl;
}
two_files-laws false = record {
  creates = λ s. refl;
  writes = λ bytes s. refl;
  writes_all = λ bytes s h. refl;
  syncs = λ s. refl;
  syncs_temporary = λ s. refl;
  renames = λ s h. cc;
  renames_not = λ s h. refl;
  syncs_parent = λ s. refl;
  removes = λ s. refl;
  opens = λ s bytes h. rw h refl;
}

abbrev print_phase : ConnectionPhase → Bytes
print_phase disconnected = 0 ∷ []
print_phase preparing = 1 ∷ []
print_phase connected = 2 ∷ []
print_phase blocking = 3 ∷ []
print_phase reconnecting = 4 ∷ []
print_phase recovery_required = 5 ∷ []

abbrev parse_phase : Bytes → Option PersistedState
parse_phase [] = none
parse_phase (zero ∷ bs) = some (new_state 1000 disconnected)
parse_phase (suc zero ∷ bs) = some (new_state 1000 preparing)
parse_phase (suc (suc zero) ∷ bs) = some (new_state 1000 connected)
parse_phase (suc (suc (suc zero)) ∷ bs) = some (new_state 1000 blocking)
parse_phase (suc (suc (suc (suc zero))) ∷ bs) = some (new_state 1000 reconnecting)
parse_phase (suc (suc (suc (suc (suc n)))) ∷ bs) = some (new_state 1000 recovery_required)

abbrev pub phase_serde : Serde
phase_serde = record { from_slice = parse_phase; to_vec = λ state. some (print_phase state.phase) }

pub phase-printed :
    (phase : ConnectionPhase)
    → (bytes : Bytes) × (phase_serde.to_vec (new_state 1000 phase) ≡ some bytes)
      × (phase_serde.from_slice bytes ≡ some (new_state 1000 phase))
      × (length bytes ≤ 1048576)
phase-printed disconnected = (_, refl, refl, omega arith)
phase-printed preparing = (_, refl, refl, omega arith)
phase-printed connected = (_, refl, refl, omega arith)
phase-printed blocking = (_, refl, refl, omega arith)
phase-printed reconnecting = (_, refl, refl, omega arith)
phase-printed recovery_required = (_, refl, refl, omega arith)

abbrev pub empty_files : Files
empty_files = record { state_file = none; temporary_file = none }

abbrev online : PersistedState
online = new_state 1000 connected

read_back :
    read (two_files true) phase_serde (write (two_files true) phase_serde online empty_files).1
    ≡ ok (some online)
unfolding read write
read_back = refl

not_renamed : write (two_files false) phase_serde online empty_files ≡ (err io, empty_files)
unfolding write
not_renamed = refl

write-IsAtomic_example :
    IsAtomic
      (two_files true)
      phase_serde
      (λ s. s.state_file)
      online
      empty_files
      (write (two_files true) phase_serde online empty_files)
write-IsAtomic_example =
    write-IsAtomic (two_files true) phase_serde (λ s. s.state_file) (λ s. s.temporary_file)
      (two_files-laws true) online (2 ∷ []) empty_files refl refl refl (omega arith)
