-- ===== src/State.antt =====
-- daemon/src/state.rs: the state that the daemon keeps over a restart, and its file. What the file
-- system does is an interface on a state of its own; `serde_json` is a parameter.
pub mod Atomic
pub mod Tests
use varmlen_cli_linux.Common.{ℕ, ◌+◌, ◌*◌, Bool, true, false, not, Option, none, some, List}
use varmlen_cli_linux.Common.Tests.{ltb, ◌==◌}
use varmlen_cli_linux.Common.Lists.{length, take}
use varmlen_cli_linux.Common.Outcome.{Result, ok, err}
use varmlen_cli_linux.Common.Action.{Action, ◌>>=◌, ◌>>◌}
use varmlen_cli_linux.Protocol.{ConnectionPhase}
use varmlen_cli_linux.Recovery.{ProcessIdentity}

abbrev pub Bytes : Type 0
Bytes = List ℕ

abbrev pub state_version : ℕ
state_version = 1

abbrev pub max_state_bytes : ℕ
max_state_bytes = 1024 * 1024

pub record PersistedState : Type 0 where
  pub version : ℕ
  pub owner_uid : ℕ
  pub phase : ConnectionPhase
  pub xray : Option ProcessIdentity

-- `PersistedState::new`.
abbrev pub new_state : ℕ → ConnectionPhase → PersistedState
new_state owner_uid phase = record {
  version = state_version;
  owner_uid = owner_uid;
  phase = phase;
  xray = none;
}

pub data StoreError : Type 0 where
  invalid_data invalid_input io : StoreError

-- An opened file: its length by its metadata, and its contents.
pub data Opened : Type 0 where
  opened : ℕ → Bytes → Opened
  missing refused : Opened

-- The state file, and the temporary one beside it; `false` is an error.
pub record StateDisk (S : Type 0) : Type 0 where
  pub open_file : S → Opened
  pub is_symlink : S → Bool
  pub has_parent : Bool
  pub create_temporary : S → Bool × S
  pub write_all : Bytes → S → Bool × S
  pub sync_all : S → Bool × S
  pub rename : S → Bool × S
  pub sync_parent : S → Bool × S
  pub remove_temporary : S → S

pub record Serde : Type 0 where
  pub from_slice : Bytes → Option PersistedState
  pub to_vec : PersistedState → Option Bytes

abbrev pub refuse_data :
    Bool → Result StoreError (Option PersistedState) → Result StoreError (Option PersistedState)
refuse_data true rest = err invalid_data
refuse_data false rest = rest

abbrev pub io_result : {S : Type 0} → Bool × S → Result StoreError (Unit {0}) × S
io_result (true, s) = (ok tt, s)
io_result (false, s) = (err io, s)

abbrev pub refuse_input :
    {S : Type 0} → Bool → Action S StoreError (Unit {0}) → Action S StoreError (Unit {0})
refuse_input true action s = (err invalid_input, s)
refuse_input false action s = action s

module _ {S : Type 0} (disk : StateDisk S) (serde : Serde) where
  abbrev pub checked : Option PersistedState → Result StoreError (Option PersistedState)
  checked none = err invalid_data
  checked (some state) = refuse_data (not (state.version == state_version)) (ok (some state))

  abbrev pub read_opened : Opened → Result StoreError (Option PersistedState)
  read_opened missing = ok none
  read_opened refused = err io
  read_opened (opened len contents) =
      let bytes = take (max_state_bytes + 1) contents in
      refuse_data (ltb max_state_bytes len)
        (refuse_data (ltb max_state_bytes (length bytes)) (checked (serde.from_slice bytes)))

  -- `StateStore::read`.
  unfoldable pub read : S → Result StoreError (Option PersistedState)
  read s = read_opened (disk.open_file s)

  abbrev pub print : Option Bytes → Action S StoreError Bytes
  print none s = (err invalid_data, s)
  print (some bytes) s = (ok bytes, s)

  -- The temporary file takes the place of the state file once it is written whole.
  abbrev pub publish : Action S StoreError (Unit {0})
  publish = (λ s. io_result (disk.rename s)) >> (λ s. io_result (disk.sync_parent s))

  abbrev pub fill : Bytes → Action S StoreError (Unit {0})
  fill bytes =
      (λ s. io_result (disk.write_all bytes s)) >> ((λ s. io_result (disk.sync_all s)) >> publish)

  unfoldable pub replace : PersistedState → Action S StoreError (Unit {0})
  replace state =
      (λ s. io_result (disk.create_temporary s))
      >> (print (serde.to_vec state) >>= λ bytes. fill bytes)

  abbrev pub cleaned : Result StoreError (Unit {0}) × S → Result StoreError (Unit {0}) × S
  cleaned (ok u, s) = (ok u, s)
  cleaned (err e, s) = (err e, disk.remove_temporary s)

  -- `StateStore::write`.
  unfoldable pub write : PersistedState → Action S StoreError (Unit {0})
  unfolding replace
  write state s =
      refuse_input (not (state.version == state_version))
        (λ s.
          refuse_input (disk.is_symlink s)
            (refuse_input (not disk.has_parent) (λ s. cleaned (replace state s))) s)
        s
