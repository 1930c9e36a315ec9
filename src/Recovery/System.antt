-- ===== src/Recovery/System.antt =====
-- daemon/src/recovery.rs: `SystemCleanupBackend`, over what it asks of the kernel.
pub mod Removal
pub mod Laws
pub mod Recognized
pub mod Signals
pub mod Tests
use varmlen_cli_linux.Common.{
  ℕ, zero, suc, ◌≡◌, Bool, true, false, not, ◌&&◌, ◌||◌, Option, none, some, List, [], ◌∷◌, ◌++◌,
}
use varmlen_cli_linux.Common.Tests.{◌==◌, if◌then◌else◌}
use varmlen_cli_linux.Common.Lists.{is_empty, any, keep}
use varmlen_cli_linux.Common.Text.{Text, codes, text_eq, lines, contains_text}
use varmlen_cli_linux.Common.Numbers.{decimal}
use varmlen_cli_linux.Common.Outcome.{Result, ok, err}
use varmlen_cli_linux.Common.Action.{Action, ◌>>=◌, ◌>>◌}
use varmlen_cli_linux.Protocol.{ConnectionPhase}
use varmlen_cli_linux.Split.Routing.{split_table, routing_teardown_commands}
use varmlen_cli_linux.State.{PersistedState}
use varmlen_cli_linux.Recovery.{
  ProcessIdentity, matches, parse_start_time_ticks, Resource, xray_process, tun_interface,
  route_table, nft_table, split_bpf, runtime_file, insert, CleanupBackend,
}

pub data Failure : Type 0 where
  unrecognized reused_pid other_owner io : Failure

-- What the kernel is asked for, on a state of its own: files, commands and signals. A command
-- that could not be started gives no output; otherwise whether it succeeded, and what it printed.
pub record Kernel (S : Type 0) : Type 0 where
  pub read_state : Text → S → Result Failure (Option PersistedState)
  pub read_stat : ℕ → S → Option Text
  pub read_executable : ℕ → S → Option Text
  pub path_exists : Text → S → Bool
  pub run : Text → List Text → S → Option (Bool × Text) × S
  pub net_helper : Text
  pub terminate : ℕ → S → S
  pub kill : ℕ → S → Bool × S
  pub sleep : S → S
  pub remove_file : Text → S → Bool × S
  pub open_directory : Text → S → Bool
  pub detach_socket_mark : Text → S → S
  pub read_lines : Text → S → Option (List Text)
  pub write_line : Text → Text → S → Bool × S
  pub remove_dir : Text → S → Bool × S

abbrev pub io_if : Bool → Result Failure (Unit {0})
io_if true = ok tt
io_if false = err io

abbrev pub ran : Option (Bool × Text) → Result Failure (Unit {0})
ran none = err io
ran (some (success, printed)) = io_if success

abbrev pub has : Text → Text → Bool
has text part = contains_text text part

abbrev pub split_line : Text → Bool
split_line line = contains_text line (codes "lookup 102")

unfoldable pub join_lines : List Text → Text
join_lines [] = []
join_lines (l ∷ []) = l
join_lines (l ∷ m ∷ ls) = l ++ (10 ∷ join_lines (m ∷ ls))

unfoldable pub helper_marks : Text → Text → Bool
helper_marks rules routes =
    has rules (codes "0x2024")
    || has rules (codes "0x00002024")
    || has rules (codes "0x2025")
    || has rules (codes "0x00002025")
    || has routes (codes "0.0.0.0/1")
    || has routes (codes "128.0.0.0/1")
    || has routes (codes "blackhole ::/1")
    || has routes (codes "blackhole 8000::/1")

abbrev pub insert_if : Bool → Resource → List Resource → List Resource
insert_if true r rs = insert r rs
insert_if false r rs = rs

-- With the resources that are there already, as `extend` adds them.
unfoldable pub route_resources : Text → Text → List Resource → List Resource
unfolding helper_marks join_lines
route_resources rules routes rs =
    let split = keep split_line (lines rules) in
    let helper = keep (λ l. not (split_line l)) (lines rules) in
    insert_if (helper_marks (join_lines helper) routes) (route_table (codes "100")) (
      insert_if (not (is_empty split)) (route_table split_table) (
        insert_if (has rules (codes "0x2023") || has rules (codes "0x00002023"))
          (route_table (codes "101")) rs))

unfoldable pub split_cgroup : ℕ → Text
split_cgroup owner_uid =
    codes "/sys/fs/cgroup/varmlen/user-" ++ decimal owner_uid ++ codes "/bypass"

abbrev pub nft_tables : List Text
nft_tables =
    codes "varmlen_dns"
    ∷ codes "varmlen_split_dns"
    ∷ codes "varmlen_split"
    ∷ codes "varmlen_ks"
    ∷ []

module _ {S : Type 0} (kernel : Kernel S) where
  unfoldable pub from_pid : ℕ → S → Option ProcessIdentity
  from_pid pid s = elim (kernel.read_stat pid s) [
    | none ↦ none
    | some stat ↦ elim (parse_start_time_ticks stat) [
      | none ↦ none
      | some ticks ↦ elim (kernel.read_executable pid s) [
        | none ↦ none
        | some exe ↦ some (record { pid = pid; start_time_ticks = ticks; executable = exe })
      ]
    ]
  ]

  unfoldable pub is_live : ProcessIdentity → Option ProcessIdentity → Bool
  is_live saved none = false
  is_live saved (some live) = matches saved live

  unfoldable pub command_success : Text → List Text → Action S Failure (Unit {0})
  command_success program arguments s =
      let (output, s') = kernel.run program arguments s in (ran output, s')

  unfoldable pub printed : Text → List Text → Action S Failure Text
  printed program arguments s =
      let (output, s') = kernel.run program arguments s in
      elim output [ none ↦ (err io, s') | some (success, text) ↦ (ok text, s') ]

  unfoldable pub nft_table_exists : Text → S → Bool × S
  nft_table_exists name s =
      let (output, s') =
        kernel.run (codes "nft") (codes "list" ∷ codes "table" ∷ codes "inet" ∷ name ∷ []) s in
      elim output [ none ↦ (false, s') | some (success, text) ↦ (success, s') ]

  unfoldable pub add_tables : List Text → List Resource → S → List Resource × S
  unfolding nft_table_exists
  add_tables [] rs s = (rs, s)
  add_tables (table ∷ tables) rs s =
      let (there, s') = nft_table_exists table s in
      add_tables tables (insert_if there (nft_table table) rs) s'

  -- The resources besides the tables, from what the three commands printed.
  unfoldable pub laid : List Resource → Text → Text → Text → List Resource
  unfolding route_resources
  laid rs rules routes_v4 routes_v6 = route_resources rules (routes_v4 ++ (10 ∷ routes_v6)) rs

  unfoldable pub with_interface : List Resource → S → List Resource
  with_interface rs s =
      insert_if (kernel.path_exists (codes "/sys/class/net/varmlen0") s)
        (tun_interface (codes "varmlen0")) rs

  unfoldable pub with_cgroup : ℕ → List Resource × S → Result Failure (List Resource) × S
  unfolding split_cgroup
  with_cgroup owner_uid (rs, s) = (
    ok (
        insert_if (kernel.path_exists (split_cgroup owner_uid) s)
          (split_bpf (split_cgroup owner_uid)) rs),
    s,
  )

  -- The three commands in turn, and the rest on what they printed.
  unfoldable pub look_on : ℕ → List Resource → Text → Text → Text → Action S Failure (List Resource)
  unfolding laid add_tables with_cgroup
  look_on owner_uid rs rules routes_v4 routes_v6 s =
      with_cgroup owner_uid (add_tables nft_tables (laid rs rules routes_v4 routes_v6) s)

  unfoldable pub look_v6 : ℕ → List Resource → Text → Text → Action S Failure (List Resource)
  unfolding printed look_on
  look_v6 owner_uid rs rules routes_v4 =
      printed (codes "ip") (codes "-6" ∷ codes "route" ∷ codes "show" ∷ [])
      >>= look_on owner_uid rs rules routes_v4

  unfoldable pub look_v4 : ℕ → List Resource → Text → Action S Failure (List Resource)
  unfolding printed look_v6
  look_v4 owner_uid rs rules =
      printed (codes "ip") (codes "route" ∷ codes "show" ∷ []) >>= look_v6 owner_uid rs rules

  unfoldable pub look_rules : ℕ → List Resource → Action S Failure (List Resource)
  unfolding printed look_v4
  look_rules owner_uid rs =
      printed (codes "ip") (codes "rule" ∷ codes "show" ∷ []) >>= look_v4 owner_uid rs

  -- What is left besides what the state file names.
  unfoldable pub look : ℕ → List Resource → Action S Failure (List Resource)
  unfolding look_rules with_interface
  look owner_uid rs s = look_rules owner_uid (with_interface rs s) s

  unfoldable pub saved_process : Option ProcessIdentity → S → List Resource
  unfolding is_live from_pid
  saved_process none s = []
  saved_process (some saved) s =
      if is_live saved (from_pid saved.pid s) then xray_process saved ∷ [] else []

  unfoldable pub read_saved :
      ℕ → Text → Result Failure (Option PersistedState) → Action S Failure (List Resource)
  unfolding saved_process
  read_saved owner_uid state_path (err e) s = (err e, s)
  read_saved owner_uid state_path (ok none) s = (ok [], s)
  read_saved owner_uid state_path (ok (some state)) s =
      if state.owner_uid == owner_uid
      then (ok (insert (runtime_file state_path) (saved_process state.xray s)), s)
      else (err other_owner, s)

  unfoldable pub inspect : ℕ → Text → Action S Failure (List Resource)
  unfolding read_saved look
  inspect owner_uid state_path s =
      (read_saved owner_uid state_path (kernel.read_state state_path s) >>= look owner_uid) s
