-- ===== src/Recovery/System/Removal.antt =====
-- daemon/src/recovery.rs: how `SystemCleanupBackend` removes each kind of resource.
use varmlen_cli_linux.Common.{
  ℕ, zero, suc, Bool, true, false, not, Option, none, some, List, [], ◌∷◌, ◌++◌,
}
use varmlen_cli_linux.Common.Tests.{if◌then◌else◌}
use varmlen_cli_linux.Common.Lists.{is_empty, any, keep}
use varmlen_cli_linux.Common.Text.{Text, codes, text_eq}
use varmlen_cli_linux.Common.Numbers.{decimal}
use varmlen_cli_linux.Common.Outcome.{ok, err}
use varmlen_cli_linux.Common.Action.{Action, ◌>>◌}
use varmlen_cli_linux.Split.Routing.{split_table, routing_teardown_commands}
use varmlen_cli_linux.Recovery.{
  ProcessIdentity, matches, Resource, xray_process, tun_interface, route_table, nft_table,
  split_bpf, runtime_file, CleanupBackend,
}
use varmlen_cli_linux.Recovery.System.{
  io_if, Kernel, Failure, unrecognized, reused_pid, io, split_cgroup, nft_tables, from_pid,
  command_success, inspect,
}

-- `cgroup.procs` beside the group of the split.
unfoldable pub parent_procs : ℕ → Text
parent_procs owner_uid =
    codes "/sys/fs/cgroup/varmlen/user-" ++ decimal owner_uid ++ codes "/cgroup.procs"

module _ {S : Type 0} (kernel : Kernel S) where
  -- Up to `n` looks, one every 100 milliseconds: whether the process went away.
  unfoldable pub wait : ℕ → ProcessIdentity → S → Bool × S
  wait zero saved s = (false, s)
  wait (suc n) saved s =
      let rest = wait n saved (kernel.sleep s) in
      elim (from_pid kernel saved.pid s) [ none ↦ (true, s) | some live ↦ rest ]

  unfoldable pub kill_live : ProcessIdentity → Option ProcessIdentity → Action S Failure (Unit {0})
  kill_live saved none s = (err io, s)
  kill_live saved (some live) s =
      if matches saved live
      then (let (killed, s') = kernel.kill saved.pid s in (io_if killed, s'))
      else (err reused_pid, s)

  unfoldable pub stop_live : ProcessIdentity → Option ProcessIdentity → Action S Failure (Unit {0})
  unfolding wait kill_live
  stop_live saved none s = (err io, s)
  stop_live saved (some live) s =
      if matches saved live
      then (let (gone, s') = wait 20 saved (kernel.terminate saved.pid s) in
          if gone then (ok tt, s') else kill_live saved (from_pid kernel saved.pid s') s')
      else (err reused_pid, s)

  unfoldable pub terminate_process : ProcessIdentity → Action S Failure (Unit {0})
  unfolding stop_live from_pid
  terminate_process saved s = stop_live saved (from_pid kernel saved.pid s) s

  -- Runs each command, whatever becomes of the others.
  unfoldable pub run_all : Text → List (List Text) → S → S
  unfolding command_success
  run_all program [] s = s
  run_all program (command ∷ commands) s =
      run_all program commands ((command_success kernel program command s).1)

  -- Deletes a rule up to `n` times, until there is none.
  unfoldable pub delete_rules : ℕ → List Text → S → S
  unfolding command_success
  delete_rules zero arguments s = s
  delete_rules (suc n) arguments s =
      let (r, s') = command_success kernel (codes "ip") arguments s in
      let rest = delete_rules n arguments s' in elim r [ ok u ↦ rest | err e ↦ s' ]

  unfoldable pub delete_mark : Text → Text → S → S
  unfolding delete_rules
  delete_mark table mark s =
      let rule = λ (family : Text).
        family ∷ codes "rule" ∷ codes "del" ∷ codes "fwmark" ∷ mark ∷ codes "lookup" ∷ table ∷ [] in
      delete_rules 4 (rule (codes "-6")) (delete_rules 4 (rule (codes "-4")) s)

  unfoldable pub flush : Text → Action S Failure (Unit {0})
  unfolding command_success
  flush table =
      command_success kernel (codes "ip")
        (codes "route" ∷ codes "flush" ∷ codes "table" ∷ table ∷ [])

  unfoldable pub remove_table : Text → Action S Failure (Unit {0})
  unfolding run_all delete_mark flush command_success routing_teardown_commands
  remove_table table s =
      if text_eq table split_table
      then (ok tt, run_all (codes "ip") routing_teardown_commands s)
      else if text_eq table (codes "100")
      then flush table (
          delete_mark table (codes "0x2025") (
            delete_mark table (codes "0x2024")
              ((command_success kernel kernel.net_helper (codes "cleanup" ∷ []) s).1)))
      else if text_eq table (codes "101")
      then flush table (delete_mark table (codes "0x2023") s)
      else (err unrecognized, s)

  -- Each process of the split is written to the parent group, until one cannot be.
  unfoldable pub restore : Text → List Text → Action S Failure (Unit {0})
  restore procs [] s = (ok tt, s)
  restore procs (pid ∷ pids) s =
      let (written, s') = kernel.write_line procs pid s in
      let rest = restore procs pids s' in if written then rest else (err io, s')

  unfoldable pub leave : Text → Text → Option (List Text) → Action S Failure (Unit {0})
  unfolding restore
  leave path procs none s = (err io, s)
  leave path procs (some pids) s =
      (restore procs (keep (λ line. not (is_empty line)) pids) >> λ s'.
      let (removed, s2) = kernel.remove_dir path s' in (io_if removed, s2))
        s

  unfoldable pub cleanup_split_cgroup : ℕ → Action S Failure (Unit {0})
  unfolding leave split_cgroup parent_procs
  cleanup_split_cgroup owner_uid s =
      let path = split_cgroup owner_uid in
      let procs = parent_procs owner_uid in
      let detached = kernel.detach_socket_mark path s in
      if kernel.open_directory path s
      then leave path procs (kernel.read_lines (path ++ codes "/cgroup.procs") detached) detached
      else (err io, s)

  unfoldable pub remove : ℕ → Text → Resource → Action S Failure (Unit {0})
  unfolding terminate_process remove_table cleanup_split_cgroup command_success
  remove owner_uid state_path (xray_process saved) s = terminate_process saved s
  remove owner_uid state_path (tun_interface name) s =
      if text_eq name (codes "varmlen0")
      then command_success kernel (codes "ip")
          (codes "link" ∷ codes "delete" ∷ codes "dev" ∷ name ∷ []) s
      else (err unrecognized, s)
  remove owner_uid state_path (route_table table) s = remove_table table s
  remove owner_uid state_path (nft_table table) s =
      if any (λ known. text_eq known table) nft_tables
      then command_success kernel (codes "nft")
          (codes "delete" ∷ codes "table" ∷ codes "inet" ∷ table ∷ []) s
      else (err unrecognized, s)
  remove owner_uid state_path (split_bpf path) s =
      if text_eq path (split_cgroup owner_uid)
      then cleanup_split_cgroup owner_uid s
      else (err unrecognized, s)
  remove owner_uid state_path (runtime_file path) s =
      if text_eq path state_path
      then (let (removed, s') = kernel.remove_file path s in (io_if removed, s'))
      else (err unrecognized, s)

  unfoldable pub system_cleanup_backend : ℕ → Text → CleanupBackend S Failure
  unfolding inspect remove
  system_cleanup_backend owner_uid state_path = record {
    inspect = inspect kernel owner_uid state_path;
    remove = remove owner_uid state_path;
  }
