-- ===== src/Recovery/System/Recognized.antt =====
-- What recovery finds, it knows how to remove.
use varmlen_cli_linux.Common.{
  ℕ, ◌≢◌, sym, subst, inl, inr, Bool, true, false, not, Option, none, some, List, [], ◌∷◌, ◌++◌,
}
use varmlen_cli_linux.Common.Tests.{Bool-cases}
use varmlen_cli_linux.Common.Lists.{is_empty, keep, All, All-map}
use varmlen_cli_linux.Common.Text.{Text, codes, text_eq, text_eq_iff}
use varmlen_cli_linux.Common.Outcome.{Result, ok, err}
use varmlen_cli_linux.Common.Action.{◌>>◌}
use varmlen_cli_linux.Recovery.{
  ProcessIdentity, matches, Resource, xray_process, tun_interface, route_table, nft_table,
  split_bpf, runtime_file,
}
use varmlen_cli_linux.Recovery.System.{
  Kernel, Failure, unrecognized, split_cgroup, from_pid, command_success, inspect, io_if, ran,
}
use varmlen_cli_linux.Recovery.System.Removal.{
  parent_procs, wait, kill_live, stop_live, terminate_process, remove_table, flush, restore, leave,
  cleanup_split_cgroup, remove,
}
use varmlen_cli_linux.Recovery.System.Laws.{IsOurs, Gives, inspect-All}

abbrev pub Recognized : Result Failure (Unit {0}) → Type 0
Recognized r = r ≢ err unrecognized

module _ {S : Type 0} (kernel : Kernel S) (owner_uid : ℕ) (state_path : Text) where
  abbrev Ours : Resource → Type 0
  Ours r = IsOurs owner_uid state_path r

  io_if-Recognized : (b : Bool) → Recognized (io_if b)
  io_if-Recognized true = λ e. cc
  io_if-Recognized false = λ e. cc

  command_success-Recognized :
      (program : Text) (arguments : List Text) (s : S)
      → Recognized (command_success kernel program arguments s).0
  unfolding command_success
  command_success-Recognized program arguments s = ran-Recognized (kernel.run program arguments s).0
    where
      ran-Recognized : (o : Option (Bool × Text)) → Recognized (ran o)
      ran-Recognized none = λ e. cc
      ran-Recognized (some (b, t)) = io_if-Recognized b

  kill_live-Recognized :
      (saved : ProcessIdentity) (o : Option ProcessIdentity) (s : S)
      → Recognized (kill_live kernel saved o s).0
  unfolding kill_live
  kill_live-Recognized saved none s = λ e. cc
  kill_live-Recognized saved (some live) s = elim (Bool-cases (matches saved live)) [
    | inl t ↦ rw t (io_if-Recognized (kernel.kill saved.pid s).0)
    | inr f ↦ rw f (λ e. cc)
  ]

  stop_live-Recognized :
      (saved : ProcessIdentity) (o : Option ProcessIdentity) (s : S)
      → Recognized (stop_live kernel saved o s).0
  unfolding stop_live
  stop_live-Recognized saved none s = λ e. cc
  stop_live-Recognized saved (some live) s =
      let (gone, s') = wait kernel 20 saved (kernel.terminate saved.pid s) in
      elim (Bool-cases (matches saved live)) [
        | inl t ↦ elim (Bool-cases gone) [
          | inl u ↦ rw (t, u) (λ e. cc)
          | inr g ↦ rw (t, g) (kill_live-Recognized saved (from_pid kernel saved.pid s') s')
        ]
        | inr f ↦ rw f (λ e. cc)
      ]

  restore-Recognized :
      (procs : Text) (pids : List Text) (s : S) → Recognized (restore kernel procs pids s).0
  unfolding restore
  restore-Recognized procs [] s = λ e. cc
  restore-Recognized procs (pid ∷ pids) s = elim (Bool-cases (kernel.write_line procs pid s).0) [
    | inl t ↦ rw t (restore-Recognized procs pids (kernel.write_line procs pid s).1)
    | inr f ↦ rw f (λ e. cc)
  ]

  remove_table-Recognized :
      (table : Text) (s : S) → Ours (route_table table) → Recognized (remove_table kernel table s).0
  unfolding remove_table flush text_eq
  remove_table-Recognized table s (inl e) =
      subst (λ t. Recognized (remove_table kernel t s).0) (sym e) (λ e. cc)
  remove_table-Recognized table s (inr (inl e)) =
      subst (λ t. Recognized (remove_table kernel t s).0) (sym e)
        (command_success-Recognized (codes "ip") _ _)
  remove_table-Recognized table s (inr (inr e)) =
      subst (λ t. Recognized (remove_table kernel t s).0) (sym e)
        (command_success-Recognized (codes "ip") _ _)

  leave-Recognized :
      (path procs : Text) (o : Option (List Text)) (s : S)
      → Recognized (leave kernel path procs o s).0
  unfolding leave
  leave-Recognized path procs none s = λ e. cc
  leave-Recognized path procs (some pids) s =
      then_remove (restore kernel procs (keep (λ line. not (is_empty line)) pids) s)
        (restore-Recognized procs (keep (λ line. not (is_empty line)) pids) s)
    where
      then_remove :
          (r : Result Failure (Unit {0}) × S)
          → Recognized r.0
          → Recognized
              (((λ (s : S). r) >> λ s'.
                  let (removed, s2) = kernel.remove_dir path s' in (io_if removed, s2))
                s).0
      then_remove (ok u, s') h = io_if-Recognized (kernel.remove_dir path s').0
      then_remove (err e, s') h = h

  cleanup_split_cgroup-Recognized : (s : S) → Recognized (cleanup_split_cgroup kernel owner_uid s).0
  unfolding cleanup_split_cgroup
  cleanup_split_cgroup-Recognized s =
      elim (Bool-cases (kernel.open_directory (split_cgroup owner_uid) s)) [
        | inl t ↦
            let path = split_cgroup owner_uid in
            let detached = kernel.detach_socket_mark path s in
            rw t (
              leave-Recognized path (parent_procs owner_uid)
                (kernel.read_lines (path ++ codes "/cgroup.procs") detached) detached)
        | inr f ↦ rw f (λ e. cc)
      ]

  remove-Recognized :
      (r : Resource) (s : S) → Ours r → Recognized (remove kernel owner_uid state_path r s).0
  unfolding remove terminate_process
  remove-Recognized (xray_process saved) s h =
      stop_live-Recognized saved (from_pid kernel saved.pid s) s
  remove-Recognized (tun_interface name) s h =
      let known = (text_eq_iff name (codes "varmlen0")).1 h in
      rw known (command_success-Recognized (codes "ip") _ s)
  remove-Recognized (route_table table) s h = remove_table-Recognized table s h
  remove-Recognized (nft_table table) s h = rw h (command_success-Recognized (codes "nft") _ s)
  remove-Recognized (split_bpf path) s h =
      rw ((text_eq_iff path (split_cgroup owner_uid)).1 h) (cleanup_split_cgroup-Recognized s)
  remove-Recognized (runtime_file path) s h =
      rw ((text_eq_iff path state_path).1 h) (io_if-Recognized (kernel.remove_file path s).0)

  -- Recovery knows how to remove everything that it finds: no resource that an inspection reports
  -- is refused as unrecognized, whatever has become of the system in between.
  pub inspect-Recognized :
      (s : S)
      → Gives
          (All (λ r. (later : S) → Recognized (remove kernel owner_uid state_path r later).0))
          (inspect kernel owner_uid state_path s).0
  inspect-Recognized s =
      known (inspect kernel owner_uid state_path s).0 (inspect-All kernel owner_uid state_path s)
    where
      known :
          (r : Result Failure (List Resource))
          → Gives (All Ours) r
          → Gives
              (All (λ r. (later : S) → Recognized (remove kernel owner_uid state_path r later).0))
              r
      known (ok rs) h = All-map _ _ (λ r ours later. remove-Recognized r later ours) rs h
      known (err e) h = tt
