-- ===== src/Recovery/System/Laws.antt =====
-- What recovery finds is its own.
use varmlen_cli_linux.Common.{
  ℕ, ◌≡◌, refl, ◌⊎◌, inl, inr, Bool, true, false, not, ◌||◌, Option, none, some, List, [], ◌∷◌,
  ◌++◌,
}
use varmlen_cli_linux.Common.Tests.{◌==◌, if◌then◌else◌, Bool-cases}
use varmlen_cli_linux.Common.Lists.{is_empty, any, keep, All}
use varmlen_cli_linux.Common.Text.{Text, codes, text_eq, lines}
use varmlen_cli_linux.Common.Outcome.{Result, ok, err}
use varmlen_cli_linux.Common.Action.{Action, ◌>>=◌}
use varmlen_cli_linux.Split.Routing.{split_table}
use varmlen_cli_linux.Recovery.{
  ProcessIdentity, Resource, xray_process, tun_interface, route_table, nft_table, split_bpf,
  runtime_file, insert, resource_lt,
}
use varmlen_cli_linux.State.{PersistedState}
use varmlen_cli_linux.Recovery.System.{
  Kernel, Failure, split_cgroup, nft_tables, from_pid, inspect, insert_if, route_resources,
  add_tables, laid, with_interface, with_cgroup, look, look_on, look_v4, look_v6, look_rules,
  saved_process, read_saved, is_live, printed, has, split_line, helper_marks, join_lines,
  nft_table_exists,
}

-- A resource that recovery laid, under the names it gives them.
abbrev pub IsOurs : ℕ → Text → Resource → Type 0
IsOurs owner_uid state_path (xray_process saved) = Unit
IsOurs owner_uid state_path (tun_interface name) = name ≡ codes "varmlen0"
IsOurs owner_uid state_path (route_table table) =
    (table ≡ split_table) ⊎ ((table ≡ codes "100") ⊎ (table ≡ codes "101"))
IsOurs owner_uid state_path (nft_table table) = any (λ known. text_eq known table) nft_tables ≡ true
IsOurs owner_uid state_path (split_bpf path) = path ≡ split_cgroup owner_uid
IsOurs owner_uid state_path (runtime_file path) = path ≡ state_path

insert-All :
    (P : Resource → Type 0) (r : Resource) (rs : List Resource)
    → P r
    → All P rs
    → All P (insert r rs)
unfolding insert
insert-All P r [] p h = (p, tt)
insert-All P r (x ∷ xs) p (q, h) = elim (Bool-cases (resource_lt r x)) [
  | inl t ↦ rw t (p, (q, h))
  | inr f ↦ elim (Bool-cases (resource_lt x r)) [
    | inl t ↦ rw (f, t) (q, insert-All P r xs p h)
    | inr g ↦ rw (f, g) (q, h)
  ]
]

insert_if-All :
    (P : Resource → Type 0) (b : Bool) (r : Resource) (rs : List Resource)
    → P r
    → All P rs
    → All P (insert_if b r rs)
insert_if-All P true r rs p h = insert-All P r rs p h
insert_if-All P false r rs p h = h

-- What holds of the value of an action where it gives one.
abbrev pub Gives : {A : Type 0} → (A → Type 0) → Result Failure A → Type 0
Gives P (ok a) = P a
Gives P (err e) = Unit

bind-Gives :
    {S A C : Type 0} (P : A → Type 0) (Q : C → Type 0) (m : Action S Failure A)
    (next : A → Action S Failure C) (s : S)
    → Gives P (m s).0
    → ((a : A) (s' : S) → P a → Gives Q (next a s').0)
    → Gives Q ((m >>= next) s).0
bind-Gives {S = S} {A = A} P Q m next s given h = go (m s) given
  where
    go : (r : Result Failure A × S) → Gives P r.0 → Gives Q (((λ (s : S). r) >>= next) s).0
    go (ok a, s') p = h a s' p
    go (err e, s') p = tt

abbrev Any : Text → Type 0
Any t = Unit

Any-Gives : (r : Result Failure Text) → Gives Any r
Any-Gives (ok a) = tt
Any-Gives (err e) = tt

module _ {S : Type 0} (kernel : Kernel S) (owner_uid : ℕ) (state_path : Text) where
  abbrev Ours : Resource → Type 0
  Ours r = IsOurs owner_uid state_path r

  route_resources-All :
      (rules routes : Text) (rs : List Resource)
      → All Ours rs
      → All Ours (route_resources rules routes rs)
  unfolding route_resources
  route_resources-All rules routes rs h =
      let marked = has rules (codes "0x2023") || has rules (codes "0x00002023") in
      let split = not (is_empty (keep split_line (lines rules))) in
      let helper =
        helper_marks (join_lines (keep (λ l. not (split_line l)) (lines rules))) routes in
      let first = insert_if marked (route_table (codes "101")) rs in
      let second = insert_if split (route_table split_table) first in
      let ours = insert_if-All Ours marked (route_table (codes "101")) rs (inr (inr refl)) h in
      insert_if-All Ours helper (route_table (codes "100")) second (inr (inl refl))
        (insert_if-All Ours split (route_table split_table) first (inl refl) ours)

  add_tables-All :
      (tables : List Text) (rs : List Resource) (s : S)
      → All (λ t. any (λ known. text_eq known t) nft_tables ≡ true) tables
      → All Ours rs
      → All Ours (add_tables kernel tables rs s).0
  unfolding add_tables
  add_tables-All [] rs s known h = h
  add_tables-All (t ∷ tables) rs s (k, known) h =
      let (there, s') = nft_table_exists kernel t s in
      add_tables-All tables (insert_if there (nft_table t) rs) s' known
        (insert_if-All Ours there (nft_table t) rs k h)

  saved_process-All : (x : Option ProcessIdentity) (s : S) → All Ours (saved_process kernel x s)
  unfolding saved_process
  saved_process-All none s = tt
  saved_process-All (some saved) s = live (is_live kernel saved (from_pid kernel saved.pid s))
    where
      live : (b : Bool) → All Ours (if b then xray_process saved ∷ [] else [])
      live true = (tt, tt)
      live false = tt

  with_cgroup-All :
      (p : List Resource × S) → All Ours p.0 → Gives (All Ours) (with_cgroup kernel owner_uid p).0
  unfolding with_cgroup
  with_cgroup-All (rs, s) h =
      insert_if-All Ours (kernel.path_exists (split_cgroup owner_uid) s)
        (split_bpf (split_cgroup owner_uid)) rs refl h

  look_on-All :
      (rs : List Resource) (rules routes_v4 routes_v6 : Text) (s : S)
      → All Ours rs
      → Gives (All Ours) (look_on kernel owner_uid rs rules routes_v4 routes_v6 s).0
  unfolding look_on laid text_eq
  look_on-All rs rules routes_v4 routes_v6 s h =
      let found = laid kernel rs rules routes_v4 routes_v6 in
      with_cgroup-All (add_tables kernel nft_tables found s) (
        add_tables-All nft_tables found s (refl, (refl, (refl, (refl, tt))))
          (route_resources-All rules (routes_v4 ++ (10 ∷ routes_v6)) rs h))

  look-All :
      (rs : List Resource) (s : S) → All Ours rs → Gives (All Ours) (look kernel owner_uid rs s).0
  unfolding look look_rules look_v4 look_v6 with_interface
  look-All rs s h =
      let rs' = with_interface kernel rs s in
      let there = kernel.path_exists (codes "/sys/class/net/varmlen0") s in
      let h' = insert_if-All Ours there (tun_interface (codes "varmlen0")) rs refl h in
      let ip = printed kernel (codes "ip") in
      bind-Gives Any (All Ours) (ip (codes "rule" ∷ codes "show" ∷ []))
        (look_v4 kernel owner_uid rs') s (Any-Gives _)
        (λ rules s1 _.
          bind-Gives Any (All Ours) (ip (codes "route" ∷ codes "show" ∷ []))
            (look_v6 kernel owner_uid rs' rules) s1 (Any-Gives _)
            (λ routes_v4 s2 _.
              bind-Gives Any (All Ours) (ip (codes "-6" ∷ codes "route" ∷ codes "show" ∷ []))
                (look_on kernel owner_uid rs' rules routes_v4) s2 (Any-Gives _)
                (λ routes_v6 s3 _. look_on-All rs' rules routes_v4 routes_v6 s3 h')))

  read_saved-All :
      (r : Result Failure (Option PersistedState)) (s : S)
      → Gives (All Ours) (read_saved kernel owner_uid state_path r s).0
  unfolding read_saved
  read_saved-All (err e) s = tt
  read_saved-All (ok none) s = tt
  read_saved-All (ok (some state)) s = elim (Bool-cases (state.owner_uid == owner_uid)) [
    | inl t ↦ rw t (
        insert-All Ours (runtime_file state_path) (saved_process kernel state.xray s) refl
          (saved_process-All state.xray s))
    | inr f ↦ rw f tt
  ]

  -- Everything that recovery finds bears one of the names that recovery gives.
  pub inspect-All : (s : S) → Gives (All Ours) (inspect kernel owner_uid state_path s).0
  unfolding inspect
  inspect-All s =
      bind-Gives (All Ours) (All Ours)
        (read_saved kernel owner_uid state_path (kernel.read_state state_path s))
        (look kernel owner_uid) s (read_saved-All (kernel.read_state state_path s) s)
        (λ rs s' h. look-All rs s' h)
