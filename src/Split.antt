-- ===== src/Split.antt =====
-- daemon/src/split/mod.rs: the per-application split, over an interface of its layers.
pub mod Routing
pub mod Laws
pub mod Process
pub mod Tests
use varmlen_cli_linux.Common.{ℕ, Bool, true, false, List}
use varmlen_cli_linux.Common.Tests.{if◌then◌else◌}
use varmlen_cli_linux.Common.Text.{Text}
use varmlen_cli_linux.Common.Outcome.{Result, ok, err}
use varmlen_cli_linux.Common.Action.{Action, ◌>>=◌, ◌>>◌}

pub record SplitPlan : Type 0 where
  pub uid : ℕ
  pub applications : List Text

pub data SplitStatus : Type 0 where
  disabled active : SplitStatus

pub data SplitError : Type 0 where
  invalid_application : Text → SplitError
  cgroup_unavailable bpf_unavailable routing_unavailable : SplitError
  direct_dns_unavailable watcher_unavailable reconciliation_failed rollback_failed : SplitError

abbrev pub Step : Type 0 → Type 0
Step B = Action B SplitError (Unit {0})

pub record SplitBackend (B : Type 0) : Type 0 where
  pub create_cgroup : ℕ → Step B
  pub attach_socket_mark_bpf : Step B
  pub install_route_rules : Step B
  pub start_permission_watcher : SplitPlan → Step B
  pub reconcile_existing : SplitPlan → Step B
  pub update_plan : SplitPlan → Step B
  pub refresh_route_rules : Step B
  pub rollback : Step B

pub record SplitManager (B : Type 0) : Type 0 where
  pub backend : B
  pub status : SplitStatus

abbrev pub is_live : SplitStatus → Bool
is_live disabled = false
is_live active = true

unfoldable pub new : {B : Type 0} → B → SplitManager B
new b = record { backend = b; status = disabled }

module _ {B : Type 0} (backend : SplitBackend B) where
  unfoldable pub layers : SplitPlan → Step B
  layers plan =
      backend.create_cgroup plan.uid
      >> backend.attach_socket_mark_bpf
      >> backend.install_route_rules
      >> backend.start_permission_watcher plan
      >> backend.reconcile_existing plan

  -- What becomes of a bring-up: a failed one is rolled back, whatever that gives.
  unfoldable pub settle :
      Result SplitError (Unit {0}) × B → Result SplitError (Unit {0}) × SplitManager B
  settle (ok u, b) = (ok tt, record { backend = b; status = active })
  settle (err e, b) = (err e, record { backend = (backend.rollback b).1; status = disabled })

  unfoldable pub apply : SplitPlan → Action (SplitManager B) SplitError (Unit {0})
  unfolding layers settle
  apply plan m = settle (layers plan m.backend)

  -- The result with the manager around the backend that a step left.
  abbrev pub around :
      {A : Type 0}
      → SplitStatus
      → A
      → Result SplitError (Unit {0}) × B
      → Result SplitError A × SplitManager B
  around status a (ok u, b) = (ok a, record { backend = b; status = status })
  around status a (err e, b) = (err e, record { backend = b; status = status })

  unfoldable pub update_plan : SplitPlan → Action (SplitManager B) SplitError Bool
  update_plan plan m =
      let updated = around m.status true (backend.update_plan plan m.backend) in
      if is_live m.status then updated else (ok false, m)

  unfoldable pub refresh_routing : Action (SplitManager B) SplitError (Unit {0})
  refresh_routing m =
      let refreshed = around m.status tt (backend.refresh_route_rules m.backend) in
      if is_live m.status then refreshed else (ok tt, m)
