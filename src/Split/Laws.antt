-- ===== src/Split/Laws.antt =====
-- A split is reported active only with all its layers up.
use varmlen_cli_linux.Common.{ℕ, ◌≡◌, refl, ap, ◌⊎◌, inl, inr, true, false}
use varmlen_cli_linux.Common.Outcome.{Result, ok, err}
use varmlen_cli_linux.Common.Action.{◌>>◌}
use varmlen_cli_linux.Split.{
  SplitPlan, SplitStatus, disabled, active, SplitError, SplitBackend, SplitManager, Step, layers,
  settle, apply, update_plan, refresh_routing, is_live, around,
}

-- What the steps of a backend promise, on how many of the five layers stand: each step that
-- succeeds on the layers below it adds its own.
pub record LayerLaws {B : Type 0} (backend : SplitBackend B) (Standing : ℕ → B → Type 0)
    : Type 0 where
  pub creates :
      (uid : ℕ) (b : B)
      → (backend.create_cgroup uid b).0 ≡ ok tt
      → Standing 1 (backend.create_cgroup uid b).1
  pub attaches :
      (b : B)
      → Standing 1 b
      → (backend.attach_socket_mark_bpf b).0 ≡ ok tt
      → Standing 2 (backend.attach_socket_mark_bpf b).1
  pub routes :
      (b : B)
      → Standing 2 b
      → (backend.install_route_rules b).0 ≡ ok tt
      → Standing 3 (backend.install_route_rules b).1
  pub watches :
      (plan : SplitPlan) (b : B)
      → Standing 3 b
      → (backend.start_permission_watcher plan b).0 ≡ ok tt
      → Standing 4 (backend.start_permission_watcher plan b).1
  pub reconciles :
      (plan : SplitPlan) (b : B)
      → Standing 4 b
      → (backend.reconcile_existing plan b).0 ≡ ok tt
      → Standing 5 (backend.reconcile_existing plan b).1

module _ {B : Type 0} (backend : SplitBackend B) (Standing : ℕ → B → Type 0)
    (laws : LayerLaws backend Standing) where
  -- What holds of the object where a step succeeds.
  abbrev After : (B → Type 0) → Result SplitError (Unit {0}) × B → Type 0
  After P (ok u, b) = P b
  After P (err e, b) = Unit

  then_After :
      (P Q : B → Type 0) (m next : Step B) (b : B)
      → After P (m b)
      → ((b' : B) → P b' → After Q (next b'))
      → After Q ((m >> next) b)
  then_After P Q m next b given h = go (m b) given
    where
      go : (r : Result SplitError (Unit {0}) × B) → After P r → After Q (((λ (b : B). r) >> next) b)
      go (ok u, b') p = h b' p
      go (err e, b') p = tt

  success :
      (P : B → Type 0) (r : Result SplitError (Unit {0}) × B) → (r.0 ≡ ok tt → P r.1) → After P r
  success P (ok tt, b) h = h refl
  success P (err e, b) h = tt

  layers-After : (plan : SplitPlan) (b : B) → After (Standing 5) (layers backend plan b)
  unfolding layers
  layers-After plan b =
      let created = backend.create_cgroup plan.uid in
      let attached = created >> backend.attach_socket_mark_bpf in
      let routed = attached >> backend.install_route_rules in
      let watched = routed >> backend.start_permission_watcher plan in
      let one = success (Standing 1) (created b) (laws.creates plan.uid b) in
      let two =
        then_After (Standing 1) (Standing 2) created backend.attach_socket_mark_bpf b one (λ b' up.
          success (Standing 2) (backend.attach_socket_mark_bpf b') (laws.attaches b' up)) in
      let three =
        then_After (Standing 2) (Standing 3) attached backend.install_route_rules b two
          (λ b' up. success (Standing 3) (backend.install_route_rules b') (laws.routes b' up)) in
      let four =
        then_After (Standing 3) (Standing 4) routed (backend.start_permission_watcher plan) b three
          (λ b' up.
            success (Standing 4) (backend.start_permission_watcher plan b')
              (laws.watches plan b' up)) in
      then_After (Standing 4) (Standing 5) watched (backend.reconcile_existing plan) b four
        (λ b' up.
          success (Standing 5) (backend.reconcile_existing plan b') (laws.reconciles plan b' up))

  -- What a bring-up leaves: on success an active split, on an error a disabled one that was rolled
  -- back.
  abbrev pub IsApplied : Result SplitError (Unit {0}) × SplitManager B → Type 0
  IsApplied (ok u, m) = (m.status ≡ active) × Standing 5 m.backend
  IsApplied (err e, m) = (m.status ≡ disabled) × ((b : B) × (m.backend ≡ (backend.rollback b).1))

  settle-IsApplied :
      (r : Result SplitError (Unit {0}) × B) → After (Standing 5) r → IsApplied (settle backend r)
  unfolding settle
  settle-IsApplied (ok u, b) h = (refl, h)
  settle-IsApplied (err e, b) h = (refl, (b, refl))

  -- Where each step that succeeds adds its layer: applying a plan ends either in success, with the
  -- split active and all five layers standing, or in an error, with the split disabled and its
  -- backend rolled back as the last thing done to it.
  pub apply-IsApplied : (plan : SplitPlan) (m : SplitManager B) → IsApplied (apply backend plan m)
  unfolding apply
  apply-IsApplied plan m =
      settle-IsApplied (layers backend plan m.backend) (layers-After plan m.backend)

-- A change of the rules or of the routing leaves the status of the split as it is, and touches
-- nothing where no split is live; where one is, it does what the backend does.
pub update_plan-status :
    {B : Type 0} (backend : SplitBackend B) (plan : SplitPlan) (m : SplitManager B)
    → let updated = update_plan backend plan m in
      let refreshed = refresh_routing backend m in
      (updated.1.status ≡ m.status)
      × (refreshed.1.status ≡ m.status)
      × (((m.status ≡ disabled) × (updated ≡ (ok false, m)) × (refreshed ≡ (ok tt, m)))
          ⊎ ((m.status ≡ active)
              × (updated.1.backend ≡ (backend.update_plan plan m.backend).1)
              × (refreshed.1.backend ≡ (backend.refresh_route_rules m.backend).1)))
unfolding update_plan refresh_routing
update_plan-status {B = B} backend plan m = elim (status_cases m.status) [
  | inl d ↦ rw d (refl, refl, inl (refl, refl, refl))
  | inr a ↦
      let (s, b) = around_keeps m.status true (backend.update_plan plan m.backend) in
      let (s', b') = around_keeps m.status tt (backend.refresh_route_rules m.backend) in
      rw (ap is_live a) (s, s', inr (a, b, b'))
]
  where
    status_cases : (st : SplitStatus) → (st ≡ disabled) ⊎ (st ≡ active)
    status_cases disabled = inl refl
    status_cases active = inr refl

    around_keeps :
        {A : Type 0} (st : SplitStatus) (a : A) (r : Result SplitError (Unit {0}) × B)
        → ((around backend st a r).1.status ≡ st) × ((around backend st a r).1.backend ≡ r.1)
    around_keeps st a (ok u, b) = (refl, refl)
    around_keeps st a (err e, b) = (refl, refl)
