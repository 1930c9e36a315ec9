-- ===== src/Config/Active.antt =====
-- cli/src/config.rs: the location that `connect` uses when none is named.
pub mod Laws
use varmlen_cli_linux.Common.{
  ℕ, zero, suc, ◌+◌, ◌≡◌, refl, Bool, true, false, not, ◌&&◌, ◌||◌, Option, none, some, List, [],
  ◌∷◌,
}
use varmlen_cli_linux.Common.Tests.{◌==◌, if◌then◌else◌}
use varmlen_cli_linux.Common.Lists.{is_empty, length, get_elem?, any, keep, find}
use varmlen_cli_linux.Common.Text.{Text, text_eq}
use varmlen_cli_linux.Common.Outcome.{Result, ok, err}
use varmlen_cli_linux.Config.{
  VlessServer, Location, Subscription, LocationKey, ActiveRef, key, legacy, Config, Unicode, opt_eq,
  location_key, key_eq, endpoint, endpoint_eq, normalized_label, or_else,
}

abbrev pub is_none {ℓ} : {A : Type ℓ} → Option A → Bool
is_none none = true
is_none (some a) = false

abbrev pub head? {ℓ} : {A : Type ℓ} → List A → Option A
head? [] = none
head? (x ∷ xs) = some x

-- The positions, counted from `i`, at which a predicate holds.
unfoldable pub positions_from : {A : Type 0} → ℕ → (A → Bool) → List A → List ℕ
positions_from i p [] = []
positions_from i p (l ∷ ls) =
    let rest = positions_from (suc i) p ls in if p l then i ∷ rest else rest

unfoldable pub positions : Config → (Location → Bool) → List ℕ
unfolding positions_from
positions config p = positions_from 0 p config.locations

abbrev pub lists_url : List Subscription → Text → Bool
lists_url subs url = any (λ sub. text_eq sub.url url) subs

abbrev home_of : Option Text → List Subscription → Option Text
home_of none subs = none
home_of (some url) subs = if lists_url subs url then some url else none

unfoldable pub active_home : Config → Option Text
active_home config = home_of config.active_source config.subscriptions

-- `home.is_none() || location.source == home`.
abbrev pub at_home : Option Text → Location → Bool
at_home home location = is_none home || opt_eq location.source home

abbrev source_is : List Location → Option Text → ℕ → Bool
source_is locations source index = elim (get_elem? locations index) [
  | none ↦ false
  | some l ↦ opt_eq l.source source
]

unfoldable pub position_of : Config → Option ActiveRef → Option ℕ
unfolding positions active_home
position_of config none = none
position_of config (some (legacy label)) = none
position_of config (some (key k)) =
    let home = active_home config in
    let matching = positions config (λ l. key_eq (location_key l.server) k && at_home home l) in
    or_else (find (source_is config.locations config.active_source) matching) (head? matching)

unfoldable pub active_position : Config → Option ℕ
unfolding position_of
active_position config = position_of config config.active

unfoldable pub active_location : Config → Option Location
unfolding active_position
active_location config = elim (active_position config) [
  | none ↦ none
  | some i ↦ get_elem? config.locations i
]

unfoldable pub is_active : Config → ℕ → Bool
unfolding active_position
is_active config index = elim (active_position config) [ none ↦ false | some i ↦ i == index ]

unfoldable pub set_active : Location → Config → Config
set_active location config = record config {
  active = some (key (location_key location.server));
  active_source = location.source;
}

abbrev pub moved : Config → Option Location → Config
moved config none = config
moved config (some location) = set_active location config

unfoldable pub clear_active : Config → Config
clear_active config = record config { active = none; active_source = none }

module _ (unicode : Unicode) where
  abbrev pub same_label : LocationKey → Location → Bool
  same_label k l =
      text_eq (normalized_label unicode l.server.label) (normalized_label unicode k.label)

  -- Among the locations at the old endpoint, the one of the wanted label, or the first.
  shared_endpoint : LocationKey → Option VlessServer → List Location → Option Location
  shared_endpoint k none pool = none
  shared_endpoint k (some previous) pool =
      let shared = keep (λ l. endpoint_eq (endpoint l.server) (endpoint previous)) pool in
      or_else (find (same_label k) shared) (head? shared)

  -- What `reconcile_active` finds for a choice among the locations that it may find.
  unfoldable pub refind :
      LocationKey → Option Text → Option VlessServer → List Location → Option Location
  unfolding shared_endpoint
  refind k source previous pool =
      let exact = λ (l : Location). key_eq (location_key l.server) k in
      or_else (find (λ l. opt_eq l.source source) (keep exact pool)) (
        or_else (find exact pool)
          (or_else (shared_endpoint k previous pool) (find (same_label k) pool)))

  reconcile_ref : Option ActiveRef → Option VlessServer → Config → Config
  reconcile_ref none previous config = config
  reconcile_ref (some (legacy label)) previous config = config
  reconcile_ref (some (key k)) previous config = moved config (
      refind k config.active_source previous (keep (at_home (active_home config)) config.locations))

  unfoldable pub reconcile_active : Option VlessServer → Config → Config
  unfolding reconcile_ref refind active_home set_active
  reconcile_active previous config = reconcile_ref config.active previous config

-- Why there is no location to connect to.
pub data NoChoice : Type 0 where
  gone unconfigured unchosen : NoChoice

index_of : Option ActiveRef → Config → Result NoChoice ℕ
index_of (some (key k)) config = elim (active_position config) [ none ↦ err gone | some i ↦ ok i ]
index_of (some (legacy label)) config = err gone
index_of none config =
    let n = length config.locations in
    if n == 1 then ok 0 else if n == 0 then err unconfigured else err unchosen

unfoldable pub active_index : Config → Result NoChoice ℕ
unfolding index_of active_position
active_index config = index_of config.active config
