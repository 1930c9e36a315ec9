-- ===== src/Config/Active/Laws.antt =====
-- How the choice survives a change of the locations, and where it is found again.
use mathlib.Core.List.{Memᴰ}
use varmlen_cli_linux.Common.{◌≡◌, ◌≢◌, refl, ◌⊎◌, Option, none, some, List}
use varmlen_cli_linux.Common.Lists.{keep, All}
use varmlen_cli_linux.Common.Text.{Text}
use varmlen_cli_linux.Config.{
  VlessServer, Location, LocationKey, ActiveRef, key, legacy, Config, Unicode, location_key,
  endpoint, normalized_label,
}
use varmlen_cli_linux.Config.Active.{
  moved, active_home, at_home, set_active, refind, reconcile_ref, reconcile_active,
}

module _ (unicode : Unicode) where
  abbrev SameEndpoint : Option VlessServer → Location → Type 0
  SameEndpoint none l = ⊥
  SameEndpoint (some previous) l = endpoint l.server ≡ endpoint previous

  -- Why a location stands in for the choice: it has the same key; or no location has, and it is at
  -- the same endpoint or bears the same label, up to case and decoration.
  abbrev pub IsSuccessor : LocationKey → Option VlessServer → List Location → Location → Type 0
  IsSuccessor k previous pool l =
      (location_key l.server ≡ k)
      ⊎ (All (λ other. location_key other.server ≢ k) pool
          × (SameEndpoint previous l
              ⊎ (normalized_label unicode l.server.label ≡ normalized_label unicode k.label)))

  moved_locations :
      (config : Config) (found : Option Location)
      → ((moved config found).locations ≡ config.locations)
        × ((moved config found).subscriptions ≡ config.subscriptions)
  unfolding set_active
  moved_locations config none = (refl, refl)
  moved_locations config (some l) = (refl, refl)

  -- A choice is looked for among the locations, which stay as they are, as the subscriptions do.
  reconcile_ref_locations :
      (r : Option ActiveRef) (previous : Option VlessServer) (config : Config)
      → ((reconcile_ref unicode r previous config).locations ≡ config.locations)
        × ((reconcile_ref unicode r previous config).subscriptions ≡ config.subscriptions)
  unfolding reconcile_ref
  reconcile_ref_locations none previous config = (refl, refl)
  reconcile_ref_locations (some (legacy label)) previous config = (refl, refl)
  reconcile_ref_locations (some (key k)) previous config = moved_locations config _

  pub reconcile_active_locations :
      (previous : Option VlessServer) (config : Config)
      → ((reconcile_active unicode previous config).locations ≡ config.locations)
        × ((reconcile_active unicode previous config).subscriptions ≡ config.subscriptions)
  unfolding reconcile_active
  reconcile_active_locations previous config = reconcile_ref_locations config.active previous config

  module _ (k : LocationKey) (previous : Option VlessServer) (config : Config) where
    abbrev refound : Option Location
    refound =
        refind unicode k config.active_source previous
          (keep (at_home (active_home config)) config.locations)

  -- The choice is as it was, and nothing it may be moved to has its key or its label; or it is
  -- moved to one of those locations, for a reason.
  abbrev pub IsReconciled :
      LocationKey → Option VlessServer → List Location → Config → Config → Type 0
  IsReconciled k previous pool config after =
      ((after ≡ config)
        × All
            (λ other.
              (location_key other.server ≢ k)
              × (normalized_label unicode other.server.label ≢ normalized_label unicode k.label))
            pool)
      ⊎ ((l : Location) × Memᴰ l pool
          × IsSuccessor k previous pool l
          × (after ≡ set_active l config))
