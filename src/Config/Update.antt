-- ===== src/Config/Update.antt =====
-- cli/src/config.rs: what adds, replaces and removes locations, and the migration of old files.
pub mod Laws
pub mod Manual
pub mod Migration
pub mod Migrated
pub mod Removal
use varmlen_cli_linux.Common.{
  ℕ, zero, suc, ◌+◌, ◌≡◌, Bool, true, false, not, ◌&&◌, ◌||◌, Option, none, some, List, [], ◌∷◌,
  ◌++◌, map,
}
use varmlen_cli_linux.Common.Tests.{◌==◌, if◌then◌else◌}
use varmlen_cli_linux.Common.Lists.{take, drop, length, get_elem?, any, keep, find}
use varmlen_cli_linux.Common.Text.{Text, text_eq}
use varmlen_cli_linux.Config.{
  VlessServer, Location, Subscription, LocationKey, ActiveRef, key, legacy, Config, Unicode, opt_eq,
  location_key, key_eq,
}
use varmlen_cli_linux.Config.Active.{is_none, lists_url, active_location, reconcile_active}

-- `position(p).unwrap_or(len)`.
abbrev pub position {ℓ} : {A : Type ℓ} → (A → Bool) → List A → ℕ
position p [] = 0
position p (x ∷ xs) = let rest = position p xs in if p x then 0 else suc rest

-- `splice(at..at, new)`.
abbrev pub insert_at {ℓ} : {A : Type ℓ} → ℕ → List A → List A → List A
insert_at n new xs = take n xs ++ new ++ drop n xs

abbrev pub manual : VlessServer → Location
manual server = record { server = server; source = none }

-- The first manual location of this key has its server replaced; where none is, one is pushed.
unfoldable pub put_manual : VlessServer → List Location → List Location
put_manual server [] = manual server ∷ []
put_manual server (l ∷ ls) =
    let rest = put_manual server ls in
    if is_none l.source && key_eq (location_key l.server) (location_key server)
    then record l { server = server } ∷ ls
    else l ∷ rest

unfoldable pub add_manual : VlessServer → Config → Config
unfolding put_manual
add_manual server config = record config { locations = put_manual server config.locations }

abbrev pub from : Text → Location → Bool
from url location = opt_eq location.source (some url)

abbrev pub sourced : Text → VlessServer → Location
sourced url server = record { server = server; source = some url }

abbrev pub servers_of : Option Location → Option VlessServer
servers_of none = none
servers_of (some l) = some l.server

abbrev pub contains : List LocationKey → LocationKey → Bool
contains keys k = any (λ other. key_eq other k) keys

unfoldable pub replaced : Text → List VlessServer → List Location → List Location
replaced url fresh locations =
    insert_at (position (from url) locations) (map (sourced url) fresh)
      (keep (λ l. not (from url l)) locations)

-- How many of the new keys are not among the old, and of the old not among the new.
unfoldable pub count_changes : List LocationKey → List LocationKey → ℕ × ℕ
count_changes old new =
    (length (keep (λ k. not (contains old k)) new), length (keep (λ k. not (contains new k)) old))

unfoldable pub without : ℕ → Config → Config
without index config =
    let subs = take index config.subscriptions ++ drop (suc index) config.subscriptions in
    record config { subscriptions = subs }

module _ (unicode : Unicode) where
  unfoldable pub replace_subscription_locations :
      Text → List VlessServer → Config → (ℕ × ℕ) × Config
  unfolding replaced count_changes
  replace_subscription_locations url fresh config =
      let old = map (λ l. location_key l.server) (keep (from url) config.locations) in
      let new = map location_key fresh in
      let previous = servers_of (active_location config) in
      (
        count_changes old new,
        reconcile_active unicode previous
            (record config { locations = replaced url fresh config.locations }),
      )

  unfoldable pub left_of : ℕ → Subscription → Config → Config
  unfolding without
  left_of index removed config =
      let previous = servers_of (active_location config) in
      let left = without index config in
      reconcile_active unicode previous
        (record left { locations = keep (λ l. not (from removed.url l)) left.locations })

  -- `None` where `Vec::remove` panics.
  unfoldable pub remove_subscription : ℕ → Config → Option (Subscription × Config)
  unfolding left_of
  remove_subscription index config = elim (get_elem? config.subscriptions index) [
    | none ↦ none
    | some removed ↦ some (removed, left_of index removed config)
  ]

-- Migration of the files of earlier versions.
module _ where
  -- The only subscription's address.
  abbrev pub only_url : List Subscription → Option Text
  only_url [] = none
  only_url (only ∷ []) = some only.url
  only_url (a ∷ b ∷ rest) = none

  unfoldable pub fold_servers : Option Text → List VlessServer → List Location → List Location
  fold_servers source [] locations = locations
  fold_servers source (server ∷ servers) locations =
      let known = any (λ l. key_eq (location_key l.server) (location_key server)) locations in
      let added = locations ++ (record { server = server; source = source } ∷ []) in
      fold_servers source servers (if known then locations else added)

  abbrev pub key_of : Option Location → Option ActiveRef
  key_of none = none
  key_of (some l) = some (key (location_key l.server))

  unfoldable pub fold_active : Option ActiveRef → List Location → Option ActiveRef
  fold_active none locations = none
  fold_active (some (key k)) locations = some (key k)
  fold_active (some (legacy label)) locations =
      key_of (find (λ l. text_eq l.server.label label) locations)

  abbrev pub listed : List Subscription → Option Text → Option Text
  listed subs none = none
  listed subs (some url) = if lists_url subs url then some url else none

  abbrev pub refile : List Subscription → Location → Location
  refile subs l = record l { source = listed subs l.source }

  abbrev pub source_of : Option Location → Option Text
  source_of none = none
  source_of (some l) = l.source

  unfoldable pub found_source : Option Text → Option ActiveRef → List Location → Option Text
  found_source (some url) active locations = some url
  found_source none none locations = none
  found_source none (some (legacy label)) locations = none
  found_source none (some (key k)) locations =
      source_of (find (λ l. key_eq (location_key l.server) k) locations)

  unfoldable pub migrate : Config → Config
  unfolding fold_servers fold_active found_source
  migrate config =
      let subs = config.subscriptions in
      let folded = fold_servers (only_url subs) config.servers config.locations in
      let active = fold_active config.active folded in
      let locations = map (refile subs) folded in
      record config {
        servers = [];
        locations = locations;
        active = active;
        active_source = found_source config.active_source active locations;
      }
