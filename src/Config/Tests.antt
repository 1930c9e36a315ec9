-- ===== src/Config/Tests.antt =====
-- A store with a location added by hand and a subscription, and the runs of its operations.
use varmlen_cli_linux.Common.{◌≡◌, refl, false, Option, none, some, [], ◌∷◌, map, arith, not, ◌≤◌}
use varmlen_cli_linux.Common.Tests.{leb}
use varmlen_cli_linux.Common.Text.{
  Text, codes, ascii_lower, text_eq, trim, trim_end, trim_start, is_whitespace, starts_with,
  contains_text,
}
use varmlen_cli_linux.Common.Lists.{take, keep}
use varmlen_cli_linux.Common.Outcome.{ok}
use varmlen_cli_linux.Common.Numbers.{parse_uint, take_digits, to_digit}
use mathlib.Core.List.{Memᴰ}
use varmlen_cli_linux.Config.{
  VlessServer, SubscriptionMeta, Location, Subscription, LocationKey, key, legacy, Config, Unicode,
  location_key, subscription, key_eq, endpoint, endpoint_eq, normalized_label, searchable,
  display_name,
}
use varmlen_cli_linux.Config.Active.{
  is_none, active_home, reconcile_active, positions_from, active_location, active_position,
  position_of, positions, refind, set_active,
}
use varmlen_cli_linux.Config.Update.{
  position, from, sourced, replaced, add_manual, replace_subscription_locations,
  remove_subscription, migrate,
}
use varmlen_cli_linux.Config.Update.Laws.{replace_subscription_locations_lem}
use varmlen_cli_linux.Config.Update.Removal.{IsRemoval, remove_subscription_lem}
use varmlen_cli_linux.Config.Update.Manual.{IsManual, count_at, add_manual_lem}
use varmlen_cli_linux.Config.Update.Migration.{migrate-migrate}
use varmlen_cli_linux.Config.Update.Migrated.{IsMigrated, migrate-IsMigrated}
use varmlen_cli_linux.Config.Find.{removal, find_subscription, subscription_matches}
use varmlen_cli_linux.Config.Find.Laws.{IsRemovable, removal-IsRemovable}

-- Tables for labels in ASCII.
abbrev ascii : Unicode
ascii = record { to_lowercase = map ascii_lower; is_alphanumeric = λ c. leb b'0' c }

abbrev no_host : Text → Option Text
no_host url = none

abbrev server : Text → Text → VlessServer
server label host = record {
  id = codes "i";
  protocol = codes "vless";
  uuid = codes "u";
  password = none;
  method = none;
  host = host;
  port = 443;
  label = label;
  transport = codes "tcp";
  security = codes "reality";
  sni = none;
  fingerprint = none;
  public_key = none;
  short_id = none;
  flow = none;
  path = none;
  mode = none;
  packet_encoding = none;
  raw_params = [];
  source_json = none;
  raw_outbound = none;
  raw_profile = none;
}

abbrev meta : SubscriptionMeta
meta = record {
  title = some (codes "Two");
  update_interval_hours = none;
  upload_bytes = none;
  download_bytes = none;
  total_bytes = none;
  expires_at_unix = none;
  has_userinfo = false;
  support_url = none;
  web_page_url = none;
}

abbrev url : Text
url = codes "u2"

abbrev by_hand : Location
by_hand = record { server = server (codes "home") (codes "h"); source = none }

abbrev oslo : Location
oslo = record { server = server (codes "Oslo") (codes "a"); source = some url }

abbrev bern : Location
bern = record { server = server (codes "Bern") (codes "b"); source = some url }

abbrev two : Subscription
two = record { url = url; meta = meta; description = none; last_error = none }

abbrev store : Config
store = record {
  locations = by_hand ∷ oslo ∷ bern ∷ [];
  subscriptions = two ∷ [];
  active = some (key (location_key oslo.server));
  active_source = some url;
  servers = [];
}

-- A file of an earlier version: a choice by label, and servers apart from the locations.
abbrev old_store : Config
old_store = record {
  locations = oslo ∷ [];
  subscriptions = [];
  active = some (legacy (codes "Bern"));
  active_source = none;
  servers = bern.server ∷ [];
}

abbrev moved_oslo : VlessServer
moved_oslo = server (codes "oslo ") (codes "c")

abbrev chosen : LocationKey
chosen = location_key oslo.server

-- An update that renames the chosen location and moves it keeps it chosen.
updated_choice :
    (replace_subscription_locations ascii url (moved_oslo ∷ []) store).1.active
    ≡ some (key (location_key moved_oslo))
unfolding replace_subscription_locations replaced active_location active_position position_of
    positions positions_from active_home reconcile_active refind set_active normalized_label
    searchable location_key key_eq endpoint endpoint_eq text_eq trim_end trim_start is_whitespace
    ascii_lower
updated_choice = refl

replace_subscription_locations_lem_example :
    let after = (replace_subscription_locations ascii url (moved_oslo ∷ []) store).1 in
    (keep (from url) after.locations ≡ sourced url moved_oslo ∷ [])
    × (keep (λ l. not (from url l)) after.locations ≡ keep (λ l. not (from url l)) store.locations)
    × (take (position (from url) store.locations) after.locations
        ≡ take (position (from url) store.locations) store.locations)
    × (after.subscriptions ≡ store.subscriptions)
replace_subscription_locations_lem_example =
    replace_subscription_locations_lem ascii url (moved_oslo ∷ []) store

remove_subscription_lem_example : IsRemoval ascii 0 store (remove_subscription ascii 0 store)
remove_subscription_lem_example = remove_subscription_lem ascii 0 store

one_by_hand : count_at (location_key by_hand.server) store.locations ≤ 1
unfolding key_eq location_key text_eq
one_by_hand = omega arith

add_manual_lem_example :
    let after = add_manual by_hand.server store in
    ((l : Location) × Memᴰ l after.locations × IsManual by_hand.server l)
    × (keep (λ l. not (is_none l.source)) after.locations
        ≡ keep (λ l. not (is_none l.source)) store.locations)
    × (count_at (location_key by_hand.server) after.locations ≤ 1)
add_manual_lem_example =
    add_manual_lem by_hand.server store (location_key by_hand.server) one_by_hand

migrate-IsMigrated_example : IsMigrated old_store (migrate old_store)
migrate-IsMigrated_example = migrate-IsMigrated old_store

migrate-migrate_example : migrate (migrate old_store) ≡ migrate old_store
migrate-migrate_example = migrate-migrate old_store

removal_test : removal ascii no_host (codes "sub two") store ≡ ok (subscription 0)
unfolding removal find_subscription subscription_matches positions_from display_name contains_text
    starts_with text_eq trim trim_end trim_start is_whitespace parse_uint take_digits to_digit
    ascii_lower
removal_test = refl

removal-IsRemovable_example : IsRemovable store (removal ascii no_host (codes "sub two") store)
removal-IsRemovable_example = removal-IsRemovable ascii no_host store (codes "sub two")
