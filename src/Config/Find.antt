-- ===== src/Config/Find.antt =====
-- cli/src/config.rs: what a name or a number given on the command line means.
pub mod Laws
use varmlen_cli_linux.Common.{
  ℕ, zero, suc, ◌+◌, ◌-◌, ◌≡◌, Bool, true, false, not, ◌&&◌, ◌||◌, Option, none, some, List, [],
  ◌∷◌,
}
use varmlen_cli_linux.Common.Tests.{ltb, ◌==◌, if◌then◌else◌}
use varmlen_cli_linux.Common.Lists.{is_empty, length, get_elem?}
use varmlen_cli_linux.Common.Text.{Text, codes, trim, text_eq, starts_with, contains_text}
use varmlen_cli_linux.Common.Numbers.{parse_uint, u64_bound}
use varmlen_cli_linux.Common.Outcome.{Result, ok, err}
use varmlen_cli_linux.Config.{
  Location, Subscription, Config, Removal, location, subscription, Unicode, opt_eq, searchable,
  display_name,
}
use varmlen_cli_linux.Config.Active.{is_none, positions, positions_from}

-- The messages, with what each one names. `out_of_bounds` stands for the panic of an index.
pub data Refusal : Type 0 where
  no_location : ℕ → ℕ → Refusal
  no_subscription : ℕ → ℕ → Refusal
  no_location_matches no_subscription_matches nothing_matches : Text → Refusal
  many_locations : List ℕ → Refusal
  many_subscriptions : ℕ → Refusal
  names_both : Text → Refusal
  of_subscription : ℕ → Refusal
  of_unlisted name_a_subscription out_of_bounds : Refusal

-- `strip_prefix`.
abbrev pub strip_prefix : Text → Text → Option Text
strip_prefix s [] = some s
strip_prefix [] (d ∷ t) = none
strip_prefix (c ∷ s) (d ∷ t) = if c == d then strip_prefix s t else none

-- `checked_sub(1).filter(|i| *i < count)`.
unfoldable pub numbered : Refusal → ℕ → ℕ → Result Refusal ℕ
numbered refusal count zero = err refusal
numbered refusal count (suc i) = if ltb i count then ok i else err refusal

unfoldable pub single : List ℕ → Result Refusal ℕ
single [] = err (many_locations [])
single (i ∷ []) = ok i
single (i ∷ j ∷ rest) = err (many_locations (i ∷ j ∷ rest))

-- The first list that is not empty, or the last.
abbrev pub first_some : List ℕ → List ℕ → List ℕ
first_some [] others = others
first_some (i ∷ is) others = i ∷ is

abbrev pub position_of_url : ℕ → List Subscription → Text → Option ℕ
position_of_url n [] url = none
position_of_url n (sub ∷ subs) url =
    let rest = position_of_url (suc n) subs url in if text_eq sub.url url then some n else rest

abbrev pub owned_by : Option ℕ → Result Refusal ℕ
owned_by (some sub) = err (of_subscription sub)
owned_by none = err of_unlisted

abbrev pub owner : List Subscription → Option Text → ℕ → Result Refusal ℕ
owner subs none index = ok index
owner subs (some url) index = owned_by (position_of_url 0 subs url)

abbrev pub manual_at : List Subscription → Option Location → ℕ → Result Refusal ℕ
manual_at subs none index = err out_of_bounds
manual_at subs (some l) index = owner subs l.source index

unfoldable pub manual_only : ℕ → Config → Result Refusal ℕ
manual_only index config = manual_at config.subscriptions (get_elem? config.locations index) index

abbrev pub as_location : Result Refusal ℕ → Result Refusal Removal
as_location (ok i) = ok (location i)
as_location (err e) = err e

abbrev pub as_subscription : Result Refusal ℕ → Result Refusal Removal
as_subscription (ok i) = ok (subscription i)
as_subscription (err e) = err e

module _ (unicode : Unicode) (host_of : Text → Option Text) where
  unfoldable pub matching : Text → (Location → Bool) → Config → List ℕ
  matching needle scope config =
      let lowered = unicode.to_lowercase needle in
      let exact = positions config (λ l. scope l && text_eq l.server.label needle) in
      let prefixed =
        positions config
          (λ l. scope l && starts_with (searchable unicode l.server.label) lowered) in
      let inside =
        positions config
          (λ l. scope l && contains_text (unicode.to_lowercase l.server.label) lowered) in
      first_some exact (first_some prefixed inside)

  pub found : Text → List ℕ → Result Refusal ℕ
  found needle [] = err (no_location_matches needle)
  found needle (i ∷ is) = single (i ∷ is)

  pub find_by : Option ℕ → Text → Config → Result Refusal ℕ
  unfolding found matching
  find_by (some n) needle config =
      let count = length config.locations in numbered (no_location n count) count n
  find_by none needle config = found needle (matching needle (λ l. true) config)

  unfoldable pub find : Text → Config → Result Refusal ℕ
  unfolding find_by
  find needle config = find_by (parse_uint u64_bound needle) needle config

  unfoldable pub subscription_matches : Text → Config → List ℕ
  subscription_matches needle config =
      let lowered = unicode.to_lowercase needle in
      positions_from 0
        (λ (sub : Subscription).
          contains_text (unicode.to_lowercase (display_name host_of sub)) lowered
          || text_eq sub.url needle)
        config.subscriptions

  pub only_subscription : Text → List ℕ → Result Refusal ℕ
  only_subscription needle [] = err (no_subscription_matches needle)
  only_subscription needle (i ∷ []) = ok i
  only_subscription needle (i ∷ j ∷ rest) = err (many_subscriptions (length (i ∷ j ∷ rest)))

  pub find_subscription_by : Option ℕ → Text → Config → Result Refusal ℕ
  unfolding only_subscription
  find_subscription_by (some n) needle config =
      let count = length config.subscriptions in numbered (no_subscription n count) count n
  find_subscription_by none needle config =
      only_subscription needle (subscription_matches needle config)

  unfoldable pub find_subscription : Text → Config → Result Refusal ℕ
  unfolding find_subscription_by
  find_subscription needle config = find_subscription_by (parse_uint u64_bound needle) needle config

  -- What a bare name takes away: the manual locations, the subscriptions and the locations of
  -- subscriptions that it matches.
  pub by_name : Text → List ℕ → List ℕ → List ℕ → Config → Result Refusal Removal
  by_name target (i ∷ is) (j ∷ js) owned config = err (names_both target)
  by_name target (i ∷ is) [] owned config = as_location (single (i ∷ is))
  by_name target [] (i ∷ []) owned config = ok (subscription i)
  by_name target [] (i ∷ j ∷ rest) owned config = err (many_subscriptions (length (i ∷ j ∷ rest)))
  by_name target [] [] [] config = err (nothing_matches target)
  by_name target [] [] (i ∷ is) config = as_location (manual_only i config)

  pub removal_at : Result Refusal ℕ → Config → Result Refusal Removal
  removal_at (err e) config = err e
  removal_at (ok index) config = as_location (manual_only index config)

  pub removal_by : Option ℕ → Text → Config → Result Refusal Removal
  unfolding removal_at by_name
  removal_by (some n) target config = removal_at (find target config) config
  removal_by none target config =
      by_name target (matching target (λ l. is_none l.source) config)
        (subscription_matches target config) (matching target (λ l. not (is_none l.source)) config)
        config

  pub removal_of : Option Text → Text → Config → Result Refusal Removal
  unfolding removal_by
  removal_of (some rest) target config = as_subscription (find_subscription (trim rest) config)
  removal_of none target config = removal_by (parse_uint u64_bound target) target config

  unfoldable pub removal : Text → Config → Result Refusal Removal
  unfolding removal_of
  removal target config =
      let target = trim target in
      if text_eq target (codes "sub")
      then err name_a_subscription
      else removal_of (strip_prefix target (codes "sub ")) target config
