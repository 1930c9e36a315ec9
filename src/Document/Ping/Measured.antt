-- ===== src/Document/Ping/Measured.antt =====
-- What the Xray of a measurement can do once its configuration is accepted.
use varmlen_cli_linux.Common.{ℕ, ◌≡◌, some, List}
use varmlen_cli_linux.Common.Tests.{◌==◌}
use varmlen_cli_linux.Common.Lists.{length, All}
use varmlen_cli_linux.Common.Text.{Text, codes}
use varmlen_cli_linux.Common.Json.{Value, Members, lookup, as_object, as_array, and_then, all_keys}
use varmlen_cli_linux.Document.{file_keys}
use varmlen_cli_linux.Document.Keys.{IsOutside}
use varmlen_cli_linux.Document.Ping.Inbounds.{AreInbounds}
use varmlen_cli_linux.Document.Ping.Proxies.{AreMeasured}
use varmlen_cli_linux.Document.Ping.Routed.{AreBalancers, AreRouted}

abbrev pub HasRules : List ℕ → List Text → List Text → Members → Type 0
HasRules ports tags proxies routing =
    (balancers : List Text) × AreBalancers (lookup (codes "balancers") routing) proxies balancers
    × ((rules : List Value) × (and_then (lookup (codes "rules") routing) as_array ≡ some rules)
        × (length rules ≡ length ports)
        × AreRouted (length ports == 1) proxies balancers tags rules)

-- What a measurement can do: a loopback port for each server, and the traffic of each goes through
-- a marked proxy, or a balancer over them.
abbrev pub IsMeasurement : List ℕ → Value → Type 0
IsMeasurement ports document =
    (top : Members) × (as_object document ≡ some top)
    × ((tags proxies : List Text) × ((vs : List Value) × (and_then (lookup (codes "inbounds") top)
              as_array
            ≡ some vs)
          × AreInbounds vs ports tags)
        × ((vs : List Value) × (and_then (lookup (codes "outbounds") top) as_array ≡ some vs)
            × AreMeasured vs proxies)
        × ((routing : Members) × (and_then (lookup (codes "routing") top) as_object ≡ some routing)
            × HasRules ports tags proxies routing))
    × All (IsOutside file_keys) (all_keys document)
