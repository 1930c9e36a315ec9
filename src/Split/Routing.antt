-- ===== src/Split/Routing.antt =====
-- daemon/src/split/routing.rs: the physical route, and the routing table and the rule of the split.
pub mod Laws
use varmlen_cli_linux.Common.{
  ℕ, ◌≡◌, Bool, true, false, not, ◌&&◌, ◌||◌, Option, none, some, List, [], ◌∷◌, ◌++◌, map,
}
use varmlen_cli_linux.Common.Tests.{ltb, leb, ◌==◌, if◌then◌else◌}
use varmlen_cli_linux.Common.Lists.{is_empty, all}
use varmlen_cli_linux.Common.Text.{Text, codes, len, text_eq, words}
use varmlen_cli_linux.Common.Ip.{IpAddr, parse_ip}

pub record PhysicalRoute : Type 0 where
  pub interface : Text
  pub gateway : Option Text

-- The field behind the first one that is `name`.
unfoldable pub field_after : Text → List Text → Option Text
field_after name [] = none
field_after name (field ∷ []) = none
field_after name (field ∷ next ∷ rest) =
    let later = field_after name (next ∷ rest) in if text_eq field name then some next else later

abbrev pub is_name_byte : ℕ → Bool
is_name_byte c =
    (leb b'0' c && leb c b'9')
    || (leb b'A' c && leb c b'Z')
    || (leb b'a' c && leb c b'z')
    || c == b'.'
    || c == b'_'
    || c == b'-'

abbrev pub ifnamsiz : ℕ
ifnamsiz = 16

abbrev pub is_interface : Text → Bool
is_interface name = not (is_empty name) && not (ltb ifnamsiz (len name)) && all is_name_byte name

abbrev pub is_some {ℓ} : {A : Type ℓ} → Option A → Bool
is_some none = false
is_some (some a) = true

abbrev pub is_gateway : Option Text → Bool
is_gateway none = true
is_gateway (some value) = is_some (parse_ip value)

abbrev pub starts_with_default : List Text → Bool
starts_with_default [] = false
starts_with_default (first ∷ rest) = text_eq first (codes "default")

route_on : Option Text → Option Text → Option PhysicalRoute
route_on none gateway = none
route_on (some interface) gateway =
    if is_interface interface && is_gateway gateway
    then some (record { interface = interface; gateway = gateway })
    else none

unfoldable pub route_of : List Text → Option PhysicalRoute
unfolding route_on field_after
route_of fields =
    if starts_with_default fields
    then route_on (field_after (codes "dev") fields) (field_after (codes "via") fields)
    else none

unfoldable pub parse_default_route : Text → Option PhysicalRoute
unfolding route_of
parse_default_route line = route_of (words line)

abbrev pub split_table : Text
split_table = codes "102"

abbrev pub split_rule_priority : Text
split_rule_priority = codes "100"

abbrev pub local_throws : List Text
local_throws =
    codes "10.0.0.0/8"
    ∷ codes "172.16.0.0/12"
    ∷ codes "192.168.0.0/16"
    ∷ codes "169.254.0.0/16"
    ∷ codes "100.64.0.0/10"
    ∷ codes "224.0.0.0/4"
    ∷ codes "255.255.255.255/32"
    ∷ []

abbrev via : Option Text → List Text
via none = []
via (some gateway) = codes "via" ∷ gateway ∷ []

abbrev rule : Text → List Text
rule verb =
    codes "rule"
    ∷ verb
    ∷ codes "priority"
    ∷ split_rule_priority
    ∷ codes "fwmark"
    ∷ codes "0x2025"
    ∷ codes "lookup"
    ∷ split_table
    ∷ []

abbrev throw : Text → List Text
throw network =
    codes "route" ∷ codes "replace" ∷ codes "throw" ∷ network ∷ codes "table" ∷ split_table ∷ []

unfoldable pub routing_setup_commands : PhysicalRoute → List (List Text)
routing_setup_commands route =
    (codes "route"
      ∷ codes "replace"
      ∷ codes "default"
      ∷ (via route.gateway ++ (codes "dev" ∷ route.interface ∷ codes "table" ∷ split_table ∷ [])))
    ∷ (map throw local_throws ++ (rule (codes "add") ∷ []))

unfoldable pub routing_teardown_commands : List (List Text)
routing_teardown_commands =
    rule (codes "del") ∷ (codes "route" ∷ codes "flush" ∷ codes "table" ∷ split_table ∷ []) ∷ []
