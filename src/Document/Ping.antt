-- ===== src/Document/Ping.antt =====
-- daemon/src/system.rs: `validate_ping_xray_document`, the checks on the configuration of the
-- Xray that measures servers while nothing else is connected.
pub mod Inbounds
pub mod Proxies
pub mod Routed
pub mod Measured
use varmlen_cli_linux.Common.{
  ℕ, zero, suc, ◌+◌, String, Bool, true, false, not, ◌&&◌, ◌||◌, Option, none, some, List, [], ◌∷◌,
  ◌++◌,
}
use varmlen_cli_linux.Common.Tests.{ltb, leb, ◌==◌, if◌then◌else◌}
use varmlen_cli_linux.Common.Lists.{is_empty, length, any}
use varmlen_cli_linux.Common.Text.{Text, codes, text_eq, starts_with}
use varmlen_cli_linux.Common.Numbers.{decimal}
use varmlen_cli_linux.Common.Json.{
  Value, null, bool, integer, other_number, text, array, object, Items, Members, values, keys,
  lookup, as_object, as_array, as_str, as_u64, as_bool, and_then, get, says,
}
use varmlen_cli_linux.Common.Outcome.{Result, ok, err, ◌>>=◌, ◌>>◌, refuse_if}
use varmlen_cli_linux.Protocol.{DaemonError, max_server_ips}
use varmlen_cli_linux.Document.{
  invalid, require, one_of, has_protocol, is_proxy, tag_of, is_port, contains_forbidden_file_key,
}

abbrev pub ping_sections : List Text
ping_sections =
    codes "log"
    ∷ codes "inbounds"
    ∷ codes "outbounds"
    ∷ codes "routing"
    ∷ codes "observatory"
    ∷ codes "burstObservatory"
    ∷ []

abbrev pub is_false : Option Bool → Bool
is_false none = false
is_false (some b) = not b

-- `Value::pointer` with two steps, and with three.
abbrev pub at2 : String → String → Value → Option Value
at2 a b v = and_then (get (codes a) v) (get (codes b))

abbrev pub at3 : String → String → String → Value → Option Value
at3 a b c v = and_then (at2 a b v) (get (codes c))

unfoldable pub expected_tag : ℕ → Text
expected_tag index = codes "socks-in-" ++ decimal index

-- `single` is `socks_ports.len() == 1`.
unfoldable pub is_ping_inbound : Bool → ℕ → Text → ℕ → Value → Bool
unfolding expected_tag
is_ping_inbound single index tag port inbound =
    ((single && text_eq tag (codes "socks-in")) || text_eq tag (expected_tag index))
    && has_protocol (codes "socks") inbound
    && says (get (codes "listen") inbound) (codes "127.0.0.1")
    && is_port port (and_then (get (codes "port") inbound) as_u64)
    && says (at2 "settings" "auth" inbound) (codes "noauth")
    && is_false (and_then (at2 "settings" "udp" inbound) as_bool)

abbrev pub loopback_only : String
loopback_only = "ping Xray SOCKS inbound must be loopback-only on the requested port"

-- The tags, one for each inbound and its port.
unfoldable pub check_ping_inbounds : Bool → ℕ → List Value → List ℕ → Result DaemonError (List Text)
unfolding is_ping_inbound
check_ping_inbounds single index [] ports = ok []
check_ping_inbounds single index (v ∷ vs) [] = ok []
check_ping_inbounds single index (v ∷ vs) (port ∷ ports) = do
  tag ← require loopback_only (tag_of v)
  refuse_if (not (is_ping_inbound single index tag port v)) (invalid loopback_only)
  tags ← check_ping_inbounds single (index + 1) vs ports
  ok (tag ∷ tags)

abbrev pub last : Value → List Value → Value
last v [] = v
last v (w ∷ vs) = last w vs

abbrev pub but_last : Value → List Value → List Value
but_last v [] = []
but_last v (w ∷ vs) = v ∷ but_last w vs

abbrev pub xray_dial_mark : ℕ
xray_dial_mark = 0x2024

unfoldable pub is_marked : Value → Bool
is_marked v = is_port xray_dial_mark (and_then (at3 "streamSettings" "sockopt" "mark" v) as_u64)

abbrev pub ping_proxy_message : String
ping_proxy_message = "ping Xray proxy outbound or bypass mark is not permitted"

-- The tags of the proxies, `seen` being those before.
unfoldable pub check_ping_proxies : List Text → List Value → Result DaemonError (List Text)
unfolding is_marked is_proxy
check_ping_proxies seen [] = ok seen
check_ping_proxies seen (v ∷ vs) = do
  tag ← require ping_proxy_message (tag_of v)
  refuse_if
      (not (is_proxy v)
        || is_empty tag
        || one_of seen tag
        || (not (has_protocol (codes "wireguard") v) && not (is_marked v)))
      (invalid ping_proxy_message)
  check_ping_proxies (tag ∷ seen) vs

abbrev pub outbound_set_message : String
outbound_set_message = "ping Xray outbound set or bypass mark is not permitted"

unfoldable pub check_ping_outbounds : List Value → Result DaemonError (List Text)
unfolding check_ping_proxies
check_ping_outbounds [] = err (invalid outbound_set_message)
check_ping_outbounds (v ∷ vs) = do
  refuse_if
      (not (leb 2 (length (v ∷ vs)) && leb (length (v ∷ vs)) (max_server_ips + 1))
        || not (says (get (codes "tag") (last v vs)) (codes "direct"))
        || not (has_protocol (codes "freedom") (last v vs)))
      (invalid outbound_set_message)
  check_ping_proxies [] (but_last v vs)

-- A selector that is a text and starts the tag of a proxy.
abbrev pub selects : List Text → Option Text → Bool
selects proxies none = false
selects proxies (some selector) = any (λ tag. starts_with tag selector) proxies

unfoldable pub check_balancer_items :
    List Text → List Text → List Value → Result DaemonError (List Text)
check_balancer_items proxies seen [] = ok seen
check_balancer_items proxies seen (balancer ∷ rest) = do
  tag ← require "ping Xray balancer tag is missing" (tag_of balancer)
  refuse_if (is_empty tag) (invalid "ping Xray balancer tag is missing")
  selectors ←
      require "ping Xray balancer selector is missing"
        (and_then (get (codes "selector") balancer) as_array)
  refuse_if
      (one_of seen tag
        || is_empty selectors
        || not (any (λ selector. selects proxies (as_str selector)) selectors))
      (invalid "ping Xray balancer does not select a proxy")
  check_balancer_items proxies (tag ∷ seen) rest

unfoldable pub check_balancers : List Text → Option Value → Result DaemonError (List Text)
unfolding check_balancer_items
check_balancers proxies none = ok []
check_balancers proxies (some value) = do
  items ← require "ping Xray balancers must be an array" (as_array value)
  refuse_if (not (leb (length items) max_server_ips)) (invalid "ping Xray has too many balancers")
  check_balancer_items proxies [] items

abbrev pub names_tag : List Text → Option Text → Bool
names_tag tags none = false
names_tag tags (some tag) = one_of tags tag

abbrev pub is_only : Text → List Value → Bool
is_only tag [] = false
is_only tag (v ∷ []) = says (some v) tag
is_only tag (v ∷ w ∷ vs) = false

abbrev pub inbound_matches : Bool → Text → Option Value → Bool
inbound_matches single tag none = single
inbound_matches single tag (some (array tags)) = is_only tag (values tags)
inbound_matches single tag (some _) = false

abbrev pub differ : Bool → Bool → Bool
differ true b = not b
differ false b = b

unfoldable pub is_ping_rule : Bool → List Text → List Text → Text → Value → Bool
is_ping_rule single proxies balancers tag rule =
    says (get (codes "type") rule) (codes "field")
    && says (get (codes "network") rule) (codes "tcp,udp")
    && inbound_matches single tag (get (codes "inboundTag") rule)
    && differ (names_tag proxies (and_then (get (codes "outboundTag") rule) as_str))
        (names_tag balancers (and_then (get (codes "balancerTag") rule) as_str))

abbrev pub every_request : String
every_request = "ping Xray must route every request through its measured server"

-- One rule for each inbound: `validate_ping_xray_document` has compared both numbers with that of
-- the ports, and the index of a rule is never past the tags.
unfoldable pub check_ping_rules :
    Bool → List Text → List Text → List Value → List Text → Result DaemonError (Unit {0})
unfolding is_ping_rule
check_ping_rules single proxies balancers [] tags = ok tt
check_ping_rules single proxies balancers (rule ∷ rules) [] = err (invalid every_request)
check_ping_rules single proxies balancers (rule ∷ rules) (tag ∷ tags) = do
  refuse_if (not (is_ping_rule single proxies balancers tag rule)) (invalid every_request)
  check_ping_rules single proxies balancers rules tags

unfoldable pub check_ping_keys : Members → Result DaemonError (Unit {0})
check_ping_keys top = do
  refuse_if (any (λ k. not (one_of ping_sections k)) (keys top))
      (invalid "ping Xray configuration contains an unsupported privileged section")
  log ← require "ping Xray log is missing" (and_then (lookup (codes "log") top) as_object)
  refuse_if (any (λ k. not (text_eq k (codes "loglevel"))) (keys log))
      (invalid "ping Xray file logging is not permitted")

unfoldable pub ping_inbound_tags : List ℕ → Members → Result DaemonError (List Text)
unfolding check_ping_inbounds
ping_inbound_tags ports top = do
  inbounds ←
      require "ping Xray inbound is missing" (and_then (lookup (codes "inbounds") top) as_array)
  refuse_if (not (length inbounds == length ports))
      (invalid "ping Xray must contain one inbound per requested port")
  check_ping_inbounds (length ports == 1) 0 inbounds ports

unfoldable pub ping_proxy_tags : Members → Result DaemonError (List Text)
unfolding check_ping_outbounds
ping_proxy_tags top = do
  outbounds ←
      require "ping Xray outbounds are missing" (and_then (lookup (codes "outbounds") top) as_array)
  check_ping_outbounds outbounds

unfoldable pub check_ping_routing :
    List ℕ → List Text → List Text → Members → Result DaemonError (Unit {0})
unfolding check_balancers check_ping_rules
check_ping_routing ports inbound_tags proxies routing = do
  refuse_if
      (any (λ k. not (text_eq k (codes "rules") || text_eq k (codes "balancers"))) (keys routing))
      (invalid "ping Xray routing contains unsupported policy")
  balancers ← check_balancers proxies (lookup (codes "balancers") routing)
  rules ←
      require "ping Xray routing rule is missing"
        (and_then (lookup (codes "rules") routing) as_array)
  refuse_if (not (length rules == length ports))
      (invalid "ping Xray must contain one routing rule per requested port")
  check_ping_rules (length ports == 1) proxies balancers rules inbound_tags

unfoldable pub check_ping_document : List ℕ → Value → Result DaemonError (Unit {0})
unfolding check_ping_keys ping_inbound_tags ping_proxy_tags check_ping_routing
check_ping_document ports document = do
  top ← require "ping Xray configuration must be an object" (as_object document)
  check_ping_keys top
  inbound_tags ← ping_inbound_tags ports top
  proxies ← ping_proxy_tags top
  routing ←
      require "ping Xray routing section is missing"
        (and_then (lookup (codes "routing") top) as_object)
  check_ping_routing ports inbound_tags proxies routing
  refuse_if (contains_forbidden_file_key document)
      (invalid "ping Xray configuration may not reference privileged files")

unfoldable pub validate_ping_xray_document :
    (Text → Option Value) → Text → List ℕ → Result DaemonError (Unit {0})
unfolding check_ping_document
validate_ping_xray_document parse_json raw socks_ports = do
  document ← require "invalid ping Xray JSON" (parse_json raw)
  check_ping_document socks_ports document
