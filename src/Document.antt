-- ===== src/Document.antt =====
-- daemon/src/system.rs: the checks on the Xray configuration that a client sends, before Xray is
-- started on it as root. `serde_json::from_str` is a parameter.
pub mod Outbounds
pub mod Keys
pub mod Tags
pub mod Inbound
pub mod Permitted
pub mod Ping
pub mod Tests
use varmlen_cli_linux.Common.{
  ℕ, zero, suc, ◌+◌, String, Bool, true, false, not, ◌&&◌, ◌||◌, Option, none, some, List, [], ◌∷◌,
  map,
}
use varmlen_cli_linux.Common.Tests.{ltb, leb, ◌==◌, if◌then◌else◌}
use varmlen_cli_linux.Common.Lists.{is_empty, length, any, all, keep, find}
use varmlen_cli_linux.Common.Text.{Text, codes, text_eq}
use varmlen_cli_linux.Common.Json.{
  Value, null, bool, integer, other_number, text, array, object, Items, nil, cons, Members, end,
  member, values, keys, lookup, as_object, as_array, as_str, as_u64, and_then, get, says,
}
use varmlen_cli_linux.Common.Outcome.{Result, ok, err, ◌>>=◌, ◌>>◌, refuse_if}
use varmlen_cli_linux.Protocol.{DaemonError, invalid_request, max_server_ips}

abbrev pub invalid : String → DaemonError
invalid message = record { code = invalid_request; message = message }

-- `ok_or_else`.
abbrev pub require {ℓ} : {A : Type ℓ} → String → Option A → Result DaemonError A
require message none = err (invalid message)
require message (some a) = ok a

abbrev pub one_of : List Text → Text → Bool
one_of names s = any (λ name. text_eq s name) names

abbrev pub sections : List Text
sections =
    codes "log"
    ∷ codes "dns"
    ∷ codes "inbounds"
    ∷ codes "outbounds"
    ∷ codes "routing"
    ∷ codes "observatory"
    ∷ codes "burstObservatory"
    ∷ []

abbrev pub proxy_protocols : List Text
proxy_protocols =
    codes "http"
    ∷ codes "socks"
    ∷ codes "shadowsocks"
    ∷ codes "vmess"
    ∷ codes "vless"
    ∷ codes "trojan"
    ∷ codes "hysteria"
    ∷ codes "wireguard"
    ∷ []

abbrev pub file_keys : List Text
file_keys =
    codes "certificateFile" ∷ codes "keyFile" ∷ codes "certificatePath" ∷ codes "keyPath" ∷ []

unfoldable mutual
  pub contains_forbidden_file_key : Value → Bool
  contains_forbidden_file_key null = false
  contains_forbidden_file_key (bool b) = false
  contains_forbidden_file_key (integer n) = false
  contains_forbidden_file_key (other_number s) = false
  contains_forbidden_file_key (text s) = false
  contains_forbidden_file_key (array vs) = items_contain vs
  contains_forbidden_file_key (object ms) = members_contain ms

  pub items_contain : Items → Bool
  items_contain nil = false
  items_contain (cons v vs) = contains_forbidden_file_key v || items_contain vs

  pub members_contain : Members → Bool
  members_contain end = false
  members_contain (member k v ms) =
      (one_of file_keys k || contains_forbidden_file_key v) || members_contain ms

abbrev pub tag_of : Value → Option Text
tag_of v = and_then (get (codes "tag") v) as_str

abbrev pub has_protocol : Text → Value → Bool
has_protocol protocol v = says (get (codes "protocol") v) protocol

unfoldable pub inbound_by_tag : List Value → Text → Text → Result DaemonError Value
inbound_by_tag inbounds tag protocol =
    require "required Xray inbound is missing"
      (find (λ v. says (get (codes "tag") v) tag && has_protocol protocol v) inbounds)

abbrev pub protocol_of : Value → Option Text
protocol_of v = and_then (get (codes "protocol") v) as_str

abbrev pub names_one : List Text → Option Text → Bool
names_one names none = false
names_one names (some s) = one_of names s

unfoldable pub is_proxy : Value → Bool
is_proxy v = names_one proxy_protocols (protocol_of v)

unfoldable pub is_system : Text → Text → Value → Bool
is_system tag protocol v = says (get (codes "tag") v) tag && has_protocol protocol v

-- Each tag is there, is not empty, and is not among those before it.
unfoldable pub fresh : List Text → List (Option Text) → Bool
fresh seen [] = true
fresh seen (none ∷ os) = false
fresh seen (some tag ∷ os) = not (is_empty tag) && not (one_of seen tag) && fresh (tag ∷ seen) os

unfoldable pub fresh_tags : List Value → Bool
unfolding fresh
fresh_tags vs = fresh [] (map tag_of vs)

abbrev pub count {ℓ} : {A : Type ℓ} → (A → Bool) → List A → ℕ
count p xs = length (keep p xs)

unfoldable pub outbounds_are_permitted : List Value → Bool
unfolding fresh_tags
outbounds_are_permitted outbounds =
    let proxy_count = count is_proxy outbounds in
    fresh_tags outbounds
    && (leb 1 proxy_count && leb proxy_count max_server_ips)
    && length outbounds == proxy_count + 3
    && (count (is_system (codes "direct") (codes "freedom")) outbounds == 1
        && count (is_system (codes "dns-out") (codes "dns")) outbounds == 1
        && count (is_system (codes "block") (codes "blackhole")) outbounds == 1)

abbrev pub is_port : ℕ → Option ℕ → Bool
is_port port none = false
is_port port (some n) = n == port

unfoldable pub check_data : Bool → Value → Result DaemonError (Unit {0})
check_data true inbound =
    refuse_if
      (not
        (says (and_then (get (codes "settings") inbound) (get (codes "name"))) (codes "varmlen0")))
      (invalid "Xray TUN interface name is not permitted")
check_data false inbound =
    refuse_if
      (not (says (get (codes "listen") inbound) (codes "127.0.0.1"))
        || not (is_port 2081 (and_then (get (codes "port") inbound) as_u64)))
      (invalid "Xray SOCKS inbound must remain loopback-only")

-- The inbound that carries the traffic: the only one, under the name of its mode.
unfoldable pub check_inbounds : Bool → List Value → Result DaemonError (Unit {0})
unfolding inbound_by_tag check_data
check_inbounds expects_tun inbounds = do
  refuse_if (not (length inbounds == 1)) (invalid "Xray must contain exactly one data inbound")
  inbound ←
      inbound_by_tag inbounds (if expects_tun then codes "tun-in" else codes "socks-in")
        (if expects_tun then codes "tun" else codes "socks")
  check_data expects_tun inbound

abbrev pub is_object : Option Value → Bool
is_object none = false
is_object (some v) = elim (as_object v) [ none ↦ false | some ms ↦ true ]

unfoldable pub check_keys : Members → Result DaemonError (Unit {0})
check_keys top =
    refuse_if (any (λ k. not (one_of sections k)) (keys top))
      (invalid "Xray configuration contains an unsupported privileged section")

unfoldable pub check_log : Members → Result DaemonError (Unit {0})
check_log top = do
  log ← require "Xray log section is missing" (and_then (lookup (codes "log") top) as_object)
  refuse_if (any (λ k. not (text_eq k (codes "loglevel"))) (keys log))
      (invalid "Xray file logging is not permitted")

unfoldable pub check_in : Bool → Members → Result DaemonError (Unit {0})
unfolding check_inbounds
check_in expects_tun top = do
  inbounds ← require "Xray inbounds are missing" (and_then (lookup (codes "inbounds") top) as_array)
  check_inbounds expects_tun inbounds

unfoldable pub check_out : Members → Result DaemonError (Unit {0})
unfolding outbounds_are_permitted
check_out top = do
  outbounds ←
      require "Xray outbounds are missing" (and_then (lookup (codes "outbounds") top) as_array)
  refuse_if (not (outbounds_are_permitted outbounds)) (invalid "Xray outbound set is not permitted")

unfoldable pub check_network : Members → Result DaemonError (Unit {0})
check_network top =
    refuse_if
      (not (is_object (lookup (codes "dns") top)) || not (is_object (lookup (codes "routing") top)))
      (invalid "Xray DNS or routing section is missing")

unfoldable pub check_sections : Bool → Members → Result DaemonError (Unit {0})
unfolding check_keys check_log check_in check_out check_network
check_sections expects_tun top = do
  check_keys top
  check_log top
  check_in expects_tun top
  check_out top
  check_network top

unfoldable pub check_document : Bool → Value → Result DaemonError (Unit {0})
unfolding check_sections
check_document expects_tun document = do
  top ← require "Xray configuration must be an object" (as_object document)
  check_sections expects_tun top
  refuse_if (contains_forbidden_file_key document)
      (invalid "Xray configuration may not reference privileged files")

unfoldable pub validate_xray_document :
    (Text → Option Value) → Text → Bool → Result DaemonError (Unit {0})
unfolding check_document
validate_xray_document parse_json raw expects_tun = do
  document ← require "invalid generated Xray JSON" (parse_json raw)
  check_document expects_tun document
