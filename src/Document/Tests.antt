-- ===== src/Document/Tests.antt =====
-- Configurations that are accepted and refused.
use varmlen_cli_linux.Common.{ℕ, String, true, false, ◌≡◌, refl, Option, some, [], ◌∷◌}
use varmlen_cli_linux.Common.Text.{Text, codes, text_eq}
use varmlen_cli_linux.Common.Numbers.{decimal}
use varmlen_cli_linux.Common.Json.{
  Value, bool, integer, text, array, object, Items, nil, cons, Members, end, member,
}
use varmlen_cli_linux.Common.Outcome.{ok, is_err}
use varmlen_cli_linux.Document.{
  validate_xray_document, is_proxy, is_system, contains_forbidden_file_key,
}
use varmlen_cli_linux.Document.Permitted.{IsPermitted, validate_xray_document-IsPermitted}
use varmlen_cli_linux.Document.Ping.{validate_ping_xray_document}

abbrev is : String → String → Members → Members
is k v ms = member (codes k) (text (codes v)) ms

abbrev has : String → Members → Members → Members
has k v ms = member (codes k) (object v) ms

abbrev tagged : String → String → Members → Value
tagged t protocol ms = object (is "tag" t (is "protocol" protocol ms))

-- Beside what the checks read, a document has a name of its own, `raw`.
abbrev parsed : Value → Text → Option Value
parsed document raw = some document

abbrev tun_in : String → Value
tun_in name = tagged "tun-in" "tun" (has "settings" (is "name" name end) end)

abbrev three : Items
three =
    cons (tagged "direct" "freedom" end)
      (cons (tagged "dns-out" "dns" end) (cons (tagged "block" "blackhole" end) nil))

abbrev tunnel : Value → Items → Value
tunnel inbound outbounds = object (
    has "log" (is "loglevel" "warning" end) (
      member (codes "inbounds") (array (cons inbound nil))
        (member (codes "outbounds") (array outbounds) (has "dns" end (has "routing" end end)))))

abbrev proxied : Items
proxied = cons (tagged "proxy" "vless" end) three

abbrev tunnel_document : Value
tunnel_document = tunnel (tun_in "varmlen0") proxied

accepted : validate_xray_document (parsed tunnel_document) [] true ≡ ok tt
unfolding validate_xray_document text_eq is_proxy is_system contains_forbidden_file_key
accepted = refl

foreign_tun :
    is_err (validate_xray_document (parsed (tunnel (tun_in "tun7") proxied)) [] true) ≡ true
unfolding validate_xray_document text_eq
foreign_tun = refl

second_way_out :
    is_err (
      validate_xray_document
        (parsed (tunnel (tun_in "varmlen0") (cons (tagged "other" "freedom" end) proxied)))
        []
        true)
    ≡ true
unfolding validate_xray_document text_eq is_proxy
second_way_out = refl

validate_xray_document-IsPermitted_example :
    (document : Value) × (parsed tunnel_document [] ≡ some document) × IsPermitted true document
validate_xray_document-IsPermitted_example =
    validate_xray_document-IsPermitted (parsed tunnel_document) [] true accepted

abbrev measured_inbound : ℕ → String → Value
measured_inbound port listen = tagged "socks-in-0" "socks" (
    is "listen" listen (
      member (codes "port") (integer port)
        (has "settings" (is "auth" "noauth" (member (codes "udp") (bool false) end)) end)))

abbrev marked_proxy : ℕ → Value
marked_proxy mark =
    tagged "server" "trojan"
      (has "streamSettings" (has "sockopt" (member (codes "mark") (integer mark) end) end) end)

abbrev measured_rule : Value
measured_rule = object (
    is "type" "field" (
      is "network" "tcp,udp" (
        member (codes "inboundTag") (array (cons (text (codes "socks-in-0")) nil))
          (is "outboundTag" "server" end))))

abbrev ping_document : Value → Value → Value
ping_document inbound proxy = object (
    has "log" end (
      member (codes "inbounds") (array (cons inbound nil)) (
        member (codes "outbounds") (array (cons proxy (cons (tagged "direct" "freedom" end) nil)))
          (has "routing" (member (codes "rules") (array (cons measured_rule nil)) end) end))))

abbrev measurement : Value
measurement = ping_document (measured_inbound 2090 "127.0.0.1") (marked_proxy 0x2024)

unmarked :
    is_err (
      validate_ping_xray_document
        (parsed (ping_document (measured_inbound 2090 "127.0.0.1") (marked_proxy 0)))
        []
        (2090 ∷ []))
    ≡ true
unfolding validate_ping_xray_document text_eq decimal
unmarked = refl

open_port :
    is_err (
      validate_ping_xray_document
        (parsed (ping_document (measured_inbound 2090 "0.0.0.0") (marked_proxy 0x2024)))
        []
        (2090 ∷ []))
    ≡ true
unfolding validate_ping_xray_document text_eq decimal
open_port = refl
