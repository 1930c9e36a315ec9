-- ===== src/Protocol/Validate.antt =====
-- daemon/src/protocol.rs: the checks that a request passes before it is obeyed.
pub mod Bounds
mod Tests
use varmlen_cli_linux.Common.{
  ℕ, zero, suc, ◌*◌, Bool, true, false, not, ◌&&◌, ◌||◌, Option, none, some, List, [], ◌∷◌,
}
use varmlen_cli_linux.Common.Tests.{ltb, leb, ◌==◌, if◌then◌else◌}
use varmlen_cli_linux.Common.Lists.{length, is_empty, any, all}
use varmlen_cli_linux.Common.Text.{Text, codes, len, trim, contains_char, text_eq}
use varmlen_cli_linux.Common.Ip.{IpAddr, parse_ip}
use varmlen_cli_linux.Common.Outcome.{Result, ok, err, ◌>>=◌, ◌>>◌, refuse_if}
use varmlen_cli_linux.Protocol.{
  ConnectionMode, tun, proxy, ConnectRequest, ApplicationsRequest, TcpPingRequest, ProxyPingRequest,
  DaemonCommand, status, connect, disconnect, update_split, tcp_ping, proxy_ping, log_tail,
  clear_log, RequestEnvelope, DaemonErrorCode, unsupported_version, frame_too_large, invalid_frame,
  invalid_request, protocol_version, max_frame_bytes, max_config_bytes, max_server_ips,
  max_excluded_apps, max_app_selector_bytes, max_ping_host_bytes, max_dns_probe_urls,
  max_dns_probe_url_bytes, min_ping_timeout_ms, max_ping_timeout_ms,
}

-- What `reqwest::Url::parse` answers about a text that it accepts.
pub record Url : Type 0 where
  pub scheme : Text
  pub username : Text
  pub password : Option Text
  pub fragment : Option Text
  pub host_str : Option Text

abbrev pub is_some {ℓ} : {A : Type ℓ} → Option A → Bool
is_some none = false
is_some (some a) = true

abbrev pub is_proxy : ConnectionMode → Bool
is_proxy tun = false
is_proxy proxy = true

abbrev is_outside : ℕ → Bool
is_outside timeout_ms =
    not (leb min_ping_timeout_ms timeout_ms && leb timeout_ms max_ping_timeout_ms)

-- One application selector, as both checks of an exception list read it.
pub is_bad_selector : Text → Bool
is_bad_selector application =
    is_empty (trim application)
    || ltb max_app_selector_bytes (len application)
    || contains_char application 0

pub validate_applications : List Text → Result DaemonErrorCode (Unit {0})
validate_applications applications =
    refuse_if (ltb max_excluded_apps (length applications) || any is_bad_selector applications)
      invalid_request

pub validate_connect_request : ConnectRequest → Result DaemonErrorCode (Unit {0})
validate_connect_request request =
    refuse_if
      (is_empty request.xray_config
        || is_empty request.validation_config
        || ltb max_config_bytes (len request.xray_config)
        || ltb max_config_bytes (len request.validation_config)
        || is_empty request.server_ips
        || ltb max_server_ips (length request.server_ips)
        || ltb max_excluded_apps (length request.excluded_apps)
        || any is_bad_selector request.excluded_apps
        || (is_proxy request.mode && not (is_empty request.excluded_apps)))
      invalid_request

pub validate_tcp_ping_request : TcpPingRequest → Result DaemonErrorCode (Unit {0})
validate_tcp_ping_request request =
    refuse_if
      (is_empty (trim request.host)
        || ltb max_ping_host_bytes (len request.host)
        || contains_char request.host 0
        || request.port == 0
        || is_outside request.timeout_ms)
      invalid_request

pub effective_socks_ports : ProxyPingRequest → List ℕ
effective_socks_ports request =
    if is_empty request.socks_ports then request.socks_port ∷ [] else request.socks_ports

pub effective_dns_probe_urls : ProxyPingRequest → List Text
effective_dns_probe_urls request = request.dns_probe_urls

abbrev pub contains_port : ℕ → List ℕ → Bool
contains_port port = any (λ p. p == port)

-- `ports[..index].contains(port)` for some index, over the ports seen so far.
abbrev pub repeats : List ℕ → List ℕ → Bool
repeats seen [] = false
repeats seen (port ∷ ports) = contains_port port seen || repeats (port ∷ seen) ports

-- `ports[0] != port`, behind a test that there is one.
abbrev starts_otherwise : List ℕ → ℕ → Bool
starts_otherwise [] port = true
starts_otherwise (p ∷ ports) port = not (p == port)

abbrev pub names_address : Option Text → Bool
names_address none = false
names_address (some host) = is_some (parse_ip host)

pub is_good_url : Option Url → Bool
is_good_url none = false
is_good_url (some url) =
    text_eq url.scheme (codes "https")
    && is_empty url.username
    && not (is_some url.password)
    && not (is_some url.fragment)
    && names_address url.host_str

-- `Url::parse` is a third party's: it is a parameter.
module _ (parse_url : Text → Option Url) where
  pub dns_probe_urls_are_valid : List Text → Bool
  dns_probe_urls_are_valid urls =
      leb (length urls) max_dns_probe_urls
      && all (λ raw. leb (len raw) max_dns_probe_url_bytes && is_good_url (parse_url raw)) urls

  pub validate_proxy_ping_request : ProxyPingRequest → Result DaemonErrorCode (Unit {0})
  validate_proxy_ping_request request =
      let ports = effective_socks_ports request in
      refuse_if
        (is_empty request.xray_config
          || ltb max_config_bytes (len request.xray_config)
          || request.socks_port == 0
          || is_empty ports
          || ltb max_server_ips (length ports)
          || starts_otherwise ports request.socks_port
          || contains_port 0 ports
          || repeats [] ports
          || not (dns_probe_urls_are_valid (effective_dns_probe_urls request))
          || is_outside request.timeout_ms)
        invalid_request

  pub validate_command : DaemonCommand → Result DaemonErrorCode (Unit {0})
  validate_command (connect request) = validate_connect_request request
  validate_command (tcp_ping ping) = validate_tcp_ping_request ping
  validate_command (proxy_ping ping) = validate_proxy_ping_request ping
  validate_command (update_split applications) = validate_applications applications.applications
  validate_command status = ok tt
  validate_command disconnect = ok tt
  validate_command log_tail = ok tt
  validate_command clear_log = ok tt

  pub validate_request : RequestEnvelope → Result DaemonErrorCode (Unit {0})
  validate_request request =
      if request.version == protocol_version
      then validate_command request.command
      else err unsupported_version
