-- ===== src/Protocol.antt =====
-- daemon/src/protocol.rs: the messages between a client and the daemon.
pub mod Validate
pub mod Frames
use varmlen_cli_linux.Common.{ℕ, String, Bool, Option, List, ◌*◌}
use varmlen_cli_linux.Common.Ip.{IpAddr}
use varmlen_cli_linux.Common.Outcome.{Result}
use varmlen_cli_linux.Common.Text.{Text}

pub data ConnectionMode : Type 0 where
  tun proxy : ConnectionMode

pub record ConnectRequest : Type 0 where
  pub mode : ConnectionMode
  pub xray_config : Text
  pub validation_config : Text
  pub server_ips : List IpAddr
  pub excluded_apps : List Text
  pub killswitch : Bool
  pub allow_lan : Bool

pub record ApplicationsRequest : Type 0 where
  pub applications : List Text

pub record TcpPingRequest : Type 0 where
  pub host : Text
  pub port : ℕ  -- u16
  pub timeout_ms : ℕ  -- u32

pub record ProxyPingRequest : Type 0 where
  pub xray_config : Text
  pub socks_port : ℕ  -- u16
  pub socks_ports : List ℕ
  pub dns_probe_urls : List Text
  pub timeout_ms : ℕ  -- u32

pub data DaemonCommand : Type 0 where
  status : DaemonCommand
  connect : ConnectRequest → DaemonCommand
  disconnect : DaemonCommand
  update_split : ApplicationsRequest → DaemonCommand
  tcp_ping : TcpPingRequest → DaemonCommand
  proxy_ping : ProxyPingRequest → DaemonCommand
  log_tail clear_log : DaemonCommand

pub record RequestEnvelope : Type 0 where
  pub version : ℕ  -- u16
  pub operation_id : ℕ  -- u64
  pub command : DaemonCommand

pub data ConnectionPhase : Type 0 where
  disconnected preparing connected blocking reconnecting recovery_required : ConnectionPhase

pub record DaemonState : Type 0 where
  pub phase : ConnectionPhase
  pub split_active : Bool
  pub dns_protected : Bool
  pub rtt_ms : Option ℕ
  pub log_tail : Option Text

pub data DaemonErrorCode : Type 0 where
  unsupported_version frame_too_large invalid_frame unauthorized hold_block_failed : DaemonErrorCode
  hold_block_verification_failed hold_block_removal_failed : DaemonErrorCode
  tunnel_preparation_failed tunnel_commit_failed tunnel_cleanup_failed : DaemonErrorCode
  dns_install_failed dns_verification_failed invalid_request xray_unavailable : DaemonErrorCode
  xray_validation_failed xray_start_failed split_unavailable ping_failed internal : DaemonErrorCode

pub record DaemonError : Type 0 where
  pub code : DaemonErrorCode
  pub message : String

pub record ResponseEnvelope : Type 0 where
  pub version : ℕ
  pub operation_id : ℕ
  pub result : Result DaemonError DaemonState
  pub daemon_version : String

abbrev pub protocol_version : ℕ
protocol_version = 3

abbrev pub max_frame_bytes : ℕ
max_frame_bytes = 1024 * 1024

abbrev pub max_config_bytes : ℕ
max_config_bytes = 384 * 1024

abbrev pub max_server_ips : ℕ
max_server_ips = 64

abbrev pub max_excluded_apps : ℕ
max_excluded_apps = 256

abbrev pub max_app_selector_bytes : ℕ
max_app_selector_bytes = 4096

abbrev pub max_ping_host_bytes : ℕ
max_ping_host_bytes = 253

abbrev pub max_dns_probe_urls : ℕ
max_dns_probe_urls = 8

abbrev pub max_dns_probe_url_bytes : ℕ
max_dns_probe_url_bytes = 2048

abbrev pub min_ping_timeout_ms : ℕ
min_ping_timeout_ms = 100

abbrev pub max_ping_timeout_ms : ℕ
max_ping_timeout_ms = 15000
