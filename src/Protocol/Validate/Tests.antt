-- ===== src/Protocol/Validate/Tests.antt =====
-- Requests at the edge of their bounds, and a codec of small messages.
use varmlen_cli_linux.Common.{
  ℕ, ◌≡◌, ◌↔◌, ◌≤◌, refl, String, Bool, true, false, Option, none, some, [], ◌∷◌, arith,
}
use varmlen_cli_linux.Common.Tests.{if◌then◌else◌}
use varmlen_cli_linux.Common.Lists.{length}
use varmlen_cli_linux.Common.Text.{Text, codes, len, trim, contains_char, text_eq}
use varmlen_cli_linux.Common.Ip.{v4, parse_ip}
use varmlen_cli_linux.Common.Outcome.{Result, ok, err}
use varmlen_cli_linux.Protocol.{
  tun, proxy, ConnectRequest, ProxyPingRequest, DaemonCommand, status, proxy_ping, RequestEnvelope,
  ResponseEnvelope, DaemonState, DaemonError, DaemonErrorCode, internal, invalid_request,
  max_frame_bytes, max_ping_timeout_ms,
}
use varmlen_cli_linux.Protocol.Validate.{
  Url, is_bad_selector, validate_connect_request, effective_socks_ports, effective_dns_probe_urls,
  is_good_url, dns_probe_urls_are_valid, validate_proxy_ping_request, validate_command,
  validate_request,
}
use varmlen_cli_linux.Protocol.Validate.Bounds.{IsAcceptable, validate_request_iff}
use varmlen_cli_linux.Protocol.Frames.{
  Bytes, Codec, ReadsBack, encode_frame, decode_request_frame, decode_response_frame,
  decode_request_frame-encode_frame, decode_response_frame-encode_frame, decode_request_frame_ok,
}

abbrev connect_request : ConnectRequest
connect_request = record {
  mode = tun;
  xray_config = codes "{}";
  validation_config = codes "{}";
  server_ips = v4 203 0 113 7 ∷ [];
  excluded_apps = codes "cs2" ∷ [];
  killswitch = true;
  allow_lan = false;
}

connect_accepted : validate_connect_request connect_request ≡ ok tt
unfolding validate_connect_request is_bad_selector trim len contains_char
connect_accepted = refl

connect_refused :
    (validate_connect_request (record connect_request { server_ips = [] }) ≡ err invalid_request)
    × (validate_connect_request (record connect_request { mode = proxy }) ≡ err invalid_request)
    × (validate_connect_request (record connect_request { excluded_apps = codes "  " ∷ [] })
        ≡ err invalid_request)
unfolding validate_connect_request is_bad_selector trim len contains_char
connect_refused = (refl, refl, refl)

-- A parser that knows one address.
abbrev resolver : Url
resolver = record {
  scheme = codes "https";
  username = [];
  password = none;
  fragment = none;
  host_str = some (codes "9.9.9.9");
}

abbrev parse_url : Text → Option Url
parse_url raw = some resolver

abbrev ping : ProxyPingRequest
ping = record {
  xray_config = codes "{}";
  socks_port = 32000;
  socks_ports = 32000 ∷ 32001 ∷ [];
  dns_probe_urls = codes "https://9.9.9.9/dns-query" ∷ [];
  timeout_ms = max_ping_timeout_ms;
}

ping_accepted :
    (validate_proxy_ping_request parse_url ping ≡ ok tt)
    × (validate_proxy_ping_request parse_url (record ping { timeout_ms = 15001 })
        ≡ err invalid_request)
unfolding validate_proxy_ping_request effective_socks_ports effective_dns_probe_urls
    dns_probe_urls_are_valid is_good_url parse_ip text_eq len
ping_accepted = (refl, refl)

abbrev envelope : DaemonCommand → RequestEnvelope
envelope command = record { version = 3; operation_id = 41; command = command }

validate_request_iff_example :
    (validate_request parse_url (envelope (proxy_ping ping)) ≡ ok tt)
    ↔ ((◌≡◌ {A = ℕ} 3 3) × IsAcceptable parse_url (proxy_ping ping))
validate_request_iff_example = validate_request_iff parse_url (envelope (proxy_ping ping))

-- Status requests, by version and id.
pub pack : ℕ → ℕ → DaemonCommand → Option Bytes
pack version id status = some (version ∷ id ∷ [])
pack version id _ = none

pub unpack : Bytes → Option RequestEnvelope
unpack (version ∷ id ∷ []) =
    some (record { version = version; operation_id = id; command = status })
unpack _ = none

abbrev pub requests : Codec RequestEnvelope
requests = record { to_vec = λ r. pack r.version r.operation_id r.command; from_slice = unpack }

unpack-pack :
    (version id : ℕ) (command : DaemonCommand) (bytes : Bytes)
    → pack version id command ≡ some bytes
    → unpack bytes ≡ some (record { version = version; operation_id = id; command = command })
unfolding pack unpack
unpack-pack version id status bytes e = ground arith
unpack-pack version id _ bytes e = cc

requests_back : ReadsBack requests
requests_back r bytes e = unpack-pack r.version r.operation_id r.command bytes e

decode_request_frame-encode_frame_example :
    decode_request_frame parse_url requests (3 ∷ 41 ∷ []) ≡ ok (envelope status)
unfolding validate_request validate_command encode_frame pack
decode_request_frame-encode_frame_example =
    decode_request_frame-encode_frame parse_url requests (envelope status) (3 ∷ 41 ∷ [])
      requests_back refl refl

decode_request_frame_ok_example :
    (length {A = ℕ} (3 ∷ 41 ∷ []) ≤ max_frame_bytes)
    × (validate_request parse_url (envelope status) ≡ ok tt)
decode_request_frame_ok_example =
    decode_request_frame_ok parse_url requests (3 ∷ 41 ∷ []) (envelope status)
      decode_request_frame-encode_frame_example

-- Refusals with the code `Internal` and no text, by version and id.
is_bare : DaemonErrorCode → String → String → Bool
is_bare internal String.[] String.[] = true
is_bare _ _ _ = false

is_bare_lem :
    (code : DaemonErrorCode) (message version : String)
    → is_bare code message version ≡ true
    → (code ≡ internal) × (message ≡ "") × (version ≡ "")
unfolding is_bare
is_bare_lem internal String.[] String.[] h = (refl, refl, refl)
is_bare_lem _ _ _ h = cc

pub pack_refusal : ℕ → ℕ → Result DaemonError DaemonState → String → Option Bytes
pack_refusal version id (ok state) daemon = none
pack_refusal version id (err e) daemon =
    if is_bare e.code e.message daemon then some (version ∷ id ∷ []) else none

abbrev refusal : ℕ → ℕ → ResponseEnvelope
refusal version id = record {
  version = version;
  operation_id = id;
  result = err (record { code = internal; message = "" });
  daemon_version = "";
}

pub unpack_refusal : Bytes → Option ResponseEnvelope
unpack_refusal (version ∷ id ∷ []) = some (refusal version id)
unpack_refusal _ = none

abbrev pub refusals : Codec ResponseEnvelope
refusals = record {
  to_vec = λ r. pack_refusal r.version r.operation_id r.result r.daemon_version;
  from_slice = unpack_refusal;
}

unpack_refusal-pack_refusal :
    (version id : ℕ) (result : Result DaemonError DaemonState) (daemon : String) (bytes : Bytes)
    → pack_refusal version id result daemon ≡ some bytes
    → unpack_refusal bytes
      ≡ some (record {
        version = version;
        operation_id = id;
        result = result;
        daemon_version = daemon;
      })
unfolding pack_refusal unpack_refusal
unpack_refusal-pack_refusal version id (ok state) daemon bytes h = cc
unpack_refusal-pack_refusal version id (err e) daemon bytes h =
    ground (arith, is_bare_lem e.code e.message daemon)

refusals_back : ReadsBack refusals
refusals_back r bytes e =
    unpack_refusal-pack_refusal r.version r.operation_id r.result r.daemon_version bytes e

decode_response_frame-encode_frame_example :
    decode_response_frame refusals (3 ∷ 7 ∷ []) ≡ ok (refusal 3 7)
unfolding encode_frame pack_refusal is_bare
decode_response_frame-encode_frame_example =
    decode_response_frame-encode_frame refusals (refusal 3 7) (3 ∷ 7 ∷ []) refusals_back refl refl
