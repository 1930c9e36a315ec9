-- ===== src/Protocol/Validate/Bounds.antt =====
-- What an accepted request is guaranteed to hold, in full: the checks accept nothing else and
-- refuse nothing of this.
use varmlen_cli_linux.Common.{
  ℕ, ◌≡◌, ◌≢◌, ◌↔◌, ◌≤◌, refl, true, false, ◌&&◌, ◌||◌, Option, none, some, List, [], ◌∷◌, arith,
}
use varmlen_cli_linux.Common.Tests.{ltb, leb, ◌==◌}
use varmlen_cli_linux.Common.Lists.{length, is_empty, get_elem?, any, All, all_iff, any-none_iff}
use varmlen_cli_linux.Common.Text.{Text, codes, len, trim, contains_char, text_eq_iff}
use varmlen_cli_linux.Common.Ip.{IpAddr, parse_ip}
use varmlen_cli_linux.Common.Outcome.{ok}
use varmlen_cli_linux.Protocol.{
  proxy, ConnectRequest, TcpPingRequest, ProxyPingRequest, DaemonCommand, connect, update_split,
  tcp_ping, proxy_ping, RequestEnvelope,
}
use varmlen_cli_linux.Protocol.Validate.{
  Url, is_some, is_bad_selector, validate_applications, validate_connect_request,
  validate_tcp_ping_request, contains_port, repeats, effective_socks_ports,
  effective_dns_probe_urls, is_good_url, names_address, starts_otherwise, dns_probe_urls_are_valid,
  validate_proxy_ping_request, validate_command, validate_request,
}

abbrev pub HasNoNul : Text → Type 0
HasNoNul s = All (λ c. c ≢ 0) s

contains_char_iff : (s : Text) → (contains_char s 0 ≡ false) ↔ HasNoNul s
unfolding contains_char
contains_char_iff s = any-none_iff (λ c. c ≢ 0) (λ d. d == 0) (λ c. ground arith) s

-- An application rule: not blank, at most 4096 bytes, no NUL.
pub record IsSelector (s : Text) : Type 0 where
  pub shown : trim s ≢ []
  pub short : len s ≤ 4096
  pub clean : HasNoNul s

is_empty_iff {ℓ} : {A : Type ℓ} (xs : List A) → (is_empty xs ≡ false) ↔ (xs ≢ [])
is_empty_iff [] = ground arith
is_empty_iff (x ∷ xs) = ground arith

is_bad_selector_iff : (s : Text) → (is_bad_selector s ≡ false) ↔ IsSelector s
unfolding is_bad_selector
is_bad_selector_iff s = ground (arith, contains_char_iff s, is_empty_iff (trim s))

-- A bounded list of application rules.
pub record IsExceptionList (apps : List Text) : Type 0 where
  pub few : length apps ≤ 256
  pub each : All IsSelector apps

selectors_iff : (apps : List Text) → (any is_bad_selector apps ≡ false) ↔ All IsSelector apps
selectors_iff apps = any-none_iff IsSelector is_bad_selector is_bad_selector_iff apps

pub validate_applications_iff :
    (apps : List Text) → (validate_applications apps ≡ ok tt) ↔ IsExceptionList apps
unfolding validate_applications
validate_applications_iff apps = ground (arith, selectors_iff apps)

-- What `Connect` may carry.
pub record IsConnect (q : ConnectRequest) : Type 0 where
  pub config : q.xray_config ≢ []
  pub config_size : len q.xray_config ≤ 393216
  pub validation : q.validation_config ≢ []
  pub validation_size : len q.validation_config ≤ 393216
  pub addressed : q.server_ips ≢ []
  pub addresses : length q.server_ips ≤ 64
  pub exceptions : IsExceptionList q.excluded_apps
  pub proxied : q.mode ≡ proxy → q.excluded_apps ≡ []

pub validate_connect_request_iff :
    (q : ConnectRequest) → (validate_connect_request q ≡ ok tt) ↔ IsConnect q
unfolding validate_connect_request
validate_connect_request_iff q = ground (
  arith,
  selectors_iff q.excluded_apps,
  is_empty_iff q.xray_config,
  is_empty_iff q.validation_config,
  is_empty_iff q.server_ips,
)

abbrev pub IsTimeout : ℕ → Type 0
IsTimeout ms = (100 ≤ ms) × (ms ≤ 15000)

pub record IsTcpPing (q : TcpPingRequest) : Type 0 where
  pub shown : trim q.host ≢ []
  pub short : len q.host ≤ 253
  pub clean : HasNoNul q.host
  pub port : q.port ≢ 0
  pub timeout : IsTimeout q.timeout_ms

pub validate_tcp_ping_request_iff :
    (q : TcpPingRequest) → (validate_tcp_ping_request q ≡ ok tt) ↔ IsTcpPing q
unfolding validate_tcp_ping_request
validate_tcp_ping_request_iff q =
    ground (arith, contains_char_iff q.host, is_empty_iff (trim q.host))

-- No port of the list stands in it twice, nor among those seen before it.
abbrev pub AreFresh : List ℕ → List ℕ → Type 0
AreFresh seen [] = Unit
AreFresh seen (port ∷ ports) = All (λ p. p ≢ port) seen × AreFresh (port ∷ seen) ports

contains_port_iff :
    (port : ℕ) (ports : List ℕ) → (contains_port port ports ≡ false) ↔ All (λ p. p ≢ port) ports
contains_port_iff port ports =
    any-none_iff (λ p. p ≢ port) (λ p. p == port) (λ p. ground arith) ports

repeats_iff : (seen ports : List ℕ) → (repeats seen ports ≡ false) ↔ AreFresh seen ports
repeats_iff seen [] = (λ h. tt, λ h. refl)
repeats_iff seen (port ∷ ports) =
    ground (arith, contains_port_iff port seen, repeats_iff (port ∷ seen) ports)

-- The ports of a proxy ping: at most 64, the named one first, none 0 and none twice.
pub record ArePorts (first : ℕ) (ports : List ℕ) : Type 0 where
  pub some_port : ports ≢ []
  pub few : length ports ≤ 64
  pub leads : get_elem? ports 0 ≡ some first
  pub real : All (λ p. p ≢ 0) ports
  pub distinct : AreFresh [] ports

abbrev pub NamesAddress : Option Text → Type 0
NamesAddress none = ⊥
NamesAddress (some host) = (ip : IpAddr) × (parse_ip host ≡ some ip)

-- The HTTPS address of a resolver given by number, with no user, password or fragment.
pub record IsResolver (url : Url) : Type 0 where
  pub scheme : url.scheme ≡ codes "https"
  pub username : url.username ≡ []
  pub password : url.password ≡ none
  pub fragment : url.fragment ≡ none
  pub host : NamesAddress url.host_str

abbrev pub IsParsedResolver : Option Url → Type 0
IsParsedResolver none = ⊥
IsParsedResolver (some url) = IsResolver url

-- What an accepted proxy ping holds.
pub record IsProxyPing (parse_url : Text → Option Url) (q : ProxyPingRequest) : Type 0 where
  pub config : q.xray_config ≢ []
  pub config_size : len q.xray_config ≤ 393216
  pub ports : ArePorts q.socks_port (effective_socks_ports q)
  pub few_urls : length q.dns_probe_urls ≤ 8
  pub urls : All (λ raw. (len raw ≤ 2048) × IsParsedResolver (parse_url raw)) q.dns_probe_urls
  pub timeout : IsTimeout q.timeout_ms

is_some_iff : {A : Type 0} (o : Option A) → (is_some o ≡ true) ↔ ((a : A) × (o ≡ some a))
is_some_iff none = ground arith
is_some_iff (some a) = (λ h. (a, refl), λ h. refl)

names_address_iff : (host : Option Text) → (names_address host ≡ true) ↔ NamesAddress host
names_address_iff none = ground arith
names_address_iff (some host) = is_some_iff (parse_ip host)

is_good_url_iff : (url : Option Url) → (is_good_url url ≡ true) ↔ IsParsedResolver url
unfolding is_good_url
is_good_url_iff none = ground arith
is_good_url_iff (some url) =
    ground (arith, text_eq_iff url.scheme (codes "https"), names_address_iff url.host_str)

module _ (parse_url : Text → Option Url) where
  probe_urls_iff :
      (urls : List Text)
      → (dns_probe_urls_are_valid parse_url urls ≡ true) ↔ (
          (length urls ≤ 8) × All (λ raw. (len raw ≤ 2048) × IsParsedResolver (parse_url raw)) urls)
  unfolding dns_probe_urls_are_valid
  probe_urls_iff urls = ground (
    arith,
    all_iff (λ raw. (len raw ≤ 2048) × IsParsedResolver (parse_url raw))
        (λ raw. leb (len raw) 2048 && is_good_url (parse_url raw))
        (λ raw. ground (arith, is_good_url_iff (parse_url raw))) urls,
  )

  ports_iff :
      (first : ℕ) (ports : List ℕ)
      → ((is_empty ports
            || ltb 64 (length ports)
            || starts_otherwise ports first
            || contains_port 0 ports
            || repeats [] ports)
          ≡ false)
        ↔ ArePorts first ports
  ports_iff first [] = ground arith
  ports_iff first (p ∷ ports) =
      ground (arith, contains_port_iff 0 (p ∷ ports), repeats_iff [] (p ∷ ports))

  pub validate_proxy_ping_request_iff :
      (q : ProxyPingRequest)
      → (validate_proxy_ping_request parse_url q ≡ ok tt) ↔ IsProxyPing parse_url q
  unfolding validate_proxy_ping_request effective_dns_probe_urls
  validate_proxy_ping_request_iff q = ground (
    arith,
    is_empty_iff q.xray_config,
    probe_urls_iff q.dns_probe_urls,
    ports_iff q.socks_port (effective_socks_ports q),
  )

  -- What a request of each command holds, once it is accepted.
  abbrev pub IsAcceptable : DaemonCommand → Type 0
  IsAcceptable (connect request) = IsConnect request
  IsAcceptable (tcp_ping ping) = IsTcpPing ping
  IsAcceptable (proxy_ping ping) = IsProxyPing parse_url ping
  IsAcceptable (update_split applications) = IsExceptionList applications.applications
  IsAcceptable _ = Unit

  validate_command_iff :
      (command : DaemonCommand)
      → (validate_command parse_url command ≡ ok tt) ↔ IsAcceptable command
  unfolding validate_command
  validate_command_iff (connect request) = validate_connect_request_iff request
  validate_command_iff (tcp_ping ping) = validate_tcp_ping_request_iff ping
  validate_command_iff (proxy_ping ping) = validate_proxy_ping_request_iff ping
  validate_command_iff (update_split apps) = validate_applications_iff apps.applications
  validate_command_iff _ = (λ h. tt, λ h. refl)

  -- A request is accepted exactly when it speaks protocol version 3 and its command keeps all of
  -- its bounds.
  pub validate_request_iff :
      (request : RequestEnvelope)
      → (validate_request parse_url request ≡ ok tt)
        ↔ ((request.version ≡ 3) × IsAcceptable request.command)
  unfolding validate_request
  validate_request_iff request = ground (arith, validate_command_iff request.command)
