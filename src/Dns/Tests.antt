-- ===== src/Dns/Tests.antt =====
-- The probe's query, the guard on a backend of three flags, and resolver files.
use mathlib.Core.List.{Memᴰ}
use varmlen_cli_linux.Common.{
  ℕ, ◌+◌, ◌≤◌, ◌↔◌, ◌≡◌, refl, Bool, true, false, Option, none, some, List, [], ◌∷◌,
}
use varmlen_cli_linux.Common.Tests.{◌==◌, if◌then◌else◌}
use varmlen_cli_linux.Common.Lists.{All-map, length, All}
use varmlen_cli_linux.Common.Text.{Text, codes, pieces, text_eq, len, words, lines}
use varmlen_cli_linux.Common.Ip.{IpAddr, v4, v6, parse_ip}
use varmlen_cli_linux.Common.Outcome.{ok, is_err}
use varmlen_cli_linux.Dns.{Bytes, build_dns_query, validate_dns_response, DnsBackend, install}
use varmlen_cli_linux.Dns.Query.{IsLabel, encoded_length, build_dns_query_iff}
use varmlen_cli_linux.Dns.Direct.{
  is_loopback, is_unspecified, is_multicast, parse_nameservers, before_comment, ip_eq,
  discover_upstreams, valid_dns_query, valid_dns_response, answer, fallback_upstreams,
}
use varmlen_cli_linux.Dns.Direct.Laws.{
  AreUpstreams, IsAmong, discover_upstreams-AreUpstreams, valid_dns_response-validate,
}
use varmlen_cli_linux.Dns.Direct.Answers.{IsAnswered, answer-IsAnswered}

abbrev dot : ℕ → Bool
dot c = c == b'.'

abbrev mullvad : Text
mullvad = codes "mullvad.net"

abbrev mullvad_query : Bytes
mullvad_query =
    0x12 ∷ 0x34 ∷ 1 ∷ 0 ∷ 0 ∷ 1 ∷ 0 ∷ 0 ∷ 0 ∷ 0 ∷ 0 ∷ 0 ∷ 7 ∷ b'm' ∷ b'u' ∷ b'l' ∷ b'l' ∷ b'v'
    ∷ b'a' ∷ b'd' ∷ 3 ∷ b'n' ∷ b'e' ∷ b't' ∷ 0 ∷ 0 ∷ 1 ∷ 0 ∷ 1 ∷ []

built : build_dns_query 0x1234 mullvad ≡ ok mullvad_query
unfolding build_dns_query pieces len
built = refl

no_empty_label : is_err (build_dns_query 0x1234 (codes "mullvad..net")) ≡ true
unfolding build_dns_query pieces len
no_empty_label = refl

build_dns_query_iff_example :
    ((query : Bytes) × (build_dns_query 0x1234 mullvad ≡ ok query)
      × (length query ≡ 17 + encoded_length (pieces dot mullvad)))
    ↔ (All IsLabel (pieces dot mullvad) × (17 + encoded_length (pieces dot mullvad) ≤ 512))
build_dns_query_iff_example = build_dns_query_iff 0x1234 mullvad

abbrev a_response : Bytes
a_response = 0x12 ∷ 0x34 ∷ 0x81 ∷ 0x80 ∷ 0 ∷ 1 ∷ 0 ∷ 1 ∷ 0 ∷ 0 ∷ 0 ∷ 0 ∷ []

response_accepted : validate_dns_response 0x1234 a_response ≡ true
unfolding validate_dns_response
response_accepted = refl

other_transaction : validate_dns_response 0x9999 a_response ≡ false
unfolding validate_dns_response
other_transaction = refl

valid_dns_response-validate_example :
    (valid_dns_query mullvad_query ≡ true)
    × (valid_dns_response mullvad_query a_response ≡ validate_dns_response 0x1234 a_response)
valid_dns_response-validate_example =
    valid_dns_response-validate 0x1234 mullvad mullvad_query a_response built

-- Every file names the resolver of the machine, and a router.
abbrev a_file : Text → Option Text
a_file path = some (codes "nameserver 127.0.0.53\nnameserver 192.168.1.1 # router\n")

discovered : discover_upstreams a_file ≡ v4 192 168 1 1 ∷ fallback_upstreams
unfolding discover_upstreams parse_nameservers words lines text_eq parse_ip ip_eq is_loopback
    is_unspecified is_multicast before_comment
discovered = refl

discover_upstreams-AreUpstreams_example :
    AreUpstreams (discover_upstreams a_file)
    × All (IsAmong (discover_upstreams a_file)) fallback_upstreams
discover_upstreams-AreUpstreams_example = discover_upstreams-AreUpstreams a_file

-- The router fails, and the first of the fallback servers answers.
abbrev an_exchange : IpAddr → Bytes → Option Bytes
an_exchange (v4 a b c d) packet = if a == 1 then some a_response else none
an_exchange (v6 gs) packet = none

answered : answer an_exchange (λ servers. servers) a_file true mullvad_query ≡ some a_response
unfolding answer discover_upstreams parse_nameservers words lines text_eq parse_ip ip_eq is_loopback
    is_unspecified is_multicast before_comment
answered = refl

All-Memᴰ : (servers : List IpAddr) → All (λ server. Memᴰ server servers) servers
All-Memᴰ [] = tt
All-Memᴰ (s ∷ servers) = (
  Memᴰ.head refl,
  All-map _ (λ server. Memᴰ server (s ∷ servers)) (λ server m. Memᴰ.tail m) servers
      (All-Memᴰ servers),
)

answer-IsAnswered_example :
    IsAnswered an_exchange
      (discover_upstreams a_file)
      true
      mullvad_query
      (answer an_exchange (λ servers. servers) a_file true mullvad_query)
answer-IsAnswered_example =
    answer-IsAnswered an_exchange (λ servers. servers) All-Memᴰ All-Memᴰ a_file true mullvad_query

-- A table that can be there, and a tunnel that answers where the first flag says so; the second
-- says whether the table is there.
abbrev Flags : Type 0
Flags = Bool × Bool

abbrev flag_backend : DnsBackend Flags
flag_backend = record {
  apply = λ s. (ok tt, (s.0, true));
  probe_through_tunnel = λ s. (ok s.0, s);
  remove = λ s. (ok tt, (s.0, false));
}

abbrev NoTable : Flags → Type 0
NoTable s = s.1 ≡ false

abbrev Answers : Flags → Type 0
Answers s = s.0 ≡ true

refused_is_removed : (install flag_backend (false, false)).1 ≡ (false, false)
unfolding install
refused_is_removed = refl
