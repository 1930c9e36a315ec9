-- ===== src/Dns/Direct.antt =====
-- daemon/src/direct_dns.rs: the resolver for the applications outside the tunnel: which servers it
-- asks, and which packets it passes on over UDP. Reading a file and the exchanges with the servers
-- are parameters; the resolver over TCP is left out.
pub mod Laws
pub mod Answers
use varmlen_cli_linux.Common.{
  ℕ, ◌/◌, ◌%◌, Bool, true, false, not, ◌&&◌, ◌||◌, Option, none, some, List, [], ◌∷◌, ◌++◌,
}
use varmlen_cli_linux.Common.Tests.{ltb, leb, ◌==◌, if◌then◌else◌}
use varmlen_cli_linux.Common.Lists.{length, any, keep}
use varmlen_cli_linux.Common.Text.{Text, codes, text_eq, words, lines}
use varmlen_cli_linux.Common.Ip.{IpAddr, v4, v6, parse_ip}
use varmlen_cli_linux.Dns.{Bytes, is_response}

-- `split_once('#')`: what stands before the first one.
unfoldable pub before_comment : Text → Text
before_comment [] = []
before_comment (c ∷ s) = let rest = before_comment s in if c == b'#' then [] else c ∷ rest

-- The addresses that stand for this machine, for none, and for many.
abbrev pub all_zero : List ℕ → Bool
all_zero [] = true
all_zero (g ∷ gs) = g == 0 && all_zero gs

abbrev pub is_one : List ℕ → Bool
is_one [] = false
is_one (g ∷ []) = g == 1
is_one (g ∷ h ∷ gs) = g == 0 && is_one (h ∷ gs)

abbrev pub first_group : List ℕ → ℕ
first_group [] = 0
first_group (g ∷ gs) = g

unfoldable pub is_loopback : IpAddr → Bool
is_loopback (v4 a b c d) = a == 127
is_loopback (v6 gs) = is_one gs

unfoldable pub is_unspecified : IpAddr → Bool
is_unspecified (v4 a b c d) = a == 0 && b == 0 && c == 0 && d == 0
is_unspecified (v6 gs) = all_zero gs

unfoldable pub is_multicast : IpAddr → Bool
is_multicast (v4 a b c d) = leb 224 a && leb a 239
is_multicast (v6 gs) = first_group gs / 256 == 255

abbrev pub is_local : IpAddr → Bool
is_local address = is_loopback address || is_unspecified address || is_multicast address

abbrev pub usable : Option IpAddr → Option IpAddr
usable none = none
usable (some address) = if is_local address then none else some address

abbrev pub of_fields : List Text → Option IpAddr
of_fields [] = none
of_fields (name ∷ []) = none
of_fields (name ∷ value ∷ rest) =
    if text_eq name (codes "nameserver") then usable (parse_ip value) else none

-- The server of a line; each is asked at port 53.
abbrev pub nameserver : Text → Option IpAddr
nameserver line = of_fields (words (before_comment line))

abbrev pub onto : Option IpAddr → List IpAddr → List IpAddr
onto none found = found
onto (some address) found = address ∷ found

unfoldable pub nameservers : List Text → List IpAddr
nameservers [] = []
nameservers (line ∷ rest) = onto (nameserver line) (nameservers rest)

unfoldable pub parse_nameservers : Text → List IpAddr
unfolding nameservers
parse_nameservers contents = nameservers (lines contents)

abbrev pub groups_eq : List ℕ → List ℕ → Bool
groups_eq [] [] = true
groups_eq [] (h ∷ hs) = false
groups_eq (g ∷ gs) [] = false
groups_eq (g ∷ gs) (h ∷ hs) = g == h && groups_eq gs hs

unfoldable pub ip_eq : IpAddr → IpAddr → Bool
ip_eq (v4 a b c d) (v4 e f g h) = a == e && b == f && c == g && d == h
ip_eq (v4 a b c d) (v6 hs) = false
ip_eq (v6 gs) (v4 e f g h) = false
ip_eq (v6 gs) (v6 hs) = groups_eq gs hs

-- `seen.insert(upstream)` before `push`: each server once, after those found before.
unfoldable pub insert_all : List IpAddr → List IpAddr → List IpAddr
insert_all upstreams [] = upstreams
insert_all upstreams (a ∷ more) =
    insert_all (if any (λ b. ip_eq a b) upstreams then upstreams else upstreams ++ (a ∷ [])) more

abbrev pub resolver_files : List Text
resolver_files =
    codes "/run/systemd/resolve/resolv.conf"
    ∷ codes "/run/NetworkManager/no-stub-resolv.conf"
    ∷ codes "/run/NetworkManager/resolv.conf"
    ∷ codes "/run/resolvconf/resolv.conf"
    ∷ codes "/etc/resolv.conf"
    ∷ []

abbrev pub fallback_upstreams : List IpAddr
fallback_upstreams = v4 1 1 1 1 ∷ v4 8 8 8 8 ∷ v4 9 9 9 9 ∷ []

abbrev pub servers_in : Option Text → List IpAddr
servers_in none = []
servers_in (some contents) = parse_nameservers contents

unfoldable pub read_files : (Text → Option Text) → List IpAddr → List Text → List IpAddr
unfolding insert_all
read_files read_to_string upstreams [] = upstreams
read_files read_to_string upstreams (path ∷ paths) =
    read_files read_to_string (insert_all upstreams (servers_in (read_to_string path))) paths

unfoldable pub discover_upstreams : (Text → Option Text) → List IpAddr
unfolding read_files insert_all
discover_upstreams read_to_string =
    insert_all (read_files read_to_string [] resolver_files) fallback_upstreams

-- `packet[2] & 0x80 == 0`, where there are twelve bytes.
unfoldable pub valid_dns_query : Bytes → Bool
valid_dns_query (a ∷ b ∷ flags ∷ rest) =
    leb 12 (length (a ∷ b ∷ flags ∷ rest)) && not (is_response flags)
valid_dns_query _ = false

unfoldable pub valid_dns_response : Bytes → Bytes → Bool
valid_dns_response (i ∷ j ∷ query) (a ∷ b ∷ flags ∷ rest) =
    leb 12 (length (a ∷ b ∷ flags ∷ rest)) && (a == i && b == j) && is_response flags
valid_dns_response _ _ = false

abbrev pub or_later : Bytes → Option Bytes → Option Bytes → Option Bytes
unfolding valid_dns_response
or_later query none later = later
or_later query (some response) later =
    if valid_dns_response query response then some response else later

-- The servers in the order in which their exchanges end: the first good response counts. An
-- exchange that fails gives none.
unfoldable pub first_response : (IpAddr → Bytes → Option Bytes) → Bytes → List IpAddr → Option Bytes
unfolding or_later
first_response query_server query [] = none
first_response query_server query (upstream ∷ pending) =
    let later = first_response query_server query pending in
    or_later query (query_server upstream query) later

-- What `serve_udp` sends back for a packet. How an exchange with a server ends, in which order
-- the exchanges end, and whether there is still a permit are parameters.
unfoldable pub answer :
    (IpAddr → Bytes → Option Bytes)
    → (List IpAddr → List IpAddr)
    → (Text → Option Text)
    → Bool
    → Bytes
    → Option Bytes
unfolding valid_dns_query first_response discover_upstreams
answer udp_query completed read_to_string permit packet =
    if valid_dns_query packet && permit
    then first_response udp_query packet (completed (discover_upstreams read_to_string))
    else none
