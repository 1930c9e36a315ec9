-- ===== src/Dns/Direct/Laws.antt =====
-- Which servers are asked, and what passes for a response.
use varmlen_cli_linux.Common.{
  ℕ, ◌/◌, ◌%◌, ◌≡◌, refl, subst, inl, inr, true, false, Option, none, some, List, [], ◌∷◌, ◌++◌,
  arith,
}
use varmlen_cli_linux.Common.Tests.{Bool-cases}
use varmlen_cli_linux.Common.Lists.{any, All}
use varmlen_cli_linux.Common.Text.{Text, text_eq, codes}
use varmlen_cli_linux.Common.Json.{any-append}
use varmlen_cli_linux.Common.Ip.{IpAddr, v4, v6, parse_ip}
use varmlen_cli_linux.Common.Outcome.{ok}
use varmlen_cli_linux.Dns.{Bytes, build_dns_query, validate_dns_response}
use varmlen_cli_linux.Dns.Query.{build_dns_query-append}
use varmlen_cli_linux.Dns.Direct.{
  is_loopback, is_unspecified, is_multicast, is_local, usable, of_fields, nameserver, onto,
  nameservers, parse_nameservers, groups_eq, ip_eq, insert_all, resolver_files, fallback_upstreams,
  servers_in, read_files, discover_upstreams, valid_dns_query, valid_dns_response,
}

abbrev pub IsRemote : IpAddr → Type 0
IsRemote address =
    (is_loopback address ≡ false)
    × (is_unspecified address ≡ false)
    × (is_multicast address ≡ false)

-- No address stands twice.
abbrev pub Apart : List IpAddr → Type 0
Apart [] = Unit
Apart (a ∷ us) = All (λ later. ip_eq later a ≡ false) us × Apart us

All-append :
    (P : IpAddr → Type 0) (us : List IpAddr) (b : IpAddr) → All P us → P b → All P (us ++ (b ∷ []))
All-append P [] b h p = (p, tt)
All-append P (a ∷ us) b (h, hs) p = (h, All-append P us b hs p)

Apart-append :
    (us : List IpAddr) (b : IpAddr)
    → Apart us
    → any (λ a. ip_eq b a) us ≡ false
    → Apart (us ++ (b ∷ []))
Apart-append [] b h f = (tt, tt)
Apart-append (a ∷ us) b (h, hs) f = (
  All-append (λ later. ip_eq later a ≡ false) us b h (ground arith),
  Apart-append us b hs (ground arith),
)

abbrev pub AreUpstreams : List IpAddr → Type 0
AreUpstreams us = All IsRemote us × Apart us

insert_all-AreUpstreams :
    (us more : List IpAddr)
    → AreUpstreams us
    → All IsRemote more
    → AreUpstreams (insert_all us more)
unfolding insert_all
insert_all-AreUpstreams us [] h remote = h
insert_all-AreUpstreams us (b ∷ more) (h, apart) (remote, rest) =
    elim (Bool-cases (any (λ a. ip_eq b a) us)) [
      | inl t ↦ rw t (insert_all-AreUpstreams us more (h, apart) rest)
      | inr f ↦ rw f (
          insert_all-AreUpstreams (us ++ (b ∷ [])) more
            (All-append IsRemote us b h remote, Apart-append us b apart f) rest)
    ]

abbrev OptionIsRemote : Option IpAddr → Type 0
OptionIsRemote none = Unit
OptionIsRemote (some a) = IsRemote a

usable-IsRemote : (o : Option IpAddr) → OptionIsRemote (usable o)
usable-IsRemote none = tt
usable-IsRemote (some a) = elim (Bool-cases (is_local a)) [
  | inl t ↦ rw t tt
  | inr f ↦ rw f (ground arith, ground arith, ground arith)
]

of_fields-IsRemote : (fields : List Text) → OptionIsRemote (of_fields fields)
of_fields-IsRemote [] = tt
of_fields-IsRemote (name ∷ []) = tt
of_fields-IsRemote (name ∷ value ∷ rest) = elim (Bool-cases (text_eq name (codes "nameserver"))) [
  | inl t ↦ rw t (usable-IsRemote (parse_ip value))
  | inr f ↦ rw f tt
]

onto-IsRemote :
    (o : Option IpAddr) (us : List IpAddr)
    → OptionIsRemote o
    → All IsRemote us
    → All IsRemote (onto o us)
onto-IsRemote none us h hs = hs
onto-IsRemote (some a) us h hs = (h, hs)

nameservers-IsRemote : (ls : List Text) → All IsRemote (nameservers ls)
unfolding nameservers
nameservers-IsRemote [] = tt
nameservers-IsRemote (l ∷ ls) =
    onto-IsRemote (nameserver l) (nameservers ls) (of_fields-IsRemote _) (nameservers-IsRemote ls)

servers_in-IsRemote : (o : Option Text) → All IsRemote (servers_in o)
unfolding parse_nameservers
servers_in-IsRemote none = tt
servers_in-IsRemote (some contents) = nameservers-IsRemote _

read_files-AreUpstreams :
    (read_to_string : Text → Option Text) (us : List IpAddr) (paths : List Text)
    → AreUpstreams us
    → AreUpstreams (read_files read_to_string us paths)
unfolding read_files
read_files-AreUpstreams read us [] h = h
read_files-AreUpstreams read us (p ∷ paths) h =
    read_files-AreUpstreams read (insert_all us (servers_in (read p))) paths
      (insert_all-AreUpstreams us (servers_in (read p)) h (servers_in-IsRemote (read p)))

groups_eq_refl : (gs : List ℕ) → groups_eq gs gs ≡ true
groups_eq_refl [] = refl
groups_eq_refl (g ∷ gs) = ground (arith, groups_eq_refl gs)

ip_eq_refl : (a : IpAddr) → ip_eq a a ≡ true
unfolding ip_eq
ip_eq_refl (v4 a b c d) = ground arith
ip_eq_refl (v6 gs) = groups_eq_refl gs

abbrev pub IsAmong : List IpAddr → IpAddr → Type 0
IsAmong us b = any (λ a. ip_eq b a) us ≡ true

insert_all-keeps :
    (us more : List IpAddr) (b : IpAddr) → IsAmong us b → IsAmong (insert_all us more) b
unfolding insert_all
insert_all-keeps us [] b h = h
insert_all-keeps us (a ∷ more) b h = elim (Bool-cases (any (λ c. ip_eq a c) us)) [
  | inl t ↦ rw t (insert_all-keeps us more b h)
  | inr f ↦ rw f (
      insert_all-keeps (us ++ (a ∷ [])) more b
        (ground (arith, any-append (λ c. ip_eq b c) us (a ∷ []))))
]

insert_all-IsAmong : (us more : List IpAddr) → All (IsAmong (insert_all us more)) more
unfolding insert_all
insert_all-IsAmong us [] = tt
insert_all-IsAmong us (a ∷ more) = elim (Bool-cases (any (λ c. ip_eq a c) us)) [
  | inl t ↦
      let same : insert_all us more ≡ insert_all us (a ∷ more) = rw t refl in
      subst (λ l. All (IsAmong l) (a ∷ more)) same
        (insert_all-keeps us more a t, insert_all-IsAmong us more)
  | inr f ↦
      let same : insert_all (us ++ (a ∷ [])) more ≡ insert_all us (a ∷ more) = rw f refl in
      subst (λ l. All (IsAmong l) (a ∷ more)) same
        (
          insert_all-keeps (us ++ (a ∷ [])) more a
              (ground (arith, any-append (λ c. ip_eq a c) us (a ∷ []), ip_eq_refl a)),
          insert_all-IsAmong (us ++ (a ∷ [])) more,
        )
]

-- The servers that are asked, whatever the files say: none is of this machine, unspecified or a
-- group, no one stands twice, and the fallback servers are among them.
pub discover_upstreams-AreUpstreams :
    (read_to_string : Text → Option Text)
    → AreUpstreams (discover_upstreams read_to_string)
      × All (IsAmong (discover_upstreams read_to_string)) fallback_upstreams
unfolding discover_upstreams is_loopback is_unspecified is_multicast
discover_upstreams-AreUpstreams read =
    let found = read_files-AreUpstreams read [] resolver_files (tt, tt) in
    (
      insert_all-AreUpstreams (read_files read [] resolver_files) fallback_upstreams found
          ((refl, refl, refl), ((refl, refl, refl), ((refl, refl, refl), tt))),
      insert_all-IsAmong (read_files read [] resolver_files) fallback_upstreams,
    )

same_test :
    (transaction_id : ℕ) (rest response : Bytes)
    → valid_dns_response ((transaction_id / 256) ∷ (transaction_id % 256) ∷ rest) response
      ≡ validate_dns_response transaction_id response
unfolding valid_dns_response validate_dns_response
same_test transaction_id rest [] = refl
same_test transaction_id rest (a ∷ []) = refl
same_test transaction_id rest (a ∷ b ∷ []) = refl
same_test transaction_id rest (a ∷ b ∷ flags ∷ response) = refl

-- The probe of the guard passes the resolver's test for a query, and on its answers the test of the
-- resolver is that of the guard: the same transaction, and a response.
pub valid_dns_response-validate :
    (transaction_id : ℕ) (domain : Text) (query response : Bytes)
    → build_dns_query transaction_id domain ≡ ok query
    → (valid_dns_query query ≡ true)
      × (valid_dns_response query response ≡ validate_dns_response transaction_id response)
unfolding valid_dns_query
valid_dns_response-validate transaction_id domain query response h =
    let (labels, e, whole, small) = build_dns_query-append transaction_id domain query h in
    (rw (← whole) (ground arith), rw (← whole) (same_test transaction_id _ response))
