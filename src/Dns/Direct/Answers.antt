-- ===== src/Dns/Direct/Answers.antt =====
-- daemon/src/direct_dns.rs, `serve_udp` and `first_udp_response`: what is passed back for a packet.
use mathlib.Core.List.{Memᴰ}
use varmlen_cli_linux.Common.{
  ℕ, ◌/◌, ◌%◌, ◌≤◌, ◌≡◌, refl, sym, ap, subst, ◌∙◌, ◌⊎◌, inl, inr, Bool, true, false, Option, none,
  some, List, [], ◌∷◌, arith,
}
use varmlen_cli_linux.Common.Tests.{Bool-cases}
use varmlen_cli_linux.Common.Lists.{length, All, All-map}
use varmlen_cli_linux.Common.Text.{Text}
use varmlen_cli_linux.Common.Ip.{IpAddr}
use varmlen_cli_linux.Dns.{Bytes}
use varmlen_cli_linux.Dns.Direct.{
  discover_upstreams, valid_dns_query, valid_dns_response, or_later, first_response, answer,
}
use varmlen_cli_linux.Dns.Direct.Laws.{IsRemote, discover_upstreams-AreUpstreams}

true_not_false : ¬ (true ≡ false)
true_not_false e = cc

-- A packet of a query: twelve bytes or more, with the bit of a response not set.
abbrev pub IsQuery : Bytes → Type 0
IsQuery packet =
    (i : ℕ) × (j : ℕ) × (flags : ℕ) × (rest : Bytes) × (packet ≡ i ∷ j ∷ flags ∷ rest)
    × (12 ≤ length packet)
    × ((flags / 128) % 2 ≡ 0)

-- The response is twelve bytes or more, begins with the two bytes of the transaction of the
-- packet, and has the bit of a response set.
abbrev pub IsAnswer : Bytes → Bytes → Type 0
IsAnswer packet response =
    (i : ℕ) × (j : ℕ) × (query : Bytes) × (flags : ℕ) × (rest : Bytes) × (packet ≡ i ∷ j ∷ query)
    × (response ≡ i ∷ j ∷ flags ∷ rest)
    × (12 ≤ length response)
    × ((flags / 128) % 2 ≡ 1)

valid_dns_query-IsQuery : (packet : Bytes) → valid_dns_query packet ≡ true → IsQuery packet
unfolding valid_dns_query
valid_dns_query-IsQuery [] h = cc
valid_dns_query-IsQuery (i ∷ []) h = cc
valid_dns_query-IsQuery (i ∷ j ∷ []) h = cc
valid_dns_query-IsQuery (i ∷ j ∷ flags ∷ rest) h =
    (i, j, flags, rest, refl, ground arith, ground arith)

IsQuery-valid_dns_query : (packet : Bytes) → IsQuery packet → valid_dns_query packet ≡ true
unfolding valid_dns_query
IsQuery-valid_dns_query packet (i, j, flags, rest, e, long, bit) =
    let whole : 12 ≤ length (i ∷ j ∷ flags ∷ rest) = ground (arith, long, ap length e) in
    rw e (ground (arith, whole, bit))

valid_dns_response-IsAnswer :
    (packet response : Bytes) → valid_dns_response packet response ≡ true → IsAnswer packet response
unfolding valid_dns_response
valid_dns_response-IsAnswer [] r h = cc
valid_dns_response-IsAnswer (i ∷ []) r h = cc
valid_dns_response-IsAnswer (i ∷ j ∷ query) [] h = cc
valid_dns_response-IsAnswer (i ∷ j ∷ query) (a ∷ []) h = cc
valid_dns_response-IsAnswer (i ∷ j ∷ query) (a ∷ b ∷ []) h = cc
valid_dns_response-IsAnswer (i ∷ j ∷ query) (a ∷ b ∷ flags ∷ rest) h =
    let first : i ≡ a = ground arith in
    let second : j ≡ b = ground arith in
    (a, b, query, flags, rest, rw (first, second) refl, refl, ground arith, ground arith)

IsAnswer-valid_dns_response :
    (packet response : Bytes) → IsAnswer packet response → valid_dns_response packet response ≡ true
unfolding valid_dns_response
IsAnswer-valid_dns_response packet response (i, j, query, flags, rest, p, r, long, bit) =
    let whole : 12 ≤ length (i ∷ j ∷ flags ∷ rest) = ground (arith, long, ap length r) in
    rw (p, r) (ground (arith, whole, bit))

-- A server that sent nothing, or nothing that answers the packet.
abbrev pub IsNoAnswer : Bytes → Option Bytes → Type 0
IsNoAnswer packet none = Unit
IsNoAnswer packet (some response) = ¬ IsAnswer packet response

-- What is sent back where these servers are asked: what one of them sent, or nothing, for want of
-- a server with an answer.
abbrev pub IsFirst : (IpAddr → Bytes → Option Bytes) → List IpAddr → Bytes → Option Bytes → Type 0
IsFirst ask servers packet none = All (λ server. IsNoAnswer packet (ask server packet)) servers
IsFirst ask servers packet (some response) =
    (server : IpAddr) × Memᴰ server servers
    × (ask server packet ≡ some response)
    × IsAnswer packet response

later-IsFirst :
    (ask : IpAddr → Bytes → Option Bytes) (server : IpAddr) (servers : List IpAddr) (packet : Bytes)
    (o : Option Bytes)
    → IsNoAnswer packet (ask server packet)
    → IsFirst ask servers packet o
    → IsFirst ask (server ∷ servers) packet o
later-IsFirst ask server servers packet none n h = (n, h)
later-IsFirst ask server servers packet (some r) n (other, m, e, a) = (other, Memᴰ.tail m, e, a)

first_response-IsFirst :
    (ask : IpAddr → Bytes → Option Bytes) (packet : Bytes) (servers : List IpAddr)
    → IsFirst ask servers packet (first_response ask packet servers)
unfolding first_response
first_response-IsFirst ask packet [] = tt
first_response-IsFirst ask packet (server ∷ servers) =
    go (ask server packet) refl (first_response-IsFirst ask packet servers)
  where
    go :
        (o : Option Bytes)
        → ask server packet ≡ o
        → IsFirst ask servers packet (first_response ask packet servers)
        → IsFirst ask
            (server ∷ servers)
            packet
            (or_later packet o (first_response ask packet servers))
    go none e h = later-IsFirst ask server servers packet _ (subst (IsNoAnswer packet) (sym e) tt) h
    go (some r) e h = elim (Bool-cases (valid_dns_response packet r)) [
      | inl t ↦ rw t (server, Memᴰ.head refl, e, valid_dns_response-IsAnswer packet r t)
      | inr f ↦
          let no : ¬ IsAnswer packet r =
            λ a. true_not_false (sym (IsAnswer-valid_dns_response packet r a) ∙ f) in
          rw f (later-IsFirst ask server servers packet _ (subst (IsNoAnswer packet) (sym e) no) h)
    ]

-- What is sent back for a packet.
abbrev pub IsAnswered :
    (IpAddr → Bytes → Option Bytes) → List IpAddr → Bool → Bytes → Option Bytes → Type 0
IsAnswered ask servers permit packet none =
    (permit ≡ false)
    ⊎ ((¬ IsQuery packet) ⊎ All (λ server. IsNoAnswer packet (ask server packet)) servers)
IsAnswered ask servers permit packet (some response) =
    IsQuery packet
    × ((server : IpAddr) × Memᴰ server servers
        × IsRemote server
        × (ask server packet ≡ some response)
        × IsAnswer packet response)

All-at :
    (P : IpAddr → Type 0) (servers : List IpAddr) (server : IpAddr)
    → All P servers
    → Memᴰ server servers
    → P server
All-at P [] server h m = elim m [ ]
All-at P (s ∷ servers) server (h, hs) (Memᴰ.head e) = subst P (sym e) h
All-at P (s ∷ servers) server (h, hs) (Memᴰ.tail m) = All-at P servers server hs m

module _ (udp_query : IpAddr → Bytes → Option Bytes) (completed : List IpAddr → List IpAddr)
    (asked : (servers : List IpAddr) → All (λ s. Memᴰ s servers) (completed servers))
    (complete : (servers : List IpAddr) → All (λ s. Memᴰ s (completed servers)) servers) where
  IsFirst-IsAnswered :
      (servers : List IpAddr) (packet : Bytes) (o : Option Bytes)
      → IsQuery packet
      → All IsRemote servers
      → IsFirst udp_query (completed servers) packet o
      → IsAnswered udp_query servers true packet o
  IsFirst-IsAnswered servers packet none q remote h =
      let No : IpAddr → Type 0 = λ s. IsNoAnswer packet (udp_query s packet) in
      inr
        (inr (All-map _ No (λ s m. All-at No (completed servers) s h m) servers (complete servers)))
  IsFirst-IsAnswered servers packet (some r) q remote (server, m, e, a) =
      let among = All-at (λ s. Memᴰ s servers) (completed servers) server (asked servers) m in
      (q, (server, among, All-at IsRemote servers server remote among, e, a))

  -- Where the exchanges with the servers that were discovered all end, in whatever order and each
  -- well or not: what is sent back for a packet is what one of these servers sent, which is no
  -- address of this machine, and it has twelve bytes or more, begins with the two bytes of the
  -- packet's transaction and is marked as a response; and the packet is a query, of twelve bytes or
  -- more and not marked so. Nothing is sent back only for want of a permit, where the packet is no
  -- query, or where no server that was discovered sent such a response.
  pub answer-IsAnswered :
      (read_to_string : Text → Option Text) (permit : Bool) (packet : Bytes)
      → IsAnswered udp_query
          (discover_upstreams read_to_string)
          permit
          packet
          (answer udp_query completed read_to_string permit packet)
  unfolding answer
  answer-IsAnswered read false packet = elim (Bool-cases (valid_dns_query packet)) [
    | inl t ↦ rw t (inl refl)
    | inr f ↦ rw f (inl refl)
  ]
  answer-IsAnswered read true packet = elim (Bool-cases (valid_dns_query packet)) [
    | inl t ↦
        let servers = discover_upstreams read in
        rw t (
          IsFirst-IsAnswered servers packet _ (valid_dns_query-IsQuery packet t)
            (discover_upstreams-AreUpstreams read).0.0
            (first_response-IsFirst udp_query packet (completed servers)))
    | inr f ↦
        let no : ¬ IsQuery packet =
          λ q. true_not_false (sym (IsQuery-valid_dns_query packet q) ∙ f) in
        rw f (inr (inl no))
  ]
