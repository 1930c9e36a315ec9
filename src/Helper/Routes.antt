-- ===== src/Helper/Routes.antt =====
-- Traffic enters the tunnel only once the servers are pinned beside it.
use varmlen_cli_linux.Common.{
  String, ◌≡◌, refl, ◌⊎◌, inl, inr, Bool, true, false, Option, none, some, List, [], ◌∷◌,
}
use varmlen_cli_linux.Common.Lists.{All, All-map}
use varmlen_cli_linux.Common.Text.{Text}
use varmlen_cli_linux.Common.Ip.{IpAddr, v4, v6}
use varmlen_cli_linux.Common.Action.{◌then◌}
use varmlen_cli_linux.Helper.{Default, Default6, Command, pin, pin6, into_tun, blackhole6}
use varmlen_cli_linux.Helper.Up.{
  Host, each, lay_bypass_table, lay_bypass_table6, pin_server, server_lines, pin_servers, arm,
  enter_tun, pin_server6, server_lines6, drop_ipv6, prepare, lay6, lay, route_down, or_down,
  up_from, route_up, default_in, default6_in, servers_state, servers6_state,
}
use varmlen_cli_linux.Helper.Outcome.{
  lays_route, Spares, HostLaws, Outcome, then-Outcome, both-Outcome, Outcome-map, Keeps,
}
use varmlen_cli_linux.Helper.Beside.{each-Keeps, lay_bypass_table-Keeps, lay_bypass_table6-Keeps}

module _ {S : Type 0} (host : Host S) (Laid : Command → S → Type 0) (Apart : S → Type 0)
    (laws : HostLaws host Laid Apart) where
  -- The server leaves beside the tunnel; one of IPv6 is seen to later.
  abbrev pub IsPinned : Default → S → IpAddr → Type 0
  IsPinned d s (v4 a b c e) = Laid (pin (v4 a b c e) d) s
  IsPinned d s (v6 gs) = Unit

  abbrev pub AllPinned : Default → List IpAddr → S → Type 0
  AllPinned d servers s = All (IsPinned d s) servers

  -- The command leaves every pin by this default route where it is.
  abbrev SparesPins : Default → Command → Type 0
  SparesPins d c = (server : IpAddr) → Spares c (pin server d)

  ip-IsPinned :
      (d : Default) (c : Command) (s : S) (server : IpAddr)
      → SparesPins d c
      → IsPinned d s server
      → IsPinned d (host.ip c s).1 server
  ip-IsPinned d c s (v4 a b e f) r h = laws.ip_keeps (pin (v4 a b e f) d) c s (r (v4 a b e f)) h
  ip-IsPinned d c s (v6 gs) r h = tt

  pin_server-IsPinned :
      (d : Default) (server : IpAddr) (s : S)
      → Apart s
      → Outcome (λ s. Apart s × IsPinned d s server) Apart (pin_server host d server s)
  pin_server-IsPinned d (v6 gs) s p = (p, tt)
  pin_server-IsPinned d (v4 a b c e) s p =
      go (host.ip (pin (v4 a b c e) d) s) (laws.ip_apart (pin (v4 a b c e) d) s refl p)
        (laws.lays (pin (v4 a b c e) d) s refl)
    where
      go :
          (r : Bool × S)
          → Apart r.1
          → (r.0 ≡ true → Laid (pin (v4 a b c e) d) r.1)
          → Outcome (λ s. Apart s × Laid (pin (v4 a b c e) d) s) Apart r
      go (true, s') q h = (q, h refl)
      go (false, s') q h = q

  -- A server that is pinned stays so while others are pinned.
  pin_server-keeps :
      (d : Default) (other server : IpAddr) (s : S)
      → IsPinned d s server
      → IsPinned d (pin_server host d other s).1 server
  pin_server-keeps d (v4 a b c e) server s h =
      ip-IsPinned d (pin (v4 a b c e) d) s server (λ _. refl) h
  pin_server-keeps d (v6 gs) server s h = h

  pin_servers-IsPinned :
      (d : Default) (done servers : List IpAddr) (s : S)
      → Apart s
      → All (IsPinned d s) done
      → Outcome
          (λ s. Apart s × All (IsPinned d s) done × All (IsPinned d s) servers)
          Apart
          (each host (pin_server host d) servers s)
  pin_servers-IsPinned d done [] s p h = (p, h, tt)
  pin_servers-IsPinned d done (server ∷ servers) s p h =
      go (pin_server host d server s) (pin_server-IsPinned d server s p)
        (All-map _ _ (λ other k. pin_server-keeps d server other s k) done h)
        (λ s' q k. pin_servers-IsPinned d (server ∷ done) servers s' q k)
    where
      go :
          (r : Bool × S)
          → Outcome (λ s. Apart s × IsPinned d s server) Apart r
          → All (IsPinned d r.1) done
          → ((s' : S)
              → Apart s'
              → All (IsPinned d s') (server ∷ done)
              → Outcome
                  (λ s. Apart s × All (IsPinned d s) (server ∷ done) × All (IsPinned d s) servers)
                  Apart
                  (each host (pin_server host d) servers s'))
          → Outcome
              (λ s. Apart s × All (IsPinned d s) done × All (IsPinned d s) (server ∷ servers))
              Apart
              (r then each host (pin_server host d) servers)
      go (false, s') q k rest = q
      go (true, s') (q, pinned) k rest =
          Outcome-map _ _ Apart Apart (each host (pin_server host d) servers s')
            (λ s (a, both, later). (a, both.1, (both.0, later))) (λ s a. a) (rest s' q (pinned, k))

  state-IsPinned :
      (d : Default) (path : String) (text : Text) (s : S) (server : IpAddr)
      → IsPinned d s server
      → IsPinned d (host.write_state path text s) server
  state-IsPinned d path text s (v4 a b c e) h = laws.state_keeps (pin (v4 a b c e) d) path text s h
  state-IsPinned d path text s (v6 gs) h = tt

  arm-IsPinned :
      (d : Default) (cgroup interface : Text) (apps : List Text) (s : S) (server : IpAddr)
      → IsPinned d s server
      → IsPinned d (host.arm_bypass cgroup interface apps s).1 server
  arm-IsPinned d cgroup interface apps s (v4 a b c e) h =
      laws.arm_keeps (pin (v4 a b c e) d) cgroup interface apps s h
  arm-IsPinned d cgroup interface apps s (v6 gs) h = tt

  -- The servers are pinned, and still nothing was sent into the tunnel.
  abbrev Ready : Default → List IpAddr → S → Type 0
  Ready d servers s = Apart s × AllPinned d servers s

  pins-Ready :
      (d : Default) (servers : List IpAddr) (s : S)
      → Apart s
      → Outcome (Ready d servers) Apart (pin_servers host d servers s)
  pins-Ready d servers s p =
      then-Outcome (Ready d servers) (Ready d servers) Apart
        (each host (pin_server host d) servers s)
        (λ s. (true, host.write_state servers_state (server_lines host servers) s))
        (Outcome-map _ (Ready d servers) Apart Apart (each host (pin_server host d) servers s)
          (λ s (a, none_yet, pinned). (a, pinned)) (λ s a. a)
          (pin_servers-IsPinned d [] servers s p tt))
        (λ s (a, pinned). (
          laws.state_apart _ _ s a,
          All-map _ _ (λ server k. state-IsPinned d servers_state _ s server k) servers pinned,
        ))

  arm-Ready :
      (d : Default) (servers : List IpAddr) (apps : List Text) (cgroup : Option Text) (s : S)
      → Ready d servers s
      → Outcome (Ready d servers) Apart (arm host d apps cgroup s)
  arm-Ready d servers apps none s h = h
  arm-Ready d servers apps (some cgroup) s (a, pinned) =
      Outcome-map (Ready d servers) (Ready d servers) (Ready d servers) Apart
        (host.arm_bypass cgroup d.interface apps s) (λ s h. h) (λ s h. h.0)
        (both-Outcome (Ready d servers) (host.arm_bypass cgroup d.interface apps s) (
          laws.arm_apart cgroup d.interface apps s a,
          All-map _ _ (λ server k. arm-IsPinned d cgroup d.interface apps s server k) servers
              pinned,
        ))

  prepare-Ready :
      (d6 : Option Default6) (d : Default) (servers : List IpAddr) (cgroup : Option Text)
      (apps : List Text) (s : S)
      → Apart s
      → Outcome (Ready d servers) Apart (prepare host d6 d servers cgroup apps s)
  prepare-Ready d6 d servers cgroup apps s p =
      let table = lay_bypass_table6 host d6 s in
      then-Outcome (Ready d servers) (Ready d servers) Apart (table then pin_servers host d servers)
        (arm host d apps cgroup)
        (then-Outcome Apart (Ready d servers) Apart table (pin_servers host d servers)
          (lay_bypass_table6-Keeps host Laid Apart laws d6 s p) (pins-Ready d servers))
        (arm-Ready d servers apps cgroup)

  -- The servers are pinned, and the routes of these commands are there.
  abbrev Held : Default → List IpAddr → List Command → S → Type 0
  Held d servers commands s = AllPinned d servers s × All (λ c. Laid c s) commands

  All-both :
      {P Q R : Command → Type 0}
      → ((c : Command) → P c → Q c → R c)
      → (commands : List Command) → All P commands
      → All Q commands
      → All R commands
  All-both f [] p q = tt
  All-both f (c ∷ commands) (p, ps) (q, qs) = (f c p q, All-both f commands ps qs)

  ip-keeps-Held :
      (d : Default) (servers : List IpAddr) (commands : List Command) (c : Command) (s : S)
      → SparesPins d c
      → All (Spares c) commands
      → Held d servers commands s
      → Held d servers commands (host.ip c s).1
  ip-keeps-Held d servers commands c s r spared (pinned, laid) = (
    All-map _ _ (λ server k. ip-IsPinned d c s server r k) servers pinned,
    All-both (λ a m k. laws.ip_keeps a c s m k) commands spared laid,
  )

  ip-Held :
      (d : Default) (servers : List IpAddr) (commands : List Command) (c : Command) (s : S)
      → SparesPins d c
      → All (Spares c) commands
      → lays_route c ≡ true
      → Held d servers commands s
      → Outcome (Held d servers (c ∷ commands)) (AllPinned d servers) (host.ip c s)
  ip-Held d servers commands c s r spared l h =
      go (host.ip c s) (ip-keeps-Held d servers commands c s r spared h) (laws.lays c s l)
    where
      go :
          (r : Bool × S)
          → Held d servers commands r.1
          → (r.0 ≡ true → Laid c r.1)
          → Outcome (Held d servers (c ∷ commands)) (AllPinned d servers) r
      go (true, s') (pinned, laid) k = (pinned, (k refl, laid))
      go (false, s') (pinned, laid) k = pinned

  abbrev low : Command
  low = into_tun "0.0.0.0/1"

  abbrev high : Command
  high = into_tun "128.0.0.0/1"

  abbrev low6 : Command
  low6 = blackhole6 "::/1"

  abbrev high6 : Command
  high6 = blackhole6 "8000::/1"

  -- What is in the tunnel when IPv6 is dropped.
  abbrev halves : List Command
  halves = high ∷ low ∷ []

  pin_server6-Held :
      (d : Default) (servers : List IpAddr) (d6 : Option Default6) (server : IpAddr)
      → Keeps (Held d servers halves) (pin_server6 host d6 server)
  pin_server6-Held d servers none server s h = h
  pin_server6-Held d servers (some d6) (v4 a b c e) s h = h
  pin_server6-Held d servers (some d6) (v6 gs) s h =
      both-Outcome (Held d servers halves) (host.ip (pin6 (v6 gs) d6) s) (
        ip-keeps-Held d servers halves (pin6 (v6 gs) d6) s (λ server e. e) (λ e. e, (λ e. e, tt)) h)

  state-Held :
      (d : Default) (servers : List IpAddr) (commands : List Command) (path : String) (text : Text)
      (s : S)
      → Held d servers commands s
      → Held d servers commands (host.write_state path text s)
  state-Held d servers commands path text s (pinned, laid) = (
    All-map _ _ (λ server k. state-IsPinned d path text s server k) servers pinned,
    All-map _ _ (λ a k. laws.state_keeps a path text s k) commands laid,
  )

  enter_tun-Held :
      (d : Default) (servers : List IpAddr) (s : S)
      → Held d servers [] s
      → Outcome (Held d servers (high ∷ low ∷ [])) (AllPinned d servers) (enter_tun host s)
  enter_tun-Held d servers s h =
      then-Outcome (Held d servers (low ∷ [])) (Held d servers (high ∷ low ∷ []))
        (AllPinned d servers) (host.ip low s) (host.ip high)
        (ip-Held d servers [] low s (λ _. tt) tt refl h)
        (λ s. ip-Held d servers (low ∷ []) high s (λ _. tt) (tt, tt) refl)

  drop_ipv6-Held :
      (d : Default) (servers : List IpAddr) (d6 : Option Default6) (s : S)
      → Held d servers halves s
      → Outcome
          (Held d servers (high6 ∷ low6 ∷ halves))
          (AllPinned d servers)
          (drop_ipv6 host d6 servers s)
  drop_ipv6-Held d servers d6 s h =
      let pins = each host (pin_server6 host d6) servers s in
      let listed =
        pins
        then (λ s. (true, host.write_state servers6_state (server_lines6 host d6 servers) s)) in
      let first = listed then host.ip low6 in
      then-Outcome (Held d servers (low6 ∷ halves)) (Held d servers (high6 ∷ low6 ∷ halves))
        (AllPinned d servers) first (host.ip high6)
        (then-Outcome (Held d servers halves) (Held d servers (low6 ∷ halves)) (AllPinned d servers)
          listed (host.ip low6)
          (then-Outcome (Held d servers halves) (Held d servers halves) (AllPinned d servers) pins _
            (Outcome-map (Held d servers halves) (Held d servers halves) (Held d servers halves)
              (AllPinned d servers) pins (λ s h. h) (λ s h. h.0)
              (each-Keeps host Laid Apart laws (Held d servers halves) (pin_server6 host d6)
                (pin_server6-Held d servers d6) servers s h))
            (λ s h. state-Held d servers halves servers6_state _ s h))
          (λ s. ip-Held d servers halves low6 s (λ _. tt) (tt, (tt, tt)) refl))
        (λ s. ip-Held d servers (low6 ∷ halves) high6 s (λ _. tt) (tt, (tt, (tt, tt))) refl)

  -- A failure comes before anything was sent into the tunnel, or with all servers pinned.
  abbrev pub IsSafe : Default → List IpAddr → S → Type 0
  IsSafe d servers s = Apart s ⊎ AllPinned d servers s

  abbrev pub IsLaid : Default → List IpAddr → S → Type 0
  IsLaid d servers s = Held d servers (high6 ∷ low6 ∷ high ∷ low ∷ []) s

  lay6-Outcome :
      (d6 : Option Default6) (d : Default) (servers : List IpAddr) (cgroup : Option Text)
      (apps : List Text) (s : S)
      → Apart s
      → Outcome (IsLaid d servers) (IsSafe d servers) (lay6 host d6 d servers cgroup apps s)
  lay6-Outcome d6 d servers cgroup apps s p =
      then-Outcome (Ready d servers) (IsLaid d servers) (IsSafe d servers)
        (prepare host d6 d servers cgroup apps s)
        (λ s. enter_tun host s then drop_ipv6 host d6 servers)
        (Outcome-map (Ready d servers) (Ready d servers) Apart (IsSafe d servers)
          (prepare host d6 d servers cgroup apps s) (λ s h. h) (λ s a. inl a)
          (prepare-Ready d6 d servers cgroup apps s p))
        (λ s (a, pinned).
          Outcome-map (IsLaid d servers) (IsLaid d servers) (AllPinned d servers) (IsSafe d servers)
            (enter_tun host s then drop_ipv6 host d6 servers) (λ s h. h) (λ s h. inr h)
            (then-Outcome (Held d servers (high ∷ low ∷ [])) (IsLaid d servers)
              (AllPinned d servers) (enter_tun host s) (drop_ipv6 host d6 servers)
              (enter_tun-Held d servers s (pinned, tt)) (drop_ipv6-Held d servers d6)))

  lay-Outcome :
      (d : Default) (servers : List IpAddr) (cgroup : Option Text) (apps : List Text) (s : S)
      → Apart s
      → Outcome (IsLaid d servers) (IsSafe d servers) (lay host d servers cgroup apps s)
  unfolding lay
  lay-Outcome d servers cgroup apps s p =
      then-Outcome Apart (IsLaid d servers) (IsSafe d servers) (lay_bypass_table host d s) _
        (Outcome-map Apart Apart Apart (IsSafe d servers) (lay_bypass_table host d s) (λ s a. a)
          (λ s a. inl a) (lay_bypass_table-Keeps host Laid Apart laws d s p))
        (λ s a. lay6-Outcome (default6_in (host.show_default6 s)) d servers cgroup apps s a)

  -- How the routes end up, `s` being the machine before.
  abbrev pub IsUp : List IpAddr → S → Bool × S → Type 0
  IsUp servers before (true, s) =
      (d : Default) × (default_in (host.show_default before) ≡ some d) × IsLaid d servers s
  IsUp servers before (false, s) =
      ((default_in (host.show_default before) ≡ none) × (s ≡ before))
      ⊎ ((d : Default) × (default_in (host.show_default before) ≡ some d)
          × ((failed : S) × IsSafe d servers failed × (s ≡ route_down host false failed)))

  -- A machine that sends nothing into the tunnel, and on which a command that lays a route and
  -- succeeds puts it there, one that lays another route leaves it (a pin may replace only a pin by
  -- another default route), and neither the state files nor the split's rules take it away; and on
  -- which only the two commands that send into the tunnel do so. Where the routes go up on it, a
  -- default route was there, each IPv4 server is pinned to that route's gateway and interface, both
  -- halves of the address space are sent into the tunnel, and both of IPv6 are dropped. Where they do
  -- not, the machine is as it was, for want of a default route; or `route_down` has run last, on a
  -- machine where nothing was sent into the tunnel or where all these servers were pinned to that
  -- route.
  pub route_up-IsUp :
      (servers : List IpAddr) (cgroup : Option Text) (apps : List Text) (s : S)
      → Apart s
      → IsUp servers s (route_up host servers cgroup apps s)
  unfolding route_up
  route_up-IsUp servers cgroup apps s p =
      go (default_in (host.show_default s)) refl (λ d. lay-Outcome d servers cgroup apps s p)
    where
      ended :
          (d : Default) (r : Bool × S)
          → default_in (host.show_default s) ≡ some d
          → Outcome (IsLaid d servers) (IsSafe d servers) r
          → IsUp servers s (or_down host r)
      ended d (true, s') e h = (d, e, h)
      ended d (false, s') e h = inr (d, e, (s', h, refl))

      go :
          (o : Option Default)
          → default_in (host.show_default s) ≡ o
          → ((d : Default)
              → Outcome (IsLaid d servers) (IsSafe d servers) (lay host d servers cgroup apps s))
          → IsUp servers s (up_from host servers cgroup apps o s)
      go none e laid = inl (e, refl)
      go (some d) e laid = ended d (lay host d servers cgroup apps s) e (laid d)
