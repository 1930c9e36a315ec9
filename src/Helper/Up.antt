-- ===== src/Helper/Up.antt =====
-- helper/src/main.rs: `route_up` and `route_down`.
use varmlen_cli_linux.Common.{
  ℕ, zero, suc, String, Bool, true, false, not, Option, none, some, List, [], ◌∷◌, ◌++◌, map,
}
use varmlen_cli_linux.Common.Tests.{if◌then◌else◌}
use varmlen_cli_linux.Common.Lists.{is_empty, keep}
use varmlen_cli_linux.Common.Text.{Text, codes, trim, lines, contains_char}
use varmlen_cli_linux.Common.Ip.{IpAddr, v4, v6}
use varmlen_cli_linux.Common.Action.{◌then◌}
use varmlen_cli_linux.Helper.{
  Default, Default6, first_default, first_default6, Mark, xray_dial, bypass, Command, add_tun,
  address_tun, tun_up, dns_route, dns_rule_del, dns_rule_add, dns_flush, physical_default,
  physical_default6, throw, throw6, mark_rule_del, mark_rule_add, mark_rule_drop, pin, pin6,
  into_tun, drop_tun, blackhole6, drop_blackhole6, unpin, unpin6, flush, flush6, ip_text,
}

-- The machine: a call of `ip` says whether it succeeded.
pub record Host (S : Type 0) : Type 0 where
  pub ip : Command → S → Bool × S
  -- What `ip -4 route show default` and `ip -6 route show default` print.
  pub show_default : S → Option Text
  pub show_default6 : S → Option Text
  pub tun_exists : S → Bool
  pub read_file : String → S → Option Text
  pub write_state : String → Text → S → S
  pub write_file : String → Text → S → Bool × S
  pub remove_file : String → S → S
  -- `bypass_up` on the control group and the interface; then `bypass_sweep` and
  -- `pin_existing_excluded_flows` on the applications.
  pub arm_bypass : Text → Text → List Text → S → Bool × S
  pub bypass_down : S → S
  pub show6 : List ℕ → Text

abbrev pub servers_state : String
servers_state = "/run/varmlen/servers"

abbrev pub servers6_state : String
servers6_state = "/run/varmlen/servers6"

abbrev pub bypass_pins_state : String
bypass_pins_state = "/run/varmlen/bypass_pins"

abbrev pub rp_state : String
rp_state = "/run/varmlen/rp_filter_all.orig"

abbrev pub rp_all : String
rp_all = "/proc/sys/net/ipv4/conf/all/rp_filter"

abbrev pub or_empty : Option Text → Text
or_empty none = []
or_empty (some s) = s

abbrev pub throws : List String
throws =
    "10.0.0.0/8" ∷ "172.16.0.0/12" ∷ "192.168.0.0/16" ∷ "169.254.0.0/16" ∷ "100.64.0.0/10"
    ∷ "224.0.0.0/4" ∷ "255.255.255.255/32" ∷ []

abbrev pub throws6 : List String
throws6 = "fe80::/10" ∷ "fc00::/7" ∷ "ff00::/8" ∷ []

abbrev pub default_in : Option Text → Option Default
default_in none = none
default_in (some printed) = first_default (lines printed)

abbrev pub default6_in : Option Text → Option Default6
default6_in none = none
default6_in (some printed) = first_default6 (lines printed)

module _ {S : Type 0} (host : Host S) where
  abbrev pub Step : Type 0
  Step = S → Bool × S

  abbrev pub quiet : Command → S → S
  quiet command s = (host.ip command s).1

  abbrev pub quietly : Command → Step
  quietly command s = (true, quiet command s)

  abbrev pub each : {A : Type 0} → (A → Step) → List A → Step
  each f [] s = (true, s)
  each f (a ∷ rest) s = f a s then each f rest

  -- One step after the other, while they succeed.
  abbrev pub in_order : List (S → Bool × S) → S → Bool × S
  in_order [] s = (true, s)
  in_order (step ∷ rest) s = step s then in_order rest

  abbrev pub quiet_if : Bool → Command → Step
  quiet_if true command s = quietly command s
  quiet_if false command s = (true, s)

  abbrev pub ensure_tun : Step
  ensure_tun = in_order (
      (λ s. quiet_if (not (host.tun_exists s)) add_tun s)
      ∷ quietly address_tun
      ∷ host.ip tun_up
      ∷ [])

  abbrev pub install_dns_policy_route : Step
  install_dns_policy_route =
      in_order (host.ip dns_route ∷ quietly dns_rule_del ∷ host.ip dns_rule_add ∷ [])

  abbrev pub set_rp_filter_loose : Step
  set_rp_filter_loose s =
      host.write_file rp_all (codes "2")
        (host.write_state rp_state (trim (or_empty (host.read_file rp_all s))) s)

  abbrev pub add_rule_fwmark : Bool → Mark → Step
  add_rule_fwmark six mark =
      in_order (quietly (mark_rule_del six mark) ∷ host.ip (mark_rule_add six mark) ∷ [])

  -- Steps 1 to 3: the tunnel, and the table by which marked traffic leaves beside it.
  abbrev pub lay_bypass_table : Default → Step
  lay_bypass_table d = in_order (
      ensure_tun
      ∷ install_dns_policy_route
      ∷ set_rp_filter_loose
      ∷ host.ip (physical_default d)
      ∷ each (λ net. host.ip (throw net)) throws
      ∷ add_rule_fwmark false xray_dial
      ∷ add_rule_fwmark false bypass
      ∷ [])

  abbrev pub lay_bypass_table6 : Option Default6 → Step
  lay_bypass_table6 none = in_order []
  lay_bypass_table6 (some d) = in_order (
      host.ip (physical_default6 d)
      ∷ each (λ net. host.ip (throw6 net)) throws6
      ∷ add_rule_fwmark true xray_dial
      ∷ add_rule_fwmark true bypass
      ∷ [])

  -- Step 4: the servers leave beside the tunnel.
  abbrev pub pin_server : Default → IpAddr → Step
  pin_server d (v4 a b c e) s = host.ip (pin (v4 a b c e) d) s
  pin_server d (v6 gs) s = (true, s)

  abbrev pub server_lines : List IpAddr → Text
  server_lines [] = []
  server_lines (v4 a b c e ∷ rest) = ip_text host.show6 (v4 a b c e) ++ (10 ∷ server_lines rest)
  server_lines (v6 gs ∷ rest) = server_lines rest

  abbrev pub pin_servers : Default → List IpAddr → Step
  pin_servers d servers s = each (pin_server d) servers s then λ s.
      (true, host.write_state servers_state (server_lines servers) s)

  abbrev pub arm : Default → List Text → Option Text → Step
  arm d apps none s = (true, s)
  arm d apps (some cgroup) s = host.arm_bypass cgroup d.interface apps s

  -- Step 5: everything else enters the tunnel.
  abbrev pub enter_tun : Step
  enter_tun s = host.ip (into_tun "0.0.0.0/1") s then host.ip (into_tun "128.0.0.0/1")

  -- Step 6: but IPv6 is dropped, besides the servers.
  abbrev pub pin_server6 : Option Default6 → IpAddr → Step
  pin_server6 none server s = (true, s)
  pin_server6 (some d) (v4 a b c e) s = (true, s)
  pin_server6 (some d) (v6 gs) s = host.ip (pin6 (v6 gs) d) s

  abbrev pub server_lines6 : Option Default6 → List IpAddr → Text
  server_lines6 none servers = []
  server_lines6 (some d) [] = []
  server_lines6 (some d) (v4 a b c e ∷ rest) = server_lines6 (some d) rest
  server_lines6 (some d) (v6 gs ∷ rest) = host.show6 gs ++ (10 ∷ server_lines6 (some d) rest)

  abbrev pub drop_ipv6 : Option Default6 → List IpAddr → Step
  drop_ipv6 d6 servers s =
      each (pin_server6 d6) servers s
      then (λ s. (true, host.write_state servers6_state (server_lines6 d6 servers) s))
      then host.ip (blackhole6 "::/1")
      then host.ip (blackhole6 "8000::/1")

  abbrev pub prepare : Option Default6 → Default → List IpAddr → Option Text → List Text → Step
  prepare d6 d servers cgroup apps s =
      lay_bypass_table6 d6 s then pin_servers d servers then arm d apps cgroup

  abbrev pub lay6 : Option Default6 → Default → List IpAddr → Option Text → List Text → Step
  lay6 d6 d servers cgroup apps s =
      prepare d6 d servers cgroup apps s then (λ s. enter_tun s then drop_ipv6 d6 servers)

  unfoldable pub lay : Default → List IpAddr → Option Text → List Text → Step
  lay d servers cgroup apps s = lay_bypass_table d s then λ s.
      lay6 (default6_in (host.show_default6 s)) d servers cgroup apps s

  -- `for _ in 0..n`, until a rule is not there.
  abbrev pub drop_rules : ℕ → Bool → Mark → S → S
  drop_rules zero six mark s = s
  drop_rules (suc n) six mark s =
      let (dropped, s') = host.ip (mark_rule_drop six mark) s in
      let rest = drop_rules n six mark s' in if dropped then rest else s'

  abbrev pub quiet_each : (Text → Command) → List Text → S → S
  quiet_each command [] s = s
  quiet_each command (address ∷ rest) s = quiet_each command rest (quiet (command (trim address)) s)

  -- The servers that a state file lists lose their routes, and the file goes.
  abbrev pub drop_pins : (Text → Command) → String → Option Text → S → S
  drop_pins command path none s = s
  drop_pins command path (some listed) s =
      host.remove_file path
        (quiet_each command (keep (λ l. not (is_empty (trim l))) (lines listed)) s)

  abbrev pub restored : Text → S → S
  restored [] s = s
  restored (c ∷ value) s = (host.write_file rp_all (c ∷ value) s).1

  abbrev pub restore_rp_filter : Option Text → S → S
  restore_rp_filter none s = s
  restore_rp_filter (some orig) s = host.remove_file rp_state (restored (trim orig) s)

  abbrev pub drop_old_pin : Text → S → S
  drop_old_pin address s =
      if contains_char address b':' then quiet (unpin6 address) s else quiet (unpin address) s

  abbrev pub drop_each_old : List Text → S → S
  drop_each_old [] s = s
  drop_each_old (address ∷ rest) s = drop_each_old rest (drop_old_pin address s)

  abbrev pub drop_old_pins : Option Text → S → S
  drop_old_pins none s = s
  drop_old_pins (some listed) s =
      host.remove_file bypass_pins_state
        (drop_each_old (keep (λ l. not (is_empty l)) (map trim (lines listed))) s)

  abbrev pub drop_bypass : Bool → S → S
  drop_bypass true s = s
  drop_bypass false s =
      let s' = host.bypass_down s in drop_old_pins (host.read_file bypass_pins_state s') s'

  unfoldable pub route_down : Bool → S → S
  route_down keep_bypass s =
      let s1 = quiet (drop_tun "128.0.0.0/1") (quiet (drop_tun "0.0.0.0/1") s) in
      let s2 = quiet dns_flush (quiet dns_rule_del s1) in
      let s3 = quiet (drop_blackhole6 "8000::/1") (quiet (drop_blackhole6 "::/1") s2) in
      let s4 = drop_pins unpin6 servers6_state (host.read_file servers6_state s3) s3 in
      let s5 = drop_rules 4 true xray_dial (drop_rules 4 false xray_dial s4) in
      let s6 = drop_rules 4 true bypass (drop_rules 4 false bypass s5) in
      let s7 = quiet flush6 (quiet flush (drop_bypass keep_bypass s6)) in
      let s8 = drop_pins unpin servers_state (host.read_file servers_state s7) s7 in
      restore_rp_filter (host.read_file rp_state s8) s8

  abbrev pub or_down : Bool × S → Bool × S
  or_down (true, s) = (true, s)
  or_down (false, s) = (false, route_down false s)

  abbrev pub up_from : List IpAddr → Option Text → List Text → Option Default → Step
  up_from servers cgroup apps none s = (false, s)
  up_from servers cgroup apps (some d) s = or_down (lay d servers cgroup apps s)

  unfoldable pub route_up : List IpAddr → Option Text → List Text → Step
  unfolding lay route_down
  route_up servers cgroup apps s = up_from servers cgroup apps (default_in (host.show_default s)) s
