-- ===== src/Helper.antt =====
-- helper/src/main.rs: the routes that the network helper lays and takes away. What it asks of `ip`
-- and of the file system is an interface on a state of its own; the text of an IPv6 address, and
-- the set-up of the bypass for applications, are parameters.
pub mod Up
pub mod Outcome
pub mod Beside
pub mod Routes
pub mod Tests
use varmlen_cli_linux.Common.{
  ℕ, zero, suc, String, Bool, true, false, not, ◌&&◌, Option, none, some, List, [], ◌∷◌, ◌++◌, map,
}
use varmlen_cli_linux.Common.Tests.{if◌then◌else◌}
use varmlen_cli_linux.Common.Lists.{is_empty, keep}
use varmlen_cli_linux.Common.Text.{Text, codes, text_eq, trim, words, lines, contains_text}
use varmlen_cli_linux.Common.Numbers.{decimal}
use varmlen_cli_linux.Common.Ip.{IpAddr, v4, v6}

-- A default route of the machine: the gateway, where there is one, and the interface.
pub record Default : Type 0 where
  pub gateway : Option Text
  pub interface : Text

pub record Default6 : Type 0 where
  pub gateway6 : Text
  pub interface6 : Text

-- The token behind the first one that is `name`.
unfoldable pub token_after : Text → List Text → Option Text
token_after name [] = none
token_after name (t ∷ []) = none
token_after name (t ∷ u ∷ ts) =
    let later = token_after name (u ∷ ts) in if text_eq t name then some u else later

abbrev pub of_tunnel : Text → Bool
of_tunnel line = contains_text line (codes "dev varmlen0")

abbrev pub or_next : {A : Type 0} → Option A → Option A → Option A
or_next none next = next
or_next (some a) next = some a

abbrev pub default_of : Option Text → Option Text → Option Default
default_of via none = none
default_of via (some dev) = some (record { gateway = via; interface = dev })

abbrev pub default6_of : Option Text → Option Text → Option Default6
default6_of (some via) (some dev) = some (record { gateway6 = via; interface6 = dev })
default6_of _ _ = none

unfoldable pub first_default : List Text → Option Default
unfolding token_after
first_default [] = none
first_default (line ∷ rest) =
    let later = first_default rest in
    let toks = words line in
    if of_tunnel line
    then later
    else or_next (default_of (token_after (codes "via") toks) (token_after (codes "dev") toks))
        later

unfoldable pub first_default6 : List Text → Option Default6
unfolding token_after
first_default6 [] = none
first_default6 (line ∷ rest) =
    let later = first_default6 rest in
    let toks = words line in
    if of_tunnel line
    then later
    else or_next (default6_of (token_after (codes "via") toks) (token_after (codes "dev") toks))
        later

pub data Mark : Type 0 where
  xray_dial bypass : Mark

-- What the helper asks of `ip`.
pub data Command : Type 0 where
  add_tun address_tun tun_up dns_route dns_rule_del dns_rule_add dns_flush : Command
  physical_default : Default → Command
  physical_default6 : Default6 → Command
  throw throw6 : String → Command
  mark_rule_del mark_rule_add mark_rule_drop : Bool → Mark → Command
  pin : IpAddr → Default → Command
  pin6 : IpAddr → Default6 → Command
  into_tun drop_tun : String → Command
  blackhole6 drop_blackhole6 : String → Command
  unpin unpin6 : Text → Command
  flush flush6 : Command

abbrev pub octets : ℕ → ℕ → ℕ → ℕ → Text
octets a b c d =
    decimal a ++ codes "." ++ decimal b ++ codes "." ++ decimal c ++ codes "." ++ decimal d

abbrev pub ip_text : (List ℕ → Text) → IpAddr → Text
ip_text show6 (v4 a b c d) = octets a b c d
ip_text show6 (v6 gs) = show6 gs

abbrev pub mark_text : Mark → Text
mark_text xray_dial = codes "0x2024"
mark_text bypass = codes "0x2025"

abbrev pub family : Bool → Text
family true = codes "-6"
family false = codes "-4"

abbrev pub via : Option Text → List Text
via none = []
via (some gateway) = codes "via" ∷ gateway ∷ []

abbrev pub texts : List String → List Text
texts [] = []
texts (s ∷ ss) = codes s ∷ texts ss

abbrev pub dns_rule : String → List Text
dns_rule verb =
    texts ("rule" ∷ verb ∷ "priority" ∷ "90" ∷ "fwmark" ∷ "0x2023" ∷ "lookup" ∷ "101" ∷ [])

-- The arguments of a command.
unfoldable pub args : (List ℕ → Text) → Command → List Text
args show6 add_tun = texts ("tuntap" ∷ "add" ∷ "dev" ∷ "varmlen0" ∷ "mode" ∷ "tun" ∷ [])
args show6 address_tun = texts ("addr" ∷ "replace" ∷ "172.19.0.1/30" ∷ "dev" ∷ "varmlen0" ∷ [])
args show6 tun_up = texts ("link" ∷ "set" ∷ "varmlen0" ∷ "up" ∷ [])
args show6 dns_route =
    texts ("route" ∷ "replace" ∷ "default" ∷ "dev" ∷ "varmlen0" ∷ "table" ∷ "101" ∷ [])
args show6 dns_rule_del = dns_rule "del"
args show6 dns_rule_add = dns_rule "add"
args show6 dns_flush = texts ("route" ∷ "flush" ∷ "table" ∷ "101" ∷ [])
args show6 (physical_default d) =
    texts ("route" ∷ "replace" ∷ "default" ∷ [])
    ++ via d.gateway
    ++ (codes "dev" ∷ d.interface ∷ codes "table" ∷ codes "100" ∷ [])
args show6 (physical_default6 d) =
    texts ("-6" ∷ "route" ∷ "replace" ∷ "default" ∷ "via" ∷ [])
    ++ (d.gateway6 ∷ codes "dev" ∷ d.interface6 ∷ codes "table" ∷ codes "100" ∷ [])
args show6 (throw net) = texts ("route" ∷ "replace" ∷ "throw" ∷ net ∷ "table" ∷ "100" ∷ [])
args show6 (throw6 net) = texts ("-6" ∷ "route" ∷ "replace" ∷ "throw" ∷ net ∷ "table" ∷ "100" ∷ [])
args show6 (mark_rule_del six mark) =
    family six
    ∷ codes "rule"
    ∷ codes "del"
    ∷ codes "fwmark"
    ∷ mark_text mark
    ∷ codes "lookup"
    ∷ codes "100"
    ∷ []
args show6 (mark_rule_add six mark) =
    family six
    ∷ codes "rule"
    ∷ codes "add"
    ∷ codes "fwmark"
    ∷ mark_text mark
    ∷ codes "lookup"
    ∷ codes "100"
    ∷ []
args show6 (mark_rule_drop six mark) =
    family six ∷ codes "rule" ∷ codes "del" ∷ codes "fwmark" ∷ mark_text mark ∷ []
args show6 (pin server d) =
    (codes "route" ∷ codes "replace" ∷ (ip_text show6 server ++ codes "/32") ∷ [])
    ++ via d.gateway
    ++ (codes "dev" ∷ d.interface ∷ [])
args show6 (pin6 server d) =
    codes "-6"
    ∷ codes "route"
    ∷ codes "replace"
    ∷ (ip_text show6 server ++ codes "/128")
    ∷ codes "via"
    ∷ d.gateway6
    ∷ codes "dev"
    ∷ d.interface6
    ∷ []
args show6 (into_tun net) = texts ("route" ∷ "replace" ∷ net ∷ "dev" ∷ "varmlen0" ∷ [])
args show6 (drop_tun net) = texts ("route" ∷ "del" ∷ net ∷ "dev" ∷ "varmlen0" ∷ [])
args show6 (blackhole6 net) = texts ("-6" ∷ "route" ∷ "replace" ∷ "blackhole" ∷ net ∷ [])
args show6 (drop_blackhole6 net) = texts ("-6" ∷ "route" ∷ "del" ∷ net ∷ [])
args show6 (unpin address) = codes "route" ∷ codes "del" ∷ (address ++ codes "/32") ∷ []
args show6 (unpin6 address) =
    codes "-6" ∷ codes "route" ∷ codes "del" ∷ (address ++ codes "/128") ∷ []
args show6 flush = texts ("route" ∷ "flush" ∷ "table" ∷ "100" ∷ [])
args show6 flush6 = texts ("-6" ∷ "route" ∷ "flush" ∷ "table" ∷ "100" ∷ [])
