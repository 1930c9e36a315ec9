-- ===== src/Helper/Tests.antt =====
-- A machine that keeps its routes until a command takes them away.
use mathlib.Core.List.{Memᴰ}
use varmlen_cli_linux.Common.{◌≡◌, refl, Bool, true, false, none, some, List, [], ◌∷◌, arith}
use varmlen_cli_linux.Common.Lists.{any}
use varmlen_cli_linux.Common.Text.{codes, text_eq, words, contains_text}
use varmlen_cli_linux.Common.Numbers.{decimal}
use varmlen_cli_linux.Common.Ip.{IpAddr, v4}
use varmlen_cli_linux.Helper.{Command, first_default, args, pin, pin6, into_tun, blackhole6}
use varmlen_cli_linux.Helper.Up.{Host, route_up}
use varmlen_cli_linux.Helper.Outcome.{is_flip, lays_route, Spares, HostLaws}
use varmlen_cli_linux.Helper.Routes.{IsUp, route_up-IsUp}

abbrev Kept : Type 0
Kept = List Command

abbrev after_if : Bool → Command → Kept → Kept
after_if true c s = c ∷ s
after_if false c s = []

-- A command that lays a route puts it there, and any other takes all of them away.
abbrev after : Command → Kept → Kept
after c s = after_if (lays_route c) c s

Spares-lays_route : (c a : Command) → Spares c a → lays_route c ≡ true
Spares-lays_route (pin server d) a h = refl
Spares-lays_route (pin6 server d) a h = refl
Spares-lays_route (into_tun net) a h = refl
Spares-lays_route (blackhole6 net) a h = refl
Spares-lays_route _ a h = elim h [ ]

after_spares : (a c : Command) (s : Kept) → Spares c a → Memᴰ a s → Memᴰ a (after c s)
after_spares a c s h m = rw (Spares-lays_route c a h) (Memᴰ.tail m)

after_apart :
    (lays : Bool) (c : Command) (s : Kept)
    → is_flip c ≡ false
    → any is_flip s ≡ false
    → any is_flip (after_if lays c s) ≡ false
after_apart true c s e p = ground arith
after_apart false c s e p = refl

abbrev machine : Host Kept
machine = record {
  ip = λ c s. (true, after c s);
  show_default = λ s. some (codes "default via 10.0.0.1 dev eth0 proto dhcp");
  show_default6 = λ s. none;
  tun_exists = λ s. true;
  read_file = λ path s. none;
  write_state = λ path text s. s;
  write_file = λ path text s. (true, s);
  remove_file = λ path s. s;
  arm_bypass = λ cgroup interface apps s. (true, s);
  bypass_down = λ s. s;
  show6 = λ gs. [];
}

machine-laws : HostLaws machine (λ c s. Memᴰ c s) (λ s. any is_flip s ≡ false)
machine-laws = record {
  lays = λ c s r h. rw r (Memᴰ.head refl);
  ip_keeps = λ a c s r m. after_spares a c s r m;
  state_keeps = λ a path text s m. m;
  ip_apart = λ c s e p. after_apart (lays_route c) c s e p;
  state_apart = λ path text s p. p;
  file_apart = λ path text s p. p;
  arm_apart = λ cgroup interface apps s p. p;
  arm_keeps = λ a cgroup interface apps s m. m;
}

abbrev servers : List IpAddr
servers = v4 203 0 113 9 ∷ []

physical :
    first_default (codes "default via 10.0.0.1 dev eth0 proto dhcp" ∷ [])
    ≡ some (record { gateway = some (codes "10.0.0.1"); interface = codes "eth0" })
unfolding first_default words text_eq contains_text
physical = refl

pin_args :
    args (λ gs. []) (pin (v4 203 0 113 9) (record { gateway = none; interface = codes "ppp0" }))
    ≡ codes "route" ∷ codes "replace" ∷ codes "203.0.113.9/32" ∷ codes "dev" ∷ codes "ppp0" ∷ []
unfolding args decimal
pin_args = refl

route_up-IsUp_example :
    IsUp machine
      (λ c s. Memᴰ c s)
      (λ s. any is_flip s ≡ false)
      machine-laws
      servers
      []
      (route_up machine servers none [] [])
route_up-IsUp_example =
    route_up-IsUp machine (λ c s. Memᴰ c s) (λ s. any is_flip s ≡ false) machine-laws servers none
      [] [] refl
