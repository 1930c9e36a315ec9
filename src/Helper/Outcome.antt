-- ===== src/Helper/Outcome.antt =====
-- What a machine keeps of the helper's commands, and how its steps end.
use varmlen_cli_linux.Common.{String, ◌≡◌, Bool, true, false, List}
use varmlen_cli_linux.Common.Text.{Text}
use varmlen_cli_linux.Common.Action.{◌then◌}
use varmlen_cli_linux.Helper.{Default, Command, pin, pin6, into_tun, blackhole6}
use varmlen_cli_linux.Helper.Up.{Host}

abbrev pub is_flip : Command → Bool
is_flip (into_tun net) = true
is_flip _ = false

-- A command that puts a route there: beside the tunnel for a server, or into the tunnel or nowhere
-- for half of the addresses.
abbrev pub lays_route : Command → Bool
lays_route (pin server d) = true
lays_route (pin6 server d) = true
lays_route (into_tun net) = true
lays_route (blackhole6 net) = true
lays_route _ = false

-- The command, a pin, leaves by this default route.
abbrev pub LeavesBy : Default → Command → Type 0
LeavesBy d (pin server e) = e ≡ d
LeavesBy d _ = Unit

abbrev pub IsPin6 : Command → Type 0
IsPin6 (pin6 server d) = Unit
IsPin6 _ = ⊥

-- The first command lays a route of its own, not one in the place of the second's: a pin replaces
-- one of the same server, which is no other if they leave by the same default route.
abbrev pub Spares : Command → Command → Type 0
Spares (pin server d) a = LeavesBy d a
Spares (pin6 server d) a = ¬ IsPin6 a
Spares (into_tun net) a = Unit
Spares (blackhole6 net) a = Unit
Spares _ a = ⊥

-- What a machine does with routes. `Laid c` is that the route of `c` is there, and `Apart` that
-- nothing is sent into the tunnel. `ip route replace` puts its route there and leaves those that it
-- spares; whether other commands take routes away is left open.
pub record HostLaws {S : Type 0} (host : Host S) (Laid : Command → S → Type 0) (Apart : S → Type 0)
    : Type 0 where
  pub lays :
      (c : Command) (s : S) → lays_route c ≡ true → (host.ip c s).0 ≡ true → Laid c (host.ip c s).1
  pub ip_keeps : (a c : Command) (s : S) → Spares c a → Laid a s → Laid a (host.ip c s).1
  pub state_keeps :
      (a : Command) (path : String) (t : Text) (s : S)
      → Laid a s
      → Laid a (host.write_state path t s)
  pub ip_apart : (c : Command) (s : S) → is_flip c ≡ false → Apart s → Apart (host.ip c s).1
  pub state_apart : (path : String) (t : Text) (s : S) → Apart s → Apart (host.write_state path t s)
  pub file_apart : (path : String) (t : Text) (s : S) → Apart s → Apart (host.write_file path t s).1
  pub arm_apart :
      (cgroup interface : Text) (apps : List Text) (s : S)
      → Apart s
      → Apart (host.arm_bypass cgroup interface apps s).1
  pub arm_keeps :
      (a : Command) (cgroup interface : Text) (apps : List Text) (s : S)
      → Laid a s
      → Laid a (host.arm_bypass cgroup interface apps s).1

-- What holds of the machine after a step, by whether it succeeded.
abbrev pub Outcome : {S : Type 0} → (S → Type 0) → (S → Type 0) → Bool × S → Type 0
Outcome Done Failed (true, s) = Done s
Outcome Done Failed (false, s) = Failed s

module _ {S : Type 0} where
  pub then-Outcome :
      (P Q U : S → Type 0) (m : Bool × S) (next : S → Bool × S)
      → Outcome P U m
      → ((s : S) → P s → Outcome Q U (next s))
      → Outcome Q U (m then next)
  then-Outcome P Q U (true, s) next p h = h s p
  then-Outcome P Q U (false, s) next p h = p

  pub both-Outcome : (P : S → Type 0) (m : Bool × S) → P m.1 → Outcome P P m
  both-Outcome P (true, s) p = p
  both-Outcome P (false, s) p = p

  pub Outcome-map :
      (P Q U V : S → Type 0) (m : Bool × S)
      → ((s : S) → P s → Q s)
      → ((s : S) → U s → V s)
      → Outcome P U m
      → Outcome Q V m
  Outcome-map P Q U V (true, s) f g h = f s h
  Outcome-map P Q U V (false, s) f g h = g s h

  -- What a step keeps, however it ends.
  abbrev pub Keeps : (S → Type 0) → (S → Bool × S) → Type 0
  Keeps P step = (s : S) → P s → Outcome P P (step s)

  then-Keeps :
      (P : S → Type 0) (first next : S → Bool × S)
      → Keeps P first
      → Keeps P next
      → Keeps P (λ s. first s then next)
  then-Keeps P first next k l s p = then-Outcome P P P (first s) next (k s p) l
