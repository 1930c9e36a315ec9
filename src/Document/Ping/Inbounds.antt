-- ===== src/Document/Ping/Inbounds.antt =====
-- The inbounds of a measurement.
use varmlen_cli_linux.Common.{ℕ, ◌+◌, ◌≡◌, subst, Bool, true, not, some, List, [], ◌∷◌, arith}
use varmlen_cli_linux.Common.Lists.{length}
use varmlen_cli_linux.Common.Text.{Text, codes}
use varmlen_cli_linux.Common.Json.{Value, as_str, as_u64, and_then, get, is_text_iff}
use varmlen_cli_linux.Common.Outcome.{ok, bind-eq-ok, refuse_if-bind}
use varmlen_cli_linux.Document.{require, tag_of, protocol_of}
use varmlen_cli_linux.Document.Keys.{require-eq-ok}
use varmlen_cli_linux.Document.Inbound.{is_port-some}
use varmlen_cli_linux.Document.Ping.{is_ping_inbound, loopback_only, check_ping_inbounds}

-- A SOCKS port of this machine for itself.
abbrev pub IsLoopback : ℕ → Value → Type 0
IsLoopback port v =
    (protocol_of v ≡ some (codes "socks"))
    × (and_then (get (codes "listen") v) as_str ≡ some (codes "127.0.0.1"))
    × (and_then (get (codes "port") v) as_u64 ≡ some port)

-- One inbound for each port, in order, with their tags.
abbrev pub AreInbounds : List Value → List ℕ → List Text → Type 0
AreInbounds [] [] [] = Unit
AreInbounds (v ∷ vs) (port ∷ ports) (tag ∷ tags) =
    ((tag_of v ≡ some tag) × IsLoopback port v) × AreInbounds vs ports tags
AreInbounds _ _ _ = ⊥

is_ping_inbound-IsLoopback :
    (single : Bool) (index : ℕ) (tag : Text) (port : ℕ) (v : Value)
    → is_ping_inbound single index tag port v ≡ true
    → IsLoopback port v
unfolding is_ping_inbound
is_ping_inbound-IsLoopback single index tag port v h = (
  (is_text_iff (protocol_of v) (codes "socks")).0 (ground arith),
  (is_text_iff (and_then (get (codes "listen") v) as_str) (codes "127.0.0.1")).0 (ground arith),
  is_port-some port (and_then (get (codes "port") v) as_u64) (ground arith),
)

pub check_ping_inbounds-AreInbounds :
    (single : Bool) (index : ℕ) (vs : List Value) (ports : List ℕ) (tags : List Text)
    → length vs ≡ length ports
    → check_ping_inbounds single index vs ports ≡ ok tags
    → AreInbounds vs ports tags
unfolding check_ping_inbounds
check_ping_inbounds-AreInbounds single index [] [] tags e h =
    let same : [] ≡ tags = cc in subst (λ ts. AreInbounds [] [] ts) same tt
check_ping_inbounds-AreInbounds single index [] (port ∷ ports) tags e h = ground arith
check_ping_inbounds-AreInbounds single index (v ∷ vs) [] tags e h = ground arith
check_ping_inbounds-AreInbounds single index (v ∷ vs) (port ∷ ports) tags e h =
    let (tag, is_tag, h1) = bind-eq-ok (require loopback_only (tag_of v)) _ tags h in
    let (accepted, h2) =
      refuse_if-bind (not (is_ping_inbound single index tag port v)) _ _ tags h1 in
    let (later, rest, same) =
      bind-eq-ok (check_ping_inbounds single (index + 1) vs ports) _ tags h2 in
    let each : AreInbounds (v ∷ vs) (port ∷ ports) (tag ∷ later) = (
      (
        require-eq-ok loopback_only _ tag is_tag,
        is_ping_inbound-IsLoopback single index tag port v (ground (arith, accepted)),
      ),
      check_ping_inbounds-AreInbounds single (index + 1) vs ports later (omega (arith, e)) rest,
    ) in
    let whole : tag ∷ later ≡ tags = cc in
    subst (λ ts. AreInbounds (v ∷ vs) (port ∷ ports) ts) whole each
