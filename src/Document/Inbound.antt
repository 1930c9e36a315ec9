-- ===== src/Document/Inbound.antt =====
-- The inbound that carries the traffic.
use varmlen_cli_linux.Common.{
  ℕ, ◌≡◌, refl, sym, subst, inl, inr, String, Bool, true, false, not, ◌&&◌, Option, none, some,
  List, [], ◌∷◌, arith,
}
use varmlen_cli_linux.Common.Tests.{◌==◌, Bool-cases}
use varmlen_cli_linux.Common.Lists.{length, find}
use varmlen_cli_linux.Common.Text.{codes}
use varmlen_cli_linux.Common.Json.{Value, as_str, as_u64, and_then, get, says, is_text_iff}
use varmlen_cli_linux.Common.Outcome.{ok, bind-eq-ok, refuse_if-bind, refuse_if-eq-ok}
use varmlen_cli_linux.Document.{
  protocol_of, tag_of, has_protocol, inbound_by_tag, is_port, check_data, check_inbounds,
}
use varmlen_cli_linux.Document.Keys.{require-eq-ok}

-- The one way in: the tunnel of the daemon, or a port of this machine for itself.
abbrev pub IsDataInbound : Bool → Value → Type 0
IsDataInbound true v =
    (tag_of v ≡ some (codes "tun-in"))
    × (protocol_of v ≡ some (codes "tun"))
    × (and_then (and_then (get (codes "settings") v) (get (codes "name"))) as_str
        ≡ some (codes "varmlen0"))
IsDataInbound false v =
    (tag_of v ≡ some (codes "socks-in"))
    × (protocol_of v ≡ some (codes "socks"))
    × (and_then (get (codes "listen") v) as_str ≡ some (codes "127.0.0.1"))
    × (and_then (get (codes "port") v) as_u64 ≡ some 2081)

find-one : (p : Value → Bool) (v x : Value) → find p (v ∷ []) ≡ some x → (v ≡ x) × (p v ≡ true)
find-one p v x h = elim (Bool-cases (p v)) [ inl t ↦ (ground arith, t) | inr f ↦ ground arith ]

-- The inbound of a tag, where there is one inbound.
inbound_by_tag-one :
    (tag protocol : String) (v x : Value)
    → inbound_by_tag (v ∷ []) (codes tag) (codes protocol) ≡ ok x
    → (v ≡ x) × (tag_of v ≡ some (codes tag)) × (protocol_of v ≡ some (codes protocol))
unfolding inbound_by_tag
inbound_by_tag-one tag protocol v x h =
    let (e, t) =
      find-one (λ w. says (get (codes "tag") w) (codes tag) && has_protocol (codes protocol) w) v x
        (require-eq-ok _ _ x h) in
    (
      e,
      (is_text_iff (tag_of v) (codes tag)).0 (ground arith),
      (is_text_iff (protocol_of v) (codes protocol)).0 (ground arith),
    )

pub is_port-some : (port : ℕ) (o : Option ℕ) → is_port port o ≡ true → o ≡ some port
is_port-some port none h = cc
is_port-some port (some n) h = ground arith

check_data-tun :
    (v : Value)
    → check_data true v ≡ ok tt
    → and_then (and_then (get (codes "settings") v) (get (codes "name"))) as_str
      ≡ some (codes "varmlen0")
unfolding check_data
check_data-tun v h =
    let f = refuse_if-eq-ok _ _ h in (is_text_iff _ (codes "varmlen0")).0 (ground (arith, f))

check_data-socks :
    (v : Value)
    → check_data false v ≡ ok tt
    → (and_then (get (codes "listen") v) as_str ≡ some (codes "127.0.0.1"))
      × (and_then (get (codes "port") v) as_u64 ≡ some 2081)
unfolding check_data
check_data-socks v h =
    let f = refuse_if-eq-ok _ _ h in
    (
      (is_text_iff _ (codes "127.0.0.1")).0 (ground (arith, f)),
      is_port-some 2081 _ (ground (arith, f)),
    )

pub check_inbounds-IsDataInbound :
    (expects_tun : Bool) (vs : List Value)
    → check_inbounds expects_tun vs ≡ ok tt
    → (v : Value) × (vs ≡ v ∷ []) × IsDataInbound expects_tun v
unfolding check_inbounds
check_inbounds-IsDataInbound expects_tun [] h = cc
check_inbounds-IsDataInbound expects_tun (v ∷ w ∷ vs) h =
    ground (arith, refuse_if-bind (not (length (v ∷ w ∷ vs) == 1)) _ _ tt h)
check_inbounds-IsDataInbound true (v ∷ []) h =
    let (x, found, checked) =
      bind-eq-ok (inbound_by_tag (v ∷ []) (codes "tun-in") (codes "tun")) _ tt h in
    let (e, tag, protocol) = inbound_by_tag-one "tun-in" "tun" v x found in
    (
      v,
      refl,
      (tag, protocol, check_data-tun v (subst (λ w. check_data true w ≡ ok tt) (sym e) checked)),
    )
check_inbounds-IsDataInbound false (v ∷ []) h =
    let (x, found, checked) =
      bind-eq-ok (inbound_by_tag (v ∷ []) (codes "socks-in") (codes "socks")) _ tt h in
    let (e, tag, protocol) = inbound_by_tag-one "socks-in" "socks" v x found in
    let (listen, port) =
      check_data-socks v (subst (λ w. check_data false w ≡ ok tt) (sym e) checked) in
    (v, refl, (tag, protocol, listen, port))
