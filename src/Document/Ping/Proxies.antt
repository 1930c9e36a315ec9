-- ===== src/Document/Ping/Proxies.antt =====
-- The outbounds of a measurement.
use varmlen_cli_linux.Common.{
  ◌≤◌, ◌≡◌, refl, ◌⊎◌, inl, inr, true, false, not, ◌&&◌, ◌||◌, some, List, [], ◌∷◌, arith,
}
use varmlen_cli_linux.Common.Tests.{leb, Bool-cases}
use varmlen_cli_linux.Common.Lists.{is_empty, length, All, All-map}
use varmlen_cli_linux.Common.Text.{Text, codes}
use varmlen_cli_linux.Common.Json.{Value, as_u64, and_then, get, says, is_text_iff}
use varmlen_cli_linux.Common.Outcome.{ok, bind-eq-ok, refuse_if-bind}
use varmlen_cli_linux.Document.{require, one_of, tag_of, protocol_of, has_protocol, is_proxy}
use varmlen_cli_linux.Document.Keys.{require-eq-ok}
use varmlen_cli_linux.Document.Tags.{AreTagged, is_empty-ne, one_of-ne, one_of_rest}
use varmlen_cli_linux.Document.Inbound.{is_port-some}
use varmlen_cli_linux.Document.Ping.{
  last, but_last, is_marked, xray_dial_mark, at3, ping_proxy_message, check_ping_proxies,
  check_ping_outbounds,
}

-- A proxy under a tag, whose connections carry the mark that keeps them out of a tunnel; WireGuard
-- is let through without it.
abbrev pub IsMeasuredProxy : Value → Type 0
IsMeasuredProxy v =
    (is_proxy v ≡ true)
    × ((protocol_of v ≡ some (codes "wireguard"))
        ⊎ (and_then (at3 "streamSettings" "sockopt" "mark" v) as_u64 ≡ some 0x2024))

-- The tags as they are gathered: the last one first, before those of `seen`.
abbrev pub gathered : List Text → List Text → List Text
gathered [] seen = seen
gathered (tag ∷ own) seen = gathered own (tag ∷ seen)

measured_proxy :
    (v : Value)
    → is_proxy v ≡ true
    → (not (has_protocol (codes "wireguard") v) && not (is_marked v)) ≡ false
    → IsMeasuredProxy v
unfolding is_marked
measured_proxy v p m = elim (Bool-cases (has_protocol (codes "wireguard") v)) [
  | inl w ↦ (p, inl ((is_text_iff (protocol_of v) (codes "wireguard")).0 w))
  | inr w ↦ (p, inr (is_port-some xray_dial_mark _ (ground arith)))
]

abbrev AreNew : List Text → List Text → Type 0
AreNew seen own = All (λ t. one_of seen t ≡ false) own

check_ping_proxies_sound :
    (seen : List Text) (vs : List Value) (tags : List Text)
    → check_ping_proxies seen vs ≡ ok tags
    → All IsMeasuredProxy vs
      × ((own : List Text) × AreTagged own vs × (tags ≡ gathered own seen) × AreNew seen own)
unfolding check_ping_proxies
check_ping_proxies_sound seen [] tags h =
    let same : tags ≡ seen = cc in (tt, ([], (refl, tt, tt), same, tt))
check_ping_proxies_sound seen (v ∷ vs) tags h =
    let (tag, is_tag, h1) = bind-eq-ok (require ping_proxy_message (tag_of v)) _ tags h in
    let (accepted, h2) =
      refuse_if-bind
        (not (is_proxy v)
          || is_empty tag
          || one_of seen tag
          || (not (has_protocol (codes "wireguard") v) && not (is_marked v)))
        _ _ tags h1 in
    let (proxies, (own, (are, full, distinct), same, new)) =
      check_ping_proxies_sound (tag ∷ seen) vs tags h2 in
    let named = require-eq-ok ping_proxy_message (tag_of v) tag is_tag in
    (
      (measured_proxy v (ground (arith, accepted)) (ground (arith, accepted)), proxies),
      (
        tag ∷ own,
        (
          rw (named, are) refl,
          (is_empty-ne tag (ground (arith, accepted)), full),
          (All-map _ _ (λ t f. one_of-ne tag seen t f) own new, distinct),
        ),
        same,
        (ground (arith, accepted), All-map _ _ (λ t f. one_of_rest tag seen t f) own new),
      ),
    )

-- The proxies, at most 64 of them and each under a tag of its own, and after them the way out
-- without one; the tags that are gathered are these.
abbrev pub AreMeasured : List Value → List Text → Type 0
AreMeasured [] tags = ⊥
AreMeasured (v ∷ vs) tags =
    (length vs ≤ 64)
    × (1 ≤ length vs)
    × All IsMeasuredProxy (but_last v vs)
    × (protocol_of (last v vs) ≡ some (codes "freedom"))
    × ((own : List Text) × AreTagged own (but_last v vs) × (tags ≡ gathered own []))

pub check_ping_outbounds-AreMeasured :
    (vs : List Value) (tags : List Text) → check_ping_outbounds vs ≡ ok tags → AreMeasured vs tags
unfolding check_ping_outbounds
check_ping_outbounds-AreMeasured [] tags h = cc
check_ping_outbounds-AreMeasured (v ∷ vs) tags h =
    let (accepted, h1) =
      refuse_if-bind
        (not (leb 2 (length (v ∷ vs)) && leb (length (v ∷ vs)) 65)
          || not (says (get (codes "tag") (last v vs)) (codes "direct"))
          || not (has_protocol (codes "freedom") (last v vs)))
        _ _ tags h in
    let (proxies, (own, tagged, same, new)) = check_ping_proxies_sound [] (but_last v vs) tags h1 in
    (
      ground (arith, accepted),
      ground (arith, accepted),
      proxies,
      (is_text_iff (protocol_of (last v vs)) (codes "freedom")).0 (ground (arith, accepted)),
      (own, tagged, same),
    )
