-- ===== src/Document/Permitted.antt =====
-- What a configuration that is accepted can make Xray do.
use mathlib.Core.List.{Memᴰ}
use varmlen_cli_linux.Common.{
  ◌+◌, ◌≤◌, ◌≡◌, ap, ◌∙◌, ◌⊎◌, inl, inr, Bool, true, not, ◌||◌, Option, none, some, List, [], ◌∷◌,
  arith,
}
use varmlen_cli_linux.Common.Tests.{Option-cases}
use varmlen_cli_linux.Common.Lists.{length, All, All-map}
use varmlen_cli_linux.Common.Text.{Text, codes, text_eq, text_eq_iff}
use varmlen_cli_linux.Common.Json.{
  Value, Members, keys, lookup, as_object, as_array, and_then, all_keys,
}
use varmlen_cli_linux.Common.Outcome.{ok, bind-eq-ok, refuse_if-eq-ok, then-eq-ok}
use varmlen_cli_linux.Document.{
  require, one_of, sections, file_keys, contains_forbidden_file_key, is_proxy, is_system, count,
  outbounds_are_permitted, is_object, check_keys, check_log, check_in, check_out, check_network,
  check_sections, check_document, validate_xray_document,
}
use varmlen_cli_linux.Document.Outbounds.{IsSystem, outbounds_are_permitted-All}
use varmlen_cli_linux.Document.Keys.{
  require-eq-ok, IsOutside, one_of-Memᴰ, none_fails, no_file_keys,
}
use varmlen_cli_linux.Document.Tags.{AreTagged, fresh_tags-AreTagged}
use varmlen_cli_linux.Document.Inbound.{IsDataInbound, check_inbounds-IsDataInbound}

-- The ways out: proxies, at least one and no more than 64, and exactly one each to leave directly,
-- to answer DNS and to drop, and no other; each under a tag of its own.
abbrev pub AreOutbounds : List Value → Type 0
AreOutbounds vs =
    All (λ v. (is_proxy v ≡ true) ⊎ IsSystem v) vs
    × ((1 ≤ count is_proxy vs) × (count is_proxy vs ≤ 64) × (length vs ≡ count is_proxy vs + 3))
    × ((count (is_system (codes "direct") (codes "freedom")) vs ≡ 1)
        × (count (is_system (codes "dns-out") (codes "dns")) vs ≡ 1)
        × (count (is_system (codes "block") (codes "blackhole")) vs ≡ 1))
    × ((tags : List Text) × AreTagged tags vs)

outbounds_are_permitted-AreOutbounds :
    (vs : List Value) → outbounds_are_permitted vs ≡ true → AreOutbounds vs
unfolding outbounds_are_permitted
outbounds_are_permitted-AreOutbounds vs h = (
  outbounds_are_permitted-All vs h,
  (ground arith, ground arith, ground arith),
  (ground arith, ground arith, ground arith),
  fresh_tags-AreTagged vs (ground arith),
)

abbrev pub IsObject : Text → Members → Type 0
IsObject name top = (ms : Members) × (and_then (lookup name top) as_object ≡ some ms)

is_object-some :
    (o : Option Value) → is_object o ≡ true → (ms : Members) × (and_then o as_object ≡ some ms)
is_object-some none h = cc
is_object-some (some v) h = elim (Option-cases (as_object v)) [ inl e ↦ cc | inr e ↦ e ]

-- What an accepted configuration is: known sections; no log file; one way in; the ways out above;
-- DNS and routing of its own.
abbrev pub HasSections : Bool → Members → Type 0
HasSections expects_tun top =
    All (λ k. Memᴰ k sections) (keys top)
    × ((log : Members) × (and_then (lookup (codes "log") top) as_object ≡ some log)
        × All (λ k. k ≡ codes "loglevel") (keys log))
    × ((v : Value) × (and_then (lookup (codes "inbounds") top) as_array ≡ some (v ∷ []))
        × IsDataInbound expects_tun v)
    × ((vs : List Value) × (and_then (lookup (codes "outbounds") top) as_array ≡ some vs)
        × AreOutbounds vs)
    × (IsObject (codes "dns") top × IsObject (codes "routing") top)

check_log_sound :
    (top : Members)
    → check_log top ≡ ok tt
    → (log : Members) × (and_then (lookup (codes "log") top) as_object ≡ some log)
      × All (λ k. k ≡ codes "loglevel") (keys log)
unfolding check_log
check_log_sound top h =
    let (log, e, f) =
      bind-eq-ok
        (require "Xray log section is missing" (and_then (lookup (codes "log") top) as_object)) _ tt
        h in
    (
      log,
      require-eq-ok _ _ log e,
      All-map _ _ (λ k t. (text_eq_iff k _).0 t) (keys log)
          (none_fails (λ k. text_eq k (codes "loglevel")) (keys log) (refuse_if-eq-ok _ _ f)),
    )

check_keys_sound : (top : Members) → check_keys top ≡ ok tt → All (λ k. Memᴰ k sections) (keys top)
unfolding check_keys
check_keys_sound top h =
    All-map _ _ (one_of-Memᴰ sections) (keys top)
      (none_fails (one_of sections) (keys top) (refuse_if-eq-ok _ _ h))

check_in_sound :
    (expects_tun : Bool) (top : Members)
    → check_in expects_tun top ≡ ok tt
    → (v : Value) × (and_then (lookup (codes "inbounds") top) as_array ≡ some (v ∷ []))
      × IsDataInbound expects_tun v
unfolding check_in
check_in_sound expects_tun top h =
    let (inbounds, e, f) =
      bind-eq-ok
        (require "Xray inbounds are missing" (and_then (lookup (codes "inbounds") top) as_array)) _
        tt h in
    let (v, one, is_data) = check_inbounds-IsDataInbound expects_tun inbounds f in
    (v, require-eq-ok _ _ inbounds e ∙ ap (λ vs. some vs) one, is_data)

check_out_sound :
    (top : Members)
    → check_out top ≡ ok tt
    → (vs : List Value) × (and_then (lookup (codes "outbounds") top) as_array ≡ some vs)
      × AreOutbounds vs
unfolding check_out
check_out_sound top h =
    let (outbounds, e, f) =
      bind-eq-ok
        (require "Xray outbounds are missing" (and_then (lookup (codes "outbounds") top) as_array))
        _ tt h in
    let permitted = refuse_if-eq-ok (not (outbounds_are_permitted outbounds)) _ f in
    (
      outbounds,
      require-eq-ok _ _ outbounds e,
      outbounds_are_permitted-AreOutbounds outbounds (ground (arith, permitted)),
    )

check_network_sound :
    (top : Members)
    → check_network top ≡ ok tt
    → IsObject (codes "dns") top × IsObject (codes "routing") top
unfolding check_network
check_network_sound top h =
    let f =
      refuse_if-eq-ok
        (not (is_object (lookup (codes "dns") top))
          || not (is_object (lookup (codes "routing") top)))
        _ h in
    (
      is_object-some (lookup (codes "dns") top) (ground (arith, f)),
      is_object-some (lookup (codes "routing") top) (ground (arith, f)),
    )

check_sections-HasSections :
    (expects_tun : Bool) (top : Members)
    → check_sections expects_tun top ≡ ok tt
    → HasSections expects_tun top
unfolding check_sections
check_sections-HasSections expects_tun top h =
    let (k, h1) = then-eq-ok (check_keys top) _ h in
    let (l, h2) = then-eq-ok (check_log top) _ h1 in
    let (i, h3) = then-eq-ok (check_in expects_tun top) _ h2 in
    let (o, n) = then-eq-ok (check_out top) (check_network top) h3 in
    (
      check_keys_sound top k,
      check_log_sound top l,
      check_in_sound expects_tun top i,
      check_out_sound top o,
      check_network_sound top n,
    )

-- No key of an accepted document, at any depth, is one of the four.
abbrev pub IsPermitted : Bool → Value → Type 0
IsPermitted expects_tun document =
    ((top : Members) × (as_object document ≡ some top) × HasSections expects_tun top)
    × All (IsOutside file_keys) (all_keys document)

-- A configuration that the daemon accepts is a JSON object with the known sections only; its log
-- section has no key but `loglevel`; it has one inbound (the daemon's tunnel, or port 2081 on the
-- loopback address); its outbounds are one to 64 proxies and three others, exactly one each of
-- `direct` (freedom), `dns-out` (dns) and `block` (blackhole), each under a tag of its own that is
-- not empty; it has a DNS and a routing section; and no key at any depth is `certificateFile`,
-- `keyFile`, `certificatePath` or `keyPath`.
pub validate_xray_document-IsPermitted :
    (parse_json : Text → Option Value) (raw : Text) (expects_tun : Bool)
    → validate_xray_document parse_json raw expects_tun ≡ ok tt
    → (document : Value) × (parse_json raw ≡ some document) × IsPermitted expects_tun document
unfolding validate_xray_document check_document
validate_xray_document-IsPermitted parse_json raw expects_tun h =
    let (document, e, checked) =
      bind-eq-ok (require "invalid generated Xray JSON" (parse_json raw))
        (check_document expects_tun) tt h in
    let (top, is_top, rest) =
      bind-eq-ok (require "Xray configuration must be an object" (as_object document)) _ tt
        checked in
    let (has, files) = then-eq-ok (check_sections expects_tun top) _ rest in
    let clean = refuse_if-eq-ok (contains_forbidden_file_key document) _ files in
    (
      document,
      require-eq-ok _ _ document e,
      (
        (top, require-eq-ok _ _ top is_top, check_sections-HasSections expects_tun top has),
        no_file_keys document clean,
      ),
    )
