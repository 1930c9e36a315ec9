-- ===== src/Dns/Query.antt =====
-- What the query of the probe says to a resolver that reads it.
use varmlen_cli_linux.Common.{
  ℕ, zero, suc, ◌+◌, ◌%◌, ◌≤◌, ◌≡◌, ◌↔◌, inl, inr, refl, true, false, not, ◌||◌, Option, none, some,
  List, [], ◌∷◌, ◌++◌, arith,
}
use varmlen_cli_linux.Common.Tests.{ltb, ◌==◌, Bool-cases}
use varmlen_cli_linux.Common.Lists.{is_empty, length, All, length-append}
use varmlen_cli_linux.Common.Text.{Text, len, pieces}
use varmlen_cli_linux.Common.Outcome.{ok, bind-eq-ok, refuse_if-bind}
use varmlen_cli_linux.Dns.{Bytes, is_ascii, encode_labels, header, question_end, build_dns_query}

-- A name read byte by byte, as a resolver does: with no byte of a label left, the next one is the
-- length of a label, and zero ends the name. The label at hand, the labels behind it, the rest.
abbrev Reading : Type 0
Reading = Option (Text × List Text × Bytes)

abbrev onto_label : ℕ → Reading → Reading
onto_label b none = none
onto_label b (some (label, labels, rest)) = some (b ∷ label, labels, rest)

abbrev new_label : Reading → Reading
new_label none = none
new_label (some (label, labels, rest)) = some ([], label ∷ labels, rest)

unfoldable read_name : ℕ → Bytes → Reading
read_name left [] = none
read_name zero (zero ∷ bs) = some ([], [], bs)
read_name zero (suc n ∷ bs) = new_label (read_name (suc n) bs)
read_name (suc left) (b ∷ bs) = onto_label b (read_name left bs)

abbrev without_label : Reading → Option (List Text × Bytes)
without_label none = none
without_label (some (label, labels, rest)) = some (labels, rest)

-- The labels of the name asked for, behind the twelve bytes of a header, and what stands behind it.
unfoldable pub question : Bytes → Option (List Text × Bytes)
unfolding read_name
question (i ∷ j ∷ f ∷ g ∷ q1 ∷ q2 ∷ a1 ∷ a2 ∷ n1 ∷ n2 ∷ x1 ∷ x2 ∷ bs) =
    without_label (read_name 0 bs)
question _ = none

len-is_ascii : (s : Text) → is_ascii s ≡ true → len s ≡ length s
unfolding len
len-is_ascii [] h = refl
len-is_ascii (c ∷ s) h = ground (arith, len-is_ascii s (ground arith))

-- The bytes of a query that is built.
pub build_dns_query-append :
    (transaction_id : ℕ) (domain : Text) (query : Bytes)
    → build_dns_query transaction_id domain ≡ ok query
    → (labels : Bytes) × (encode_labels (pieces (λ c. c == b'.') domain) ≡ ok labels)
      × (header transaction_id ++ labels ++ question_end ≡ query)
      × (length query ≤ 512)
unfolding build_dns_query
build_dns_query-append transaction_id domain query h =
    let (labels, e, h1) = bind-eq-ok (encode_labels (pieces (λ c. c == b'.') domain)) _ query h in
    let (small, h2) =
      refuse_if-bind (ltb 512 (length (header transaction_id ++ labels ++ question_end))) _ _ query
        h1 in
    let whole : header transaction_id ++ labels ++ question_end ≡ query = cc in
    (labels, e, whole, rw (← whole) (ground (arith, small)))

-- A label that a query can hold.
abbrev pub IsLabel : Text → Type 0
IsLabel label = ((1 ≤ length label) × (length label ≤ 63)) × (is_ascii label ≡ true)

abbrev pub encoded_length : List Text → ℕ
encoded_length [] = 0
encoded_length (label ∷ labels) = 1 + length label + encoded_length labels

size_test_iff :
    (label : Text)
    → ((is_empty label || ltb 63 (len label) || not (is_ascii label)) ≡ false) ↔ IsLabel label
size_test_iff [] = ground arith
size_test_iff (c ∷ label) = elim (Bool-cases (is_ascii (c ∷ label))) [
  | inl t ↦ ground (arith, len-is_ascii (c ∷ label) t)
  | inr f ↦ ground arith
]

encode_labels-length :
    (labels : List Text) (bytes : Bytes)
    → encode_labels labels ≡ ok bytes
    → All IsLabel labels × (length bytes ≡ encoded_length labels)
unfolding encode_labels
encode_labels-length [] bytes h = let same : [] ≡ bytes = cc in (tt, rw (← same) refl)
encode_labels-length (label ∷ labels) bytes h =
    let (taken, h1) =
      refuse_if-bind (is_empty label || ltb 63 (len label) || not (is_ascii label)) _ _ bytes h in
    let (rest, e, last) = bind-eq-ok (encode_labels labels) _ bytes h1 in
    let (labelled, counted) = encode_labels-length labels rest e in
    let same : (len label % 256) ∷ (label ++ rest) ≡ bytes = cc in
    (
      ((size_test_iff label).0 taken, labelled),
      rw (← same) (omega (arith, length-append label rest, counted)),
    )

encode_labels-ok :
    (labels : List Text) → All IsLabel labels → (bytes : Bytes) × (encode_labels labels ≡ ok bytes)
unfolding encode_labels
encode_labels-ok [] good = ([], refl)
encode_labels-ok (label ∷ labels) (good, rest) =
    let (bytes, e) = encode_labels-ok labels rest in
    let taken = (size_test_iff label).1 good in
    ((len label % 256) ∷ (label ++ bytes), rw (taken, e) refl)

query_length :
    (transaction_id : ℕ) (labels : Bytes)
    → length (header transaction_id ++ labels ++ question_end) ≡ 17 + length labels
query_length transaction_id labels = ground (arith, length-append labels question_end)

-- A query is built exactly for a domain whose labels are ASCII, of 1 to 63 bytes each, and with
-- which it has at most 512 bytes; a query that is built has 17 bytes besides its labels.
pub build_dns_query_iff :
    (transaction_id : ℕ) (domain : Text)
    → ((query : Bytes) × (build_dns_query transaction_id domain ≡ ok query)
        × (length query ≡ 17 + encoded_length (pieces (λ c. c == b'.') domain)))
      ↔ (All IsLabel (pieces (λ c. c == b'.') domain)
          × (17 + encoded_length (pieces (λ c. c == b'.') domain) ≤ 512))
unfolding build_dns_query
build_dns_query_iff transaction_id domain = (
  λ (query, h, counted).
      (let (labels, e, whole, small) = build_dns_query-append transaction_id domain query h in
        ((encode_labels-length _ labels e).0, omega (arith, small, counted))),
  λ (good, small).
      (let (labels, e) = encode_labels-ok _ good in
        let counted = (encode_labels-length _ labels e).1 in
        let all_counted = query_length transaction_id labels in
        (
          header transaction_id ++ labels ++ question_end,
          rw e (ground (arith, small, counted, all_counted)),
          omega (arith, counted, all_counted),
        )),
)
