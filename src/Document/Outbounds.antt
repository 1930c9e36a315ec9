-- ===== src/Document/Outbounds.antt =====
-- The outbounds that pass are counted: there is none besides the proxies and the three of the
-- system.
use varmlen_cli_linux.Common.{
  ℕ, ◌+◌, ◌≤◌, ◌≡◌, refl, sym, subst, ◌⊎◌, inl, inr, Bool, true, false, ◌&&◌, Option, none, some,
  List, [], ◌∷◌, arith,
}
use varmlen_cli_linux.Common.Tests.{Bool-cases}
use varmlen_cli_linux.Common.Lists.{length, All, All-map}
use varmlen_cli_linux.Common.Text.{Text, codes, text_eq, text_eq_iff}
use varmlen_cli_linux.Common.Json.{Value, as_str, get, and_then, is_text}
use varmlen_cli_linux.Document.{
  protocol_of, names_one, one_of, proxy_protocols, is_proxy, is_system, count,
  outbounds_are_permitted,
}

abbrev bit : Bool → ℕ
bit true = 1
bit false = 0

-- What the counts of four kinds say where no element is of two kinds.
module _ {A : Type 0} (p q r s : A → Bool) where
  abbrev kinds : A → ℕ
  kinds x = bit (p x) + bit (q x) + bit (r x) + bit (s x)

  total : List A → ℕ
  total [] = 0
  total (x ∷ xs) = kinds x + total xs

  total-count : (xs : List A) → total xs ≡ count p xs + count q xs + count r xs + count s xs
  unfolding total
  total-count [] = refl
  total-count (x ∷ xs) = ground (arith, total-count xs)

  total-le : (xs : List A) → All (λ x. kinds x ≤ 1) xs → total xs ≤ length xs
  unfolding total
  total-le [] h = omega arith
  total-le (x ∷ xs) (one, h) = omega (arith, one, total-le xs h)

  every_kind :
      (xs : List A) → All (λ x. kinds x ≤ 1) xs → total xs ≡ length xs → All (λ x. kinds x ≡ 1) xs
  unfolding total
  every_kind [] h e = tt
  every_kind (x ∷ xs) (one, h) e =
      (omega (arith, one, e, total-le xs h), every_kind xs h (omega (arith, one, e, total-le xs h)))

abbrev direct : Value → Bool
direct = is_system (codes "direct") (codes "freedom")

abbrev dns : Value → Bool
dns = is_system (codes "dns-out") (codes "dns")

abbrev block : Value → Bool
block = is_system (codes "block") (codes "blackhole")

bit-le : (b : Bool) → bit b ≤ 1
bit-le true = omega arith
bit-le false = omega arith

bit-and-le : (a b : Bool) → bit (a && b) ≤ bit b
bit-and-le true b = omega arith
bit-and-le false true = omega arith
bit-and-le false false = omega arith

-- What a protocol is counted as.
abbrev marks : Text → ℕ
marks s =
    bit (one_of proxy_protocols s)
    + bit (text_eq s (codes "freedom"))
    + bit (text_eq s (codes "dns"))
    + bit (text_eq s (codes "blackhole"))

marks-le : (s : Text) → marks s ≤ 1
unfolding text_eq
marks-le s = elim (Bool-cases (text_eq s (codes "freedom"))) [
  | inl f ↦ at (codes "freedom") ((text_eq_iff s _).0 f) (omega arith)
  | inr f ↦ elim (Bool-cases (text_eq s (codes "dns"))) [
    | inl d ↦ at (codes "dns") ((text_eq_iff s _).0 d) (omega arith)
    | inr d ↦ elim (Bool-cases (text_eq s (codes "blackhole"))) [
      | inl b ↦ at (codes "blackhole") ((text_eq_iff s _).0 b) (omega arith)
      | inr b ↦ rw (f, d, b) (omega (arith, bit-le (one_of proxy_protocols s)))
    ]
  ]
]
  where
    at : (t : Text) → s ≡ t → marks t ≤ 1 → marks s ≤ 1
    at t e h = subst (λ u. marks u ≤ 1) (sym e) h

one_kind : (v : Value) → kinds is_proxy direct dns block v ≤ 1
unfolding is_proxy is_system
one_kind v = go (and_then (get (codes "tag") v) as_str) (protocol_of v)
  where
    go :
        (tag protocol : Option Text)
        → bit (names_one proxy_protocols protocol)
            + bit (is_text tag (codes "direct") && is_text protocol (codes "freedom"))
            + bit (is_text tag (codes "dns-out") && is_text protocol (codes "dns"))
            + bit (is_text tag (codes "block") && is_text protocol (codes "blackhole"))
          ≤ 1
    go tag none = omega (
      arith,
      bit-and-le (is_text tag (codes "direct")) false,
      bit-and-le (is_text tag (codes "dns-out")) false,
      bit-and-le (is_text tag (codes "block")) false,
    )
    go tag (some s) = omega (
      arith,
      bit-and-le (is_text tag (codes "direct")) (text_eq s (codes "freedom")),
      bit-and-le (is_text tag (codes "dns-out")) (text_eq s (codes "dns")),
      bit-and-le (is_text tag (codes "block")) (text_eq s (codes "blackhole")),
      marks-le s,
    )

-- One of the system's outbounds: the one that leaves directly, the one for DNS, the one that drops.
abbrev pub IsSystem : Value → Type 0
IsSystem v = (direct v ≡ true) ⊎ ((dns v ≡ true) ⊎ (block v ≡ true))

kind_of : (v : Value) → kinds is_proxy direct dns block v ≡ 1 → (is_proxy v ≡ true) ⊎ IsSystem v
kind_of v e = ground arith

each_one_kind : (vs : List Value) → All (λ v. kinds is_proxy direct dns block v ≤ 1) vs
each_one_kind [] = tt
each_one_kind (v ∷ vs) = (one_kind v, each_one_kind vs)

pub outbounds_are_permitted-All :
    (vs : List Value)
    → outbounds_are_permitted vs ≡ true
    → All (λ v. (is_proxy v ≡ true) ⊎ IsSystem v) vs
unfolding outbounds_are_permitted
outbounds_are_permitted-All vs t =
    let few = each_one_kind vs in
    let full : total is_proxy direct dns block vs ≡ length vs =
      ground (arith, total-count is_proxy direct dns block vs) in
    All-map _ _ kind_of vs (every_kind is_proxy direct dns block vs few full)
