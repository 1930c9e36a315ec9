-- ===== src/Common/Ip.antt =====
-- `std::net::IpAddr` and its `parse`: the recursive descent of the standard library.
use Prim.Native.Nat.{ℕ, zero, suc, ◌+◌, ◌*◌, ◌-◌}
use mathlib.Core.Path.{◌≡◌, refl}
use mathlib.Core.Bool.{Bool, true, false, not, ◌&&◌, ◌||◌}
use mathlib.Core.Option.{Option, none, some}
use mathlib.Core.List.{List, [], ◌∷◌, ◌++◌}
use varmlen_cli_linux.Common.Tests.{ltb, leb, ◌==◌, if◌then◌else◌}
use varmlen_cli_linux.Common.Lists.{is_empty, length}
use varmlen_cli_linux.Common.Text.{Text, codes}
use varmlen_cli_linux.Common.Numbers.{take_digits, digits_value}

-- An address, by its octets or by its sixteen-bit groups.
pub data IpAddr : Type 0 where
  v4 : ℕ → ℕ → ℕ → ℕ → IpAddr
  v6 : List ℕ → IpAddr

infixl 5 ◌>>=◌
abbrev ◌>>=◌ : {A B : Type 0} → Option A → (A → Option B) → Option B
none >>= f = none
some a >>= f = f a

abbrev starts_zero : List ℕ → Bool
starts_zero [] = false
starts_zero (d ∷ ds) = d == 0

-- `Parser::read_number`.
read_number : ℕ → ℕ → ℕ → Bool → Text → Option (ℕ × Text)
unfolding take_digits digits_value
read_number radix most bound zeros s =
    let (ds, rest) = take_digits radix s in
    let n = digits_value radix 0 ds in
    if is_empty ds
      || ltb most (length ds)
      || leb bound n
      || (not zeros && starts_zero ds && ltb 1 (length ds))
    then none
    else some (n, rest)

abbrev read_char : ℕ → Text → Option Text
read_char c [] = none
read_char c (d ∷ s) = if c == d then some s else none

abbrev octet : Text → Option (ℕ × Text)
octet = read_number 10 3 256 false

read_ipv4 : Text → Option ((ℕ × ℕ × ℕ × ℕ) × Text)
unfolding read_number
read_ipv4 s = do
  (a, s1) ← octet s
  (b, s2) ← (read_char b'.' s1 >>= octet)
  (c, s3) ← (read_char b'.' s2 >>= octet)
  (d, s4) ← (read_char b'.' s3 >>= octet)
  some ((a, b, c, d), s4)

-- A separator stands before every item but the first.
abbrev after_separator : {A : Type 0} → Bool → (Text → Option A) → Text → Option A
after_separator first read s = if first then read s else (read_char b':' s >>= read)

-- `read_groups` with `left` places to fill: the groups, whether they end in an IPv4 address, and
-- the rest.
read_groups : ℕ → Bool → Text → List ℕ × Bool × Text
unfolding read_ipv4 read_number
read_groups zero first s = ([], false, s)
read_groups (suc left) first s =
    elim (if ltb 0 left then after_separator first read_ipv4 s else none) [
      | some ((a, b, c, d), rest) ↦ ((a * 256 + b) ∷ (c * 256 + d) ∷ [], true, rest)
      | none ↦ elim (after_separator first (read_number 16 4 65536 true) s) [
        | none ↦ ([], false, s)
        | some (g, rest) ↦
            let (gs, v4_end, rest') = read_groups left false rest in (g ∷ gs, v4_end, rest')
      ]
    ]

abbrev zeros : ℕ → List ℕ
zeros zero = []
zeros (suc n) = 0 ∷ zeros n

read_ipv6 : Text → Option (List ℕ × Text)
unfolding read_groups
read_ipv6 s =
    let (head, head_v4, rest) = read_groups 8 true s in
    let tail = λ (after : Text).
      (let (tail, tail_v4, rest') = read_groups (7 - length head) true after in
        some (head ++ (zeros (8 - length head - length tail) ++ tail), rest')) in
    if length head == 8
    then some (head, rest)
    else if head_v4
    then none
    else (read_char b':' rest >>= read_char b':' >>= tail)

abbrev whole : {A : Type 0} → Option (A × Text) → Option A
whole none = none
whole (some (a, [])) = some a
whole (some (a, c ∷ s)) = none

-- `parse::<IpAddr>()`.
unfoldable pub parse_ip : Text → Option IpAddr
unfolding read_ipv4 read_ipv6
parse_ip s = whole (elim (read_ipv4 s) [
  | some ((a, b, c, d), rest) ↦ some (v4 a b c d, rest)
  | none ↦ elim (read_ipv6 s) [ none ↦ none | some (gs, rest) ↦ some (v6 gs, rest) ]
])

parse_ipv4_test : parse_ip (codes "203.0.113.7") ≡ some (v4 203 0 113 7)
unfolding parse_ip
parse_ipv4_test = refl

parse_ipv6_test :
    parse_ip (codes "fe80::1:10.0.0.1") ≡ some (v6 (0xfe80 ∷ 0 ∷ 0 ∷ 0 ∷ 0 ∷ 1 ∷ 0xa00 ∷ 1 ∷ []))
unfolding parse_ip
parse_ipv6_test = refl

parse_ip_refused :
    (parse_ip (codes "1.2.3.04") ≡ none)
    × (parse_ip (codes "1:2") ≡ none)
    × (parse_ip (codes "256.1.1.1") ≡ none)
unfolding parse_ip
parse_ip_refused = (refl, refl, refl)
