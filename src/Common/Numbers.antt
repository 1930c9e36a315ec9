-- ===== src/Common/Numbers.antt =====
-- `str::parse` for unsigned integers, and the decimal digits that `to_string` prints.
use Prim.Native.Nat.{ℕ, zero, suc, ◌+◌, ◌*◌, ◌/◌, ◌%◌, ◌-◌, ◌^◌, ◌<◌}
use mathlib.Core.Path.{◌≡◌, refl}
use mathlib.Core.Bool.{not, ◌&&◌, ◌||◌}
use mathlib.Core.Option.{Option, none, some}
use mathlib.Core.List.{List, [], ◌∷◌, ◌++◌}
use native.Mathlib.Omega.{arith}
use varmlen_cli_linux.Common.Tests.{ltb, leb, ◌==◌, if◌then◌else◌}
use varmlen_cli_linux.Common.Lists.{is_empty}
use varmlen_cli_linux.Common.Text.{Text, codes}

-- `char::to_digit`.
unfoldable pub to_digit : ℕ → ℕ → Option ℕ
to_digit radix c =
    let d =
      if leb b'0' c && leb c b'9'
      then c - b'0'
      else if leb b'a' c && leb c b'z'
      then c - b'a' + 10
      else if leb b'A' c && leb c b'Z'
      then c - b'A' + 10
      else 36 in
    if ltb d radix then some d else none

-- The digits at the front of a text, and what follows them.
unfoldable pub take_digits : ℕ → Text → List ℕ × Text
unfolding to_digit
take_digits radix [] = ([], [])
take_digits radix (c ∷ s) =
    let (ds, rest) = take_digits radix s in
    elim (to_digit radix c) [ none ↦ ([], c ∷ s) | some d ↦ (d ∷ ds, rest) ]

unfoldable pub digits_value : ℕ → ℕ → List ℕ → ℕ
digits_value radix acc [] = acc
digits_value radix acc (d ∷ ds) = digits_value radix (acc * radix + d) ds

-- `parse::<uN>()` at the bound 2 ^ N: a sign `+` is accepted, other characters are not.
parse_digits : ℕ → Text → Option ℕ
unfolding take_digits digits_value
parse_digits bound s =
    let (ds, rest) = take_digits 10 s in
    let n = digits_value 10 0 ds in
    if is_empty ds || not (is_empty rest) || leb bound n then none else some n

unfoldable pub parse_uint : ℕ → Text → Option ℕ
unfolding parse_digits
parse_uint bound [] = none
parse_uint bound (c ∷ s) = parse_digits bound (if c == b'+' then s else c ∷ s)

abbrev pub u16_bound : ℕ
u16_bound = 2 ^ 16

abbrev pub u32_bound : ℕ
u32_bound = 2 ^ 32

abbrev pub u64_bound : ℕ
u64_bound = 2 ^ 64

-- A parsed number lies in the range of its type.
pub parse_uint-lt : (bound : ℕ) (s : Text) (n : ℕ) → parse_uint bound s ≡ some n → n < bound
unfolding parse_uint
parse_uint-lt bound [] n h = ground arith
parse_uint-lt bound (c ∷ s) n h = ground arith

abbrev signed_number : Text
signed_number = codes "+42"

parse_uint_test : parse_uint u16_bound signed_number ≡ some 42
unfolding parse_uint
parse_uint_test = refl

parse_uint_range : parse_uint u16_bound (codes "65536") ≡ none
unfolding parse_uint
parse_uint_range = refl

decimal_digits : ℕ → ℕ → Text
decimal_digits zero n = []
decimal_digits (suc fuel) n =
    let front = decimal_digits fuel (n / 10) in
    if ltb n 10 then (b'0' + n) ∷ [] else front ++ ((b'0' + n % 10) ∷ [])

-- `to_string` of a number below 2 ^ 64, which has at most 20 digits.
unfoldable pub decimal : ℕ → Text
unfolding decimal_digits
decimal n = decimal_digits 20 n
