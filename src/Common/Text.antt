-- ===== src/Common/Text.antt =====
-- Text as a list of Unicode code points, and the `str` methods that the code calls.
use Prim.Native.Nat.{ℕ, ◌+◌}
use Prim.Native.Char.{code}
use Prim.Native.String.{String}
use mathlib.Core.Path.{◌≡◌, refl}
use mathlib.Core.Logic.{◌↔◌}
use mathlib.Core.Bool.{Bool, true, false, not, ◌&&◌, ◌||◌}
use mathlib.Core.List.{List, [], ◌∷◌, reverse, map}
use native.Mathlib.Omega.{arith}
use varmlen_cli_linux.Common.Tests.{ltb, leb, ◌==◌, if◌then◌else◌}
use varmlen_cli_linux.Common.Lists.{any, is_empty, keep}

abbrev pub Text : Type 0
Text = List ℕ

-- The code points of a literal.
abbrev pub codes : String → Text
codes String.[] = []
codes (String.◌∷◌ c s) = code c ∷ codes s

-- How many bytes UTF-8 takes for a code point.
abbrev pub utf8_width : ℕ → ℕ
utf8_width c = if ltb c 0x80 then 1 else if ltb c 0x800 then 2 else if ltb c 0x10000 then 3 else 4

-- `str::len`, in bytes.
unfoldable pub len : Text → ℕ
len [] = 0
len (c ∷ s) = utf8_width c + len s

-- `char::is_whitespace`: the code points with the property White_Space.
unfoldable pub is_whitespace : ℕ → Bool
is_whitespace c =
    (leb 9 c && leb c 13)
    || c == 0x20
    || c == 0x85
    || c == 0xa0
    || c == 0x1680
    || (leb 0x2000 c && leb c 0x200a)
    || c == 0x2028
    || c == 0x2029
    || c == 0x202f
    || c == 0x205f
    || c == 0x3000

unfoldable pub trim_start : Text → Text
unfolding is_whitespace
trim_start [] = []
trim_start (c ∷ s) = if is_whitespace c then trim_start s else c ∷ s

unfoldable pub trim_end : Text → Text
unfolding trim_start
trim_end s = reverse (trim_start (reverse s))

unfoldable pub trim : Text → Text
unfolding trim_start trim_end
trim s = trim_end (trim_start s)

-- `str::contains(char)`.
unfoldable pub contains_char : Text → ℕ → Bool
contains_char s c = any (λ d. d == c) s

unfoldable pub text_eq : Text → Text → Bool
text_eq [] [] = true
text_eq [] (d ∷ t) = false
text_eq (c ∷ s) [] = false
text_eq (c ∷ s) (d ∷ t) = c == d && text_eq s t

pub text_eq_iff : (s t : Text) → (text_eq s t ≡ true) ↔ (s ≡ t)
unfolding text_eq
text_eq_iff [] [] = (λ h. refl, λ h. refl)
text_eq_iff [] (d ∷ t) = ground arith
text_eq_iff (c ∷ s) [] = ground arith
text_eq_iff (c ∷ s) (d ∷ t) = ground (arith, text_eq_iff s t)

unfoldable pub starts_with : Text → Text → Bool
starts_with s [] = true
starts_with [] (c ∷ t) = false
starts_with (c ∷ s) (d ∷ t) = c == d && starts_with s t

unfoldable pub ascii_lower : ℕ → ℕ
ascii_lower c = if leb b'A' c && leb c b'Z' then c + 32 else c

unfoldable pub eq_ignore_ascii_case : Text → Text → Bool
unfolding text_eq ascii_lower
eq_ignore_ascii_case s t = text_eq (map ascii_lower s) (map ascii_lower t)

-- The pieces between separators; `n` separators make `n + 1` pieces.
unfoldable pub split_on : (ℕ → Bool) → Text → Text × List Text
split_on sep [] = ([], [])
split_on sep (c ∷ s) =
    let (first, rest) = split_on sep s in if sep c then ([], first ∷ rest) else (c ∷ first, rest)

unfoldable pub pieces : (ℕ → Bool) → Text → List Text
unfolding split_on
pieces sep s = let (first, rest) = split_on sep s in first ∷ rest

-- `split_whitespace`.
unfoldable pub words : Text → List Text
unfolding pieces is_whitespace
words s = keep (λ w. not (is_empty w)) (pieces is_whitespace s)

-- `lines`: a line ends at a `\n`, a `\r` before it is dropped, and the last piece counts where it
-- is not empty.
unfoldable pub drop_cr : Text → Text
drop_cr [] = []
drop_cr (c ∷ s) = if c == 13 && is_empty s then [] else c ∷ drop_cr s

unfoldable pub lines_of : Text → List Text → List Text
unfolding drop_cr
lines_of first [] = if is_empty first then [] else first ∷ []
lines_of first (next ∷ rest) = drop_cr first ∷ lines_of next rest

unfoldable pub lines : Text → List Text
unfolding split_on lines_of
lines s = let (first, rest) = split_on (λ c. c == 10) s in lines_of first rest

-- `str::contains(&str)`.
unfoldable pub contains_text : Text → Text → Bool
unfolding starts_with
contains_text [] t = starts_with [] t
contains_text (c ∷ s) t = starts_with (c ∷ s) t || contains_text s t
