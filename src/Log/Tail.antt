-- ===== src/Log/Tail.antt =====
-- What is shown of the log.
use varmlen_cli_linux.Common.{
  ℕ, zero, suc, ◌-◌, ◌≤◌, ◌<◌, ◌≡◌, ◌≢◌, refl, ap, ◌⊎◌, inl, inr, none, some, [], ◌∷◌, ◌++◌, arith,
}
use varmlen_cli_linux.Common.Tests.{◌==◌, Bool-cases, Option-cases}
use varmlen_cli_linux.Common.Lists.{length, take, drop, All}
use varmlen_cli_linux.Log.{Bytes, smaller, max_log_tail_bytes, after_newline, whole_lines, tail_of}

take-append-drop : (n : ℕ) (bs : Bytes) → take n bs ++ drop n bs ≡ bs
take-append-drop n [] = refl
take-append-drop zero (b ∷ bs) = refl
take-append-drop (suc n) (b ∷ bs) = ap (λ r. b ∷ r) (take-append-drop n bs)

length-drop : (n : ℕ) (bs : Bytes) → length (drop n bs) ≡ length bs - n
length-drop n [] = omega arith
length-drop zero (b ∷ bs) = omega arith
length-drop (suc n) (b ∷ bs) = omega (arith, length-drop n bs)

-- The end of a log that is longer than what may be shown: without the line that its start cut
-- off, up to that line's end, or all of it where no line ends in it.
abbrev pub IsWhole : Bytes → Bytes → Type 0
IsWhole window rest =
    ((line : Bytes) × (window ≡ line ++ (10 ∷ rest)) × All (λ b. b ≢ 10) line)
    ⊎ ((rest ≡ window) × All (λ b. b ≢ 10) window)

-- What is shown of `bs` where at most `most` bytes may be.
abbrev pub IsTail : ℕ → Bytes → Bytes → Type 0
IsTail most bs rest =
    ((length bs ≤ most) × (rest ≡ bs))
    ⊎ ((most < length bs)
        × (front : Bytes) × (window : Bytes) × (front ++ window ≡ bs)
        × (length window ≡ most)
        × IsWhole window rest)

after_newline-some :
    (bs rest : Bytes)
    → after_newline bs ≡ some rest
    → (line : Bytes) × (bs ≡ line ++ (10 ∷ rest)) × All (λ b. b ≢ 10) line
after_newline-some [] rest h = cc
after_newline-some (b ∷ bs) rest h = elim (Bool-cases (b == 10)) [
  | inl t ↦
      let byte : b ≡ 10 = ground arith in
      let same : bs ≡ rest = ground arith in ([], rw (byte, same) refl, tt)
  | inr f ↦
      let (line, e, whole) = after_newline-some bs rest (ground arith) in
      (b ∷ line, ap (λ r. b ∷ r) e, (ground arith, whole))
]

after_newline-none : (bs : Bytes) → after_newline bs ≡ none → All (λ b. b ≢ 10) bs
after_newline-none [] h = tt
after_newline-none (b ∷ bs) h = elim (Bool-cases (b == 10)) [
  | inl t ↦ ground arith
  | inr f ↦ (ground arith, after_newline-none bs (ground arith))
]

-- What is left of the end of a log once a line that is cut is dropped.
whole_lines-IsWhole : (start : ℕ) (bs : Bytes) → IsWhole bs (whole_lines (suc start) bs)
whole_lines-IsWhole start bs = elim (Option-cases (after_newline bs)) [
  | inl e ↦ rw e (inr (refl, after_newline-none bs e))
  | inr (rest, e) ↦ rw e (inl (after_newline-some bs rest e))
]

drop_zero : (bs : Bytes) → drop 0 bs ≡ bs
drop_zero [] = refl
drop_zero (b ∷ bs) = refl

long-IsWhole :
    (start : ℕ) (bs : Bytes)
    → 0 < start
    → IsWhole (drop start bs) (whole_lines start (drop start bs))
long-IsWhole zero bs lt = absurd (omega (arith, lt))
long-IsWhole (suc start) bs lt = whole_lines-IsWhole start (drop (suc start) bs)

whole_lines-IsTail :
    (most : ℕ) (bs : Bytes)
    → let start = length bs - most in IsTail most bs (whole_lines start (drop start bs))
whole_lines-IsTail most bs =
    let start = length bs - most in
    elim (le_or_lt (length bs) most) [
      | inl le ↦
          let none_cut : length bs - most ≡ 0 = omega (arith, le) in
          inl (le, rw none_cut (drop_zero bs))
      | inr lt ↦ inr (
        lt,
        take start bs,
        drop start bs,
        take-append-drop start bs,
        omega (arith, length-drop start bs, lt),
        long-IsWhole start bs (omega (arith, lt)),
      )
    ]
  where
    le_or_lt : (a b : ℕ) → (a ≤ b) ⊎ (b < a)
    le_or_lt a b = omega arith

-- A log of at most the bytes that were asked for, and at most 256 KiB, is shown whole. Of a longer
-- one, that many bytes at its end are shown, without what is left in them of a line that they
-- begin in, up to and with its newline, the first one; where no line ends in them, they are shown
-- as they are.
pub tail_of-IsTail :
    (max_bytes most : ℕ) (bs : Bytes)
    → most ≤ max_bytes
    → most ≤ 262144
    → (most ≡ max_bytes) ⊎ (most ≡ 262144)
    → IsTail most bs (tail_of max_bytes bs)
unfolding tail_of
tail_of-IsTail max_bytes most bs le1 le2 least =
    let same : smaller max_bytes max_log_tail_bytes ≡ most = ground arith in
    rw same (whole_lines-IsTail most bs)
