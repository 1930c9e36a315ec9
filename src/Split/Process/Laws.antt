-- ===== src/Split/Process/Laws.antt =====
-- What a rule accepts and what it may look at, and when an execution is held up.
use varmlen_cli_linux.Common.{◌≤◌, ◌≡◌, refl, inl, inr, true, false, ◌||◌, List, arith}
use varmlen_cli_linux.Common.Tests.{ltb, Bool-cases}
use varmlen_cli_linux.Common.Lists.{is_empty}
use varmlen_cli_linux.Common.Text.{Text, len, trim, contains_char}
use varmlen_cli_linux.Common.Outcome.{Result, ok, err}
use varmlen_cli_linux.Split.{SplitError, invalid_application}
use varmlen_cli_linux.Split.Process.{
  AppSelector, exact_path, process_name, ProcessSnapshot, parse, parse_trimmed, starts_at_root,
  matches, is_named, is_windows_image,
}

-- What the rule is about, as it was written.
abbrev pub text_of : AppSelector → Text
text_of (exact_path path) = path
text_of (process_name name) = name

-- A path is absolute, and a name holds no separator.
abbrev pub HasShape : AppSelector → Type 0
HasShape (exact_path path) = starts_at_root path ≡ true
HasShape (process_name name) = (contains_char name b'/' ≡ false) × (contains_char name 0x5c ≡ false)

abbrev pub IsParsed : Text → Result SplitError AppSelector → Type 0
IsParsed value (ok selector) =
    (text_of selector ≡ value)
    × (is_empty value ≡ false)
    × (len value ≤ 4096)
    × (contains_char value 0 ≡ false)
    × HasShape selector
IsParsed value (err e) = e ≡ invalid_application value

parse_trimmed-IsParsed : (value : Text) → IsParsed value (parse_trimmed value)
unfolding parse_trimmed
parse_trimmed-IsParsed value =
    let bad = is_empty value || ltb 4096 (len value) || contains_char value 0 in
    let separated = contains_char value b'/' || contains_char value 0x5c in
    elim (Bool-cases bad) [
      | inl t ↦ rw t refl
      | inr f ↦ elim (Bool-cases (starts_at_root value)) [
        | inl t ↦ rw (f, t) (refl, ground arith, ground arith, ground arith, t)
        | inr g ↦ elim (Bool-cases separated) [
          | inl t ↦ rw (f, g, t) refl
          | inr h ↦
              rw (f, g, h)
                (refl, ground arith, ground arith, ground arith, (ground arith, ground arith))
        ]
      ]
    ]

-- A rule is either taken as it was written, without the space around it, and then it is not empty,
-- no longer than 4096 bytes and without a zero, and is an absolute path or a name without
-- separators; or it is refused under the text that it was.
pub parse-IsParsed : (value : Text) → IsParsed (trim value) (parse value)
unfolding parse
parse-IsParsed value = parse_trimmed-IsParsed (trim value)

-- A rule that does not name a Windows image looks at the name, the executable and the first
-- argument of a process: what its other arguments are makes no difference.
pub matches-arguments :
    (name : Text) (process : ProcessSnapshot) (others : List Text)
    → is_windows_image name ≡ false
    → matches (process_name name) (record process { arguments = others })
      ≡ matches (process_name name) process
unfolding matches is_named
matches-arguments name process others f = rw f refl
