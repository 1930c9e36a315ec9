-- ===== src/Log.antt =====
-- daemon/src/log_store.rs: Xray's log and its three older files. A file is known by its index,
-- 0 being the one that is written, and is a list of bytes. What the file system does is an
-- interface on a state of its own; `String::from_utf8_lossy` is a parameter.
pub mod Files
pub mod Bounds
pub mod Tail
pub mod Tests
use varmlen_cli_linux.Common.{
  ℕ, zero, suc, ◌+◌, ◌-◌, ◌*◌, ◌^◌, Bool, true, false, Option, none, some, List, [], ◌∷◌,
}
use varmlen_cli_linux.Common.Tests.{ltb, ◌==◌, if◌then◌else◌}
use varmlen_cli_linux.Common.Lists.{length, drop}
use varmlen_cli_linux.Common.Text.{Text}
use varmlen_cli_linux.Common.Action.{◌then◌}

abbrev pub Bytes : Type 0
Bytes = List ℕ

abbrev pub max_log_bytes : ℕ
max_log_bytes = 10 * 1024 * 1024

abbrev pub max_log_tail_bytes : ℕ
max_log_tail_bytes = 256 * 1024

pub data Io : Type 0 where
  done not_found failed : Io

pub data Read : Type 0 where
  contents : Bytes → Read
  missing refused : Read

pub record Disk (S : Type 0) : Type 0 where
  -- `fs::metadata` of the log.
  pub metadata_len : S → Option ℕ
  pub remove_file : ℕ → S → Io × S
  pub rename : ℕ → ℕ → S → Io × S
  -- `open_append`, `write_all` and `flush`.
  pub write : Bytes → S → Bool × S
  pub read : S → Read

-- `saturating_add` of u64.
abbrev pub saturating_add : ℕ → ℕ → ℕ
saturating_add a b = if ltb (a + b) (2 ^ 64) then a + b else 2 ^ 64 - 1

abbrev pub unwrap_or_zero : Option ℕ → ℕ
unwrap_or_zero none = 0
unwrap_or_zero (some n) = n

abbrev pub smaller : ℕ → ℕ → ℕ
smaller a b = if ltb a b then a else b

-- What follows the first `\n`; all of it where there is none.
abbrev pub after_newline : Bytes → Option Bytes
after_newline [] = none
after_newline (b ∷ bs) = let later = after_newline bs in if b == 10 then some bs else later

abbrev pub or_all : Bytes → Option Bytes → Bytes
or_all bs none = bs
or_all bs (some rest) = rest

abbrev pub whole_lines : ℕ → Bytes → Bytes
whole_lines zero bs = bs
whole_lines (suc start) bs = or_all bs (after_newline bs)

-- The end of a log that `tail` gives.
unfoldable pub tail_of : ℕ → Bytes → Bytes
tail_of max_bytes bs =
    let start = length bs - smaller max_bytes max_log_tail_bytes in
    whole_lines start (drop start bs)

-- `false` is an error that the caller passes on.
abbrev pub unless_failed : {S : Type 0} → Io × S → Bool × S
unless_failed (done, s) = (true, s)
unless_failed (not_found, s) = (true, s)
unless_failed (failed, s) = (false, s)

module _ {S : Type 0} (disk : Disk S) where
  abbrev pub rename_if_exists : ℕ → ℕ → S → Bool × S
  rename_if_exists from to s = unless_failed (disk.rename from to s)

  abbrev pub remove_if_exists : ℕ → S → Bool × S
  remove_if_exists index s = unless_failed (disk.remove_file index s)

  unfoldable pub rotate : S → Bool × S
  rotate s =
      remove_if_exists 3 s
      then rename_if_exists 2 3
      then rename_if_exists 1 2
      then rename_if_exists 0 1

  -- `append` once it is known whether the log has to be rotated.
  abbrev pub rotate_if : Bool → S → Bool × S
  rotate_if true s = rotate s
  rotate_if false s = (true, s)

  unfoldable pub append : Bytes → S → Bool × S
  unfolding rotate
  append [] s = (true, s)
  append (b ∷ bs) s =
      let current_len = unwrap_or_zero (disk.metadata_len s) in
      let full = ltb max_log_bytes (saturating_add current_len (length (b ∷ bs))) in
      rotate_if full s then disk.write (drop (length (b ∷ bs) - max_log_bytes) (b ∷ bs))

  abbrev pub tail_read : (Bytes → Text) → ℕ → Read → Option Text
  tail_read from_utf8_lossy max_bytes (contents bs) = some (from_utf8_lossy (tail_of max_bytes bs))
  tail_read from_utf8_lossy max_bytes missing = some []
  tail_read from_utf8_lossy max_bytes refused = none

  unfoldable pub tail : (Bytes → Text) → ℕ → S → Option Text
  unfolding tail_of
  tail from_utf8_lossy max_bytes s = tail_read from_utf8_lossy max_bytes (disk.read s)

  unfoldable pub clear : S → Bool × S
  clear s =
      remove_if_exists 0 s then remove_if_exists 1 then remove_if_exists 2 then remove_if_exists 3
