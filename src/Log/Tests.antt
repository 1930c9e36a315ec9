-- ===== src/Log/Tests.antt =====
-- A log on a disk that never fails.
use varmlen_cli_linux.Common.{ℕ, ◌≡◌, refl, inl, true, Option, none, some, [], ◌++◌, arith}
use varmlen_cli_linux.Common.Text.{codes}
use varmlen_cli_linux.Log.{
  Bytes, Io, done, not_found, Read, contents, missing, Disk, append, tail, clear, tail_of,
}
use varmlen_cli_linux.Log.Files.{Files, file, put, size, kept, DiskLaws, AllFit, Removed, Renamed}
use varmlen_cli_linux.Log.Bounds.{IsAppended, append-IsAppended}
use varmlen_cli_linux.Log.Tail.{IsTail, tail_of-IsTail}

abbrev removed : ℕ → Option Bytes → Files → Io × Files
removed i none f = (not_found, f)
removed i (some bs) f = (done, put i none f)

abbrev moved : ℕ → ℕ → Option Bytes → Files → Io × Files
moved i j none f = (not_found, f)
moved i j (some bs) f = (done, put i none (put j (some bs) f))

abbrev read_current : Option Bytes → Read
read_current none = missing
read_current (some bs) = contents bs

abbrev disk : Disk Files
disk = record {
  metadata_len = λ f. size f.current;
  remove_file = λ i f. removed i (file i f) f;
  rename = λ i j f. moved i j (file i f) f;
  write = λ bs f. (true, put 0 (some (kept f.current ++ bs)) f);
  read = λ f. read_current f.current;
}

removed-Removed :
    (i : ℕ) (f : Files) (o : Option Bytes)
    → file i f ≡ o
    → Removed i f (removed i o f).0 (removed i o f).1
removed-Removed i f none e = (e, refl)
removed-Removed i f (some bs) e = refl

moved-Renamed :
    (i j : ℕ) (f : Files) (o : Option Bytes)
    → file i f ≡ o
    → Renamed i j f (moved i j o f).0 (moved i j o f).1
moved-Renamed i j f none e = (e, refl)
moved-Renamed i j f (some bs) e = rw e refl

disk-laws : DiskLaws disk (λ f. f)
disk-laws = record {
  measures = λ f. refl;
  removes = λ i f. removed-Removed i f (file i f) refl;
  renames = λ i j f. moved-Renamed i j f (file i f) refl;
  writes = λ bs f. refl;
}

abbrev two_lines : Bytes
two_lines = codes "first line\nsecond line\n"

abbrev a_log : Files
a_log = record {
  current = some two_lines;
  first = some (codes "older");
  second = none;
  third = none;
}

abbrev more : Bytes
more = codes "third line\n"

appended : (append disk more a_log).1.current ≡ some (two_lines ++ more)
unfolding append
appended = refl

a_log-fits : AllFit a_log
a_log-fits = (omega arith, omega arith, omega arith, omega arith)

append-IsAppended_example : IsAppended (λ f. f) more (append disk more a_log)
append-IsAppended_example = append-IsAppended disk (λ f. f) disk-laws more a_log refl a_log-fits

second_line : tail disk (λ bs. bs) 17 a_log ≡ some (codes "second line\n")
unfolding tail
second_line = refl

cleared : tail disk (λ bs. bs) 100 (clear disk a_log).1 ≡ some []
unfolding tail clear
cleared = refl

tail_of-IsTail_example : IsTail 17 two_lines (tail_of 17 two_lines)
tail_of-IsTail_example = tail_of-IsTail 17 17 two_lines (omega arith) (omega arith) (inl refl)
