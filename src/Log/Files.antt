-- ===== src/Log/Files.antt =====
-- The files of a log, and what the file system does with them.
use varmlen_cli_linux.Common.{
  ℕ, zero, suc, ◌+◌, ◌≤◌, ◌≡◌, refl, sym, subst, Bool, true, false, Option, none, some, [], ◌++◌,
  arith,
}
use varmlen_cli_linux.Common.Lists.{length}
use varmlen_cli_linux.Log.{Bytes, max_log_bytes, Io, done, not_found, failed, Disk}

-- The four files: the log, and the older ones with the latest first.
pub record Files : Type 0 where
  pub current : Option Bytes
  pub first : Option Bytes
  pub second : Option Bytes
  pub third : Option Bytes

abbrev pub file : ℕ → Files → Option Bytes
file zero f = f.current
file (suc zero) f = f.first
file (suc (suc zero)) f = f.second
file (suc (suc (suc n))) f = f.third

abbrev pub put : ℕ → Option Bytes → Files → Files
put zero o f = record f { current = o }
put (suc zero) o f = record f { first = o }
put (suc (suc zero)) o f = record f { second = o }
put (suc (suc (suc n))) o f = record f { third = o }

abbrev pub size : Option Bytes → Option ℕ
size none = none
size (some bs) = some (length bs)

abbrev pub kept : Option Bytes → Bytes
kept none = []
kept (some bs) = bs

-- What a file is after an operation on it, by how the operation ended.
abbrev pub Removed : ℕ → Files → Io → Files → Type 0
Removed i before done after = after ≡ put i none before
Removed i before not_found after = (file i before ≡ none) × (after ≡ before)
Removed i before failed after = after ≡ before

abbrev pub Renamed : ℕ → ℕ → Files → Io → Files → Type 0
Renamed i j before done after = after ≡ put i none (put j (file i before) before)
Renamed i j before not_found after = (file i before ≡ none) × (after ≡ before)
Renamed i j before failed after = after ≡ before

-- A write that fails may have left some bytes.
abbrev pub Written : Bytes → Files → Bool → Files → Type 0
Written bytes before true after = after ≡ put 0 (some (kept before.current ++ bytes)) before
Written bytes before false after =
    (part : Option Bytes) × (after ≡ put 0 part before)
    × (length (kept part) ≤ length (kept before.current) + length bytes)

-- What the file system does with the files that a state has.
pub record DiskLaws {S : Type 0} (disk : Disk S) (files : S → Files) : Type 0 where
  pub measures : (s : S) → disk.metadata_len s ≡ size (files s).current
  pub removes :
      (i : ℕ) (s : S)
      → Removed i (files s) (disk.remove_file i s).0 (files (disk.remove_file i s).1)
  pub renames :
      (i j : ℕ) (s : S) → Renamed i j (files s) (disk.rename i j s).0 (files (disk.rename i j s).1)
  pub writes :
      (bytes : Bytes) (s : S)
      → Written bytes (files s) (disk.write bytes s).0 (files (disk.write bytes s).1)

abbrev pub Fits : Option Bytes → Type 0
Fits o = length (kept o) ≤ max_log_bytes

abbrev pub AllFit : Files → Type 0
AllFit f = Fits f.current × Fits f.first × Fits f.second × Fits f.third

pub file-Fits : (i : ℕ) (f : Files) → AllFit f → Fits (file i f)
file-Fits zero f (a, b, c, d) = a
file-Fits (suc zero) f (a, b, c, d) = b
file-Fits (suc (suc zero)) f (a, b, c, d) = c
file-Fits (suc (suc (suc n))) f (a, b, c, d) = d

pub put-AllFit : (i : ℕ) (o : Option Bytes) (f : Files) → AllFit f → Fits o → AllFit (put i o f)
put-AllFit zero o f (a, b, c, d) h = (h, b, c, d)
put-AllFit (suc zero) o f (a, b, c, d) h = (a, h, c, d)
put-AllFit (suc (suc zero)) o f (a, b, c, d) h = (a, b, h, d)
put-AllFit (suc (suc (suc n))) o f (a, b, c, d) h = (a, b, c, h)

pub file-put : (i : ℕ) (o : Option Bytes) (f : Files) → file i (put i o f) ≡ o
file-put zero o f = refl
file-put (suc zero) o f = refl
file-put (suc (suc zero)) o f = refl
file-put (suc (suc (suc n))) o f = refl

pub none-Fits : Fits none
none-Fits = omega arith

pub Removed-AllFit : (i : ℕ) (f g : Files) (r : Io) → AllFit f → Removed i f r g → AllFit g
Removed-AllFit i f g done fit e = subst AllFit (sym e) (put-AllFit i none f fit none-Fits)
Removed-AllFit i f g not_found fit (absent, e) = subst AllFit (sym e) fit
Removed-AllFit i f g failed fit e = subst AllFit (sym e) fit

pub Renamed-AllFit : (i j : ℕ) (f g : Files) (r : Io) → AllFit f → Renamed i j f r g → AllFit g
Renamed-AllFit i j f g done fit e =
    subst AllFit (sym e)
      (put-AllFit i none _ (put-AllFit j (file i f) f fit (file-Fits i f fit)) none-Fits)
Renamed-AllFit i j f g not_found fit (absent, e) = subst AllFit (sym e) fit
Renamed-AllFit i j f g failed fit e = subst AllFit (sym e) fit
