-- ===== src/Log/Bounds.antt =====
-- No file of the log outgrows its bound.
use varmlen_cli_linux.Common.{
  ℕ, zero, suc, ◌+◌, ◌-◌, ◌^◌, ◌≤◌, ◌≡◌, refl, sym, ap, subst, ◌∙◌, Bool, true, false, Option, none,
  some, [], ◌∷◌, ◌++◌, inl, inr, arith,
}
use varmlen_cli_linux.Common.Tests.{ltb, if◌then◌else◌, Bool-cases}
use varmlen_cli_linux.Common.Lists.{length, drop, is_empty, length-append}
use varmlen_cli_linux.Common.Action.{◌then◌}
use varmlen_cli_linux.Log.{
  Bytes, max_log_bytes, Io, done, not_found, failed, Disk, saturating_add, unwrap_or_zero,
  unless_failed, rename_if_exists, remove_if_exists, rotate, append,
}
use varmlen_cli_linux.Log.Files.{
  Files, file, size, kept, Renamed, Written, DiskLaws, AllFit, put-AllFit, file-put, Removed-AllFit,
  Renamed-AllFit,
}

size-kept : (o : Option Bytes) → unwrap_or_zero (size o) ≡ length (kept o)
size-kept none = refl
size-kept (some bs) = refl

saturating_add-le :
    (a b : ℕ) → ltb max_log_bytes (saturating_add a b) ≡ false → a + b ≤ max_log_bytes
saturating_add-le a b h = elim (Bool-cases (ltb (a + b) (2 ^ 64))) [
  | inl t ↦ ground (arith, h)
  | inr f ↦ ground (arith, h)
]

-- The end of what is appended, which fits a file.
abbrev pub newest : Bytes → Bytes
newest bytes = drop (length bytes - max_log_bytes) bytes

drop-length : (n : ℕ) (bs : Bytes) → length (drop n bs) ≡ length bs - n
drop-length n [] = omega arith
drop-length zero (b ∷ bs) = omega arith
drop-length (suc n) (b ∷ bs) = omega (arith, drop-length n bs)

-- What an append leaves: all files within the bound; and where it succeeds, the log ends with what
-- was appended, as far as a file holds it.
abbrev pub IsAppended : {S : Type 0} → (S → Files) → Bytes → Bool × S → Type 0
IsAppended files bytes (true, s) =
    AllFit (files s) × ((before : Bytes) × ((files s).current ≡ some (before ++ newest bytes)))
IsAppended files bytes (false, s) = AllFit (files s)

module _ {S : Type 0} (disk : Disk S) (files : S → Files) (laws : DiskLaws disk files) where
  abbrev FitIn : S → Type 0
  FitIn s = AllFit (files s)

  then_always :
      (P : S → Type 0) (m : Bool × S) (next : S → Bool × S)
      → P m.1
      → ((s : S) → P s → P (next s).1)
      → P (m then next).1
  then_always P (true, s) next p h = h s p
  then_always P (false, s) next p h = p

  then_last :
      (P : S → Type 0) (m : Bool × S) (next : S → Bool × S)
      → ((s : S) → (next s).0 ≡ true → P (next s).1)
      → (m then next).0 ≡ true
      → P (m then next).1
  then_last P (true, s) next h t = h s t
  then_last P (false, s) next h t = cc

  unless_failed-same : (r : Io × S) → (unless_failed r).1 ≡ r.1
  unless_failed-same (done, s) = refl
  unless_failed-same (not_found, s) = refl
  unless_failed-same (failed, s) = refl

  remove_if_exists-FitIn : (i : ℕ) (s : S) → FitIn s → FitIn (remove_if_exists disk i s).1
  remove_if_exists-FitIn i s fit =
      subst FitIn (sym (unless_failed-same (disk.remove_file i s)))
        (Removed-AllFit i (files s) _ (disk.remove_file i s).0 fit (laws.removes i s))

  rename-FitIn : (i j : ℕ) (s : S) → FitIn s → FitIn (rename_if_exists disk i j s).1
  rename-FitIn i j s fit =
      subst FitIn (sym (unless_failed-same (disk.rename i j s)))
        (Renamed-AllFit i j (files s) _ (disk.rename i j s).0 fit (laws.renames i j s))

  rotate-FitIn : (s : S) → FitIn s → FitIn (rotate disk s).1
  unfolding rotate
  rotate-FitIn s fit =
      let oldest = remove_if_exists disk 3 s in
      let second = oldest then rename_if_exists disk 2 3 in
      let first = second then rename_if_exists disk 1 2 in
      then_always FitIn first (rename_if_exists disk 0 1)
        (then_always FitIn second (rename_if_exists disk 1 2)
          (then_always FitIn oldest (rename_if_exists disk 2 3) (remove_if_exists-FitIn 3 s fit)
            (rename-FitIn 2 3))
          (rename-FitIn 1 2))
        (rename-FitIn 0 1)

  abbrev NoCurrent : S → Type 0
  NoCurrent s = (files s).current ≡ none

  moved :
      (i j : ℕ) (f : Files) (r : Io × S)
      → Renamed i j f r.0 (files r.1)
      → (unless_failed r).0 ≡ true
      → file i (files (unless_failed r).1) ≡ none
  moved i j f (done, s) e t = ap (file i) e ∙ file-put i none _
  moved i j f (not_found, s) (absent, e) t = ap (file i) e ∙ absent
  moved i j f (failed, s) e t = cc

  rotate_empties : (s : S) → (rotate disk s).0 ≡ true → (files (rotate disk s).1).current ≡ none
  unfolding rotate
  rotate_empties s t =
      let oldest = remove_if_exists disk 3 s in
      let second = oldest then rename_if_exists disk 2 3 in
      let first = second then rename_if_exists disk 1 2 in
      then_last NoCurrent first (rename_if_exists disk 0 1)
        (λ s' u. moved 0 1 (files s') (disk.rename 0 1 s') (laws.renames 0 1 s') u) t

  -- The log has room for what is written: nothing of it is left, or both are within the bound.
  abbrev HasRoom : Bytes → S → Type 0
  HasRoom bytes s =
      FitIn s × (length (kept (files s).current) + length (newest bytes) ≤ max_log_bytes)

  newest-le : (bytes : Bytes) → length (newest bytes) ≤ max_log_bytes
  newest-le bytes = omega (arith, drop-length (length bytes - max_log_bytes) bytes)

  write-IsAppended :
      (bytes : Bytes) (s : S)
      → HasRoom bytes s
      → IsAppended files bytes (disk.write (newest bytes) s)
  write-IsAppended bytes s (fit, room) =
      go (disk.write (newest bytes) s) (laws.writes (newest bytes) s)
    where
      go :
          (r : Bool × S)
          → Written (newest bytes) (files s) r.0 (files r.1)
          → IsAppended files bytes r
      go (true, s') e = (
        subst AllFit (sym e) (
            put-AllFit 0 (some (kept (files s).current ++ newest bytes)) (files s) fit
              (omega (arith, room, length-append (kept (files s).current) (newest bytes)))),
        (kept (files s).current, ap (λ f. f.current) e),
      )
      go (false, s') (part, e, small) =
          subst AllFit (sym e) (put-AllFit 0 part (files s) fit (omega (arith, room, small)))

  unless_full :
      (bytes : Bytes) (s : S)
      → FitIn s
      → ltb max_log_bytes (saturating_add (unwrap_or_zero (disk.metadata_len s)) (length bytes))
        ≡ false
      → HasRoom bytes s
  unless_full bytes s fit f =
      let both = saturating_add-le (unwrap_or_zero (disk.metadata_len s)) (length bytes) f in
      let measured = ap unwrap_or_zero (laws.measures s) ∙ size-kept (files s).current in
      (fit, omega (arith, both, measured, drop-length (length bytes - max_log_bytes) bytes))

  rotated_room :
      (bytes : Bytes) (s : S)
      → (rotate disk s).0 ≡ true
      → length (kept (files (rotate disk s).1).current) + length (newest bytes) ≤ max_log_bytes
  rotated_room bytes s t =
      omega (arith, ap (λ o. length (kept o)) (rotate_empties s t), newest-le bytes)

  rotated :
      (bytes : Bytes) (m : Bool × S)
      → FitIn m.1
      → (m.0 ≡ true → HasRoom bytes m.1)
      → IsAppended files bytes (m then disk.write (newest bytes))
  rotated bytes (true, s) fit room = write-IsAppended bytes s (room refl)
  rotated bytes (false, s) fit room = fit

  -- An append to files within 10 MiB each leaves them within it, also where it fails half way; and
  -- one that succeeds leaves a log that ends with what was appended, or with its last 10 MiB. It
  -- needs a file system that moves and removes files whole and whose failed writes leave no more
  -- than was to be written.
  pub append-IsAppended :
      (bytes : Bytes) (s : S)
      → is_empty bytes ≡ false
      → AllFit (files s)
      → IsAppended files bytes (append disk bytes s)
  unfolding append
  append-IsAppended [] s full fit = cc
  append-IsAppended (b ∷ bs) s full fit =
      elim (Bool-cases (
        ltb max_log_bytes
          (saturating_add (unwrap_or_zero (disk.metadata_len s)) (length (b ∷ bs))))) [
            | inl t ↦ rw t (
                rotated (b ∷ bs) (rotate disk s) (rotate-FitIn s fit)
                  (λ u. (rotate-FitIn s fit, rotated_room (b ∷ bs) s u)))
            | inr f ↦ rw f (rotated (b ∷ bs) (true, s) fit (λ u. unless_full (b ∷ bs) s fit f))
          ]
