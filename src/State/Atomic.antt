-- ===== src/State/Atomic.antt =====
-- A write of the state file is whole or leaves the file as it was, and is read back.
use varmlen_cli_linux.Common.{
  ℕ, zero, suc, ◌+◌, ◌≤◌, ◌≡◌, refl, ap, ◌∙◌, ◌⊎◌, inl, inr, Bool, true, false, not, Option, none,
  some, [], ◌∷◌, arith,
}
use varmlen_cli_linux.Common.Tests.{ltb, ◌==◌}
use varmlen_cli_linux.Common.Lists.{length, take}
use varmlen_cli_linux.Common.Outcome.{Result, ok, err}
use varmlen_cli_linux.Common.Action.{Action, ◌>>=◌, ◌>>◌}
use varmlen_cli_linux.State.{
  Bytes, state_version, max_state_bytes, PersistedState, StoreError, opened, StateDisk, Serde,
  io_result, publish, fill, refuse_input, read, print, replace, cleaned, write,
}

-- What the file system does: only a rename changes the state file, and gives it the contents of the
-- temporary one.
pub record DiskLaws {S : Type 0} (disk : StateDisk S) (saved temporary : S → Option Bytes)
    : Type 0 where
  pub creates : (s : S) → saved (disk.create_temporary s).1 ≡ saved s
  pub writes : (bytes : Bytes) (s : S) → saved (disk.write_all bytes s).1 ≡ saved s
  pub writes_all :
      (bytes : Bytes) (s : S)
      → (disk.write_all bytes s).0 ≡ true
      → temporary (disk.write_all bytes s).1 ≡ some bytes
  pub syncs : (s : S) → saved (disk.sync_all s).1 ≡ saved s
  pub syncs_temporary : (s : S) → temporary (disk.sync_all s).1 ≡ temporary s
  pub renames : (s : S) → (disk.rename s).0 ≡ true → saved (disk.rename s).1 ≡ temporary s
  pub renames_not : (s : S) → (disk.rename s).0 ≡ false → saved (disk.rename s).1 ≡ saved s
  pub syncs_parent : (s : S) → saved (disk.sync_parent s).1 ≡ saved s
  pub removes : (s : S) → saved (disk.remove_temporary s) ≡ saved s
  pub opens :
      (s : S) (bytes : Bytes)
      → saved s ≡ some bytes
      → disk.open_file s ≡ opened (length bytes) bytes

-- What a write leaves in the state file: the new contents; and where it fails, these or the old.
abbrev pub Left :
    {S : Type 0}
    → (S → Option Bytes)
    → Option Bytes
    → Option Bytes
    → Result StoreError (Unit {0}) × S
    → Type 0
Left saved old new (ok u, s) = saved s ≡ new
Left saved old new (err e, s) = (saved s ≡ old) ⊎ (saved s ≡ new)

-- How a write of a state ends: it is read back; or nothing has changed; or the write failed only
-- after the new file was in place.
module _ {S : Type 0} (disk : StateDisk S) (serde : Serde) (saved : S → Option Bytes) where
  abbrev pub IsAtomic : PersistedState → S → Result StoreError (Unit {0}) × S → Type 0
  IsAtomic state before (ok u, s) = read disk serde s ≡ ok (some state)
  IsAtomic state before (err e, s) =
      (saved s ≡ saved before) ⊎ (read disk serde s ≡ ok (some state))

module _ {S : Type 0} (disk : StateDisk S) (serde : Serde) (saved temporary : S → Option Bytes)
    (laws : DiskLaws disk saved temporary) where
  -- One step and what follows it.
  abbrev run : Bool × S → Action S StoreError (Unit {0}) → Result StoreError (Unit {0}) × S
  run r next = ((λ (s : S). io_result r) >> next) r.1

  run-Left :
      (old new : Option Bytes) (r : Bool × S) (next : Action S StoreError (Unit {0}))
      → (r.0 ≡ false → saved r.1 ≡ old)
      → (r.0 ≡ true → Left saved old new (next r.1))
      → Left saved old new (run r next)
  run-Left old new (true, s) next fails goes = goes refl
  run-Left old new (false, s) next fails goes = inl (fails refl)

  last-Left :
      (old new : Option Bytes) (r : Bool × S) → saved r.1 ≡ new → Left saved old new (io_result r)
  last-Left old new (true, s) e = e
  last-Left old new (false, s) e = inr e

  cleaned-Left :
      (old new : Option Bytes) (r : Result StoreError (Unit {0}) × S)
      → Left saved old new r
      → Left saved old new (cleaned disk serde r)
  cleaned-Left old new (ok u, s) e = e
  cleaned-Left old new (err e, s) (inl h) = inl (laws.removes s ∙ h)
  cleaned-Left old new (err e, s) (inr h) = inr (laws.removes s ∙ h)

  publish-Left :
      (old : Option Bytes) (bytes : Bytes) (s : S)
      → saved s ≡ old
      → temporary s ≡ some bytes
      → Left saved old (some bytes) (publish disk serde s)
  publish-Left old bytes s e t =
      run-Left old (some bytes) (disk.rename s) (λ s. io_result (disk.sync_parent s))
        (λ f. laws.renames_not s f ∙ e)
        (λ u.
          last-Left old (some bytes) (disk.sync_parent (disk.rename s).1)
            (laws.syncs_parent (disk.rename s).1 ∙ (laws.renames s u ∙ t)))

  fill-Left :
      (old : Option Bytes) (bytes : Bytes) (s : S)
      → saved s ≡ old
      → Left saved old (some bytes) (fill disk serde bytes s)
  fill-Left old bytes s e =
      let written = disk.write_all bytes s in
      let kept = laws.writes bytes s ∙ e in
      run-Left old (some bytes) written ((λ s. io_result (disk.sync_all s)) >> publish disk serde)
        (λ f. kept)
        (λ u.
          run-Left old (some bytes) (disk.sync_all written.1) (publish disk serde)
            (λ f. laws.syncs written.1 ∙ kept)
            (λ v.
              publish-Left old bytes (disk.sync_all written.1).1 (laws.syncs written.1 ∙ kept)
                (laws.syncs_temporary written.1 ∙ laws.writes_all bytes s u)))

  -- What is printed of a state goes into the file.
  printed-Left :
      (old : Option Bytes) (o : Option Bytes) (s : S)
      → saved s ≡ old
      → Left saved old o ((print disk serde o >>= λ bytes. fill disk serde bytes) s)
  printed-Left old none s e = inl e
  printed-Left old (some bytes) s e = fill-Left old bytes s e

  replace-Left :
      (state : PersistedState) (s : S)
      → Left saved (saved s) (serde.to_vec state) (replace disk serde state s)
  unfolding replace
  replace-Left state s =
      run-Left (saved s) (serde.to_vec state) (disk.create_temporary s)
        (print disk serde (serde.to_vec state) >>= λ bytes. fill disk serde bytes)
        (λ f. laws.creates s)
        (λ u.
          printed-Left (saved s) (serde.to_vec state) (disk.create_temporary s).1 (laws.creates s))

  refused-Left :
      (old new : Option Bytes) (test : Bool) (action : Action S StoreError (Unit {0})) (s : S)
      → saved s ≡ old
      → Left saved old new (action s)
      → Left saved old new (refuse_input test action s)
  refused-Left old new true action s e h = inl e
  refused-Left old new false action s e h = h

  write-Left :
      (state : PersistedState) (s : S)
      → Left saved (saved s) (serde.to_vec state) (write disk serde state s)
  unfolding write
  write-Left state s =
      let old = saved s in
      let new = serde.to_vec state in
      refused-Left old new (not (state.version == state_version)) _ s refl (
        refused-Left old new (disk.is_symlink s) _ s refl (
          refused-Left old new (not disk.has_parent) _ s refl
            (cleaned-Left old new (replace disk serde state s) (replace-Left state s))))

  take-length : (n : ℕ) (bs : Bytes) → length bs ≤ n → take n bs ≡ bs
  take-length n [] h = refl
  take-length zero (b ∷ bs) h = ground (arith, h)
  take-length (suc n) (b ∷ bs) h = ap (λ r. b ∷ r) (take-length n bs (omega (arith, h)))

  -- A state file that holds what a state of this version is printed as is read as this state.
  read-saved :
      (state : PersistedState) (bytes : Bytes) (s : S)
      → state.version ≡ state_version
      → serde.from_slice bytes ≡ some state
      → length bytes ≤ max_state_bytes
      → saved s ≡ some bytes
      → read disk serde s ≡ ok (some state)
  unfolding read
  read-saved state bytes s version parsed small held =
      let small_test : ltb max_state_bytes (length bytes) ≡ false = ground (arith, small) in
      let whole : take (max_state_bytes + 1) bytes ≡ bytes =
        take-length (max_state_bytes + 1) bytes (omega (arith, small)) in
      rw (laws.opens s bytes held, whole, small_test, parsed, version) refl

  -- A write of a state that is printed within 1 MiB and parsed back either succeeds, and the state is
  -- what a later read gives; or fails, and the file is as it was, or a later read gives the state. It
  -- needs a file system where only a rename changes the state file.
  pub write-IsAtomic :
      (state : PersistedState) (bytes : Bytes) (s : S)
      → state.version ≡ state_version
      → serde.to_vec state ≡ some bytes
      → serde.from_slice bytes ≡ some state
      → length bytes ≤ max_state_bytes
      → IsAtomic disk serde saved state s (write disk serde state s)
  write-IsAtomic state bytes s version printed parsed small =
      go (write disk serde state s) (write-Left state s)
    where
      go :
          (r : Result StoreError (Unit {0}) × S)
          → Left saved (saved s) (serde.to_vec state) r
          → IsAtomic disk serde saved state s r
      go (ok u, s') e = read-saved state bytes s' version parsed small (e ∙ printed)
      go (err f, s') (inl e) = inl e
      go (err f, s') (inr e) = inr (read-saved state bytes s' version parsed small (e ∙ printed))
