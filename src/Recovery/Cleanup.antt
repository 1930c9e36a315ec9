-- ===== src/Recovery/Cleanup.antt =====
-- What a cleanup reports of what it found, and the start time of a process.
use mathlib.Core.List.{Memᴰ}
use varmlen_cli_linux.Common.{
  ℕ, ◌≡◌, ◌↔◌, refl, sym, ap, subst, ◌∙◌, ◌⊎◌, inl, inr, Bool, true, false, not, none, some, List,
  [], ◌∷◌, ◌++◌, arith,
}
use varmlen_cli_linux.Common.Tests.{◌==◌, if◌then◌else◌, Bool-cases}
use varmlen_cli_linux.Common.Lists.{is_empty, keep, get_elem?, All, any, any-none_iff}
use varmlen_cli_linux.Common.Finding.{Memᴰ-keep, keep-Memᴰ, All-Memᴰ}
use varmlen_cli_linux.Common.Text.{Text, words}
use varmlen_cli_linux.Common.Outcome.{ok, err, Result-cases}
use varmlen_cli_linux.Protocol.{disconnected, recovery_required}
use varmlen_cli_linux.Recovery.{
  Resource, CleanupReport, phase_of, contains, CleanupBackend, remove_all, report_of, cleanup,
  clean, after_last, parse_start_time_ticks, parse_field, fields_of,
}

after_last_lacks : (c : ℕ) (s : Text) → All (λ d. (d == c) ≡ false) s → after_last c s ≡ none
unfolding after_last
after_last_lacks c [] h = refl
after_last_lacks c (d ∷ s) (f, h) = rw (after_last_lacks c s h, f) refl

after_last-append :
    (c : ℕ) (front rest : Text)
    → All (λ d. (d == c) ≡ false) rest
    → after_last c (front ++ (c ∷ rest)) ≡ some rest
unfolding after_last
after_last-append c [] rest h = ground (arith, after_last_lacks c rest h)
after_last-append c (d ∷ front) rest h = rw (after_last-append c front rest h) refl

-- Whatever comes before the last parenthesis, as the name of a process, parentheses and spaces
-- included: the start time is the twentieth word behind it, as a number of 64 bits.
pub parse_start_time_ticks_lem :
    (front rest : Text)
    → any (λ d. d == b')') rest ≡ false
    → parse_start_time_ticks (front ++ (b')' ∷ rest)) ≡ parse_field (get_elem? (words rest) 19)
unfolding parse_start_time_ticks
parse_start_time_ticks_lem front rest h =
    let lacks = (any-none_iff _ (λ d. d == b')') (λ d. (λ e. e, λ e. e)) rest).0 h in
    ap fields_of (after_last-append b')' front rest lacks)

-- What a report says of the two looks: everything that was there was removed or is left; what was
-- removed was there and is gone; and the phase is `Disconnected` exactly when nothing is left.
abbrev pub IsReport : List Resource → List Resource → CleanupReport → Type 0
IsReport before remaining report =
    (report.remaining ≡ remaining)
    × All (λ r. Memᴰ r report.removed ⊎ (contains remaining r ≡ true)) before
    × All (λ r. Memᴰ r before × (contains remaining r ≡ false)) report.removed
    × ((phase_of report ≡ disconnected) ↔ (remaining ≡ []))

not-true : (b : Bool) → not b ≡ true → b ≡ false
not-true true h = cc
not-true false h = refl

module _ {B E : Type 0} (backend : CleanupBackend B E) where
  report_of-IsReport :
      (before remaining : List Resource)
      → IsReport before remaining (report_of backend before remaining)
  unfolding report_of phase_of
  report_of-IsReport before remaining =
      let gone = λ (r : Resource). not (contains remaining r) in
      (
        refl,
        All-Memᴰ _ before (λ r m. elim (Bool-cases (contains remaining r)) [
          | inl t ↦ inr t
          | inr f ↦ inl (Memᴰ-keep gone before r m (rw f refl))
        ]),
        All-Memᴰ _ (keep gone before) (λ r m.
            let (n, t) = keep-Memᴰ gone before r m in (n, not-true (contains remaining r) t)),
        settled remaining,
      )
    where
      settled :
          (rs : List Resource)
          → ((if is_empty rs then disconnected else recovery_required) ≡ disconnected) ↔ (rs ≡ [])
      settled [] = (λ h. refl, λ h. refl)
      settled (r ∷ rs) = (λ h. cc, λ h. cc)

  abbrev pub Looks : B → CleanupReport → Type 0
  Looks b report =
      (before remaining : List Resource) × ((backend.inspect b).0 ≡ ok before)
      × ((backend.inspect (remove_all backend before (backend.inspect b).1)).0 ≡ ok remaining)
      × IsReport before remaining report

  clean_ok :
      (before remaining : List Resource) (b : B)
      → (backend.inspect (remove_all backend before b)).0 ≡ ok remaining
      → (clean backend before b).0 ≡ ok (report_of backend before remaining)
  unfolding clean
  clean_ok before remaining b e = rw (e, clean) refl

  clean_err :
      (before : List Resource) (b : B) (bad : E)
      → (backend.inspect (remove_all backend before b)).0 ≡ err bad
      → (clean backend before b).0 ≡ err bad
  unfolding clean
  clean_err before b bad e = rw (e, clean) refl

  cleanup_ok :
      (before : List Resource) (b : B)
      → (backend.inspect b).0 ≡ ok before
      → (cleanup backend b).0 ≡ (clean backend before (backend.inspect b).1).0
  unfolding cleanup
  cleanup_ok before b e = rw (e, cleanup) refl

  cleanup_err :
      (b : B) (bad : E) → (backend.inspect b).0 ≡ err bad → (cleanup backend b).0 ≡ err bad
  unfolding cleanup
  cleanup_err b bad e = rw (e, cleanup) refl

  clean-IsReport :
      (before : List Resource) (b : B) (report : CleanupReport)
      → (clean backend before b).0 ≡ ok report
      → (remaining : List Resource) × ((backend.inspect (remove_all backend before b)).0
          ≡ ok remaining)
        × IsReport before remaining report
  clean-IsReport before b report h =
      elim (Result-cases (backend.inspect (remove_all backend before b)).0) [
        | inl (remaining, e) ↦
            let done = clean_ok before remaining b e in
            let same : report_of backend before remaining ≡ report = cc in
            (
              remaining,
              e,
              subst (IsReport before remaining) same (report_of-IsReport before remaining),
            )
        | inr (bad, e) ↦ let failed = clean_err before b bad e in absurd (cc)
      ]

  -- A cleanup that comes to an end has looked twice, before and after it tried to remove
  -- everything that the first look found, and reports the difference.
  pub cleanup_lem :
      (b : B) (report : CleanupReport) → (cleanup backend b).0 ≡ ok report → Looks b report
  cleanup_lem b report h = elim (Result-cases (backend.inspect b).0) [
    | inl (before, e) ↦
        let (remaining, e2, is) =
          clean-IsReport before (backend.inspect b).1 report (sym (cleanup_ok before b e) ∙ h) in
        (before, remaining, e, e2, is)
    | inr (bad, e) ↦ let failed = cleanup_err b bad e in absurd (cc)
  ]
