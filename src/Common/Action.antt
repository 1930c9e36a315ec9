-- ===== src/Common/Action.antt =====
-- What a `&mut self` method does: it returns a result and leaves the object changed.
use mathlib.Core.Bool.{Bool, true, false}
use varmlen_cli_linux.Common.Tests.{if◌then◌else◌}
use varmlen_cli_linux.Common.Outcome.{Result, ok, err}

abbrev pub Action : Type 0 → Type 0 → Type 0 → Type 0
Action S E A = S → Result E A × S

infixl 5 ◌>>=◌ ◌>>◌
abbrev pub ◌>>=◌ : {S E A C : Type 0} → Action S E A → (A → Action S E C) → Action S E C
◌>>=◌ action next s = let (r, s') = action s in elim r [ ok a ↦ next a s' | err e ↦ (err e, s') ]

abbrev pub ◌>>◌ : {S E C : Type 0} → Action S E (Unit {0}) → Action S E C → Action S E C
action >> next = action >>= λ _. next

-- `if let Err(error) = action { handler; return Err(error); }`
abbrev pub on_err : {S E A : Type 0} → Action S E A → (S → S) → Action S E A
on_err action handler s =
    let (r, s') = action s in elim r [ ok a ↦ (ok a, s') | err e ↦ (err e, handler s') ]

abbrev pub when : {S E : Type 0} → Bool → Action S E (Unit {0}) → Action S E (Unit {0})
when b action s = if b then action s else (ok tt, s)

-- A step that only says whether it succeeded, and what follows it where it did.
infixl 5 ◌then◌
abbrev pub ◌then◌ : {S : Type 0} → Bool × S → (S → Bool × S) → Bool × S
(true, s) then next = next s
(false, s) then next = (false, s)
