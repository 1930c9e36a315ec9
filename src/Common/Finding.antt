-- ===== src/Common/Finding.antt =====
-- What `find` and `filter` find in a list.
use mathlib.Core.Path.{◌≡◌, refl}
use mathlib.Core.Logic.{inl, inr}
use mathlib.Core.Bool.{Bool, true, false}
use mathlib.Core.Option.{none, some}
use mathlib.Core.List.{List, [], ◌∷◌, Memᴰ}
use native.Mathlib.Omega.{arith}
use varmlen_cli_linux.Common.Tests.{Bool-cases}
use varmlen_cli_linux.Common.Lists.{keep, find, All}

module _ {A : Type 0} where
  pub find-true : (p : A → Bool) (xs : List A) (x : A) → find p xs ≡ some x → p x ≡ true
  find-true p [] x h = cc
  find-true p (y ∷ xs) x h = elim (Bool-cases (p y)) [
    | inl t ↦ let same : y ≡ x = ground arith in rw (← same) t
    | inr f ↦ find-true p xs x (ground arith)
  ]

  pub find-Memᴰ : (p : A → Bool) (xs : List A) (x : A) → find p xs ≡ some x → Memᴰ x xs
  find-Memᴰ p [] x h = cc
  find-Memᴰ p (y ∷ xs) x h = elim (Bool-cases (p y)) [
    | inl t ↦ Memᴰ.head (ground arith)
    | inr f ↦ Memᴰ.tail (find-Memᴰ p xs x (ground arith))
  ]

  pub find-some :
      (p : A → Bool) (xs : List A) (x : A) → Memᴰ x xs → p x ≡ true → (y : A) × (find p xs ≡ some y)
  find-some p [] x m t = elim m [ ]
  find-some p (y ∷ xs) x (Memᴰ.head e) t = let t' : p y ≡ true = rw (← e) t in (y, rw t')
  find-some p (y ∷ xs) x (Memᴰ.tail m) t = elim (Bool-cases (p y)) [
    | inl u ↦ (y, rw u)
    | inr f ↦ let (z, e) = find-some p xs x m t in (z, rw f e)
  ]

  pub find-none : (p : A → Bool) (xs : List A) (x : A) → find p xs ≡ none → Memᴰ x xs → p x ≡ false
  find-none p xs x h m = elim (Bool-cases (p x)) [
    | inl t ↦ let (y, e) = find-some p xs x m t in absurd (cc)
    | inr f ↦ f
  ]

  kept-head :
      {x y : A} {xs ys : List A} (p : A → Bool)
      → p y ≡ true
      → (Memᴰ x ys → Memᴰ x xs × (p x ≡ true))
      → Memᴰ x (y ∷ ys)
      → Memᴰ x (y ∷ xs) × (p x ≡ true)
  kept-head p t later (Memᴰ.head e) = (Memᴰ.head e, rw e t)
  kept-head p t later (Memᴰ.tail m) = let (n, u) = later m in (Memᴰ.tail n, u)

  pub keep-Memᴰ :
      (p : A → Bool) (xs : List A) (x : A) → Memᴰ x (keep p xs) → Memᴰ x xs × (p x ≡ true)
  keep-Memᴰ p [] x m = elim m [ ]
  keep-Memᴰ p (y ∷ xs) x m = elim (Bool-cases (p y)) [
    | inl t ↦ kept-head p t (keep-Memᴰ p xs x) (rw t at m)
    | inr f ↦ let (n, u) = keep-Memᴰ p xs x (rw f at m) in (Memᴰ.tail n, u)
  ]

  pub Memᴰ-keep : (p : A → Bool) (xs : List A) (x : A) → Memᴰ x xs → p x ≡ true → Memᴰ x (keep p xs)
  Memᴰ-keep p [] x m t = elim m [ ]
  Memᴰ-keep p (y ∷ xs) x (Memᴰ.head e) t = let t' : p y ≡ true = rw (← e) t in rw t' (Memᴰ.head e)
  Memᴰ-keep p (y ∷ xs) x (Memᴰ.tail m) t = elim (Bool-cases (p y)) [
    | inl u ↦ rw u (Memᴰ.tail (Memᴰ-keep p xs x m t))
    | inr f ↦ rw f (Memᴰ-keep p xs x m t)
  ]

  pub All-Memᴰ : (P : A → Type 0) (xs : List A) → ((x : A) → Memᴰ x xs → P x) → All P xs
  All-Memᴰ P [] each = tt
  All-Memᴰ P (x ∷ xs) each = (each x (Memᴰ.head refl), All-Memᴰ P xs (λ y m. each y (Memᴰ.tail m)))
