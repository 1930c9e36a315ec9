-- ===== src/Common/Outcome.antt =====
-- `Result<A, E>`, with `?` as `◌>>=◌`.
use mathlib.Core.Path.{◌≡◌, refl}
use mathlib.Core.Logic.{◌⊎◌, inl, inr}
use mathlib.Core.Bool.{Bool, true, false}

pub data Result {ℓ κ} (E : Type ℓ) (A : Type κ) : Type (ℓ ⊔ κ) where
  ok : A → Result E A
  err : E → Result E A

abbrev pub is_ok {ℓ κ} : {E : Type ℓ} {A : Type κ} → Result E A → Bool
is_ok (ok a) = true
is_ok (err e) = false

abbrev pub is_err {ℓ κ} : {E : Type ℓ} {A : Type κ} → Result E A → Bool
is_err (ok a) = false
is_err (err e) = true

infixl 5 ◌>>=◌ ◌>>◌
abbrev pub ◌>>=◌ {ℓ κ υ} :
    {E : Type ℓ} {A : Type κ} {B : Type υ} → Result E A → (A → Result E B) → Result E B
ok a >>= f = f a
err e >>= f = err e

abbrev pub ◌>>◌ {ℓ κ} : {E : Type ℓ} {B : Type κ} → Result E (Unit {0}) → Result E B → Result E B
m >> k = m >>= λ _. k

-- A chain of `||` tests that ends in `return Err(code)`.
abbrev pub refuse_if {ℓ} : {E : Type ℓ} → Bool → E → Result E (Unit {0})
refuse_if true e = err e
refuse_if false e = ok tt

pub Result-cases {ℓ κ} :
    {E : Type ℓ} {A : Type κ} (r : Result E A) → ((a : A) × (r ≡ ok a)) ⊎ ((e : E) × (r ≡ err e))
Result-cases (ok a) = inl (a, refl)
Result-cases (err e) = inr (e, refl)

-- What a chain that gives a value went through.
module _ {ℓ κ υ} {E : Type ℓ} {A : Type κ} {B : Type υ} where
  pub bind-eq-ok :
      (m : Result E A) (f : A → Result E B) (b : B)
      → (m >>= f) ≡ ok b
      → (a : A) × (m ≡ ok a) × (f a ≡ ok b)
  bind-eq-ok (ok a) f b h = (a, refl, h)
  bind-eq-ok (err e) f b h = cc

pub refuse_if-bind {ℓ υ} :
    {E : Type ℓ} {B : Type υ} (test : Bool) (e : E) (rest : Result E B) (b : B)
    → (refuse_if test e >>= λ _. rest) ≡ ok b
    → (test ≡ false) × (rest ≡ ok b)
refuse_if-bind true e rest b h = cc
refuse_if-bind false e rest b h = (refl, h)

pub refuse_if-eq-ok {ℓ} :
    {E : Type ℓ} (test : Bool) (e : E) → refuse_if test e ≡ ok tt → test ≡ false
refuse_if-eq-ok true e h = cc
refuse_if-eq-ok false e h = refl

pub then-eq-ok {ℓ} :
    {E : Type ℓ} (m k : Result E (Unit {0})) → (m >> k) ≡ ok tt → (m ≡ ok tt) × (k ≡ ok tt)
then-eq-ok (ok u) k h = (refl, h)
then-eq-ok (err e) k h = cc
