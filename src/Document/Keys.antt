-- ===== src/Document/Keys.antt =====
-- The keys of a configuration.
use mathlib.Core.List.{Memᴰ}
use varmlen_cli_linux.Common.{
  ◌≡◌, ◌≢◌, ◌↔◌, refl, sym, ◌∙◌, inl, inr, String, Bool, true, false, not, Option, none, some, List,
  [], ◌∷◌, arith,
}
use varmlen_cli_linux.Common.Tests.{Bool-cases}
use varmlen_cli_linux.Common.Lists.{any, All, any-none_iff}
use varmlen_cli_linux.Common.Text.{Text, text_eq, text_eq_iff}
use varmlen_cli_linux.Common.Json.{
  Value, null, bool, integer, other_number, text, array, object, Items, nil, cons, Members, end,
  member, all_keys, item_keys, member_keys, any-append,
}
use varmlen_cli_linux.Common.Outcome.{ok}
use varmlen_cli_linux.Document.{
  require, one_of, file_keys, contains_forbidden_file_key, items_contain, members_contain,
}

pub require-eq-ok {ℓ} :
    {A : Type ℓ} (message : String) (o : Option A) (a : A) → require message o ≡ ok a → o ≡ some a
require-eq-ok message none a h = cc
require-eq-ok message (some b) a h = cc

-- The search for a key and the list of all keys, at any depth, agree.
mutual
  unfolding contains_forbidden_file_key all_keys

  forbidden-all_keys :
      (v : Value) → contains_forbidden_file_key v ≡ any (one_of file_keys) (all_keys v)
  forbidden-all_keys null = refl
  forbidden-all_keys (bool b) = refl
  forbidden-all_keys (integer n) = refl
  forbidden-all_keys (other_number s) = refl
  forbidden-all_keys (text s) = refl
  forbidden-all_keys (array vs) = forbidden_items vs
  forbidden-all_keys (object ms) = forbidden_members ms

  forbidden_items : (vs : Items) → items_contain vs ≡ any (one_of file_keys) (item_keys vs)
  forbidden_items nil = refl
  forbidden_items (cons v vs) = rw (any-append, forbidden-all_keys v, forbidden_items vs) refl

  forbidden_members : (ms : Members) → members_contain ms ≡ any (one_of file_keys) (member_keys ms)
  forbidden_members end = refl
  forbidden_members (member k v ms) = ground (
    arith,
    any-append (one_of file_keys) (all_keys v) (member_keys ms),
    forbidden-all_keys v,
    forbidden_members ms,
  )

abbrev pub IsOutside : List Text → Text → Type 0
IsOutside names k = All (λ name. k ≢ name) names

one_of-IsOutside_iff : (names : List Text) (k : Text) → (one_of names k ≡ false) ↔ IsOutside names k
one_of-IsOutside_iff names k =
    any-none_iff _ (λ name. text_eq k name) (λ name. text_ne_iff k name) names
  where
    text_ne_iff : (s t : Text) → (text_eq s t ≡ false) ↔ (s ≢ t)
    text_ne_iff s t = ground (arith, text_eq_iff s t)

pub one_of-Memᴰ : (names : List Text) (k : Text) → one_of names k ≡ true → Memᴰ k names
one_of-Memᴰ [] k h = cc
one_of-Memᴰ (name ∷ names) k h = elim (Bool-cases (text_eq k name)) [
  | inl t ↦ Memᴰ.head ((text_eq_iff k name).0 t)
  | inr f ↦ Memᴰ.tail (one_of-Memᴰ names k (ground arith))
]

-- A test that fails for no element.
pub none_fails :
    {A : Type 0} (p : A → Bool) (xs : List A)
    → any (λ x. not (p x)) xs ≡ false
    → All (λ x. p x ≡ true) xs
none_fails p xs h = (any-none_iff _ (λ x. not (p x)) (λ x. not_iff (p x)) xs).0 h
  where
    not_iff : (b : Bool) → (not b ≡ false) ↔ (b ≡ true)
    not_iff true = (λ e. refl, λ e. refl)
    not_iff false = (λ e. cc, λ e. cc)

pub no_file_keys :
    (v : Value) → contains_forbidden_file_key v ≡ false → All (IsOutside file_keys) (all_keys v)
no_file_keys v f =
    (any-none_iff _ (one_of file_keys) (λ k. outside_iff k) (all_keys v)).0
      (sym (forbidden-all_keys v) ∙ f)
  where
    outside_iff : (k : Text) → (one_of file_keys k ≡ false) ↔ IsOutside file_keys k
    outside_iff k = one_of-IsOutside_iff file_keys k
