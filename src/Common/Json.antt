-- ===== src/Common/Json.antt =====
-- `serde_json::Value` and how the code reads it. A number is one that fits a u64, or another one as
-- it is spelled.
use Prim.Native.Nat.{ℕ}
use mathlib.Core.Path.{◌≡◌, refl}
use mathlib.Core.Logic.{◌↔◌}
use mathlib.Core.Bool.{Bool, true, false, ◌||◌}
use mathlib.Core.Option.{Option, none, some}
use mathlib.Core.List.{List, [], ◌∷◌, ◌++◌}
use native.Mathlib.Omega.{arith}
use varmlen_cli_linux.Common.Tests.{if◌then◌else◌}
use varmlen_cli_linux.Common.Lists.{any}
use varmlen_cli_linux.Common.Text.{Text, text_eq, text_eq_iff}

mutual
  pub data Value : Type 0 where
    null : Value
    bool : Bool → Value
    integer : ℕ → Value
    other_number text : Text → Value
    array : Items → Value
    object : Members → Value

  pub data Items : Type 0 where
    nil : Items
    cons : Value → Items → Items

  pub data Members : Type 0 where
    end : Members
    member : Text → Value → Members → Members

abbrev pub values : Items → List Value
values nil = []
values (cons v vs) = v ∷ values vs

abbrev pub keys : Members → List Text
keys end = []
keys (member k v ms) = k ∷ keys ms

abbrev pub lookup : Text → Members → Option Value
lookup key end = none
lookup key (member k v ms) = if text_eq k key then some v else lookup key ms

abbrev pub as_object : Value → Option Members
as_object (object ms) = some ms
as_object _ = none

abbrev pub as_array : Value → Option (List Value)
as_array (array vs) = some (values vs)
as_array _ = none

abbrev pub as_str : Value → Option Text
as_str (text s) = some s
as_str _ = none

abbrev pub as_u64 : Value → Option ℕ
as_u64 (integer n) = some n
as_u64 _ = none

abbrev pub as_bool : Value → Option Bool
as_bool (bool b) = some b
as_bool _ = none

abbrev pub and_then {ℓ κ} : {A : Type ℓ} {B : Type κ} → Option A → (A → Option B) → Option B
and_then none f = none
and_then (some a) f = f a

-- `Value::get`: nothing is in a value that is no object.
abbrev pub get : Text → Value → Option Value
get key v = and_then (as_object v) (lookup key)

abbrev pub is_text : Option Text → Text → Bool
is_text none expected = false
is_text (some s) expected = text_eq s expected

pub is_text_iff : (o : Option Text) (t : Text) → (is_text o t ≡ true) ↔ (o ≡ some t)
is_text_iff none t = ground arith
is_text_iff (some s) t = ground (arith, text_eq_iff s t)

-- `and_then(Value::as_str) == Some(expected)`.
abbrev pub says : Option Value → Text → Bool
says o expected = is_text (and_then o as_str) expected

-- The keys of a value, at any depth.
unfoldable mutual
  pub all_keys : Value → List Text
  all_keys null = []
  all_keys (bool b) = []
  all_keys (integer n) = []
  all_keys (other_number s) = []
  all_keys (text s) = []
  all_keys (array vs) = item_keys vs
  all_keys (object ms) = member_keys ms

  pub item_keys : Items → List Text
  item_keys nil = []
  item_keys (cons v vs) = all_keys v ++ item_keys vs

  pub member_keys : Members → List Text
  member_keys end = []
  member_keys (member k v ms) = k ∷ (all_keys v ++ member_keys ms)

pub any-append {ℓ} :
    {A : Type ℓ} (p : A → Bool) (xs ys : List A) → any p (xs ++ ys) ≡ any p xs || any p ys
any-append p [] ys = refl
any-append p (x ∷ xs) ys = ground (arith, any-append p xs ys)
