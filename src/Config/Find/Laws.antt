-- ===== src/Config/Find/Laws.antt =====
-- What a number or a name finds is there, and is what it may be.
use varmlen_cli_linux.Common.{
  ℕ, zero, suc, ◌+◌, ◌<◌, ◌≡◌, ◌≢◌, refl, sym, subst, inl, inr, Bool, true, false, not, ◌&&◌,
  Option, none, some, List, [], ◌∷◌, arith,
}
use varmlen_cli_linux.Common.Tests.{ltb, if◌then◌else◌, Bool-cases}
use varmlen_cli_linux.Common.Lists.{length, get_elem?, All, All-map}
use varmlen_cli_linux.Common.Text.{Text, codes, trim, text_eq}
use varmlen_cli_linux.Common.Numbers.{parse_uint, u64_bound}
use varmlen_cli_linux.Common.Outcome.{Result, ok, err}
use varmlen_cli_linux.Config.{
  Location, Subscription, Config, Removal, location, subscription, Unicode,
}
use varmlen_cli_linux.Config.Active.{is_none, positions, positions_from}
use varmlen_cli_linux.Config.Find.{
  Refusal, out_of_bounds, numbered, single, first_some, owner, manual_only, matching, found, find,
  subscription_matches, only_subscription, find_subscription, by_name, removal_of, removal,
  as_location, as_subscription, strip_prefix, position_of_url, owned_by, manual_at, find_by,
  find_subscription_by, removal_at, removal_by, name_a_subscription,
}

-- Where a list has an element that satisfies a test.
abbrev Holds : {A : Type 0} → (A → Bool) → List A → ℕ → Type 0
Holds {A = A} p xs i = (x : A) × (get_elem? xs i ≡ some x) × (p x ≡ true)

-- The positions counted from `n` are `n` more than those counted from 0.
positions_from-Holds :
    {A : Type 0} (n : ℕ) (p : A → Bool) (xs : List A)
    → All (λ i. (j : ℕ) × (i ≡ n + j) × Holds p xs j) (positions_from n p xs)
unfolding positions_from
positions_from-Holds n p [] = tt
positions_from-Holds n p (x ∷ xs) =
    let later : All (λ i. (j : ℕ) × (i ≡ n + j) × Holds p (x ∷ xs) j)
        (positions_from (suc n) p xs) =
      All-map _ _ (λ i. λ (j, e, holds). (suc j, omega (arith, e), holds))
        (positions_from (suc n) p xs) (positions_from-Holds (suc n) p xs) in
    elim (Bool-cases (p x)) [
      | inl t ↦ rw t ((0, omega arith, (x, refl, t)), later)
      | inr f ↦ rw f later
    ]

pub positions-Holds :
    {A : Type 0} (p : A → Bool) (xs : List A) → All (Holds p xs) (positions_from 0 p xs)
positions-Holds p xs =
    All-map _ _
      (λ i.
        λ (j, e, holds). let same : i ≡ j = omega (arith, e) in subst (Holds p xs) (sym same) holds)
      (positions_from 0 p xs) (positions_from-Holds 0 p xs)

-- A position that is given is one that satisfies a predicate, and no index panics.
abbrev pub Gives : (ℕ → Type 0) → Result Refusal ℕ → Type 0
Gives P (ok i) = P i
Gives P (err e) = e ≢ out_of_bounds

Gives-map :
    (P Q : ℕ → Type 0) → ((i : ℕ) → P i → Q i) → (r : Result Refusal ℕ) → Gives P r → Gives Q r
Gives-map P Q f (ok i) h = f i h
Gives-map P Q f (err e) h = h

abbrev pub IsAt : {A : Type 0} → List A → ℕ → Type 0
IsAt {A = A} xs i = (x : A) × (get_elem? xs i ≡ some x)

get_elem?-length : {A : Type 0} (xs : List A) (i : ℕ) → i < length xs → IsAt xs i
get_elem?-length [] i h = absurd (omega (arith, h))
get_elem?-length (x ∷ xs) zero h = (x, refl)
get_elem?-length (x ∷ xs) (suc i) h = get_elem?-length xs i (omega (arith, h))

numbered-Gives :
    {A : Type 0} (refusal : Refusal) (xs : List A) (n : ℕ)
    → refusal ≢ out_of_bounds
    → Gives (IsAt xs) (numbered refusal (length xs) n)
unfolding numbered
numbered-Gives refusal xs zero other = other
numbered-Gives refusal xs (suc i) other = elim (Bool-cases (ltb i (length xs))) [
  | inl t ↦ rw t (get_elem?-length xs i (ground arith))
  | inr f ↦ rw f other
]

single-Gives : (P : ℕ → Type 0) (is : List ℕ) → All P is → Gives P (single is)
unfolding single
single-Gives P [] h = λ e. cc
single-Gives P (i ∷ []) (h, hs) = h
single-Gives P (i ∷ j ∷ rest) h = λ e. cc

first_some-All :
    (P : ℕ → Type 0) (is others : List ℕ) → All P is → All P others → All P (first_some is others)
first_some-All P [] others h hs = hs
first_some-All P (i ∷ is) others h hs = h

-- A location that is in scope.
abbrev InScope : Config → (Location → Bool) → ℕ → Type 0
InScope config scope i = (l : Location) × (get_elem? config.locations i ≡ some l) × (scope l ≡ true)

scoped :
    (config : Config) (scope p : Location → Bool)
    → All (InScope config scope) (positions config (λ l. scope l && p l))
unfolding positions
scoped config scope p =
    All-map _ _ (λ i. λ (l, e, t). (l, e, ground arith)) (positions config (λ l. scope l && p l))
      (positions-Holds (λ l. scope l && p l) config.locations)

-- A removal takes a manual location, or a subscription that is there; and no index panics.
abbrev pub IsRemovable : Config → Result Refusal Removal → Type 0
IsRemovable config (ok (location i)) =
    (l : Location) × (get_elem? config.locations i ≡ some l) × (l.source ≡ none)
IsRemovable config (ok (subscription i)) =
    (sub : Subscription) × (get_elem? config.subscriptions i ≡ some sub)
IsRemovable config (err e) = e ≢ out_of_bounds

abbrev IsManualAt : Config → ℕ → Type 0
IsManualAt config i = IsRemovable config (ok (location i))

as_location-IsRemovable :
    (config : Config) (r : Result Refusal ℕ)
    → Gives (IsManualAt config) r
    → IsRemovable config (as_location r)
as_location-IsRemovable config (ok i) h = h
as_location-IsRemovable config (err e) h = h

as_subscription-IsRemovable :
    (config : Config) (r : Result Refusal ℕ)
    → Gives (IsAt config.subscriptions) r
    → IsRemovable config (as_subscription r)
as_subscription-IsRemovable config (ok i) h = h
as_subscription-IsRemovable config (err e) h = h

owner-Gives :
    (config : Config) (subs : List Subscription) (i : ℕ) (l : Location) (source : Option Text)
    → get_elem? config.locations i ≡ some l
    → l.source ≡ source
    → Gives (IsManualAt config) (owner subs source i)
owner-Gives config subs i l none e s = (l, e, s)
owner-Gives config subs i l (some url) e s = owned (position_of_url 0 subs url)
  where
    owned : (o : Option ℕ) → Gives (IsManualAt config) (owned_by o)
    owned none = λ bad. cc
    owned (some sub) = λ bad. cc

manual_only-Gives :
    (config : Config) (i : ℕ)
    → IsAt config.locations i
    → Gives (IsManualAt config) (manual_only i config)
unfolding manual_only
manual_only-Gives config i (l, e) =
    subst (λ o. Gives (IsManualAt config) (manual_at config.subscriptions o i)) (sym e)
      (owner-Gives config config.subscriptions i l l.source e refl)

module _ (unicode : Unicode) (host_of : Text → Option Text) (config : Config) where
  matching-All :
      (needle : Text) (scope : Location → Bool)
      → All (InScope config scope) (matching unicode host_of needle scope config)
  unfolding matching
  matching-All needle scope =
      let lowered = unicode.to_lowercase needle in
      first_some-All (InScope config scope) _ _ (scoped config scope _)
        (first_some-All (InScope config scope) _ _ (scoped config scope _) (scoped config scope _))

  found-Gives :
      (P : ℕ → Type 0) (needle : Text) (is : List ℕ)
      → All P is
      → Gives P (found unicode host_of needle is)
  unfolding found
  found-Gives P needle [] h = λ e. cc
  found-Gives P needle (i ∷ is) h = single-Gives P (i ∷ is) h

  find_by-Gives :
      (o : Option ℕ) (needle : Text)
      → Gives (IsAt config.locations) (find_by unicode host_of o needle config)
  unfolding find_by
  find_by-Gives none needle =
      found-Gives (IsAt config.locations) needle _
        (All-map _ _ (λ i. λ (l, at, t). (l, at)) _ (matching-All needle (λ l. true)))
  find_by-Gives (some n) needle = numbered-Gives _ config.locations n (λ e. cc)

  -- A location that is found is there, and finding panics on no index.
  pub find-Gives :
      (needle : Text) → Gives (IsAt config.locations) (find unicode host_of needle config)
  unfolding find
  find-Gives needle = find_by-Gives (parse_uint u64_bound needle) needle

  subscription_matches-All :
      (needle : Text)
      → All (IsAt config.subscriptions) (subscription_matches unicode host_of needle config)
  unfolding subscription_matches
  subscription_matches-All needle =
      All-map _ _ (λ i. λ (sub, at, t). (sub, at)) _ (positions-Holds _ config.subscriptions)

  only_subscription-Gives :
      (P : ℕ → Type 0) (needle : Text) (is : List ℕ)
      → All P is
      → Gives P (only_subscription unicode host_of needle is)
  unfolding only_subscription
  only_subscription-Gives P needle [] h = λ e. cc
  only_subscription-Gives P needle (i ∷ []) (h, hs) = h
  only_subscription-Gives P needle (i ∷ j ∷ rest) h = λ e. cc

  find_subscription_by-Gives :
      (o : Option ℕ) (needle : Text)
      → Gives (IsAt config.subscriptions) (find_subscription_by unicode host_of o needle config)
  unfolding find_subscription_by
  find_subscription_by-Gives none needle =
      only_subscription-Gives (IsAt config.subscriptions) needle _ (subscription_matches-All needle)
  find_subscription_by-Gives (some n) needle = numbered-Gives _ config.subscriptions n (λ e. cc)

  pub find_subscription-Gives :
      (needle : Text)
      → Gives (IsAt config.subscriptions) (find_subscription unicode host_of needle config)
  unfolding find_subscription
  find_subscription-Gives needle = find_subscription_by-Gives (parse_uint u64_bound needle) needle

  by_name-IsRemovable :
      (target : Text) (manual subs owned : List ℕ)
      → All (IsManualAt config) manual
      → All (IsAt config.subscriptions) subs
      → All (IsAt config.locations) owned
      → IsRemovable config (by_name unicode host_of target manual subs owned config)
  unfolding by_name
  by_name-IsRemovable target (i ∷ is) (j ∷ js) owned m s o = λ e. cc
  by_name-IsRemovable target (i ∷ is) [] owned m s o =
      as_location-IsRemovable config (single (i ∷ is)) (single-Gives (IsManualAt config) (i ∷ is) m)
  by_name-IsRemovable target [] (i ∷ []) owned m (s, ss) o = s
  by_name-IsRemovable target [] (i ∷ j ∷ rest) owned m s o = λ e. cc
  by_name-IsRemovable target [] [] [] m s o = λ e. cc
  by_name-IsRemovable target [] [] (i ∷ is) m s (o, os) =
      as_location-IsRemovable config (manual_only i config) (manual_only-Gives config i o)

  removal_at-IsRemovable :
      (r : Result Refusal ℕ)
      → Gives (IsAt config.locations) r
      → IsRemovable config (removal_at unicode host_of r config)
  unfolding removal_at
  removal_at-IsRemovable (ok i) h =
      as_location-IsRemovable config (manual_only i config) (manual_only-Gives config i h)
  removal_at-IsRemovable (err e) h = h

  removal_by-IsRemovable :
      (o : Option ℕ) (target : Text)
      → IsRemovable config (removal_by unicode host_of o target config)
  unfolding removal_by
  removal_by-IsRemovable (some n) target =
      removal_at-IsRemovable (find unicode host_of target config) (find-Gives target)
  removal_by-IsRemovable none target =
      by_name-IsRemovable target _ _ _
        (All-map _ _ (λ i. λ (l, at, t). (l, at, is_none_true l.source t)) _
          (matching-All target (λ l. is_none l.source)))
        (subscription_matches-All target)
        (All-map _ _ (λ i. λ (l, at, t). (l, at)) _
          (matching-All target (λ l. not (is_none l.source))))
    where
      is_none_true : (o : Option Text) → is_none o ≡ true → o ≡ none
      is_none_true none t = refl
      is_none_true (some a) t = cc

  removal_of-IsRemovable :
      (o : Option Text) (target : Text)
      → IsRemovable config (removal_of unicode host_of o target config)
  unfolding removal_of
  removal_of-IsRemovable (some rest) target =
      as_subscription-IsRemovable config (find_subscription unicode host_of (trim rest) config)
        (find_subscription-Gives (trim rest))
  removal_of-IsRemovable none target = removal_by-IsRemovable (parse_uint u64_bound target) target

  -- What a removal takes away is a location that was added by hand or a subscription, and it is
  -- there; a location of a subscription is never taken away on its own, and no index panics.
  pub removal-IsRemovable :
      (target : Text) → IsRemovable config (removal unicode host_of target config)
  unfolding removal
  removal-IsRemovable target =
      named (text_eq (trim target) (codes "sub")) _
        (removal_of-IsRemovable (strip_prefix (trim target) (codes "sub ")) (trim target))
    where
      named :
          (b : Bool) (r : Result Refusal Removal)
          → IsRemovable config r
          → IsRemovable config (if b then err name_a_subscription else r)
      named true r h = λ e. cc
      named false r h = h
