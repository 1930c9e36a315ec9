-- ===== src/Split/Routing/Laws.antt =====
-- What a route that is accepted looks like.
use varmlen_cli_linux.Common.{
  ℕ, ◌≤◌, ◌≡◌, ◌≢◌, ◌↔◌, refl, ap, subst, ◌⊎◌, inl, inr, true, false, ◌&&◌, Option, none, some,
  List, [], ◌∷◌, ◌++◌, arith,
}
use varmlen_cli_linux.Common.Tests.{Bool-cases, Option-cases}
use varmlen_cli_linux.Common.Lists.{All, all_iff}
use varmlen_cli_linux.Common.Text.{Text, codes, len, text_eq, text_eq_iff, words}
use varmlen_cli_linux.Common.Ip.{IpAddr, parse_ip}
use varmlen_cli_linux.Split.Routing.{
  PhysicalRoute, field_after, is_name_byte, is_interface, is_gateway, starts_with_default, route_on,
  route_of, parse_default_route,
}

-- What stands behind the first field that is this name: nothing where there is no such field, or
-- where it is the last.
abbrev pub IsAfter : Text → List Text → Option Text → Type 0
IsAfter name fields (some value) =
    (before : List Text) × (rest : List Text) × (fields ≡ before ++ (name ∷ value ∷ rest))
    × All (λ f. f ≢ name) before
IsAfter name fields none =
    All (λ f. f ≢ name) fields
    ⊎ ((before : List Text) × (fields ≡ before ++ (name ∷ [])) × All (λ f. f ≢ name) before)

text_ne : (s t : Text) → text_eq s t ≡ false → s ≢ t
text_ne s t f = ground (arith, f, text_eq_iff s t)

text_ne_false : (s t : Text) → s ≢ t → text_eq s t ≡ false
text_ne_false s t n = ground (arith, n, text_eq_iff s t)

text_eq_refl : (s : Text) → text_eq s s ≡ true
text_eq_refl s = (text_eq_iff s s).1 refl

behind-IsAfter :
    (name field : Text) (fields : List Text) (o : Option Text)
    → field ≢ name
    → IsAfter name fields o
    → IsAfter name (field ∷ fields) o
behind-IsAfter name field fields none n (inl others) = inl (n, others)
behind-IsAfter name field fields none n (inr (before, e, others)) =
    inr (field ∷ before, ap (λ r. field ∷ r) e, (n, others))
behind-IsAfter name field fields (some value) n (before, rest, e, others) =
    (field ∷ before, rest, ap (λ r. field ∷ r) e, (n, others))

field_after-IsAfter :
    (name : Text) (fields : List Text) → IsAfter name fields (field_after name fields)
unfolding field_after
field_after-IsAfter name [] = inl tt
field_after-IsAfter name (field ∷ []) = elim (Bool-cases (text_eq field name)) [
  | inl t ↦ inr ([], ap (λ f. f ∷ []) ((text_eq_iff field name).0 t), tt)
  | inr f ↦ inl (text_ne field name f, tt)
]
field_after-IsAfter name (field ∷ next ∷ rest) =
    let later = field_after-IsAfter name (next ∷ rest) in
    elim (Bool-cases (text_eq field name)) [
      | inl t ↦ rw t ([], rest, ap (λ f. f ∷ next ∷ rest) ((text_eq_iff field name).0 t), tt)
      | inr f ↦
          let n = text_ne field name f in
          rw f (behind-IsAfter name field (next ∷ rest) (field_after name (next ∷ rest)) n later)
    ]

field_after-append :
    (name value : Text) (before rest : List Text)
    → All (λ f. f ≢ name) before
    → field_after name (before ++ (name ∷ value ∷ rest)) ≡ some value
unfolding field_after
field_after-append name value [] rest h = rw (text_eq_refl name) refl
field_after-append name value (b ∷ []) rest (n, h) =
    rw (text_ne_false b name n, text_eq_refl name) refl
field_after-append name value (b ∷ c ∷ before) rest (n, h) =
    rw (text_ne_false b name n) (field_after-append name value (c ∷ before) rest h)

field_after_last :
    (name : Text) (before : List Text)
    → All (λ f. f ≢ name) before
    → field_after name (before ++ (name ∷ [])) ≡ none
unfolding field_after
field_after_last name [] h = refl
field_after_last name (b ∷ []) (n, h) = rw (text_ne_false b name n) refl
field_after_last name (b ∷ c ∷ before) (n, h) =
    rw (text_ne_false b name n) (field_after_last name (c ∷ before) h)

field_after-none :
    (name : Text) (fields : List Text) → All (λ f. f ≢ name) fields → field_after name fields ≡ none
unfolding field_after
field_after-none name [] h = refl
field_after-none name (b ∷ []) h = refl
field_after-none name (b ∷ c ∷ fields) (n, h) =
    rw (text_ne_false b name n) (field_after-none name (c ∷ fields) h)

IsAfter-field_after :
    (name : Text) (fields : List Text) (o : Option Text)
    → IsAfter name fields o
    → field_after name fields ≡ o
IsAfter-field_after name fields none (inl others) = field_after-none name fields others
IsAfter-field_after name fields none (inr (before, e, others)) =
    rw e (field_after_last name before others)
IsAfter-field_after name fields (some value) (before, rest, e, others) =
    rw e (field_after-append name value before rest others)

-- A digit, a letter of either case, a dot, an underscore or a dash.
abbrev pub IsNameByte : ℕ → Type 0
IsNameByte c =
    ((48 ≤ c) × (c ≤ 57))
    ⊎ (((65 ≤ c) × (c ≤ 90)) ⊎ (((97 ≤ c) × (c ≤ 122)) ⊎ ((c ≡ 46) ⊎ ((c ≡ 95) ⊎ (c ≡ 45)))))

abbrev pub IsGateway : Option Text → Type 0
IsGateway none = Unit
IsGateway (some value) = (address : IpAddr) × (parse_ip value ≡ some address)

-- A line that names the route: it is the default one, over an interface with a name of 1 to 16
-- permitted bytes, and its gateway, where it has one, is an address.
abbrev pub Names : List Text → PhysicalRoute → Type 0
Names fields route =
    ((rest : List Text) × (fields ≡ codes "default" ∷ rest))
    × IsAfter (codes "dev") fields (some route.interface)
    × IsAfter (codes "via") fields route.gateway
    × ((1 ≤ len route.interface) × (len route.interface ≤ 16) × All IsNameByte route.interface)
    × IsGateway route.gateway

is_name_byte_iff : (c : ℕ) → (is_name_byte c ≡ true) ↔ IsNameByte c
is_name_byte_iff c = (λ h. ground arith, λ h. ground arith)

is_gateway-IsGateway : (o : Option Text) → is_gateway o ≡ true → IsGateway o
is_gateway-IsGateway none h = tt
is_gateway-IsGateway (some value) h = elim (Option-cases (parse_ip value)) [
  | inl e ↦ cc
  | inr e ↦ e
]

IsGateway-is_gateway : (o : Option Text) → IsGateway o → is_gateway o ≡ true
IsGateway-is_gateway none h = refl
IsGateway-is_gateway (some value) (address, e) = rw e refl

default-starts :
    (fields : List Text)
    → starts_with_default fields ≡ true
    → (rest : List Text) × (fields ≡ codes "default" ∷ rest)
default-starts [] h = cc
default-starts (first ∷ rest) h =
    (rest, ap (λ f. f ∷ rest) ((text_eq_iff first (codes "default")).0 h))

len-cons : (c : ℕ) (name : Text) → 1 ≤ len (c ∷ name)
unfolding len
len-cons c name = ground arith

is_interface_iff :
    (name : Text)
    → (is_interface name ≡ true) ↔ ((1 ≤ len name) × (len name ≤ 16) × All IsNameByte name)
unfolding len
is_interface_iff [] = (λ h. cc, λ h. absurd (omega (arith, h.0)))
is_interface_iff (c ∷ name) =
    let bytes = all_iff IsNameByte is_name_byte is_name_byte_iff (c ∷ name) in
    let long = len-cons c name in
    (λ h. (long, ground arith, bytes.0 (ground arith)), λ h. ground (arith, h, bytes.1 h.2))

route_on-Names :
    (fields : List Text) (interface gateway : Option Text) (route : PhysicalRoute)
    → IsAfter (codes "dev") fields interface
    → IsAfter (codes "via") fields gateway
    → (rest : List Text) × (fields ≡ codes "default" ∷ rest)
    → route_on interface gateway ≡ some route
    → Names fields route
unfolding route_on
route_on-Names fields none gateway route d v s h = cc
route_on-Names fields (some interface) gateway route d v s h =
    elim (Bool-cases (is_interface interface && is_gateway gateway)) [
      | inl t ↦
          let built : PhysicalRoute = record { interface = interface; gateway = gateway } in
          let same : built ≡ route = ground arith in
          subst (Names fields) same (
            s,
            d,
            v,
            (is_interface_iff interface).0 (ground arith),
            is_gateway-IsGateway gateway (ground arith),
          )
      | inr f ↦ absurd (ground arith)
    ]

route_of-Names :
    (fields : List Text) (route : PhysicalRoute) → route_of fields ≡ some route → Names fields route
unfolding route_of
route_of-Names fields route h = elim (Bool-cases (starts_with_default fields)) [
  | inl s ↦
      let named =
        route_on-Names fields (field_after (codes "dev") fields) (field_after (codes "via") fields)
          route (field_after-IsAfter (codes "dev") fields)
          (field_after-IsAfter (codes "via") fields) (default-starts fields s) in
      named (rw s at h)
  | inr f ↦ let nothing : none ≡ some route = rw f at h in absurd (cc)
]

Names-route_of :
    (fields : List Text) (route : PhysicalRoute) → Names fields route → route_of fields ≡ some route
unfolding route_of route_on
Names-route_of fields route ((rest, e), d, v, i, g) =
    let starts : starts_with_default fields ≡ true = rw e (text_eq_refl (codes "default")) in
    let dev = IsAfter-field_after (codes "dev") fields (some route.interface) d in
    let gateway = IsAfter-field_after (codes "via") fields route.gateway v in
    rw
      (
        starts,
        dev,
        gateway,
        (is_interface_iff route.interface).1 i,
        IsGateway-is_gateway route.gateway g,
      )
      refl

-- A line is taken as a route exactly when its first word is `default`; behind the first `dev` stands
-- the name of an interface, of 1 to 16 bytes, all of them letters, digits, dots, underscores or
-- dashes; and behind the first `via`, where there is one that is not the last word, stands an
-- address. The route is made of these two.
pub parse_default_route_iff :
    (line : Text) (route : PhysicalRoute)
    → (parse_default_route line ≡ some route) ↔ Names (words line) route
unfolding parse_default_route
parse_default_route_iff line route =
    (route_of-Names (words line) route, Names-route_of (words line) route)
