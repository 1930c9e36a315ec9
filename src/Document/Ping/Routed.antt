-- ===== src/Document/Ping/Routed.antt =====
-- Where the rules of a measurement send its traffic.
use mathlib.Core.List.{Memᴰ}
use varmlen_cli_linux.Common.{
  ◌≤◌, ◌≡◌, refl, subst, ◌⊎◌, inl, inr, Bool, true, false, not, ◌||◌, Option, none, some, List, [],
  ◌∷◌, arith,
}
use varmlen_cli_linux.Common.Tests.{leb, Bool-cases}
use varmlen_cli_linux.Common.Lists.{is_empty, length, any, All, All-map}
use varmlen_cli_linux.Common.Text.{Text, codes, starts_with}
use varmlen_cli_linux.Common.Json.{Value, as_array, as_str, and_then, get}
use varmlen_cli_linux.Common.Outcome.{
  ok, refuse_if, bind-eq-ok, refuse_if-bind, refuse_if-eq-ok, then-eq-ok,
}
use varmlen_cli_linux.Document.{invalid, require, one_of, tag_of}
use varmlen_cli_linux.Document.Keys.{require-eq-ok, one_of-Memᴰ}
use varmlen_cli_linux.Document.Ping.{
  selects, check_balancer_items, check_balancers, names_tag, inbound_matches, differ, is_ping_rule,
  every_request, check_ping_rules,
}

any-Memᴰ :
    {A : Type 0} (p : A → Bool) (xs : List A) → any p xs ≡ true → (x : A) × Memᴰ x xs × (p x ≡ true)
any-Memᴰ p [] h = cc
any-Memᴰ p (x ∷ xs) h = elim (Bool-cases (p x)) [
  | inl t ↦ (x, Memᴰ.head refl, t)
  | inr f ↦ let (y, m, t) = any-Memᴰ p xs (ground arith) in (y, Memᴰ.tail m, t)
]

-- A balancer whose selector starts the tag of a proxy.
abbrev pub Selects : List Text → Value → Type 0
Selects proxies balancer =
    (selector tag : Text) × Memᴰ tag proxies
    × (starts_with tag selector ≡ true)
    × ((vs : List Value) × (and_then (get (codes "selector") balancer) as_array ≡ some vs)
        × ((v : Value) × Memᴰ v vs × (as_str v ≡ some selector)))

-- A balancer among these that has this tag.
abbrev pub NamesBalancer : List Value → List Text → Text → Type 0
NamesBalancer items proxies tag =
    (balancer : Value) × Memᴰ balancer items
    × (tag_of balancer ≡ some tag)
    × Selects proxies balancer

-- The tags of the balancers of a configuration, of which there may be none.
abbrev pub AreBalancers : Option Value → List Text → List Text → Type 0
AreBalancers none proxies tags = tags ≡ []
AreBalancers (some value) proxies tags =
    (items : List Value) × (as_array value ≡ some items)
    × (length items ≤ 64)
    × All (NamesBalancer items proxies) tags

selects-some :
    (proxies : List Text) (o : Option Text)
    → selects proxies o ≡ true
    → (selector tag : Text) × (o ≡ some selector)
      × Memᴰ tag proxies
      × (starts_with tag selector ≡ true)
selects-some proxies none h = cc
selects-some proxies (some selector) h =
    let (tag, m, t) = any-Memᴰ (λ tag. starts_with tag selector) proxies h in
    (selector, tag, refl, m, t)

check_balancer_items_sound :
    (items : List Value) (proxies seen : List Text) (left : List Value) (tags : List Text)
    → All (NamesBalancer items proxies) seen
    → All (λ b. Memᴰ b items) left
    → check_balancer_items proxies seen left ≡ ok tags
    → All (NamesBalancer items proxies) tags
unfolding check_balancer_items
check_balancer_items_sound items proxies seen [] tags named inside h =
    let same : seen ≡ tags = cc in subst (All (NamesBalancer items proxies)) same named
check_balancer_items_sound items proxies seen (b ∷ rest) tags named (here, inside) h =
    let (tag, is_tag, h1) =
      bind-eq-ok (require "ping Xray balancer tag is missing" (tag_of b)) _ tags h in
    let (full, h2) = refuse_if-bind (is_empty tag) _ _ tags h1 in
    let (vs, are, h3) =
      bind-eq-ok
        (require "ping Xray balancer selector is missing"
          (and_then (get (codes "selector") b) as_array))
        _ tags h2 in
    let (accepted, h4) =
      refuse_if-bind
        (one_of seen tag
          || is_empty vs
          || not (any (λ selector. selects proxies (as_str selector)) vs))
        _ _ tags h3 in
    let (v, among, selected) =
      any-Memᴰ (λ v. selects proxies (as_str v)) vs (ground (arith, accepted)) in
    let (selector, proxy, is_selector, m, starts) = selects-some proxies (as_str v) selected in
    check_balancer_items_sound items proxies (tag ∷ seen) rest tags
      (
        (
          b,
          here,
          require-eq-ok "ping Xray balancer tag is missing" _ tag is_tag,
          (
            selector,
            proxy,
            m,
            starts,
            (
              vs,
              require-eq-ok "ping Xray balancer selector is missing" _ vs are,
              (v, among, is_selector),
            ),
          ),
        ),
        named,
      )
      inside h4

Memᴰ-All : (vs : List Value) → All (λ v. Memᴰ v vs) vs
Memᴰ-All [] = tt
Memᴰ-All (v ∷ vs) = (Memᴰ.head refl, All-map _ _ (λ w m. Memᴰ.tail m) vs (Memᴰ-All vs))

pub check_balancers-AreBalancers :
    (proxies : List Text) (o : Option Value) (tags : List Text)
    → check_balancers proxies o ≡ ok tags
    → AreBalancers o proxies tags
unfolding check_balancers
check_balancers-AreBalancers proxies none tags h = cc
check_balancers-AreBalancers proxies (some value) tags h =
    let (items, are, h1) =
      bind-eq-ok (require "ping Xray balancers must be an array" (as_array value)) _ tags h in
    let (few, h2) = refuse_if-bind (not (leb (length items) 64)) _ _ tags h1 in
    (
      items,
      require-eq-ok "ping Xray balancers must be an array" (as_array value) items are,
      ground (arith, few),
      check_balancer_items_sound items proxies [] items tags tt (Memᴰ-All items) h2,
    )

-- Where a rule sends the traffic: to a proxy or to a balancer, and never to both.
abbrev pub NamesOne : List Text → Option Text → Type 0
NamesOne tags o = (tag : Text) × (o ≡ some tag) × Memᴰ tag tags

names_tag-some : (tags : List Text) (o : Option Text) → names_tag tags o ≡ true → NamesOne tags o
names_tag-some tags none h = cc
names_tag-some tags (some tag) h = (tag, refl, one_of-Memᴰ tags tag h)

differ-cases :
    (a b : Bool) → differ a b ≡ true → ((a ≡ true) × (b ≡ false)) ⊎ ((a ≡ false) × (b ≡ true))
differ-cases true b h = inl (refl, ground arith)
differ-cases false b h = inr (refl, h)

abbrev pub proxy_target : Value → Option Text
proxy_target rule = and_then (get (codes "outboundTag") rule) as_str

abbrev pub balancer_target : Value → Option Text
balancer_target rule = and_then (get (codes "balancerTag") rule) as_str

abbrev pub IsRouted : Bool → List Text → List Text → Text → Value → Type 0
IsRouted single proxies balancers tag rule =
    (inbound_matches single tag (get (codes "inboundTag") rule) ≡ true)
    × ((NamesOne proxies (proxy_target rule) × (names_tag balancers (balancer_target rule) ≡ false))
        ⊎ ((names_tag proxies (proxy_target rule) ≡ false)
            × NamesOne balancers (balancer_target rule)))

abbrev pub AreRouted : Bool → List Text → List Text → List Text → List Value → Type 0
AreRouted single proxies balancers tags [] = Unit
AreRouted single proxies balancers [] (rule ∷ rules) = ⊥
AreRouted single proxies balancers (tag ∷ tags) (rule ∷ rules) =
    IsRouted single proxies balancers tag rule × AreRouted single proxies balancers tags rules

is_ping_rule-IsRouted :
    (single : Bool) (proxies balancers : List Text) (tag : Text) (rule : Value)
    → is_ping_rule single proxies balancers tag rule ≡ true
    → IsRouted single proxies balancers tag rule
unfolding is_ping_rule
is_ping_rule-IsRouted single proxies balancers tag rule h =
    elim (differ-cases (names_tag proxies (proxy_target rule))
      (names_tag balancers (balancer_target rule)) (ground arith)) [
        | inl (p, b) ↦ (ground arith, inl (names_tag-some proxies _ p, b))
        | inr (p, b) ↦ (ground arith, inr (p, names_tag-some balancers _ b))
      ]

pub check_ping_rules-AreRouted :
    (single : Bool) (proxies balancers : List Text) (rules : List Value) (tags : List Text)
    → check_ping_rules single proxies balancers rules tags ≡ ok tt
    → AreRouted single proxies balancers tags rules
unfolding check_ping_rules
check_ping_rules-AreRouted single proxies balancers [] [] h = tt
check_ping_rules-AreRouted single proxies balancers [] (tag ∷ tags) h = tt
check_ping_rules-AreRouted single proxies balancers (rule ∷ rules) [] h = cc
check_ping_rules-AreRouted single proxies balancers (rule ∷ rules) (tag ∷ tags) h =
    let (accepted, rest) =
      then-eq-ok
        (refuse_if (not (is_ping_rule single proxies balancers tag rule)) (invalid every_request))
        (check_ping_rules single proxies balancers rules tags) h in
    (
      is_ping_rule-IsRouted single proxies balancers tag rule
          (ground (arith, refuse_if-eq-ok _ _ accepted)),
      check_ping_rules-AreRouted single proxies balancers rules tags rest,
    )
