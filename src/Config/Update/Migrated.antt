-- ===== src/Config/Update/Migrated.antt =====
-- What `migrate` makes of the file of an earlier version.
use mathlib.Core.List.{Memᴰ}
use varmlen_cli_linux.Common.{
  ◌≡◌, ◌≢◌, refl, sym, ap, subst, ◌∙◌, ◌⊎◌, inl, inr, true, false, Option, none, some, List, [],
  ◌∷◌, ◌++◌, map, arith,
}
use varmlen_cli_linux.Common.Tests.{Bool-cases}
use varmlen_cli_linux.Common.Lists.{find, All, All-map}
use varmlen_cli_linux.Common.Text.{Text, text_eq, text_eq_iff}
use varmlen_cli_linux.Config.{
  VlessServer, Location, Subscription, ActiveRef, key, legacy, Config, location_key,
}
use varmlen_cli_linux.Config.Active.{lists_url}
use varmlen_cli_linux.Config.Update.{
  only_url, fold_servers, key_of, fold_active, listed, refile, migrate,
}
use varmlen_cli_linux.Config.Update.Migration.{
  AllKnown, IsAdded, fold_servers-IsAdded, fold_servers_all, known-refile,
}

-- The address is that of a subscription.
abbrev pub IsListed : List Subscription → Text → Type 0
IsListed subs url = (s : Subscription) × Memᴰ s subs × (s.url ≡ url)

-- A location of a subscription that is listed stays there, and all others are manual.
abbrev pub IsFiled : List Subscription → Option Text → Option Text → Type 0
IsFiled subs none now = now ≡ none
IsFiled subs (some url) now =
    (IsListed subs url × (now ≡ some url)) ⊎ ((¬ IsListed subs url) × (now ≡ none))

-- The old locations, in their order and each with its server, and behind them the new ones.
abbrev pub AreMigrated :
    List Subscription → (Location → Type 0) → List Location → List Location → Type 0
AreMigrated subs New [] now = All New now
AreMigrated subs New (l ∷ ls) [] = ⊥
AreMigrated subs New (l ∷ ls) (n ∷ now) =
    ((n.server ≡ l.server) × IsFiled subs l.source n.source) × AreMigrated subs New ls now

-- A choice by label alone is that of a location with this label, or none where there is none.
abbrev pub IsChosen : Option ActiveRef → List Location → Option ActiveRef → Type 0
IsChosen none ls now = now ≡ none
IsChosen (some (key k)) ls now = now ≡ some (key k)
IsChosen (some (legacy label)) ls now =
    ((l : Location) × Memᴰ l ls
      × (l.server.label ≡ label)
      × (now ≡ some (key (location_key l.server))))
    ⊎ (All (λ l. l.server.label ≢ label) ls × (now ≡ none))

lists_url-IsListed :
    (subs : List Subscription) (url : Text) → lists_url subs url ≡ true → IsListed subs url
lists_url-IsListed [] url t = cc
lists_url-IsListed (s ∷ subs) url t = elim (Bool-cases (text_eq s.url url)) [
  | inl h ↦ (s, Memᴰ.head refl, (text_eq_iff s.url url).0 h)
  | inr f ↦ let (o, m, e) = lists_url-IsListed subs url (ground arith) in (o, Memᴰ.tail m, e)
]

IsListed-lists_url :
    (subs : List Subscription) (url : Text) (s : Subscription)
    → Memᴰ s subs
    → s.url ≡ url
    → lists_url subs url ≡ true
IsListed-lists_url [] url s m e = elim m [ ]
IsListed-lists_url (o ∷ subs) url s (Memᴰ.head same) e =
    let same_url : o.url ≡ url = ap (λ s. s.url) (sym same) ∙ e in
    ground (arith, (text_eq_iff o.url url).1 same_url)
IsListed-lists_url (o ∷ subs) url s (Memᴰ.tail m) e =
    ground (arith, IsListed-lists_url subs url s m e)

true_not_false : ¬ (true ≡ false)
true_not_false e = cc

listed-IsFiled :
    (subs : List Subscription) (source : Option Text) → IsFiled subs source (listed subs source)
listed-IsFiled subs none = refl
listed-IsFiled subs (some url) = elim (Bool-cases (lists_url subs url)) [
  | inl t ↦ inl (lists_url-IsListed subs url t, rw t refl)
  | inr f ↦
      let no : ¬ IsListed subs url =
        λ (s, m, e). true_not_false (sym (IsListed-lists_url subs url s m e) ∙ f) in
      inr (no, rw f refl)
]

-- The only subscription is one that is listed.
listed-only_url : (subs : List Subscription) → listed subs (only_url subs) ≡ only_url subs
listed-only_url [] = refl
listed-only_url (only ∷ []) =
    let known : lists_url (only ∷ []) only.url ≡ true =
      IsListed-lists_url (only ∷ []) only.url only (Memᴰ.head refl) refl in
    rw known refl
listed-only_url (a ∷ b ∷ rest) = refl

refile-IsAdded :
    (subs : List Subscription) (servers : List VlessServer) (ls more : List Location)
    → All (IsAdded (only_url subs) servers ls) more
    → All (IsAdded (only_url subs) servers ls) (map (refile subs) more)
refile-IsAdded subs servers ls [] h = tt
refile-IsAdded subs servers ls (l ∷ more) ((m, e, f), h) =
    ((m, ap (listed subs) e ∙ listed-only_url subs, f), refile-IsAdded subs servers ls more h)

refile-AreMigrated :
    (subs : List Subscription) (New : Location → Type 0) (ls more : List Location)
    → All New (map (refile subs) more)
    → AreMigrated subs New ls (map (refile subs) (ls ++ more))
refile-AreMigrated subs New [] more h = h
refile-AreMigrated subs New (l ∷ ls) more h =
    ((refl, listed-IsFiled subs l.source), refile-AreMigrated subs New ls more h)

find-IsChosen :
    (subs : List Subscription) (label : Text) (ls : List Location)
    → IsChosen
        (some (legacy label))
        (map (refile subs) ls)
        (key_of (find (λ l. text_eq l.server.label label) ls))
find-IsChosen subs label [] = inr (tt, refl)
find-IsChosen subs label (l ∷ ls) = elim (Bool-cases (text_eq l.server.label label)) [
  | inl t ↦ inl (refile subs l, Memᴰ.head refl, (text_eq_iff l.server.label label).0 t, rw t refl)
  | inr f ↦ elim (find-IsChosen subs label ls) [
    | inl (o, m, e, now) ↦ inl (o, Memᴰ.tail m, e, rw f now)
    | inr (others, now) ↦
        let differs : l.server.label ≢ label =
          λ e. true_not_false (sym ((text_eq_iff l.server.label label).1 e) ∙ f) in
        inr ((differs, others), rw f now)
  ]
]

fold_active-IsChosen :
    (subs : List Subscription) (r : Option ActiveRef) (ls : List Location)
    → IsChosen r (map (refile subs) ls) (fold_active r ls)
unfolding fold_active
fold_active-IsChosen subs none ls = refl
fold_active-IsChosen subs (some (key k)) ls = refl
fold_active-IsChosen subs (some (legacy label)) ls = find-IsChosen subs label ls

-- What is left of a file of the old form.
pub record IsMigrated (before after : Config) : Type 0 where
  pub emptied : after.servers ≡ []
  pub subscribed : after.subscriptions ≡ before.subscriptions
  pub located :
      let subs = before.subscriptions in
      AreMigrated subs
        (IsAdded (only_url subs) before.servers before.locations)
        before.locations
        after.locations
  pub kept : AllKnown after.locations before.servers
  pub chosen : IsChosen before.active after.locations after.active

-- The migration leaves no separate server, and the subscriptions as they were. Every location is
-- kept in its place with its server, in its subscription where that is listed, and as a manual one
-- otherwise. Behind them there are only locations made of old servers whose key (label, host and
-- port) no location had, in the only subscription if there is exactly one, and manual otherwise; and
-- the key of each old server is then that of some location. A choice by label alone becomes the
-- key of a location with that label, or none where no location has it; any other choice is kept.
pub migrate-IsMigrated : (config : Config) → IsMigrated config (migrate config)
unfolding migrate
migrate-IsMigrated config =
    let subs = config.subscriptions in
    let source = only_url subs in
    let folded = fold_servers source config.servers config.locations in
    let (more, e, added) = fold_servers-IsAdded source config.servers config.locations in
    let New = IsAdded source config.servers config.locations in
    record {
      emptied = refl;
      subscribed = refl;
      located =
          subst (λ ls. AreMigrated subs New config.locations (map (refile subs) ls)) (sym e)
            (refile-AreMigrated subs New config.locations more
              (refile-IsAdded subs config.servers config.locations more added));
      kept =
          All-map _ _ (λ s t. known-refile subs folded (location_key s) ∙ t) config.servers
            (fold_servers_all source config.servers config.locations);
      chosen = fold_active-IsChosen subs config.active folded;
    }
