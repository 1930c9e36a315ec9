-- ===== src/Config/Update/Migration.antt =====
-- The steps of `migrate`, and that it is done once.
use mathlib.Core.List.{append-nil, append_assoc, Memᴰ}
use varmlen_cli_linux.Common.{
  ◌≡◌, refl, sym, ap, subst, ◌∙◌, inl, inr, Bool, true, false, Option, none, some, List, [], ◌∷◌,
  ◌++◌, map, arith,
}
use varmlen_cli_linux.Common.Tests.{Bool-cases}
use varmlen_cli_linux.Common.Lists.{any, find, All, All-map}
use varmlen_cli_linux.Common.Text.{Text, text_eq}
use varmlen_cli_linux.Config.{
  VlessServer, Location, Subscription, LocationKey, ActiveRef, key, legacy, Config, location_key,
  key_eq, key_eq_iff,
}
use varmlen_cli_linux.Config.Active.{lists_url}
use varmlen_cli_linux.Config.Update.{
  only_url, fold_servers, key_of, fold_active, listed, refile, found_source, migrate,
}

-- A choice by label alone is not one of the current form.
abbrev pub IsKeyed : Option ActiveRef → Type 0
IsKeyed none = Unit
IsKeyed (some (key k)) = Unit
IsKeyed (some (legacy label)) = ⊥

pub fold_active-IsKeyed : (r : Option ActiveRef) (ls : List Location) → IsKeyed (fold_active r ls)
unfolding fold_active
fold_active-IsKeyed none ls = tt
fold_active-IsKeyed (some (key k)) ls = tt
fold_active-IsKeyed (some (legacy label)) ls =
    key_of-IsKeyed (find (λ l. text_eq l.server.label label) ls)
  where
    key_of-IsKeyed : (o : Option Location) → IsKeyed (key_of o)
    key_of-IsKeyed none = tt
    key_of-IsKeyed (some l) = tt

fold_active_fixed : (r : Option ActiveRef) (ls : List Location) → IsKeyed r → fold_active r ls ≡ r
unfolding fold_active
fold_active_fixed none ls h = refl
fold_active_fixed (some (key k)) ls h = refl
fold_active_fixed (some (legacy label)) ls h = elim h [ ]

fold_active-fold_active :
    (r : Option ActiveRef) (ls others : List Location)
    → fold_active (fold_active r ls) others ≡ fold_active r ls
fold_active-fold_active r ls others =
    fold_active_fixed (fold_active r ls) others (fold_active-IsKeyed r ls)

-- Whether a key is that of a location.
abbrev pub known : List Location → LocationKey → Bool
known ls k = any (λ l. key_eq (location_key l.server) k) ls

abbrev pub AllKnown : List Location → List VlessServer → Type 0
AllKnown ls servers = All (λ s. known ls (location_key s) ≡ true) servers

known-append :
    (ls more : List Location) (k : LocationKey) → known ls k ≡ true → known (ls ++ more) k ≡ true
known-append [] more k t = cc
known-append (l ∷ ls) more k t = ground (arith, known-append ls more k)

known_last :
    (ls : List Location) (l : Location) (k : LocationKey)
    → location_key l.server ≡ k
    → known (ls ++ (l ∷ [])) k ≡ true
known_last [] l k e = ground (arith, key_eq_iff (location_key l.server) k)
known_last (m ∷ ls) l k e = ground (arith, known_last ls l k e)

module _ (source : Option Text) where
  -- A location made of one of these servers, whose key is that of none of these locations.
  abbrev pub IsAdded : List VlessServer → List Location → Location → Type 0
  IsAdded servers ls l =
      Memᴰ l.server servers × (l.source ≡ source) × (known ls (location_key l.server) ≡ false)

  later-IsAdded :
      (s : VlessServer) (servers : List VlessServer) (ls more : List Location) (l : Location)
      → IsAdded servers (ls ++ more) l
      → IsAdded (s ∷ servers) ls l
  later-IsAdded s servers ls more l (m, e, f) =
      (Memᴰ.tail m, e, ground (arith, f, known-append ls more (location_key l.server)))

  -- The locations that were there are there still, in front.
  pub fold_servers-IsAdded :
      (servers : List VlessServer) (ls : List Location)
      → (more : List Location) × (fold_servers source servers ls ≡ ls ++ more)
        × All (IsAdded servers ls) more
  unfolding fold_servers
  fold_servers-IsAdded [] ls = ([], sym (append-nil ls), tt)
  fold_servers-IsAdded (s ∷ servers) ls =
      let new : Location = record { server = s; source = source } in
      elim (Bool-cases (known ls (location_key s))) [
        | inl t ↦
            let (more, e, added) = fold_servers-IsAdded servers ls in
            (
              more,
              rw t e,
              All-map _ (IsAdded (s ∷ servers) ls) (λ l (m, e, f). (Memᴰ.tail m, e, f)) more added,
            )
        | inr f ↦
            let (more, e, added) = fold_servers-IsAdded servers (ls ++ (new ∷ [])) in
            (
              (new ∷ []) ++ more,
              rw f (e ∙ append_assoc ls (new ∷ []) more),
              (
                (Memᴰ.head refl, refl, f),
                All-map _ (IsAdded (s ∷ servers) ls) (later-IsAdded s servers ls (new ∷ [])) more
                    added,
              ),
            )
      ]

  fold_servers-known :
      (servers : List VlessServer) (ls : List Location) (k : LocationKey)
      → known ls k ≡ true
      → known (fold_servers source servers ls) k ≡ true
  fold_servers-known servers ls k t =
      let (more, e, added) = fold_servers-IsAdded servers ls in rw e (known-append ls more k t)

  fold_servers-known_step :
      (s : VlessServer) (servers : List VlessServer) (ls : List Location)
      → known ls (location_key s) ≡ true
      → fold_servers source (s ∷ servers) ls ≡ fold_servers source servers ls
  unfolding fold_servers
  fold_servers-known_step s servers ls t = rw t refl

  fold_servers_new_step :
      (s : VlessServer) (servers : List VlessServer) (ls : List Location)
      → known ls (location_key s) ≡ false
      → fold_servers source (s ∷ servers) ls
        ≡ fold_servers source servers (ls ++ (record { server = s; source = source } ∷ []))
  unfolding fold_servers
  fold_servers_new_step s servers ls f = rw f refl

  pub fold_servers_all :
      (servers : List VlessServer) (ls : List Location)
      → AllKnown (fold_servers source servers ls) servers
  fold_servers_all [] ls = tt
  fold_servers_all (s ∷ servers) ls =
      let new : Location = record { server = s; source = source } in
      elim (Bool-cases (known ls (location_key s))) [
        | inl t ↦
            subst (λ now. AllKnown now (s ∷ servers)) (sym (fold_servers-known_step s servers ls t))
              (fold_servers-known servers ls (location_key s) t, fold_servers_all servers ls)
        | inr f ↦
            subst (λ now. AllKnown now (s ∷ servers)) (sym (fold_servers_new_step s servers ls f))
              (
                fold_servers-known servers (ls ++ (new ∷ [])) (location_key s)
                    (known_last ls new (location_key s) refl),
                fold_servers_all servers (ls ++ (new ∷ [])),
              )
      ]

pub known-refile :
    (subs : List Subscription) (ls : List Location) (k : LocationKey)
    → known (map (refile subs) ls) k ≡ known ls k
known-refile subs [] k = refl
known-refile subs (l ∷ ls) k = ground (arith, known-refile subs ls k)

listed-listed :
    (subs : List Subscription) (source : Option Text)
    → listed subs (listed subs source) ≡ listed subs source
listed-listed subs none = refl
listed-listed subs (some url) = elim (Bool-cases (lists_url subs url)) [
  | inl t ↦ rw (t, listed, t) refl
  | inr f ↦ rw f refl
]

refile-refile :
    (subs : List Subscription) (ls : List Location)
    → map (refile subs) (map (refile subs) ls) ≡ map (refile subs) ls
refile-refile subs [] = refl
refile-refile subs (l ∷ ls) =
    rw (listed-listed subs l.source) (ap (λ r. refile subs l ∷ r) (refile-refile subs ls))

found_source-found_source :
    (source : Option Text) (r : Option ActiveRef) (ls : List Location)
    → found_source (found_source source r ls) r ls ≡ found_source source r ls
unfolding found_source
found_source-found_source (some url) r ls = refl
found_source-found_source none none ls = refl
found_source-found_source none (some (legacy label)) ls = refl
found_source-found_source none (some (key k)) ls = at_key _ refl
  where
    at_key :
        (o : Option Text)
        → found_source none (some (key k)) ls ≡ o
        → found_source o (some (key k)) ls ≡ o
    at_key none e = e
    at_key (some url) e = refl

-- The migration is done once: a second one changes nothing.
pub migrate-migrate : (config : Config) → migrate (migrate config) ≡ migrate config
unfolding migrate fold_servers
migrate-migrate config =
    let subs = config.subscriptions in
    let folded = fold_servers (only_url subs) config.servers config.locations in
    rw
      (
        refile-refile subs folded,
        fold_active-fold_active config.active folded (map (refile subs) folded),
        found_source-found_source config.active_source (fold_active config.active folded)
            (map (refile subs) folded),
      )
      refl
