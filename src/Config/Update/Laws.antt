-- ===== src/Config/Update/Laws.antt =====
-- What an update, an addition and a removal do to the locations.
use mathlib.Core.List.{Memᴰ, append-nil}
use varmlen_cli_linux.Common.{
  ℕ, zero, suc, ◌≡◌, refl, sym, ap, ◌∙◌, inl, inr, Bool, true, false, not, List, [], ◌∷◌, ◌++◌, map,
  arith,
}
use varmlen_cli_linux.Common.Tests.{Bool-cases}
use varmlen_cli_linux.Common.Lists.{take, drop, keep}
use varmlen_cli_linux.Common.Text.{Text, text_eq_iff}
use varmlen_cli_linux.Config.{
  VlessServer, Location, LocationKey, Config, Unicode, location_key, key_eq_iff,
}
use varmlen_cli_linux.Config.Active.{active_location}
use varmlen_cli_linux.Config.Active.Laws.{reconcile_active_locations}
use varmlen_cli_linux.Config.Update.{
  position, insert_at, from, sourced, servers_of, contains, replaced, count_changes,
  replace_subscription_locations,
}

module _ {A : Type 0} where
  pub keep_none : (p : A → Bool) (xs : List A) → keep p (keep (λ x. not (p x)) xs) ≡ []
  keep_none p [] = refl
  keep_none p (x ∷ xs) = ground (arith, keep_none p xs)

  pub keep-keep : (p : A → Bool) (xs : List A) → keep p (keep p xs) ≡ keep p xs
  keep-keep p [] = refl
  keep-keep p (x ∷ xs) = ground (arith, keep-keep p xs)

  keep-append : (p : A → Bool) (xs ys : List A) → keep p (xs ++ ys) ≡ keep p xs ++ keep p ys
  keep-append p [] ys = refl
  keep-append p (x ∷ xs) ys = ground (arith, keep-append p xs ys)

  take-drop : (n : ℕ) (xs : List A) → take n xs ++ drop n xs ≡ xs
  take-drop n [] = refl
  take-drop zero (x ∷ xs) = refl
  take-drop (suc n) (x ∷ xs) = ap (λ r. x ∷ r) (take-drop n xs)

  append_empty : (xs ys : List A) → xs ++ ys ≡ [] → (xs ≡ []) × (ys ≡ [])
  append_empty [] ys e = (refl, e)
  append_empty (x ∷ xs) ys e = cc

  module _ (p : A → Bool) (n : ℕ) (new xs : List A) where
    keep-insert_at :
        keep p (insert_at n new xs) ≡ keep p (take n xs) ++ keep p new ++ keep p (drop n xs)
    keep-insert_at =
        keep-append p (take n xs ++ new) (drop n xs)
        ∙ ap (λ r. r ++ keep p (drop n xs)) (keep-append p (take n xs) new)

    keep-take-drop : keep p (take n xs) ++ keep p (drop n xs) ≡ keep p xs
    keep-take-drop = sym (keep-append p (take n xs) (drop n xs)) ∙ ap (keep p) (take-drop n xs)

    -- Inserting what a test drops leaves what it keeps.
    keep-insert_at_dropped : keep p new ≡ [] → keep p (insert_at n new xs) ≡ keep p xs
    keep-insert_at_dropped e = keep-insert_at ∙ rw (e, append-nil) keep-take-drop

    -- Inserting into what a test drops leaves what it keeps of the inserted.
    keep-insert_at_alone : keep p xs ≡ [] → keep p (insert_at n new xs) ≡ keep p new
    keep-insert_at_alone e =
        let (t, d) = append_empty (keep p (take n xs)) (keep p (drop n xs)) (keep-take-drop ∙ e) in
        keep-insert_at ∙ rw (t, d, append-nil) refl

keep-sourced :
    (url : Text) (fresh : List VlessServer)
    → keep (from url) (map (sourced url) fresh) ≡ map (sourced url) fresh
keep-sourced url [] = refl
keep-sourced url (s ∷ fresh) = ground (arith, keep-sourced url fresh, text_eq_iff url url)

keep-sourced_other :
    (url : Text) (fresh : List VlessServer)
    → keep (λ l. not (from url l)) (map (sourced url) fresh) ≡ []
keep-sourced_other url [] = refl
keep-sourced_other url (s ∷ fresh) =
    ground (arith, keep-sourced_other url fresh, text_eq_iff url url)

module _ (url : Text) (fresh : List VlessServer) (locations : List Location) where
  replaced-from : keep (from url) (replaced url fresh locations) ≡ map (sourced url) fresh
  unfolding replaced
  replaced-from =
      keep-insert_at_alone (from url) (position (from url) locations) (map (sourced url) fresh)
        (keep (λ l. not (from url l)) locations) (keep_none (from url) locations)
      ∙ keep-sourced url fresh

  replaced-rest :
      keep (λ l. not (from url l)) (replaced url fresh locations)
      ≡ keep (λ l. not (from url l)) locations
  unfolding replaced
  replaced-rest =
      keep-insert_at_dropped (λ l. not (from url l)) (position (from url) locations)
        (map (sourced url) fresh) (keep (λ l. not (from url l)) locations)
        (keep-sourced_other url fresh)
      ∙ keep-keep (λ l. not (from url l)) locations

take_zero : {A : Type 0} (ys : List A) → take 0 ys ≡ []
take_zero [] = refl
take_zero (y ∷ ys) = refl

-- What comes before the place of an insertion stays there.
take-insert_at :
    {A : Type 0} (p : A → Bool) (new xs : List A)
    → let n = position p xs in take n (insert_at n new (keep (λ x. not (p x)) xs)) ≡ take n xs
take-insert_at p new [] = take_zero (new ++ [])
take-insert_at p new (x ∷ xs) = elim (Bool-cases (p x)) [
  | inl t ↦ rw t (take_zero _)
  | inr f ↦ rw f (ap (λ r. x ∷ r) (take-insert_at p new xs))
]

module _ (unicode : Unicode) (url : Text) (fresh : List VlessServer) (config : Config) where
  -- An update of a subscription makes its locations exactly those that the provider sent, in that
  -- order; every other location is kept, in its order, what stands before the first of them under
  -- its number; and no subscription is touched.
  pub replace_subscription_locations_lem :
      let after = (replace_subscription_locations unicode url fresh config).1 in
      (keep (from url) after.locations ≡ map (sourced url) fresh)
      × (keep (λ l. not (from url l)) after.locations
          ≡ keep (λ l. not (from url l)) config.locations)
      × (take (position (from url) config.locations) after.locations
          ≡ take (position (from url) config.locations) config.locations)
      × (after.subscriptions ≡ config.subscriptions)
  unfolding replace_subscription_locations replaced
  replace_subscription_locations_lem =
      let previous = servers_of (active_location config) in
      let changed : Config = record config { locations = replaced url fresh config.locations } in
      let (same, subs) = reconcile_active_locations unicode previous changed in
      (
        ap (keep (from url)) same ∙ replaced-from url fresh config.locations,
        ap (keep (λ l. not (from url l))) same ∙ replaced-rest url fresh config.locations,
        ap (take (position (from url) config.locations)) same
            ∙ take-insert_at (from url) (map (sourced url) fresh) config.locations,
        subs,
      )

contains_self : (ks : List LocationKey) (k : LocationKey) → Memᴰ k ks → contains ks k ≡ true
contains_self [] k m = elim m [ ]
contains_self (j ∷ ks) k (Memᴰ.head e) = ground (arith, key_eq_iff j k, e)
contains_self (j ∷ ks) k (Memᴰ.tail m) = ground (arith, contains_self ks k m)

drops_all :
    {A : Type 0} (p : A → Bool) (xs : List A) → ((x : A) → Memᴰ x xs → p x ≡ false) → keep p xs ≡ []
drops_all p [] never = refl
drops_all p (x ∷ xs) never =
    rw (never x (Memᴰ.head refl)) (drops_all p xs (λ y m. never y (Memᴰ.tail m)))

no_changes : (ks : List LocationKey) → count_changes ks ks ≡ (0, 0)
unfolding count_changes
no_changes ks =
    let gone = drops_all (λ k. not (contains ks k)) ks (λ k m. rw (contains_self ks k m) refl) in
    rw gone refl

sourced_keys :
    (url : Text) (fresh : List VlessServer)
    → map (λ l. location_key l.server) (map (sourced url) fresh) ≡ map location_key fresh
sourced_keys url [] = refl
sourced_keys url (s ∷ fresh) = ap (λ r. location_key s ∷ r) (sourced_keys url fresh)

module _ (unicode : Unicode) (url : Text) (fresh : List VlessServer) (config : Config) where
  -- The counts are of the keys that the provider's list has and the old locations lack, and of
  -- those that the old locations have and the list lacks; the same update once more counts none.
  pub replace_subscription_locations_again :
      let after = (replace_subscription_locations unicode url fresh config).1 in
      (replace_subscription_locations unicode url fresh after).0 ≡ (0, 0)
  unfolding replace_subscription_locations
  replace_subscription_locations_again =
      let after = (replace_subscription_locations unicode url fresh config).1 in
      let (now, _, _, _) = replace_subscription_locations_lem unicode url fresh config in
      ap (λ ls. count_changes (map (λ l. location_key l.server) ls) (map location_key fresh)) now
      ∙ ap (λ ks. count_changes ks (map location_key fresh)) (sourced_keys url fresh)
      ∙ no_changes (map location_key fresh)
