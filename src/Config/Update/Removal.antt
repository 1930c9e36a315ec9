-- ===== src/Config/Update/Removal.antt =====
-- What a removal of a subscription does to the store.
use varmlen_cli_linux.Common.{
  ℕ, zero, suc, ◌≡◌, refl, sym, ap, subst, ◌∙◌, inl, inr, not, Option, none, some, List, [], ◌∷◌,
  ◌++◌,
}
use varmlen_cli_linux.Common.Tests.{Option-cases}
use varmlen_cli_linux.Common.Lists.{take, drop, get_elem?, keep}
use varmlen_cli_linux.Config.{Subscription, Config, Unicode}
use varmlen_cli_linux.Config.Active.Laws.{reconcile_active_locations}
use varmlen_cli_linux.Config.Update.Laws.{keep_none, keep-keep}
use varmlen_cli_linux.Config.Update.{from, left_of, without, remove_subscription}

take-take :
    {A : Type 0} (n : ℕ) (xs : List A) (x : A)
    → get_elem? xs n ≡ some x
    → let rest = take n xs ++ drop (suc n) xs in
      (take n rest ≡ take n xs) × (drop n rest ≡ drop (suc n) xs)
take-take n [] x h = cc
take-take zero (y ∷ []) x h = (refl, refl)
take-take zero (y ∷ z ∷ ys) x h = (refl, refl)
take-take (suc n) (y ∷ ys) x h = let (t, d) = take-take n ys x h in (ap (λ r. y ∷ r) t, d)

split_at :
    {A : Type 0} (n : ℕ) (xs : List A) (x : A)
    → get_elem? xs n ≡ some x
    → xs ≡ take n xs ++ (x ∷ drop (suc n) xs)
split_at n [] x h = cc
split_at zero (y ∷ []) x h = cc
split_at zero (y ∷ z ∷ ys) x h = cc
split_at (suc n) (y ∷ ys) x h = ap (λ r. y ∷ r) (split_at n ys x h)

module _ (unicode : Unicode) (index : ℕ) (config : Config) where
  left_of-locations :
      (removed : Subscription)
      → (left_of unicode index removed config).locations
        ≡ keep (λ l. not (from removed.url l)) config.locations
  unfolding left_of without
  left_of-locations removed = (reconcile_active_locations unicode _ _).0

  left_of-subscriptions :
      (removed : Subscription)
      → (left_of unicode index removed config).subscriptions
        ≡ take index config.subscriptions ++ drop (suc index) config.subscriptions
  unfolding left_of without
  left_of-subscriptions removed = (reconcile_active_locations unicode _ _).1

  remove_some :
      (removed : Subscription)
      → get_elem? config.subscriptions index ≡ some removed
      → remove_subscription unicode index config
        ≡ some (removed, left_of unicode index removed config)
  unfolding remove_subscription
  remove_some removed e = rw (e, remove_subscription) refl

  remove_none :
      get_elem? config.subscriptions index ≡ none → remove_subscription unicode index config ≡ none
  unfolding remove_subscription
  remove_none e = rw (e, remove_subscription) refl

  -- What a removal at an index leaves: nothing happens where there is no such index; otherwise the
  -- subscription of that index is out of the list, and its locations with it.
  abbrev pub IsRemoval : Option (Subscription × Config) → Type 0
  IsRemoval none = get_elem? config.subscriptions index ≡ none
  IsRemoval (some (removed, after)) =
      (config.subscriptions
        ≡ take index after.subscriptions ++ (removed ∷ drop index after.subscriptions))
      × (keep (from removed.url) after.locations ≡ [])
      × (keep (λ l. not (from removed.url l)) after.locations
          ≡ keep (λ l. not (from removed.url l)) config.locations)

  -- Removing a subscription panics only where the index is out of range. Otherwise it hands out
  -- the subscription of that index and takes it from the list of subscriptions, leaves no location
  -- of its address, and keeps every other location, in its order.
  pub remove_subscription_lem : IsRemoval (remove_subscription unicode index config)
  remove_subscription_lem = elim (Option-cases (get_elem? config.subscriptions index)) [
    | inl e ↦ subst IsRemoval (sym (remove_none e)) e
    | inr (removed, e) ↦
        let after = left_of unicode index removed config in
        let locations = left_of-locations removed in
        let subs = left_of-subscriptions removed in
        let (t, d) = take-take index config.subscriptions removed e in
        subst IsRemoval (sym (remove_some removed e)) (
          split_at index config.subscriptions removed e ∙ rw (subs, t, d) refl,
          ap (keep (from removed.url)) locations ∙ keep_none (from removed.url) config.locations,
          ap (keep (λ l. not (from removed.url l))) locations
              ∙ keep-keep (λ l. not (from removed.url l)) config.locations,
        )
  ]
