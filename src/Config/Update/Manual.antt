-- ===== src/Config/Update/Manual.antt =====
-- What adding a location by hand does to the locations.
use mathlib.Core.List.{Memᴰ}
use varmlen_cli_linux.Common.{
  ℕ, ◌≤◌, ◌&&◌, ◌≡◌, refl, ◌⊎◌, inl, inr, Bool, true, not, Option, none, some, List, [], ◌∷◌, arith,
}
use varmlen_cli_linux.Common.Tests.{Bool-cases}
use varmlen_cli_linux.Common.Lists.{length, keep}
use varmlen_cli_linux.Common.Text.{Text}
use varmlen_cli_linux.Config.{
  VlessServer, Location, LocationKey, Config, location_key, key_eq, key_eq_iff,
}
use varmlen_cli_linux.Config.Active.{is_none}
use varmlen_cli_linux.Config.Update.{put_manual, add_manual}

put_manual-sourced :
    (server : VlessServer) (ls : List Location)
    → keep (λ l. not (is_none l.source)) (put_manual server ls)
      ≡ keep (λ l. not (is_none l.source)) ls
unfolding put_manual
put_manual-sourced server [] = refl
put_manual-sourced server (l ∷ ls) = ground (arith, put_manual-sourced server ls)

abbrev pub IsManual : VlessServer → Location → Type 0
IsManual server l = (l.server ≡ server) × (l.source ≡ none)

put_manual-Memᴰ :
    (server : VlessServer) (ls : List Location)
    → (l : Location) × Memᴰ l (put_manual server ls) × IsManual server l
unfolding put_manual
put_manual-Memᴰ server [] =
    let l : Location = record { server = server; source = none } in
    (l, Memᴰ.head refl, (refl, refl))
put_manual-Memᴰ server (l ∷ ls) =
    let test = is_none l.source && key_eq (location_key l.server) (location_key server) in
    elim (Bool-cases test) [
      | inl t ↦
          let now : Location = record l { server = server } in
          (now, rw t (Memᴰ.head refl), (refl, is_none_true l.source (ground arith)))
      | inr f ↦ let (there, m, why) = put_manual-Memᴰ server ls in (there, rw f (Memᴰ.tail m), why)
    ]
  where
    is_none_true : (o : Option Text) → is_none o ≡ true → o ≡ none
    is_none_true none t = refl
    is_none_true (some a) t = cc

-- Whether a location is a manual one of a key.
abbrev manual_at : LocationKey → Location → Bool
manual_at k l = is_none l.source && key_eq (location_key l.server) k

abbrev pub count_at : LocationKey → List Location → ℕ
count_at k ls = length (keep (manual_at k) ls)

-- Adding counts no more locations of a key than before, or the first one of its own.
put_manual-count :
    (server : VlessServer) (k : LocationKey) (ls : List Location)
    → (count_at k (put_manual server ls) ≡ count_at k ls)
      ⊎ ((count_at k ls ≡ 0) × (count_at k (put_manual server ls) ≡ 1) × (location_key server ≡ k))
unfolding put_manual
put_manual-count server k [] = ground (arith, key_eq_iff (location_key server) k)
put_manual-count server k (l ∷ ls) = ground (
  arith,
  put_manual-count server k ls,
  key_eq_iff (location_key server) k,
  key_eq_iff (location_key l.server) k,
  key_eq_iff (location_key l.server) (location_key server),
)

-- A location added by hand is among the locations afterwards, as a manual one; the locations of
-- the subscriptions stay as they are, in their order; and a key that at most one manual location
-- had is that of at most one afterwards.
pub add_manual_lem :
    (server : VlessServer) (config : Config) (k : LocationKey)
    → count_at k config.locations ≤ 1
    → let after = add_manual server config in
      ((l : Location) × Memᴰ l after.locations × IsManual server l)
      × (keep (λ l. not (is_none l.source)) after.locations
          ≡ keep (λ l. not (is_none l.source)) config.locations)
      × (count_at k after.locations ≤ 1)
unfolding add_manual
add_manual_lem server config k once = (
  put_manual-Memᴰ server config.locations,
  put_manual-sourced server config.locations,
  omega (arith, once, put_manual-count server k config.locations),
)
