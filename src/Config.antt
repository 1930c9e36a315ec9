-- ===== src/Config.antt =====
-- cli/src/config.rs: the store of the command line client, and what names a location in it. A
-- server is that of core/src/subscription.rs.
pub mod Active
pub mod Update
pub mod Find
pub mod Tests
use varmlen_cli_linux.Common.{
  ℕ, ◌≡◌, ◌↔◌, refl, Bool, true, false, not, ◌&&◌, ◌||◌, Option, none, some, List, [], ◌∷◌, arith,
}
use varmlen_cli_linux.Common.Tests.{◌==◌, if◌then◌else◌}
use varmlen_cli_linux.Common.Json.{Value}
use varmlen_cli_linux.Common.Lists.{is_empty}
use varmlen_cli_linux.Common.Text.{Text, codes, trim, trim_end, text_eq, text_eq_iff}

pub record VlessServer : Type 0 where
  pub id : Text
  pub protocol : Text
  pub uuid : Text
  pub password : Option Text
  pub method : Option Text
  pub host : Text
  pub port : ℕ  -- u16
  pub label : Text
  pub transport : Text
  pub security : Text
  pub sni : Option Text
  pub fingerprint : Option Text
  pub public_key : Option Text
  pub short_id : Option Text
  pub flow : Option Text
  pub path : Option Text
  pub mode : Option Text
  pub packet_encoding : Option Text
  pub raw_params : List (Text × Text)
  pub source_json : Option Text
  pub raw_outbound : Option Value
  pub raw_profile : Option Value

pub record SubscriptionMeta : Type 0 where
  pub title : Option Text
  pub update_interval_hours : Option ℕ
  pub upload_bytes : Option ℕ
  pub download_bytes : Option ℕ
  pub total_bytes : Option ℕ
  pub expires_at_unix : Option ℕ  -- i64, kept only when positive
  pub has_userinfo : Bool
  pub support_url : Option Text
  pub web_page_url : Option Text

pub record LocationKey : Type 0 where
  pub label : Text
  pub host : Text
  pub port : ℕ

pub data Removal : Type 0 where
  location subscription : ℕ → Removal

pub data ActiveRef : Type 0 where
  key : LocationKey → ActiveRef
  legacy : Text → ActiveRef

pub record Location : Type 0 where
  pub server : VlessServer
  pub source : Option Text

pub record Subscription : Type 0 where
  pub url : Text
  pub meta : SubscriptionMeta
  pub description : Option Text
  pub last_error : Option Text

-- The part of `Config` that these operations read and change; `split` and `settings` ride along
-- in the source and are set by assignment only.
pub record Config : Type 0 where
  pub locations : List Location
  pub subscriptions : List Subscription
  pub active : Option ActiveRef
  pub active_source : Option Text
  pub servers : List VlessServer

-- Unicode tables of the standard library, which are not restated here.
pub record Unicode : Type 0 where
  pub to_lowercase : Text → Text
  pub is_alphanumeric : ℕ → Bool

abbrev pub opt_eq : Option Text → Option Text → Bool
opt_eq none none = true
opt_eq none (some t) = false
opt_eq (some s) none = false
opt_eq (some s) (some t) = text_eq s t

pub opt_eq_iff : (s t : Option Text) → (opt_eq s t ≡ true) ↔ (s ≡ t)
opt_eq_iff none none = ground arith
opt_eq_iff none (some t) = ground arith
opt_eq_iff (some s) none = ground arith
opt_eq_iff (some s) (some t) = ground (arith, text_eq_iff s t)

unfoldable pub location_key : VlessServer → LocationKey
location_key server = record { label = server.label; host = server.host; port = server.port }

unfoldable pub key_eq : LocationKey → LocationKey → Bool
key_eq a b = text_eq a.label b.label && text_eq a.host b.host && a.port == b.port

pub key_eq_iff : (a b : LocationKey) → (key_eq a b ≡ true) ↔ (a ≡ b)
unfolding key_eq
key_eq_iff a b = ground (arith, text_eq_iff a.label b.label, text_eq_iff a.host b.host)

-- `as_deref().unwrap_or("")`.
abbrev optional : Option Text → Text
optional none = []
optional (some s) = s

unfoldable pub endpoint : VlessServer → ℕ × List Text
endpoint server = (
  server.port,
  server.protocol
      ∷ server.host
      ∷ server.uuid
      ∷ optional server.password
      ∷ optional server.method
      ∷ server.transport
      ∷ server.security
      ∷ optional server.sni
      ∷ optional server.flow
      ∷ optional server.path
      ∷ optional server.public_key
      ∷ optional server.short_id
      ∷ [],
)

texts_eq : List Text → List Text → Bool
texts_eq [] [] = true
texts_eq [] (t ∷ ts) = false
texts_eq (s ∷ ss) [] = false
texts_eq (s ∷ ss) (t ∷ ts) = text_eq s t && texts_eq ss ts

unfoldable pub endpoint_eq : ℕ × List Text → ℕ × List Text → Bool
unfolding texts_eq
endpoint_eq (p, ss) (q, ts) = p == q && texts_eq ss ts

texts_eq_iff : (ss ts : List Text) → (texts_eq ss ts ≡ true) ↔ (ss ≡ ts)
unfolding texts_eq
texts_eq_iff [] [] = ground arith
texts_eq_iff [] (t ∷ ts) = ground arith
texts_eq_iff (s ∷ ss) [] = ground arith
texts_eq_iff (s ∷ ss) (t ∷ ts) = ground (arith, text_eq_iff s t, texts_eq_iff ss ts)

pub endpoint_eq_iff : (a b : ℕ × List Text) → (endpoint_eq a b ≡ true) ↔ (a ≡ b)
unfolding endpoint_eq
endpoint_eq_iff (p, ss) (q, ts) = ground (arith, texts_eq_iff ss ts)

module _ (unicode : Unicode) where
  -- `trim_start_matches(|c| !c.is_alphanumeric())`.
  skip_symbols : Text → Text
  skip_symbols [] = []
  skip_symbols (c ∷ s) = if unicode.is_alphanumeric c then c ∷ s else skip_symbols s

  unfoldable pub searchable : Text → Text
  unfolding skip_symbols
  searchable label = unicode.to_lowercase (skip_symbols label)

  unfoldable pub normalized_label : Text → Text
  unfolding searchable
  normalized_label label = trim_end (searchable label)

-- A title that is there and not blank.
abbrev shown_title : Option Text → Option Text
shown_title none = none
shown_title (some title) = if is_empty (trim title) then none else some (trim title)

-- `host_of` is the host that the crate `url` finds in a URL.
unfoldable pub display_name : (Text → Option Text) → Subscription → Text
display_name host_of sub = elim (shown_title sub.meta.title) [
  | some title ↦ title
  | none ↦ elim (host_of sub.url) [ some host ↦ host | none ↦ codes "subscription" ]
]

abbrev pub or_else {ℓ} : {A : Type ℓ} → Option A → Option A → Option A
or_else none other = other
or_else (some a) other = some a

unfoldable pub apply_update : SubscriptionMeta → Option Text → Subscription → Subscription
apply_update meta description sub = record sub {
  meta = record meta {
    title = or_else meta.title sub.meta.title;
    update_interval_hours = or_else meta.update_interval_hours sub.meta.update_interval_hours;
  };
  description = or_else description sub.description;
  last_error = none;
}
