-- ===== src/Recovery.antt =====
-- daemon/src/recovery.rs: what an earlier run left in the kernel, and its removal. The state file
-- is that of daemon/src/state.rs.
pub mod System
pub mod Cleanup
use varmlen_cli_linux.Common.{
  ℕ, zero, suc, ◌≡◌, Bool, true, false, not, ◌&&◌, ◌||◌, Option, none, some, List, [], ◌∷◌,
}
use varmlen_cli_linux.Common.Tests.{ltb, ◌==◌, if◌then◌else◌}
use varmlen_cli_linux.Common.Lists.{is_empty, any, keep, get_elem?}
use varmlen_cli_linux.Common.Text.{Text, text_eq, words}
use varmlen_cli_linux.Common.Numbers.{parse_uint, u64_bound}
use varmlen_cli_linux.Common.Outcome.{Result, ok, err}
use varmlen_cli_linux.Common.Action.{Action, ◌>>=◌}
use varmlen_cli_linux.Protocol.{ConnectionPhase, disconnected, recovery_required}

pub record ProcessIdentity : Type 0 where
  pub pid : ℕ
  pub start_time_ticks : ℕ
  pub executable : Text

unfoldable pub matches : ProcessIdentity → ProcessIdentity → Bool
matches saved live =
    saved.pid == live.pid
    && saved.start_time_ticks == live.start_time_ticks
    && text_eq saved.executable live.executable

-- What follows the last `)`.
unfoldable pub after_last : ℕ → Text → Option Text
after_last c [] = none
after_last c (d ∷ s) = elim (after_last c s) [
  | some rest ↦ some rest
  | none ↦ if d == c then some s else none
]

abbrev pub parse_field : Option Text → Option ℕ
parse_field none = none
parse_field (some field) = parse_uint u64_bound field

abbrev pub fields_of : Option Text → Option ℕ
fields_of none = none
fields_of (some rest) = parse_field (get_elem? (words rest) 19)

unfoldable pub parse_start_time_ticks : Text → Option ℕ
unfolding after_last
parse_start_time_ticks stat = fields_of (after_last b')' stat)

pub data Resource : Type 0 where
  xray_process : ProcessIdentity → Resource
  tun_interface route_table nft_table split_bpf runtime_file : Text → Resource

text_lt : Text → Text → Bool
text_lt s [] = false
text_lt [] (d ∷ t) = true
text_lt (c ∷ s) (d ∷ t) = ltb c d || (c == d && text_lt s t)

identity_lt : ProcessIdentity → ProcessIdentity → Bool
unfolding text_lt
identity_lt a b =
    ltb a.pid b.pid
    || (a.pid == b.pid
        && (ltb a.start_time_ticks b.start_time_ticks
            || (a.start_time_ticks == b.start_time_ticks && text_lt a.executable b.executable)))

rank : Resource → ℕ
rank (xray_process p) = 0
rank (tun_interface s) = 1
rank (route_table s) = 2
rank (nft_table s) = 3
rank (split_bpf s) = 4
rank (runtime_file s) = 5

-- The text of a resource that is not a process.
named : Resource → Text
named (xray_process p) = []
named (tun_interface s) = s
named (route_table s) = s
named (nft_table s) = s
named (split_bpf s) = s
named (runtime_file s) = s

identity_of : Resource → Option ProcessIdentity
identity_of (xray_process p) = some p
identity_of (tun_interface s) = none
identity_of (route_table s) = none
identity_of (nft_table s) = none
identity_of (split_bpf s) = none
identity_of (runtime_file s) = none

within : Option ProcessIdentity → Option ProcessIdentity → Bool
unfolding identity_lt
within (some p) (some q) = identity_lt p q
within (some p) none = false
within none other = false

-- The derived order: by constructor, then by what it holds. Paths are compared as text.
unfoldable pub resource_lt : Resource → Resource → Bool
unfolding rank within named identity_of text_lt
resource_lt a b =
    ltb (rank a) (rank b)
    || (rank a == rank b && (within (identity_of a) (identity_of b) || text_lt (named a) (named b)))

unfoldable pub resource_eq : Resource → Resource → Bool
unfolding resource_lt
resource_eq a b = not (resource_lt a b) && not (resource_lt b a)

-- `BTreeSet::insert`, on the elements in their order.
unfoldable pub insert : Resource → List Resource → List Resource
insert r [] = r ∷ []
insert r (x ∷ xs) =
    let rest = insert r xs in
    if resource_lt r x then r ∷ x ∷ xs else if resource_lt x r then x ∷ rest else x ∷ xs

unfoldable pub contains : List Resource → Resource → Bool
contains rs r = any (λ x. resource_eq x r) rs

pub record CleanupReport : Type 0 where
  pub removed : List Resource
  pub remaining : List Resource

unfoldable pub phase_of : CleanupReport → ConnectionPhase
phase_of report = if is_empty report.remaining then disconnected else recovery_required

-- What recovery needs of the system, on a state of its own. Sets are lists in their order.
pub record CleanupBackend (B E : Type 0) : Type 0 where
  pub inspect : Action B E (List Resource)
  pub remove : Resource → Action B E (Unit {0})

module _ {B E : Type 0} (backend : CleanupBackend B E) where
  unfoldable pub remove_all : List Resource → B → B
  remove_all [] b = b
  remove_all (r ∷ rs) b = remove_all rs ((backend.remove r b).1)

  -- `before.difference(&remaining)`.
  unfoldable pub report_of : List Resource → List Resource → CleanupReport
  report_of before remaining = record {
    removed = keep (λ r. not (contains remaining r)) before;
    remaining = remaining;
  }

  -- From the first look on.
  unfoldable pub clean : List Resource → Action B E CleanupReport
  unfolding remove_all report_of
  clean before b =
      let (r, b2) = backend.inspect (remove_all before b) in
      elim r [ err e ↦ (err e, b2) | ok remaining ↦ (ok (report_of before remaining), b2) ]

  unfoldable pub cleanup : Action B E CleanupReport
  unfolding clean
  cleanup b =
      let (r, b1) = backend.inspect b in
      elim r [ err e ↦ (err e, b1) | ok before ↦ clean before b1 ]
