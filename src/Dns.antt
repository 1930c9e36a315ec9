-- ===== src/Dns.antt =====
-- daemon/src/dns.rs: the guard over the system's DNS, and the query that it probes the tunnel with.
-- A byte is a number; `transaction_id` is a number of 16 bits.
pub mod Query
pub mod Guard
pub mod Direct
pub mod Tests
use varmlen_cli_linux.Common.{
  ℕ, ◌+◌, ◌/◌, ◌%◌, ◌^◌, String, Bool, true, false, not, ◌&&◌, ◌||◌, List, [], ◌∷◌, ◌++◌,
}
use varmlen_cli_linux.Common.Tests.{ltb, leb, ◌==◌}
use varmlen_cli_linux.Common.Lists.{is_empty, length, all}
use varmlen_cli_linux.Common.Text.{Text, len, pieces}
use varmlen_cli_linux.Common.Outcome.{Result, ok, err, ◌>>=◌, ◌>>◌, refuse_if}
use varmlen_cli_linux.Common.Action.{Action}
use varmlen_cli_linux.Protocol.{DaemonError, dns_verification_failed}

abbrev pub Bytes : Type 0
Bytes = List ℕ

abbrev pub unverified : String → DaemonError
unverified message = record { code = dns_verification_failed; message = message }

-- `u16::to_be_bytes`.
abbrev pub to_be_bytes : ℕ → Bytes
to_be_bytes n = (n / 256) ∷ (n % 256) ∷ []

-- `str::is_ascii`; the bytes of such a text are its code points.
abbrev pub is_ascii : Text → Bool
is_ascii s = all (λ c. ltb c 128) s

unfoldable pub encode_labels : List Text → Result DaemonError Bytes
encode_labels [] = ok []
encode_labels (label ∷ labels) = do
  refuse_if (is_empty label || ltb 63 (len label) || not (is_ascii label))
      (unverified "invalid DNS probe domain")
  rest ← encode_labels labels
  ok ((len label % 256) ∷ (label ++ rest))

-- What stands before the labels, and behind them.
abbrev pub header : ℕ → Bytes
header transaction_id =
    to_be_bytes transaction_id
    ++ (0x01 ∷ 0x00 ∷ [])
    ++ to_be_bytes 1
    ++ to_be_bytes 0
    ++ to_be_bytes 0
    ++ to_be_bytes 0

abbrev pub question_end : Bytes
question_end = (0 ∷ []) ++ to_be_bytes 1 ++ to_be_bytes 1

unfoldable pub build_dns_query : ℕ → Text → Result DaemonError Bytes
unfolding encode_labels
build_dns_query transaction_id domain = do
  labels ← encode_labels (pieces (λ c. c == b'.') domain)
  refuse_if (ltb 512 (length (header transaction_id ++ labels ++ question_end)))
      (unverified "DNS probe query is too large")
  ok (header transaction_id ++ labels ++ question_end)

-- The byte with the response bit, behind the two of the transaction; `b & 0x80 != 0`.
abbrev pub is_response : ℕ → Bool
is_response flags = (flags / 128) % 2 == 1

unfoldable pub validate_dns_response : ℕ → Bytes → Bool
validate_dns_response transaction_id (high ∷ low ∷ flags ∷ rest) =
    leb 12 (length (high ∷ low ∷ flags ∷ rest))
    && (high == transaction_id / 256 && low == transaction_id % 256)
    && is_response flags
validate_dns_response transaction_id _ = false

pub record DnsBackend (S : Type 0) : Type 0 where
  pub apply : Action S DaemonError (Unit {0})
  pub probe_through_tunnel : Action S DaemonError Bool
  pub remove : Action S DaemonError (Unit {0})

-- `probe?; cleanup?;` and the refusal behind them.
abbrev pub blame :
    Result DaemonError Bool → Result DaemonError (Unit {0}) → Result DaemonError (Unit {0})
blame (err e) cleanup = err e
blame (ok b) (err e) = err e
blame (ok b) (ok u) = err (unverified "DNS interception could not be verified")

module _ {S : Type 0} (backend : DnsBackend S) where
  abbrev pub verified_or_removed : Result DaemonError Bool × S → Result DaemonError (Unit {0}) × S
  verified_or_removed (ok true, s) = (ok tt, s)
  verified_or_removed (ok false, s) =
      let (cleanup, s') = backend.remove s in (blame (ok false) cleanup, s')
  verified_or_removed (err e, s) =
      let (cleanup, s') = backend.remove s in (blame (err e) cleanup, s')

  abbrev pub probed : Result DaemonError (Unit {0}) × S → Result DaemonError (Unit {0}) × S
  probed (ok u, s) = verified_or_removed (backend.probe_through_tunnel s)
  probed (err e, s) = (err e, s)

  -- `DnsGuard::install`.
  unfoldable pub install : Action S DaemonError (Unit {0})
  install s = probed (backend.apply s)
