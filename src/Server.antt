-- ===== src/Server.antt =====
-- daemon/src/server.rs: who may connect, how a frame lies on the stream, and the loop that serves
-- one connection.
pub mod Framing
pub mod Serving
pub mod Answers
mod Tests
use varmlen_cli_linux.Common.{
  ℕ, zero, suc, ◌+◌, ◌*◌, ◌/◌, ◌%◌, ◌^◌, String, Bool, Option, none, some, List, [], ◌∷◌, ◌++◌,
}
use varmlen_cli_linux.Common.Tests.{ltb, ◌==◌, if◌then◌else◌}
use varmlen_cli_linux.Common.Lists.{length}
use varmlen_cli_linux.Common.Text.{Text}
use varmlen_cli_linux.Common.Numbers.{parse_uint, u32_bound}
use varmlen_cli_linux.Common.Outcome.{Result, ok, err, ◌>>=◌, ◌>>◌, refuse_if}
use varmlen_cli_linux.Protocol.{
  RequestEnvelope, ResponseEnvelope, DaemonCommand, DaemonState, DaemonError, DaemonErrorCode,
  unauthorized, invalid_frame, frame_too_large, internal, protocol_version, max_frame_bytes,
}
use varmlen_cli_linux.Protocol.Validate.{Url}
use varmlen_cli_linux.Protocol.Frames.{
  Bytes, Codec, encode_frame, decode_request_frame, operation_id_of_rejected_request,
}

abbrev pub max_requests_per_connection : ℕ
max_requests_per_connection = 32

-- `PeerPolicy`, by the user that it lets in.
pub record PeerPolicy : Type 0 where
  pub allowed_uid : ℕ

unfoldable pub authorize : PeerPolicy → ℕ → Bool
authorize policy uid = uid == policy.allowed_uid

unfoldable pub parse_owner_uid : Option Text → Result String ℕ
parse_owner_uid none = err "desktop owner uid is missing (pass --owner-uid or set PKEXEC_UID)"
parse_owner_uid (some value) = elim (parse_uint u32_bound value) [
  | none ↦ err "desktop owner uid is invalid"
  | some uid ↦ if uid == 0 then err "refusing to authorize root as desktop owner" else ok uid
]

-- The first `n` bytes of a stream, if there are so many.
abbrev read_exact : ℕ → Bytes → Option (Bytes × Bytes)
read_exact zero stream = some ([], stream)
read_exact (suc n) [] = none
read_exact (suc n) (b ∷ stream) = elim (read_exact n stream) [
  | none ↦ none
  | some (bytes, rest) ↦ some (b ∷ bytes, rest)
]

-- A frame: its length in four bytes, the most significant first, then its bytes.
pub read_frame : Bytes → Result DaemonErrorCode (Bytes × Bytes)
read_frame (a ∷ b ∷ c ∷ d ∷ stream) =
    let size = a * 2 ^ 24 + b * 2 ^ 16 + c * 2 ^ 8 + d in
    let body : Result DaemonErrorCode (Bytes × Bytes) = elim (read_exact size stream) [
      | none ↦ err invalid_frame
      | some read ↦ ok read
    ] in
    if ltb max_frame_bytes size then err frame_too_large else body
read_frame _ = err invalid_frame

-- `write_u32`: the four bytes of a number, the most significant first.
abbrev pub be32 : ℕ → Bytes
be32 n = n / 2 ^ 24 % 256 ∷ n / 2 ^ 16 % 256 ∷ n / 2 ^ 8 % 256 ∷ n % 256 ∷ []

-- What `write_response` puts on the stream, when the stream takes it.
pub write_response : Codec ResponseEnvelope → ResponseEnvelope → Result DaemonErrorCode Bytes
write_response codec response = do
  bytes ← encode_frame codec response
  ok (be32 (length bytes) ++ bytes)

-- A connection and the handler behind it. `none` is a step that took too long, or a handler that
-- panicked.
pub record Link (S : Type 0) : Type 0 where
  pub read : S → Option (Result DaemonErrorCode Bytes) × S
  pub handle : DaemonCommand → S → Option (Result DaemonError DaemonState) × S
  pub write : ResponseEnvelope → S → Option (Result DaemonErrorCode (Unit {0})) × S

module _ (parse_url : Text → Option Url) (requests : Codec RequestEnvelope)
    (read_id : Bytes → Option ℕ) (daemon_version : String) {S : Type 0} (link : Link S) where
  respond : ℕ → Result DaemonError DaemonState → S → Result DaemonErrorCode (Unit {0}) × S
  respond operation_id result s =
      let (sent, s') =
        link.write
          (record {
            version = protocol_version;
            operation_id = operation_id;
            result = result;
            daemon_version = daemon_version;
          })
          s in
      elim sent [ none ↦ (err internal, s') | some r ↦ (r, s') ]

  -- One round of the loop on the frame that was read: `ok` is the next round.
  pub serve_frame : Bytes → S → Result DaemonErrorCode (Unit {0}) × S
  unfolding respond
  serve_frame bytes s = elim (decode_request_frame parse_url requests bytes) [
    | err code ↦
        respond (operation_id_of_rejected_request read_id bytes)
          (err (record { code = code; message = "invalid daemon request" })) s
    | ok request ↦
        let (result, s') = link.handle request.command s in
        elim result [ none ↦ (err internal, s') | some r ↦ respond request.operation_id r s' ]
  ]

  -- The loop of `serve_connection_with_limits`, by the requests that are still allowed.
  pub serve_requests : ℕ → S → Result DaemonErrorCode (Unit {0}) × S
  serve_requests zero s = (ok tt, s)
  serve_requests (suc left) s =
      let (arrived, s1) = link.read s in
      elim arrived [
        | none ↦ (err invalid_frame, s1)
        | some (err invalid_frame) ↦ (ok tt, s1)
        | some (err code) ↦ (err code, s1)
        | some (ok bytes) ↦
            let (served, s2) = serve_frame bytes s1 in
            elim served [ err code ↦ (err code, s2) | ok _ ↦ serve_requests left s2 ]
      ]

  -- `peer` is the user id that the kernel gives for the other end.
  pub serve_connection_with_limits :
      Option ℕ → PeerPolicy → ℕ → S → Result DaemonErrorCode (Unit {0}) × S
  serve_connection_with_limits none policy limit s = (err unauthorized, s)
  serve_connection_with_limits (some uid) policy limit s =
      if authorize policy uid then serve_requests limit s else (err unauthorized, s)
