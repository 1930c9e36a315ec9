-- ===== src/Protocol/Frames.antt =====
-- daemon/src/protocol.rs: a message as the bytes of one frame. `serde_json` is a third party's,
-- and comes in as a `Codec`.
use varmlen_cli_linux.Common.{ℕ, ◌≡◌, ◌≤◌, Option, none, some, List, arith}
use varmlen_cli_linux.Common.Tests.{ltb, ◌==◌, if◌then◌else◌}
use varmlen_cli_linux.Common.Lists.{length}
use varmlen_cli_linux.Common.Text.{Text}
use varmlen_cli_linux.Common.Outcome.{Result, ok, err, ◌>>=◌, ◌>>◌, refuse_if}
use varmlen_cli_linux.Protocol.{
  RequestEnvelope, ResponseEnvelope, DaemonErrorCode, unsupported_version, frame_too_large,
  invalid_frame, protocol_version, max_frame_bytes,
}
use varmlen_cli_linux.Protocol.Validate.{Url, validate_request}

abbrev pub Bytes : Type 0
Bytes = List ℕ

-- `serde_json::to_vec` and `from_slice` at a type.
pub record Codec (A : Type 0) : Type 0 where
  pub to_vec : A → Option Bytes
  pub from_slice : Bytes → Option A

-- What was written is read back.
abbrev pub ReadsBack : {A : Type 0} → Codec A → Type 0
ReadsBack {A} codec =
    (a : A) (bytes : Bytes) → codec.to_vec a ≡ some bytes → codec.from_slice bytes ≡ some a

abbrev or_err : {A : Type 0} → Option A → DaemonErrorCode → Result DaemonErrorCode A
or_err none code = err code
or_err (some a) code = ok a

unfoldable pub encode_frame : {A : Type 0} → Codec A → A → Result DaemonErrorCode Bytes
encode_frame codec value = do
  encoded ← or_err (codec.to_vec value) invalid_frame
  refuse_if (ltb max_frame_bytes (length encoded)) frame_too_large
  ok encoded

unfoldable pub decode_request_frame :
    (Text → Option Url) → Codec RequestEnvelope → Bytes → Result DaemonErrorCode RequestEnvelope
decode_request_frame parse_url codec bytes = do
  refuse_if (ltb max_frame_bytes (length bytes)) frame_too_large
  request ← or_err (codec.from_slice bytes) invalid_frame
  validate_request parse_url request
  ok request

-- `read_id` reads the field `operation_id` alone.
unfoldable pub operation_id_of_rejected_request : (Bytes → Option ℕ) → Bytes → ℕ
operation_id_of_rejected_request read_id bytes = elim (read_id bytes) [ none ↦ 0 | some id ↦ id ]

unfoldable pub decode_response_frame :
    Codec ResponseEnvelope → Bytes → Result DaemonErrorCode ResponseEnvelope
decode_response_frame codec bytes = do
  refuse_if (ltb max_frame_bytes (length bytes)) frame_too_large
  response ← or_err (codec.from_slice bytes) invalid_frame
  if response.version == protocol_version then ok response else err unsupported_version

-- A valid request that a client encodes is what the daemon decodes, when `serde_json` reads back
-- what it wrote.
pub decode_request_frame-encode_frame :
    (parse_url : Text → Option Url) (codec : Codec RequestEnvelope) (request : RequestEnvelope)
    (bytes : Bytes)
    → ReadsBack codec
    → validate_request parse_url request ≡ ok tt
    → encode_frame codec request ≡ ok bytes
    → decode_request_frame parse_url codec bytes ≡ ok request
unfolding encode_frame decode_request_frame
decode_request_frame-encode_frame parse_url codec request bytes back valid e =
    ground (arith, back request bytes)

-- A response of protocol version 3 that the daemon encodes is what a client decodes.
pub decode_response_frame-encode_frame :
    (codec : Codec ResponseEnvelope) (response : ResponseEnvelope) (bytes : Bytes)
    → ReadsBack codec
    → response.version ≡ protocol_version
    → encode_frame codec response ≡ ok bytes
    → decode_response_frame codec bytes ≡ ok response
unfolding encode_frame decode_response_frame
decode_response_frame-encode_frame codec response bytes back v e =
    ground (arith, back response bytes)

-- What the daemon decodes was within the frame limit and passed the checks.
pub decode_request_frame_ok :
    (parse_url : Text → Option Url) (codec : Codec RequestEnvelope) (bytes : Bytes)
    (request : RequestEnvelope)
    → decode_request_frame parse_url codec bytes ≡ ok request
    → (length bytes ≤ max_frame_bytes) × (validate_request parse_url request ≡ ok tt)
unfolding decode_request_frame
decode_request_frame_ok parse_url codec bytes request h = ground arith
