-- ===== src/Server/Answers.antt =====
-- What a peer gets back over a stream of bytes.
use varmlen_cli_linux.Common.{ℕ, ◌≡◌, String, true, Option, some, List, [], ◌∷◌, ◌++◌, map}
use varmlen_cli_linux.Common.Lists.{length}
use varmlen_cli_linux.Common.Text.{Text}
use varmlen_cli_linux.Common.Outcome.{Result, ok, err, is_ok}
use varmlen_cli_linux.Protocol.{
  RequestEnvelope, ResponseEnvelope, DaemonCommand, DaemonState, DaemonError, DaemonErrorCode,
}
use varmlen_cli_linux.Protocol.Validate.{Url}
use varmlen_cli_linux.Protocol.Frames.{
  Bytes, Codec, decode_request_frame, operation_id_of_rejected_request,
}
use varmlen_cli_linux.Server.{Link, be32, read_frame, write_response}

-- A stream, by the bytes that are still to be read and those that were written, and the state of
-- the handler.
pub record Socket (H : Type 0) : Type 0 where
  pub incoming : Bytes
  pub outgoing : Bytes
  pub handler : H

-- What a peer writes that sends these frames and then closes.
abbrev pub stream : List Bytes → Bytes
stream [] = []
stream (f ∷ fs) = be32 (length f) ++ (f ++ stream fs)

-- The bytes are those of the responses, one after the other, as they are written.
abbrev pub AreWritten : Codec ResponseEnvelope → List ResponseEnvelope → Bytes → Type 0
AreWritten responses [] bytes = bytes ≡ []
AreWritten responses (r ∷ rs) bytes =
    (frame : Bytes) × (rest : Bytes) × (write_response responses r ≡ ok frame)
    × (bytes ≡ frame ++ rest)
    × AreWritten responses rs rest

module _ {H : Type 0} where
  abbrev pub after_read :
      Result DaemonErrorCode (Bytes × Bytes)
      → Socket H
      → Option (Result DaemonErrorCode Bytes) × Socket H
  after_read (ok (bytes, rest)) s = (some (ok bytes), record s { incoming = rest })
  after_read (err code) s = (some (err code), s)

  abbrev pub after_write :
      Result DaemonErrorCode Bytes
      → Socket H
      → Option (Result DaemonErrorCode (Unit {0})) × Socket H
  after_write (ok frame) s = (some (ok tt), record s { outgoing = s.outgoing ++ frame })
  after_write (err code) s = (some (err code), s)

  -- The connection over such a stream, which takes what is written in time, before a handler that
  -- answers in time.
  abbrev pub socket_link :
      Codec ResponseEnvelope
      → (DaemonCommand → H → Result DaemonError DaemonState × H)
      → Link (Socket H)
  socket_link responses handle = record {
    read = λ s. after_read (read_frame s.incoming) s;
    handle = λ c s. let (r, h) = handle c s.handler in (some r, record s { handler = h });
    write = λ r s. after_write (write_response responses r) s;
  }

module _ (parse_url : Text → Option Url) (requests : Codec RequestEnvelope)
    (read_id : Bytes → Option ℕ) where
  -- The id under which a frame is answered: its own, or what can be read of it, or 0.
  pub answered_id : Bytes → ℕ
  answered_id bytes = elim (decode_request_frame parse_url requests bytes) [
    | ok request ↦ request.operation_id
    | err code ↦ operation_id_of_rejected_request read_id bytes
  ]

module _ (parse_url : Text → Option Url) (requests : Codec RequestEnvelope)
    (read_id : Bytes → Option ℕ) (version : String) {H : Type 0}
    (responses : Codec ResponseEnvelope)
    (handle : DaemonCommand → H → Result DaemonError DaemonState × H)
    (fits : (r : ResponseEnvelope) → is_ok (write_response responses r) ≡ true) where
  abbrev link : Link (Socket H)
  link = socket_link responses handle

  -- A response is written under this id, and the handler is left in some state.
  abbrev IsAnswered : ℕ → Socket H → Result DaemonErrorCode (Unit {0}) × Socket H → Type 0
  IsAnswered id s served =
      (r : ResponseEnvelope) × (frame : Bytes) × (h : H) × (r.operation_id ≡ id)
      × (write_response responses r ≡ ok frame)
      × (served ≡ (ok tt, record s { outgoing = s.outgoing ++ frame; handler = h }))

  -- These responses are what was written since `sent`, and these are their ids.
  abbrev HasSent : List ℕ → Bytes → Bytes → Type 0
  HasSent ids sent out =
      (rs : List ResponseEnvelope) × (map (λ r. r.operation_id) rs ≡ ids)
      × ((bytes : Bytes) × (out ≡ sent ++ bytes) × AreWritten responses rs bytes)
