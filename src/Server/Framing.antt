-- ===== src/Server/Framing.antt =====
-- A frame that the daemon writes is the frame that its peer reads.
use varmlen_cli_linux.Common.{
  ℕ, ◌≡◌, ◌≤◌, ◌<◌, ◌+◌, ◌*◌, ◌/◌, ◌%◌, ◌^◌, refl, inl, inr, some, [], ◌∷◌, ◌++◌, arith,
}
use varmlen_cli_linux.Common.Lists.{length}
use varmlen_cli_linux.Common.Outcome.{ok, Result-cases}
use varmlen_cli_linux.Protocol.{ResponseEnvelope, max_frame_bytes}
use varmlen_cli_linux.Protocol.Frames.{Bytes, Codec, encode_frame}
use varmlen_cli_linux.Server.{read_exact, read_frame, be32, write_response}

read_exact-append :
    (bytes rest : Bytes) → read_exact (length bytes) (bytes ++ rest) ≡ some (bytes, rest)
read_exact-append [] rest = refl
read_exact-append (b ∷ bytes) rest = rw (read_exact-append bytes rest)

be32_value :
    (n : ℕ)
    → n < 2 ^ 32
    → n / 2 ^ 24 % 256 * 2 ^ 24 + n / 2 ^ 16 % 256 * 2 ^ 16 + n / 2 ^ 8 % 256 * 2 ^ 8 + n % 256 ≡ n
be32_value n h = omega arith

pub read_frame-be32 :
    (bytes rest : Bytes)
    → length bytes ≤ max_frame_bytes
    → read_frame (be32 (length bytes) ++ (bytes ++ rest)) ≡ ok (bytes, rest)
unfolding read_frame
read_frame-be32 bytes rest h =
    rw (be32_value (length bytes) (omega arith)) (ground (arith, read_exact-append bytes rest))

encode_frame_size :
    {A : Type 0} (codec : Codec A) (value : A) (bytes : Bytes)
    → encode_frame codec value ≡ ok bytes
    → length bytes ≤ max_frame_bytes
unfolding encode_frame
encode_frame_size codec value bytes h = ground arith

-- From a stream that starts with a response that the daemon wrote, a reader takes the bytes that
-- the response is encoded as, and leaves the rest.
pub read_frame-write_response :
    (codec : Codec ResponseEnvelope) (response : ResponseEnvelope) (frame rest : Bytes)
    → write_response codec response ≡ ok frame
    → (bytes : Bytes) × (encode_frame codec response ≡ ok bytes)
      × (read_frame (frame ++ rest) ≡ ok (bytes, rest))
unfolding write_response
read_frame-write_response codec response frame rest h =
    elim (Result-cases (encode_frame codec response)) [
      | inl (bytes, e) ↦
          let same : be32 (length bytes) ++ bytes ≡ frame = ground arith in
          (
            bytes,
            e,
            rw (← same) (read_frame-be32 bytes rest (encode_frame_size codec response bytes e)),
          )
      | inr (code, e) ↦ absurd (ground arith)
    ]
