-- ===== src/Server/Serving.antt =====
-- What one connection can make the daemon do.
use varmlen_cli_linux.Common.{
  ℕ, zero, suc, ◌≡◌, ◌≢◌, refl, ap, inl, inr, ◌⊎◌, String, Bool, true, false, Option, none, some,
  arith,
}
use varmlen_cli_linux.Common.Tests.{◌==◌, ==_iff, Bool-cases, Option-cases}
use varmlen_cli_linux.Common.Text.{Text}
use varmlen_cli_linux.Common.Outcome.{Result, ok, err, Result-cases}
use varmlen_cli_linux.Protocol.{
  RequestEnvelope, ResponseEnvelope, DaemonCommand, DaemonState, DaemonError, DaemonErrorCode,
  unauthorized, protocol_version,
}
use varmlen_cli_linux.Protocol.Validate.{Url}
use varmlen_cli_linux.Protocol.Validate.Bounds.{IsAcceptable, validate_request_iff}
use varmlen_cli_linux.Protocol.Frames.{Bytes, Codec, decode_request_frame, decode_request_frame_ok}
use varmlen_cli_linux.Server.{
  PeerPolicy, authorize, Link, respond, serve_frame, serve_requests, serve_connection_with_limits,
}

-- A read either gives a frame or ends the connection.
abbrev is_frame : Option (Result DaemonErrorCode Bytes) → Bool
is_frame (some (ok bytes)) = true
is_frame _ = false

read-cases :
    (o : Option (Result DaemonErrorCode Bytes))
    → (is_frame o ≡ false) ⊎ ((bytes : Bytes) × (o ≡ some (ok bytes)))
read-cases none = inl refl
read-cases (some (ok bytes)) = inr (bytes, refl)
read-cases (some (err code)) = inl refl

-- What reads and writes keep, and the handler keeps on commands that are within their bounds.
pub record Keeps (parse_url : Text → Option Url) {S : Type 0} (link : Link S) (P : S → Type 0)
    : Type 0 where
  pub reads : (s : S) → P s → P (link.read s).1
  pub writes : (r : ResponseEnvelope) (s : S) → P s → P (link.write r s).1
  pub handles : (c : DaemonCommand) (s : S) → IsAcceptable parse_url c → P s → P (link.handle c s).1

module _ (parse_url : Text → Option Url) (requests : Codec RequestEnvelope)
    (read_id : Bytes → Option ℕ) (version : String) {S : Type 0} (link : Link S) where
  module _ (P : S → Type 0) (keeps : Keeps parse_url link P) where
    respond_keeps :
        (id : ℕ) (r : Result DaemonError DaemonState) (s : S)
        → P s
        → P (respond parse_url requests read_id version link id r s).1
    unfolding respond
    respond_keeps id r s p =
        let response : ResponseEnvelope = record {
          version = protocol_version;
          operation_id = id;
          result = r;
          daemon_version = version;
        } in
        let same : (respond parse_url requests read_id version link id r s).1
            ≡ (link.write response s).1 =
          ground arith in
        rw same (keeps.writes response s p)

    serve_frame_keeps :
        (bytes : Bytes) (s : S)
        → P s
        → P (serve_frame parse_url requests read_id version link bytes s).1
    unfolding serve_frame
    serve_frame_keeps bytes s p =
        elim (Result-cases (decode_request_frame parse_url requests bytes)) [
          | inr (code, e) ↦ rw (e, serve_frame) (respond_keeps _ _ s p)
          | inl (request, e) ↦
              let valid = (decode_request_frame_ok parse_url requests bytes request e).1 in
              let inside = ((validate_request_iff parse_url request).0 valid).1 in
              let kept = keeps.handles request.command s inside p in
              elim (Option-cases (link.handle request.command s).0) [
                | inl late ↦ rw (e, serve_frame, late) kept
                | inr (result, done) ↦ rw (e, serve_frame, done) (respond_keeps _ result _ kept)
              ]
        ]

    serve_requests_keeps :
        (limit : ℕ) (s : S)
        → P s
        → P (serve_requests parse_url requests read_id version link limit s).1
    unfolding serve_requests
    serve_requests_keeps zero s p = p
    serve_requests_keeps (suc left) s p =
        let s1 = (link.read s).1 in
        let kept = keeps.reads s p in
        elim (read-cases (link.read s).0) [
          | inl closed ↦
              let same : (serve_requests parse_url requests read_id version link (suc left) s).1
                  ≡ s1 =
                ground arith in
              rw same kept
          | inr (bytes, arrived) ↦
              let served = serve_frame parse_url requests read_id version link bytes s1 in
              let still = serve_frame_keeps bytes s1 kept in
              elim (Result-cases served.0) [
                | inr (code, e) ↦ rw (arrived, serve_requests, e) still
                | inl (u, e) ↦
                    rw (arrived, serve_requests, e) (serve_requests_keeps left served.1 still)
              ]
        ]

  -- Whatever a peer sends and however many requests it may send, a property of the daemon that
  -- reads and writes keep, and that the handler keeps on commands within their bounds, still holds
  -- when the connection ends. A peer of another user changes nothing and is refused.
  pub serve_connection_with_limits_keeps :
      (P : S → Type 0)
      → Keeps parse_url link P
      → (peer : Option ℕ) (policy : PeerPolicy) (limit : ℕ) (s : S)
      → let served =
          serve_connection_with_limits parse_url requests read_id version link peer policy limit
            s in
        (P s → P served.1) × (peer ≢ some policy.allowed_uid → served ≡ (err unauthorized, s))
  unfolding serve_connection_with_limits authorize
  serve_connection_with_limits_keeps P keeps none policy limit s = (λ p. p, λ h. refl)
  serve_connection_with_limits_keeps P keeps (some uid) policy limit s =
      elim (Bool-cases (uid == policy.allowed_uid)) [
        | inl same ↦ (
          λ p. rw same (serve_requests_keeps P keeps limit s p),
          λ h. absurd (h (ap some ((==_iff _ _).0 same))),
        )
        | inr other ↦ (λ p. rw other p, λ h. rw other)
      ]
