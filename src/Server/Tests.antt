-- ===== src/Server/Tests.antt =====
-- Runs of the server, and the theorems at concrete connections.
use varmlen_cli_linux.Common.{ℕ, suc, ◌≡◌, ◌≢◌, refl, Option, none, some, List, [], ◌∷◌, ◌++◌}
use varmlen_cli_linux.Common.Lists.{All}
use varmlen_cli_linux.Common.Text.{Text, codes}
use varmlen_cli_linux.Common.Numbers.{parse_uint}
use varmlen_cli_linux.Common.Outcome.{Result, ok, err}
use varmlen_cli_linux.Protocol.{
  RequestEnvelope, ResponseEnvelope, DaemonCommand, status, DaemonState, DaemonError, internal,
  unauthorized,
}
use varmlen_cli_linux.Protocol.Validate.{Url}
use varmlen_cli_linux.Protocol.Validate.Bounds.{IsAcceptable}
use varmlen_cli_linux.Protocol.Frames.{Bytes, Codec, encode_frame}
use varmlen_cli_linux.Server.{
  PeerPolicy, Link, parse_owner_uid, read_frame, write_response, serve_connection_with_limits,
}
use varmlen_cli_linux.Server.Framing.{read_frame-write_response}
use varmlen_cli_linux.Server.Serving.{Keeps, serve_connection_with_limits_keeps}

owner_uid_test :
    (parse_owner_uid (some (codes "1000")) ≡ ok 1000)
    × (parse_owner_uid (some (codes "../1000")) ≡ err "desktop owner uid is invalid")
unfolding parse_owner_uid parse_uint
owner_uid_test = (refl, refl)

abbrev two_bytes : Codec ResponseEnvelope
two_bytes = record { to_vec = λ r. some (1 ∷ 2 ∷ []); from_slice = λ bytes. none }

abbrev response : ResponseEnvelope
response = record {
  version = 3;
  operation_id = 7;
  result = err (record { code = internal; message = "" });
  daemon_version = "0.2.0";
}

read_frame-write_response_example :
    (bytes : Bytes) × (encode_frame two_bytes response ≡ ok bytes)
    × (read_frame ((0 ∷ 0 ∷ 0 ∷ 2 ∷ 1 ∷ 2 ∷ []) ++ 9 ∷ []) ≡ ok (bytes, 9 ∷ []))
unfolding write_response encode_frame
read_frame-write_response_example =
    read_frame-write_response two_bytes response (0 ∷ 0 ∷ 0 ∷ 2 ∷ 1 ∷ 2 ∷ []) (9 ∷ []) refl

-- A status request is two numbers, its version and its id.
abbrev unpack : Bytes → Option RequestEnvelope
unpack (version ∷ id ∷ []) =
    some (record { version = version; operation_id = id; command = status })
unpack _ = none

abbrev requests : Codec RequestEnvelope
requests = record { to_vec = λ r. none; from_slice = unpack }

abbrev no_url : Text → Option Url
no_url raw = none

abbrev read_id : Bytes → Option ℕ
read_id [] = none
read_id (b ∷ bytes) = some b

-- The frames to come and the commands handled so far.
abbrev handled_link : Link (List Bytes × List DaemonCommand)
handled_link = record {
  read = λ s. (some (ok (3 ∷ 1 ∷ [])), s);
  handle = λ c s. (none, (s.0, c ∷ s.1));
  write = λ r s. (some (ok tt), s);
}

handled_link_keeps : Keeps no_url handled_link (λ s. All (IsAcceptable no_url) s.1)
handled_link_keeps = record {
  reads = λ s p. p;
  writes = λ r s p. p;
  handles = λ c s good p. (good, p);
}

abbrev mine : PeerPolicy
mine = record { allowed_uid = 1000 }

serve_connection_with_limits_keeps_example :
    let served =
      serve_connection_with_limits no_url requests read_id "0.2.0" handled_link
        (some 1000)
        mine
        32
        ([], []) in
    (All (IsAcceptable no_url) [] → All (IsAcceptable no_url) served.1.1)
    × (◌≢◌ {A = Option ℕ} (some 1000) (some 1000) → served ≡ (err unauthorized, ([], [])))
serve_connection_with_limits_keeps_example =
    serve_connection_with_limits_keeps no_url requests read_id "0.2.0" handled_link
      (λ s. All (IsAcceptable no_url) s.1) handled_link_keeps (some 1000) mine 32 ([], [])

-- The number of commands so far, each of which is answered.
abbrev counting : DaemonCommand → ℕ → Result DaemonError DaemonState × ℕ
counting c n = (err (record { code = internal; message = "" }), suc n)

abbrev frames : List Bytes
frames = (3 ∷ 41 ∷ []) ∷ (2 ∷ 5 ∷ []) ∷ []
