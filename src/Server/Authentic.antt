-- ===== src/Server/Authentic.antt =====
-- What a connection without the token can do.
use secretd.Prelude.{ℕ, ◌≡◌, ◌≢◌, Option, List, ◌⊎◌, inl, inr, arith, Bool-cases, ==_iff, ◌==◌}
use secretd.Prelude.Text.{Text}
use secretd.Prelude.Result.{ok, err, Result-cases, Failure, authentication_failed, invalid_request}
use secretd.Server.Handler.{read_request}
use secretd.Server.TokenLaws.{constant_time_equal_iff}
use secretd.Server.Protocol.{Json, ClientRequest}
use secretd.Server.Handler.{handle_connection, read_request}
use secretd.Aws.{AwsCredentialProcessOutput}
use secretd.Server.Secrets.{Peer}
use secretd.Server.Token.{as_bytes, constant_time_equal}
use secretd.Server.Shared.{Server}

-- A request that could be read, with the server's token, the version of the protocol and a process.
pub record IsAuthentic (json : Json) (token : Text) (received : Option (List ℕ)) : Type 0 where
  pub request : ClientRequest
  pub parsed : read_request json received ≡ ok request
  pub authenticated : as_bytes request.token ≡ as_bytes token
  pub current : request.version ≡ 1
  pub named : request.pid ≢ 0

-- A connection either is refused with the whole state of the server as it was, no request queued
-- and no window told, or has sent a request with the server's token, the version 1 and a process ID.
pub handle_connection-IsAuthentic :
    (json : Json) (fuel : ℕ) (encode : AwsCredentialProcessOutput → Option Text) (token : Text)
    (received : Option (List ℕ)) (connection : Peer) (s : Server)
    → ((f : Failure) × (handle_connection json fuel encode token received connection s
          ≡ (err f, s)))
      ⊎ IsAuthentic json token received
unfolding handle_connection
handle_connection-IsAuthentic json fuel encode token received connection s =
    elim (Result-cases (read_request json received)) [
      | inr (f, unread) ↦ inl (f, ground arith)
      | inl (request, parsed) ↦
          let same = constant_time_equal (as_bytes request.token) (as_bytes token) in
          elim (Bool-cases same) [
            | inr differs ↦ inl (authentication_failed, ground arith)
            | inl equal ↦ elim (Bool-cases (request.version == 1)) [
              | inr other ↦ inl (invalid_request, ground arith)
              | inl first ↦ elim (Bool-cases (request.pid == 0)) [
                | inl nobody ↦ inl (invalid_request, ground arith)
                | inr process ↦ inr (record {
                  request = request;
                  parsed = parsed;
                  authenticated =
                      (constant_time_equal_iff (as_bytes request.token) (as_bytes token)).0 equal;
                  current = (==_iff request.version 1).0 first;
                  named = λ e. absurd (ground (arith, ==_iff request.pid 0));
                })
              ]
            ]
          ]
    ]
