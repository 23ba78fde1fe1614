-- ===== src/Client/Request.antt =====
-- src/ipc/client.rs: a request to the server, over what the system lets the client do.
use secretd.Prelude.{
  ℕ, not, Option, none, some, List, [], ◌∷◌, ◌++◌, ◌==◌, ◌*◌, Bool, if◌then◌else◌, ◌&&◌,
}
use secretd.Prelude.Result.{
  Result, ok, err, fail_if, ok_or, ◌>>=◌, ◌>>◌, Failure, connection_closed, desktop_not_running,
  invalid_response, runtime_invalid, request_failed, connection_failed, remote, request_unencoded,
  send_failed,
}
use secretd.Prelude.Text.{Text, codes, same_text, is_empty}
use secretd.Server.{EndpointFile, ClientResponse, Json, read_line}

-- What the client's calls of the system give. `exchange` is what comes back for the bytes sent.
pub record ClientHost : Type 0 where
  pub runtime_file : Option (List ℕ)
  pub connecting : Option Text
  pub timeouts : Result (Unit {0})
  pub sending : Option Text
  pub exchange : List ℕ → Result (List ℕ)
  pub process_id : ℕ

abbrev pub max_response_bytes : ℕ
max_response_bytes = 1024 * 1024

abbrev pub is_usable : EndpointFile → Bool
is_usable endpoint =
    (endpoint.version == 1)
    && same_text endpoint.host (codes "127.0.0.1")
    && not (is_empty endpoint.token)

-- an error of the system, with the message before it
fails_with : (Text → Failure) → Option Text → Result (Unit {0})
fails_with failure none = ok tt
fails_with failure (some error) = err (failure error)

-- What the answer of the server means.
unfoldable pub answer_of : ClientResponse → Result Text
answer_of response =
    if response.ok
    then ok_or response.value invalid_response
    else elim response.error [ none ↦ err request_failed | some error ↦ err (remote error) ]

-- the line of an answer
unfoldable pub parse_response : Json → List ℕ → Result Text
unfolding answer_of
parse_response json [] = err connection_closed
parse_response json (b ∷ bytes) = do
  response ← ok_or (json.read_response (b ∷ bytes)) invalid_response
  answer_of response

unfoldable pub request : Json → ClientHost → Text → Option Text → Option Text → Result Text
unfolding fails_with parse_response read_line
request json host action secret profile = do
  contents ← ok_or host.runtime_file desktop_not_running
  endpoint ← ok_or (json.read_endpoint contents) runtime_invalid
  fail_if (not (is_usable endpoint)) runtime_invalid
  fails_with connection_failed host.connecting
  host.timeouts
  bytes ←
      ok_or
        (json.request_bytes (record {
          version = 1;
          token = endpoint.token;
          action = action;
          secret = secret;
          profile = profile;
          pid = host.process_id;
        }))
        request_unencoded
  fails_with send_failed host.sending
  received ← host.exchange (bytes ++ 10 ∷ [])
  parse_response json (read_line max_response_bytes received)

unfoldable pub get_secret : Json → ClientHost → Text → Result Text
unfolding request
get_secret json host secret = request json host (codes "get") (some secret) none

unfoldable pub get_aws_credentials : Json → ClientHost → Text → Result Text
unfolding request
get_aws_credentials json host profile =
    request json host (codes "aws-credentials") none (some profile)

unfoldable pub start_aws_login : Json → ClientHost → Result Text
unfolding request
start_aws_login json host = request json host (codes "aws-login") none none
