-- ===== src/Server/Handler.antt =====
-- src/ipc/server.rs: `handle_connection`.
use secretd.Prelude.{
  ℕ, zero, suc, Option, none, some, List, [], ◌∷◌, ◌*◌, if◌then◌else◌, ◌==◌, ◌+◌, true, ltb, false,
  length, not, ◌||◌, ◌++◌,
}
use secretd.Prelude.Exec.{Exec, pure, throw, lift, ◌>>=◌, ◌>>◌}
use mathlib.Core.Option
use secretd.Prelude.Result.{
  Result, ok, err, Failure, invalid_request, request_too_large, fail_if, ok_or,
  authentication_failed,
}
use secretd.Server.Protocol.{Json, ClientRequest, ClientResponse}
use secretd.Prelude.Text.{Text, is_empty, same_text, codes}
use secretd.Server.Secrets.{handle_secret_request, Peer}
use secretd.Server.Token.{constant_time_equal, as_bytes}
use secretd.Server.Credentials.{handle_aws_request}
use secretd.Server.Login.{begin_aws_login}
use secretd.Aws.{AwsCredentialProcessOutput}
use secretd.Server.Shared.{Server}

abbrev pub max_request_bytes : ℕ
max_request_bytes = 16 * 1024

-- `take(room).read_until(b'\n')`: the line with its newline, or as much as there is room for
unfoldable pub read_line : ℕ → List ℕ → List ℕ
read_line zero bytes = []
read_line (suc room) [] = []
read_line (suc room) (b ∷ bytes) =
    let rest = read_line room bytes in if b == 10 then b ∷ [] else b ∷ rest

-- The bytes that come before the end of the stream, or none where a read fails.
unfoldable pub read_request : Json → Option (List ℕ) → Result ClientRequest
unfolding read_line
read_request json none = err invalid_request
read_request json (some received) =
    let bytes = read_line (max_request_bytes + 1) received in
    if ltb max_request_bytes (length bytes)
    then err request_too_large
    else ok_or (json.read_request bytes) invalid_request

-- `filter(|text| !text.is_empty())`
unfoldable pub present : Option Text → Result Text
present none = err invalid_request
present (some text) = if is_empty text then err invalid_request else ok text

unfoldable pub dispatch :
    ℕ → (AwsCredentialProcessOutput → Option Text) → ClientRequest → Peer → Exec Server Text
unfolding present handle_secret_request handle_aws_request begin_aws_login
dispatch fuel encode request connection =
    if same_text request.action (codes "get")
    then (do
      secret ← lift (present request.secret)
      handle_secret_request secret request.pid connection)
    else if same_text request.action (codes "aws-credentials")
    then (do
      profile ← lift (present request.profile)
      handle_aws_request fuel encode profile request.pid connection)
    else if same_text request.action (codes "aws-login")
    then (do
      begin_aws_login
      pure
          (codes "AWS SSO refresh started in secretd; your browser will open if sign-in is needed"))
    else throw invalid_request

-- What `handle_connection` answers with.
unfoldable pub handle_connection :
    Json
    → ℕ
    → (AwsCredentialProcessOutput → Option Text)
    → Text
    → Option (List ℕ)
    → Peer
    → Exec Server Text
unfolding read_request constant_time_equal as_bytes dispatch
handle_connection json fuel encode token received connection = do
  request ← lift (read_request json received)
  lift (
      fail_if (not (constant_time_equal (as_bytes request.token) (as_bytes token)))
        authentication_failed)
  lift (fail_if (not (request.version == 1) || (request.pid == 0)) invalid_request)
  dispatch fuel encode request connection

-- The JSON of the answer; `message` is the text of an error.
unfoldable pub response_of : (Failure → Text) → Result Text → ClientResponse
response_of message (ok value) = record { ok = true; value = some value; error = none }
response_of message (err error) = record { ok = false; value = none; error = some (message error) }

-- `write_response`: the bytes that are sent, where there are any
unfoldable pub write_response : Json → ClientResponse → Option (List ℕ)
write_response json response = Option.map (λ bytes. bytes ++ 10 ∷ []) (json.response_bytes response)
