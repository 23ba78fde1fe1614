-- ===== src/Server/Credentials.antt =====
-- src/ipc/server.rs: a client's request for credentials of AWS.
use secretd.Prelude.{ℕ, Option, none, some}
use secretd.Prelude.Exec.{Exec, pure, throw, lift, read, modify, ◌>>=◌, ◌>>◌}
use secretd.Prelude.Result.{
  session_expired, Result, ok, err, aws_denied, aws_denied_or_timed_out, ok_or,
  credentials_unencoded,
}
use secretd.Prelude.Text.{Text}
use secretd.Controller.{
  AwsRequestOutcome, AwsRequestResolution, aws_credential_context, prepare_aws_login,
  begin_aws_request, timeout_aws_request, persist_aws_settings,
}
use secretd.Server.Shared.{Server, notify, with_lock, with_broker, receive_aws, next_host}
use secretd.Aws.{AwsCredentialProcessOutput, AwsAccessLevel, AwsSettings, credentials}
use secretd.Server.Secrets.{Peer, request_process}
use secretd.Server.Login.{run_aws_login, operation}

unfoldable pub finish_wait : Text → Option AwsRequestResolution → Exec Server AwsAccessLevel
finish_wait id (some (AwsRequestResolution.approved level)) = pure level
finish_wait id (some AwsRequestResolution.denied) = do notify; throw aws_denied_or_timed_out
finish_wait id none = do
  with_lock (modify (timeout_aws_request id))
  notify
  throw aws_denied_or_timed_out

-- the level that the client may have
unfoldable pub await_level : AwsRequestOutcome → Exec Server AwsAccessLevel
unfolding finish_wait
await_level (AwsRequestOutcome.immediate level) = pure level
await_level AwsRequestOutcome.denied = throw aws_denied
await_level (AwsRequestOutcome.pending id) = do
  notify
  resolution ← receive_aws id
  finish_wait id resolution

abbrev saved_settings : Exec Server AwsSettings
saved_settings = with_lock (λ c. (aws_credential_context c, c))

-- the credentials, and the settings as the broker leaves them saved before the result is looked at
try_credentials :
    Text → AwsAccessLevel → AwsSettings → Exec Server (Result AwsCredentialProcessOutput)
try_credentials profile level settings = do
  attempted ← with_broker settings (credentials profile level)
  platform ← read (λ s. s.platform)
  host ← next_host
  with_lock (persist_aws_settings platform host attempted.1)
  pure attempted.0

-- a login and a second attempt, where the session has ended
unfoldable pub retry_expired :
    ℕ
    → Text
    → AwsAccessLevel
    → Result AwsCredentialProcessOutput
    → Exec Server AwsCredentialProcessOutput
unfolding try_credentials
retry_expired fuel profile level (ok output) = pure output
retry_expired fuel profile level (err session_expired) = do
  login_settings ← with_lock prepare_aws_login
  notify
  run_aws_login fuel login_settings
  refreshed ← saved_settings
  second ← try_credentials profile level refreshed
  lift second
retry_expired fuel profile level (err error) = throw error

-- `encode` is `serde_json::to_string` of the credentials.
unfoldable pub handle_aws_request :
    ℕ → (AwsCredentialProcessOutput → Option Text) → Text → ℕ → Peer → Exec Server Text
unfolding await_level try_credentials retry_expired
handle_aws_request fuel encode profile pid connection = do
  process ← λ s. (request_process pid connection s, s)
  outcome ← with_lock (begin_aws_request profile process.1 process.0)
  level ← await_level outcome
  _ ← saved_settings
  operation
  settings ← saved_settings
  first ← try_credentials profile level settings
  output ← retry_expired fuel profile level first
  notify
  lift (ok_or (encode output) credentials_unencoded)
