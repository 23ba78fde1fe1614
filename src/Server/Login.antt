-- ===== src/Server/Login.antt =====
-- src/ipc/server.rs: the login that a client or the owner starts.
use secretd.Prelude.{ℕ, suc, Option, none, some}
use secretd.Prelude.Exec.{Exec, pure, throw, read, modify, attempt, ◌>>=◌, ◌>>◌}
use secretd.Prelude.Result.{session_expired, Result, ok, err, Failure, login_not_started}
use secretd.Aws.LoginStatus.{awaiting_user, discovering, failed}
use secretd.Controller.{
  complete_aws_login, set_aws_login_status, Controller, prepare_aws_login, preview_aws_login,
  complete_aws_discovery_failure,
}
use secretd.Aws.{AwsSettings, StartedLogin, start_login, discover_accounts, finish_login}
use secretd.Server.Shared.{Server, with_lock, with_broker, meanwhile, next_host, notify}
use secretd.Vault.{Platform, Host}
use secretd.Prelude.Text.{Text}

-- the end of a login that failed
unfoldable pub fail_login : {A : Type 0} → Failure → Exec Server A
unfolding complete_aws_login
fail_login error = do
  platform ← read (λ s. s.platform)
  host ← next_host
  with_lock (modify (complete_aws_login platform host (err error)))
  notify
  throw error

abbrev Discovery : Type 0
Discovery = Result (Unit {0}) × AwsSettings

-- behind `wait_for_code` and the exchange of the code
discover_again : ℕ → Result (Unit {0}) × AwsSettings → Exec Server Discovery
discover_again fuel (err error, settings) = fail_login error
discover_again fuel (ok u, settings) = do
  with_lock (modify (set_aws_login_status discovering))
  notify
  with_broker settings (discover_accounts fuel)

await_user : ℕ → Result StartedLogin × AwsSettings → Exec Server Discovery
unfolding discover_again
await_user fuel (err error, settings) = fail_login error
await_user fuel (ok started, settings) = do
  with_lock (modify (set_aws_login_status (awaiting_user started.authorization)))
  notify
  around ← read (λ s. s.around)
  finished ← with_broker settings (finish_login around started)
  discover_again fuel finished

-- a login in the browser only where the session was rejected or is missing
unfoldable pub login_if_expired : ℕ → Discovery → Exec Server Discovery
unfolding await_user
login_if_expired fuel (err session_expired, settings) = do
  around ← read (λ s. s.around)
  started ← with_broker settings (start_login around)
  await_user fuel started
login_if_expired fuel discovery = pure discovery

unfoldable pub finish_discovery : Platform → Host → Discovery → Controller → Controller
finish_discovery p host (ok u, settings) c = complete_aws_login p host (ok settings) c
finish_discovery p host (err error, settings) c =
    complete_aws_discovery_failure p host settings error c

unfoldable pub run_aws_login : ℕ → AwsSettings → Exec Server (Unit {0})
unfolding login_if_expired finish_discovery
run_aws_login fuel settings = do
  first ← with_broker settings (discover_accounts fuel)
  discovery ← login_if_expired fuel first
  platform ← read (λ s. s.platform)
  host ← next_host
  with_lock (modify (finish_discovery platform host discovery))
  notify

-- `broker.operation()`: the other threads run until this one has the lock of the broker
abbrev pub operation : Exec Server (Unit {0})
operation s = (ok tt, meanwhile s)

login_steps : ℕ → Exec Server (Unit {0})
unfolding run_aws_login
login_steps fuel = do
  operation
  settings ← with_lock prepare_aws_login
  notify
  run_aws_login fuel settings

report_failure : Result (Unit {0}) → Exec Server (Unit {0})
report_failure (ok u) = pure tt
report_failure (err error) = do
  platform ← read (λ s. s.platform)
  host ← next_host
  with_lock (modify (complete_aws_login platform host (err error)))
  notify

-- the body of the thread that `begin_aws_login` starts
unfoldable pub aws_login_thread : ℕ → Exec Server (Unit {0})
unfolding login_steps report_failure
aws_login_thread fuel = do result ← attempt (login_steps fuel); report_failure result

spawned : Option Text → Exec Server (Unit {0})
spawned none = modify (λ s. record s { logins = suc s.logins })
spawned (some error) = do
  with_lock (modify (set_aws_login_status (failed (login_not_started error))))
  notify
  throw (login_not_started error)

unfoldable pub begin_aws_login : Exec Server (Unit {0})
unfolding spawned
begin_aws_login = do
  _ ← with_lock (λ c. (preview_aws_login c, c))
  error ← read (λ s. s.spawn_error)
  spawned error
