-- ===== src/Controller/Session.antt =====
-- src/controller.rs: the saved AWS settings and the state of the login.
use secretd.Prelude.{
  ℕ, Bool, true, false, ◌&&◌, ◌||◌, not, Option, none, some, List, [], retain, any, if◌then◌else◌,
}
use secretd.Prelude.Text.{Text, same_text}
use secretd.Prelude.Result.{
  Result, ok, err, Failure, fail_if, ok_or, aws_not_configured, aws_login_unconfigured,
  aws_login_running, aws_setup_changed, session_unsaved,
}
use secretd.Prelude.Result
use secretd.Prelude.Exec.{Exec, pure, lift, modify, ◌>>=◌, ◌>>◌}
use secretd.Aws.{
  AwsSettings, AwsConfiguration, AwsTarget, AwsDiscoveredAccount, AwsSsoToken, validate,
  update_configuration, from_configuration, is_account, offers_roles,
}
use secretd.Aws.LoginStatus.{
  AwsLoginStatus, idle, starting, discovering, awaiting_user, logged_in, failed,
}
use secretd.Vault.{VaultStore, Platform, Host, aws_settings, save_aws_settings}
use secretd.Controller.State.{Controller}

-- an action on the vault, as one on the controller
abbrev pub on_vault : {A : Type 0} → Exec VaultStore A → Exec Controller A
on_vault m c = let (r, vault) = m c.vault in (r, record c { vault = vault })

-- the saved settings, or the first ones
settings_or_new : AwsConfiguration → Option AwsSettings → Result AwsSettings
settings_or_new configuration (some settings) = ok settings
settings_or_new configuration none = from_configuration configuration

abbrev pub forget_decisions : Controller → Controller
forget_decisions c = record c {
  aws_process_decisions = [];
  aws_process_denials = [];
  aws_login = idle;
}

module _ (p : Platform) (host : Host) where
  unfoldable pub save_aws_configuration : AwsConfiguration → Exec Controller (Unit {0})
  unfolding settings_or_new
  save_aws_configuration configuration = do
    saved ← λ c. (aws_settings c.vault, c)
    settings ← lift (settings_or_new configuration saved)
    updated ← lift (update_configuration configuration settings)
    on_vault (save_aws_settings p host updated)
    modify forget_decisions

  targets_of : Option AwsSettings → List AwsTarget
  targets_of none = []
  targets_of (some settings) = settings.targets

  unfoldable pub save_aws_connection : Text → Text → Exec Controller (Unit {0})
  unfolding save_aws_configuration targets_of
  save_aws_connection start_url sso_region = do
    saved ← λ c. (aws_settings c.vault, c)
    save_aws_configuration
        (record { start_url = start_url; sso_region = sso_region; targets = targets_of saved })

  -- a target that the discovery still offers
  abbrev pub is_offered : List AwsDiscoveredAccount → AwsTarget → Bool
  is_offered accounts target =
      any (λ account. is_account target.account_id account && offers_roles target account) accounts

  abbrev pub with_discovery : AwsSettings → AwsSettings → AwsSettings
  with_discovery session current = record current {
    targets = retain (is_offered session.discovered_accounts) current.targets;
    discovered_accounts = session.discovered_accounts;
    discovery_complete = session.discovery_complete;
  }

  abbrev pub with_session : Bool → AwsSettings → AwsSettings → AwsSettings
  with_session include_discovery session current =
      let renewed : AwsSettings = record current {
        registration = session.registration;
        token = session.token;
      } in
      if include_discovery then with_discovery session renewed else renewed

  unfoldable pub persist_aws_session : AwsSettings → Bool → Exec Controller (Unit {0})
  persist_aws_session session include_discovery = do
    saved ← λ c. (aws_settings c.vault, c)
    current ← lift (ok_or saved aws_not_configured)
    lift (
        fail_if
          (not (same_text current.start_url session.start_url)
            || not (same_text current.sso_region session.sso_region))
          aws_setup_changed)
    on_vault (save_aws_settings p host (with_session include_discovery session current))

  unfoldable pub persist_aws_settings : AwsSettings → Exec Controller (Unit {0})
  unfolding persist_aws_session
  persist_aws_settings settings = persist_aws_session settings false

  unfoldable pub expiry_of : Option AwsSsoToken → ℕ
  expiry_of none = 0
  expiry_of (some token) = token.access_token_expires_at

  -- the state of the login after the settings were saved, or were not
  unfoldable pub completed : ℕ → Result (Unit {0}) × Controller → Controller
  completed expires_at (ok u, c) = record c { aws_login = logged_in expires_at }
  completed expires_at (err error, c) = record c { aws_login = failed error }

  unfoldable pub complete_aws_login : Result AwsSettings → Controller → Controller
  unfolding persist_aws_session expiry_of completed
  complete_aws_login (err error) c = record c { aws_login = failed error }
  complete_aws_login (ok settings) c =
      completed (expiry_of settings.token) (persist_aws_session settings true c)

  unfoldable pub discovery_failed : Failure → Result (Unit {0}) × Controller → Controller
  discovery_failed error (ok u, c) = record c { aws_login = failed error }
  discovery_failed error (err persist_error, c) = record c {
    aws_login = failed (session_unsaved error persist_error);
  }

  unfoldable pub complete_aws_discovery_failure : AwsSettings → Failure → Controller → Controller
  unfolding persist_aws_session discovery_failed
  complete_aws_discovery_failure settings error c =
      discovery_failed error (persist_aws_session settings false c)

abbrev pub is_in_progress : AwsLoginStatus → Bool
is_in_progress starting = true
is_in_progress (awaiting_user authorization) = true
is_in_progress discovering = true
is_in_progress _ = false

unfoldable pub preview_aws_login : Controller → Result AwsSettings
preview_aws_login c = Result.◌>>◌ (fail_if (is_in_progress c.aws_login) aws_login_running) (
    Result.◌>>=◌ (aws_settings c.vault) λ saved.
      Result.◌>>=◌ (ok_or saved aws_login_unconfigured)
        λ settings. Result.◌>>◌ (validate settings) (ok settings))

unfoldable pub prepare_aws_login : Exec Controller AwsSettings
unfolding preview_aws_login
prepare_aws_login = do
  context ← λ c. (preview_aws_login c, c)
  modify (λ c. record c { aws_login = starting })
  pure context

unfoldable pub set_aws_login_status : AwsLoginStatus → Controller → Controller
set_aws_login_status status c = record c { aws_login = status }

unfoldable pub aws_credential_context : Controller → Result AwsSettings
aws_credential_context c =
    Result.◌>>=◌ (aws_settings c.vault) λ saved. ok_or saved aws_not_configured
