-- ===== src/Aws/Login.antt =====
-- src/aws.rs: `login`, in the two parts before and after `browser_ready` is called.
use secretd.Prelude.Exec.{Exec, pure, throw, lift, read, modify, ◌>>=◌, ◌>>◌}
use secretd.Prelude.{ℕ, none, some, List}
use secretd.Aws.Browser.{UrlCrate, BrowserLogin, wait_for_code, authorization_url, Connection}
use secretd.Aws.Check.{validate}
use secretd.Aws.Token.{
  token_from_output, ensure_registration, aws_error_message, create_token, set_token,
}
use secretd.Prelude.Text.{Text}
use secretd.Aws.Defs.{AwsOidcRegistration}
use secretd.Aws.Sdk.{
  Session, Answer, TokenError, authorization_code, TokenOutput, now_seconds, refused, answered,
}
use secretd.Prelude.Result.{Result, ok_or, registration_unavailable, login_failed}
use secretd.Aws.LoginStatus.{AwsBrowserAuthorization}
use secretd.Prelude.Word.{saturating_add}

-- What a login takes from outside: the crate url, the digest of the verifier, the listener with its
-- random texts, and the connections that it receives until the timeout.
pub record Surroundings : Type 0 where
  pub urls : UrlCrate
  pub challenge : Text → Text
  pub browser : Result BrowserLogin
  pub connections : List Connection

-- `LOGIN_TIMEOUT`, in seconds
abbrev pub login_timeout : ℕ
login_timeout = 600

-- What the second part of a login goes on with.
pub record StartedLogin : Type 0 where
  pub browser : BrowserLogin
  pub registration : AwsOidcRegistration
  pub authorization : AwsBrowserAuthorization

unfoldable pub start_login : Surroundings → Exec Session StartedLogin
unfolding validate ensure_registration authorization_url
start_login around = do
  λ s. (validate s.settings, s)
  browser ← lift around.browser
  ensure_registration
  registration ← λ s. (ok_or s.settings.registration registration_unavailable, s)
  url ← lift (
      authorization_url around.urls around.challenge browser registration.authorization_endpoint
        registration.client_id)
  now ← now_seconds
  pure (record {
    browser = browser;
    registration = registration;
    authorization = record { url = url; expires_at = saturating_add now login_timeout };
  })

logged_in_with : Answer TokenError TokenOutput → Exec Session (Unit {0})
unfolding token_from_output aws_error_message
logged_in_with (refused error) = throw (login_failed (aws_error_message error))
logged_in_with (answered output) = do
  token ← token_from_output output none
  modify (set_token (some token))

unfoldable pub finish_login : Surroundings → StartedLogin → Exec Session (Unit {0})
unfolding logged_in_with wait_for_code
finish_login around started = do
  code ← lift (wait_for_code around.urls started.browser around.connections)
  region ← read (λ s. s.settings.sso_region)
  answer ← create_token (record {
    region = region;
    client_id = started.registration.client_id;
    client_secret = started.registration.client_secret;
    grant = authorization_code started.browser.redirect_uri started.browser.verifier code;
  })
  logged_in_with answer
