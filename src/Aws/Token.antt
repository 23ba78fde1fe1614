-- ===== src/Aws/Token.antt =====
-- src/aws.rs: the registration of the client, the token and its renewal.
use secretd.Prelude.{
  ℕ, zero, suc, Bool, true, false, not, Option, none, some, List, [], ◌∷◌, ◌++◌, ltb, if◌then◌else◌,
  unwrap_or,
}
use secretd.Prelude.Text.{Text, codes, is_empty, ends_with, trim_end_matches}
use secretd.Prelude.Int.{ℤ, pos, negsuc}
use secretd.Prelude.Word.{saturating_add}
use secretd.Prelude.Result.{
  Result, ok, err, Failure, ok_or, session_expired, refresh_failed, register_failed, missing_output,
  token_expiration, client_expiration,
}
use secretd.Prelude.Exec.{Exec, pure, throw, lift, read, modify, ◌>>=◌, ◌>>◌}
use secretd.Aws.Defs.{AwsSettings, AwsOidcRegistration, AwsSsoToken}
use secretd.Aws.Check.{token_expired, expiry_skew_seconds}
use secretd.Aws.Sdk.{
  SdkError, Answer, answered, refused, TokenError, invalid_grant, expired_token, invalid_client,
  unauthorized_client, invalid_token_request, TokenOutput, RegisterOutput, TokenRequest,
  refresh_token_grant, creates_token, registers_client, Session, now_seconds, call,
}

-- The label is what the message names.
unfoldable pub required : Option Text → Text → Result Text
required none label = err (missing_output label)
required (some value) label = if is_empty value then err (missing_output label) else ok value

unfoldable pub is_session_expired_error : Failure → Bool
is_session_expired_error session_expired = true
is_session_expired_error _ = false

-- The messages of the sources behind the first, where a message does not repeat them.
unfoldable pub with_sources : Text → List Text → Text
with_sources message [] = message
with_sources message (detail ∷ sources) =
    with_sources (if ends_with message detail then message else message ++ (codes ": " ++ detail))
      sources

unfoldable pub aws_error_message : {E : Type 0} → SdkError E → Text
unfolding with_sources
aws_error_message error = with_sources error.message error.sources

-- the errors of a session that has to begin anew
unfoldable pub ends_session : Option TokenError → Bool
ends_session (some invalid_grant) = true
ends_session (some expired_token) = true
ends_session (some invalid_client) = true
ends_session (some unauthorized_client) = true
ends_session (some (invalid_token_request none)) = true
ends_session _ = false

unfoldable pub refresh_token_error : SdkError TokenError → Failure
unfolding ends_session aws_error_message
refresh_token_error error =
    if ends_session error.service then session_expired else refresh_failed (aws_error_message error)

-- the errors after which the registration is given up too
unfoldable pub ends_registration : Option TokenError → Bool
ends_registration (some invalid_client) = true
ends_registration (some unauthorized_client) = true
ends_registration (some (invalid_token_request reason)) = true
ends_registration _ = false

-- `expires_in <= 0`, and the conversion to `u64` behind it
unfoldable pub positive : ℤ → Result ℕ
positive (pos zero) = err token_expiration
positive (pos (suc n)) = ok (suc n)
positive (negsuc n) = err token_expiration

unfoldable pub or_else : Option Text → Option Text → Option Text
or_else (some a) other = some a
or_else none other = other

unfoldable pub token_from_output : TokenOutput → Option Text → Exec Session AwsSsoToken
unfolding positive or_else required
token_from_output output fallback = do
  access_token ← lift (required output.access_token (codes "SSO access token"))
  expires_in ← lift (positive output.expires_in)
  now ← now_seconds
  pure (record {
    access_token = access_token;
    access_token_expires_at = saturating_add now expires_in;
    refresh_token = unwrap_or (or_else output.refresh_token fallback) [];
  })

-- `token.filter(|token| !token_expired(token))`, which reads the clock if there is a token
unfoldable pub fresh_token : Option AwsSsoToken → Exec Session (Option AwsSsoToken)
fresh_token none = pure none
fresh_token (some token) = do
  now ← now_seconds
  pure (if token_expired now token then none else some token)

abbrev secret_is_current : ℕ → AwsOidcRegistration → Bool
secret_is_current now registration =
    ltb (saturating_add now expiry_skew_seconds) registration.client_secret_expires_at

-- the registration, where its secret is still current
unfoldable pub current_registration :
    Option AwsOidcRegistration → Exec Session (Option AwsOidcRegistration)
current_registration none = pure none
current_registration (some registration) = do
  now ← now_seconds
  pure (if secret_is_current now registration then some registration else none)

-- the refresh token, if there is one
unfoldable pub previous_refresh : Option AwsSsoToken → Option Text
previous_refresh none = none
previous_refresh (some token) =
    if is_empty token.refresh_token then none else some token.refresh_token

abbrev pub set_settings : AwsSettings → Session → Session
set_settings settings s = record s { settings = settings }

abbrev pub set_token : Option AwsSsoToken → Session → Session
set_token token s = record s { settings = record s.settings { token = token } }

-- What a rejected renewal takes away.
unfoldable pub forget_rejected : SdkError TokenError → Session → Session
unfolding ends_registration ends_session
forget_rejected error s =
    if ends_session error.service
    then record s {
      settings = record s.settings {
        token = none;
        registration = if ends_registration error.service then none else s.settings.registration;
      };
    }
    else s

unfoldable pub finish_renewal : Text → Answer TokenError TokenOutput → Exec Session (Unit {0})
unfolding token_from_output
finish_renewal previous (answered output) = do
  token ← token_from_output output (some previous)
  modify (set_token (some token))
finish_renewal previous (refused error) = do
  modify (forget_rejected error)
  throw (refresh_token_error error)

-- `create_token()`
abbrev pub create_token : TokenRequest → Exec Session (Answer TokenError TokenOutput)
create_token request s = call (creates_token request) (λ n. s.service.create_token n request) s

unfoldable pub renew_access_token : Exec Session (Unit {0})
unfolding current_registration previous_refresh finish_renewal
renew_access_token = do
  settings ← read (λ s. s.settings)
  current ← current_registration settings.registration
  registration ← lift (ok_or current session_expired)
  previous ← lift (ok_or (previous_refresh settings.token) session_expired)
  answer ← create_token (record {
    region = settings.sso_region;
    client_id = registration.client_id;
    client_secret = registration.client_secret;
    grant = refresh_token_grant previous;
  })
  finish_renewal previous answer

-- the renewal, unless there is a token that has not expired
unfoldable pub renew_unless : Option AwsSsoToken → Exec Session (Unit {0})
unfolding renew_access_token
renew_unless (some token) = pure tt
renew_unless none = renew_access_token

unfoldable pub refresh_access_token : Exec Session (Unit {0})
unfolding renew_unless fresh_token
refresh_access_token = do
  settings ← read (λ s. s.settings)
  fresh ← fresh_token settings.token
  renew_unless fresh

-- the access token that has not expired
unfoldable pub fresh_access_token : Exec Session Text
fresh_access_token = do
  settings ← read (λ s. s.settings)
  fresh ← fresh_token settings.token
  token ← lift (ok_or fresh session_expired)
  pure token.access_token

unfoldable pub browser_authorization_endpoint : Text → Exec Session Text
browser_authorization_endpoint region = do
  url ← λ s. (s.service.resolve_endpoint region, s)
  pure (trim_end_matches b'/' url ++ codes "/authorize")

unsigned : ℤ → Result ℕ
unsigned (pos n) = ok n
unsigned (negsuc n) = err client_expiration

-- the registration that the service returned
unfoldable pub register_with : Answer (Unit {0}) RegisterOutput → Exec Session (Unit {0})
unfolding unsigned required browser_authorization_endpoint
register_with (refused error) = throw (register_failed error.message)
register_with (answered output) = do
  client_id ← lift (required output.client_id (codes "OIDC client ID"))
  client_secret ← lift (required output.client_secret (codes "OIDC client secret"))
  expires_at ← lift (unsigned output.client_secret_expires_at)
  region ← read (λ s. s.settings.sso_region)
  endpoint ← browser_authorization_endpoint region
  modify (λ s. record s {
    settings = record s.settings {
      registration = some (record {
        client_id = client_id;
        client_secret = client_secret;
        client_secret_expires_at = expires_at;
        authorization_endpoint = endpoint;
      });
      token = none;
    };
  })

abbrev has_endpoint : Option AwsOidcRegistration → Bool
has_endpoint none = false
has_endpoint (some registration) = not (is_empty registration.authorization_endpoint)

unfoldable pub ensure_registration : Exec Session (Unit {0})
unfolding register_with current_registration
ensure_registration = do
  settings ← read (λ s. s.settings)
  current ← current_registration settings.registration
  if has_endpoint current then pure tt else (do
    answer ← λ s.
        call (registers_client settings.sso_region settings.start_url)
          (λ n. s.service.register_client n settings.sso_region settings.start_url) s
    register_with answer)
