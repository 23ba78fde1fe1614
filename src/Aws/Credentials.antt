-- ===== src/Aws/Credentials.antt =====
-- src/aws.rs: `credentials`, what a client of the AWS tools is given.
use secretd.Prelude.Exec.{Exec, pure, lift, read, ◌>>=◌, ◌>>◌}
use secretd.Aws.Defs.{AwsAccessLevel, read_only, admin}
use secretd.Prelude.{ℕ, Option}
use secretd.Prelude.Text.{Text, codes}
use secretd.Aws.Defs.{AwsAccessLevel, AwsTarget}
use secretd.Aws.Discovery.{sso_failure}
use secretd.Aws.Sdk.{
  Service, RoleCredentials, Answer, SsoError, refused, answered, Session, call, gets_credentials,
}
use secretd.Aws.Token.{required, refresh_access_token, fresh_access_token}
use secretd.Prelude.Int.{ℤ, negsuc, pos}
use secretd.Prelude.Result.{
  Result, err, credentials_failed, credential_expiration, ok_or, no_role_credentials,
}
use secretd.Aws.Check.{validate, target, role}
use secretd.Prelude.Exec.{Exec}

pub record AwsCredentialProcessOutput : Type 0 where
  pub version : ℕ
  pub access_key_id : Text
  pub secret_access_key : Text
  pub session_token : Text
  pub expiration : Text
  pub account_id : Text

label : AwsAccessLevel → Text
label read_only = codes "read-only"
label admin = codes "admin"

-- What the service answered, as the error of the source where it refused.
unfoldable pub credentials_answer :
    AwsAccessLevel → AwsTarget → Answer SsoError (Option RoleCredentials) → Result RoleCredentials
unfolding sso_failure label
credentials_answer level target (refused error) =
    err (sso_failure (credentials_failed (label level) target.profile error.message) error)
credentials_answer level target (answered output) = ok_or output no_role_credentials

-- `u64::try_from`, `i64::try_from` and the conversion to a date
expiration_text : Service → ℤ → Result Text
expiration_text service (negsuc n) = err credential_expiration
expiration_text service (pos n) = ok_or (service.format_millis n) credential_expiration

unfoldable pub output_of : Text → RoleCredentials → Exec Session AwsCredentialProcessOutput
unfolding expiration_text required
output_of account_id credentials = do
  expiration ← λ s. (expiration_text s.service credentials.expiration, s)
  access_key_id ← lift (required credentials.access_key_id (codes "access key ID"))
  secret_access_key ← lift (required credentials.secret_access_key (codes "secret access key"))
  session_token ← lift (required credentials.session_token (codes "session token"))
  pure (record {
    version = 1;
    access_key_id = access_key_id;
    secret_access_key = secret_access_key;
    session_token = session_token;
    expiration = expiration;
    account_id = account_id;
  })

unfoldable pub credentials : Text → AwsAccessLevel → Exec Session AwsCredentialProcessOutput
unfolding refresh_access_token fresh_access_token credentials_answer output_of validate target role
credentials profile level = do
  λ s. (validate s.settings, s)
  refresh_access_token
  chosen ← λ s. (target profile s.settings, s)
  access_token ← fresh_access_token
  region ← read (λ s. s.settings.sso_region)
  answer ← λ s.
      call (gets_credentials region chosen.account_id (role chosen level) access_token)
        (λ n.
          s.service.get_role_credentials n region chosen.account_id (role chosen level)
            access_token)
        s
  output ← lift (credentials_answer level chosen answer)
  output_of chosen.account_id output
