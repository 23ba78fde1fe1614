-- ===== src/Aws/LoginStatus.antt =====
-- src/aws.rs: `AwsBrowserAuthorization` and `AwsLoginStatus`.
use secretd.Prelude.{ℕ}
use secretd.Prelude.Text.{Text}
use secretd.Prelude.Result.{Failure}

pub record AwsBrowserAuthorization : Type 0 where
  pub url : Text
  pub expires_at : ℕ

pub data AwsLoginStatus : Type 0 where
  idle starting discovering : AwsLoginStatus
  awaiting_user : AwsBrowserAuthorization → AwsLoginStatus
  logged_in : ℕ → AwsLoginStatus
  failed : Failure → AwsLoginStatus
