-- ===== src/Aws/Sdk.antt =====
-- What src/aws.rs takes from the AWS SDK and the clock. The n-th call of a service may have an
-- answer of its own; every call is kept in a log, with its arguments.
use secretd.Prelude.{ℕ, suc, Option, List, [], ◌∷◌, ◌++◌, length}
use secretd.Prelude.Text.{Text}
use secretd.Prelude.Int.{ℤ}
use secretd.Prelude.Result.{Result, ok}
use secretd.Prelude.Exec.{Exec}
use secretd.Aws.Defs.{AwsSettings}

-- `SdkError`: the error of the service, if it is one, the message, and those of the sources.
pub record SdkError (E : Type 0) : Type 0 where
  pub service : Option E
  pub message : Text
  pub sources : List Text

pub data Answer (E A : Type 0) : Type 0 where
  answered : A → Answer E A
  refused : SdkError E → Answer E A

-- The variants of `CreateTokenError` that the program tells apart; an invalid request may have a
-- reason.
pub data TokenError : Type 0 where
  invalid_grant expired_token invalid_client unauthorized_client other_error : TokenError
  invalid_token_request : Option Text → TokenError

pub data SsoError : Type 0 where
  unauthorized other_sso_error : SsoError

pub record TokenOutput : Type 0 where
  pub access_token : Option Text
  pub expires_in : ℤ
  pub refresh_token : Option Text

pub record RegisterOutput : Type 0 where
  pub client_id : Option Text
  pub client_secret : Option Text
  pub client_secret_expires_at : ℤ

pub record AccountInfo : Type 0 where
  pub account_id : Option Text
  pub account_name : Option Text
  pub email_address : Option Text

pub record AccountsOutput : Type 0 where
  pub account_list : List AccountInfo
  pub next_token : Option Text

pub record RolesOutput : Type 0 where
  pub role_names : List (Option Text)
  pub next_token : Option Text

pub record RoleCredentials : Type 0 where
  pub access_key_id : Option Text
  pub secret_access_key : Option Text
  pub session_token : Option Text
  pub expiration : ℤ

-- What a token is asked for with.
pub data TokenGrant : Type 0 where
  authorization_code : Text → Text → Text → TokenGrant
  refresh_token_grant : Text → TokenGrant

pub record TokenRequest : Type 0 where
  pub region : Text
  pub client_id : Text
  pub client_secret : Text
  pub grant : TokenGrant

pub data Call : Type 0 where
  creates_token : TokenRequest → Call
  registers_client : Text → Text → Call
  lists_accounts : Text → Text → Option Text → Call
  lists_roles : Text → Text → Text → Option Text → Call
  gets_credentials : Text → Text → Text → Text → Call

pub record Service : Type 0 where
  pub create_token : ℕ → TokenRequest → Answer TokenError TokenOutput
  pub register_client : ℕ → Text → Text → Answer (Unit {0}) RegisterOutput
  pub list_accounts : ℕ → Text → Text → Option Text → Answer SsoError AccountsOutput
  pub list_account_roles : ℕ → Text → Text → Text → Option Text → Answer SsoError RolesOutput
  pub get_role_credentials :
      ℕ → Text → Text → Text → Text → Answer SsoError (Option RoleCredentials)
  pub resolve_endpoint : Text → Result Text
  -- `DateTime::from_timestamp_millis` and its text
  pub format_millis : ℕ → Option Text

-- The settings that an operation of the broker works on, the service, its log and the clock.
pub record Session : Type 0 where
  pub settings : AwsSettings
  pub service : Service
  pub log : List Call
  pub seconds : ℕ → ℕ
  pub reads : ℕ

-- `now_seconds()`
abbrev pub now_seconds : Exec Session ℕ
now_seconds s = (ok (s.seconds s.reads), record s { reads = suc s.reads })

-- a call of the service
abbrev pub call : {A : Type 0} → Call → (ℕ → A) → Exec Session A
call c answer s = (ok (answer (length s.log)), record s { log = s.log ++ c ∷ [] })
