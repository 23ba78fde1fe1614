-- ===== src/Aws/Defs.antt =====
-- src/aws.rs: the data types.
use secretd.Prelude.{ℕ, Bool, Option, List}
use secretd.Prelude.Text.{Text}

pub data AwsAccessLevel : Type 0 where
  read_only admin : AwsAccessLevel

pub record AwsTarget : Type 0 where
  pub profile : Text
  pub account_id : Text
  pub read_only_role : Text
  pub admin_role : Text
  pub region : Text

pub record AwsDiscoveredAccount : Type 0 where
  pub account_id : Text
  pub account_name : Text
  pub email_address : Text
  pub roles : List Text

pub record AwsOidcRegistration : Type 0 where
  pub client_id : Text
  pub client_secret : Text
  pub client_secret_expires_at : ℕ
  pub authorization_endpoint : Text

pub record AwsSsoToken : Type 0 where
  pub access_token : Text
  pub access_token_expires_at : ℕ
  pub refresh_token : Text

pub record AwsConfiguration : Type 0 where
  pub start_url : Text
  pub sso_region : Text
  pub targets : List AwsTarget

pub record AwsSettings : Type 0 where
  pub start_url : Text
  pub sso_region : Text
  pub targets : List AwsTarget
  pub discovered_accounts : List AwsDiscoveredAccount
  pub discovery_complete : Bool
  pub registration : Option AwsOidcRegistration
  pub token : Option AwsSsoToken

pub record AwsSettingsSummary : Type 0 where
  pub configuration : AwsConfiguration
  pub discovered_accounts : List AwsDiscoveredAccount
  pub discovery_complete : Bool
  pub logged_in : Bool
  pub access_token_expires_at : Option ℕ
