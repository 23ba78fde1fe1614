-- ===== src/Aws/Check.antt =====
-- src/aws.rs: the methods of `AwsSettings`, and the tests that they call.
use mathlib.Core.Option
use secretd.Prelude.{
  ℕ, Bool, false, ◌&&◌, ◌||◌, not, none, some, List, [], ◌∷◌, ltb, leb, ◌==◌, if◌then◌else◌, find,
  any, all,
}
use secretd.Prelude.Text.{
  Text, codes, same_text, trim, byte_len, is_control, is_ascii_digit, is_ascii_alphanumeric,
  starts_with, contains_text, is_empty,
}
use secretd.Prelude.Result.{
  Result, ok, ◌>>=◌, ◌>>◌, fail_if, ok_or, portal_url, profile_invalid, discovery_account,
  discovery_metadata, identifier_invalid, profile_duplicated, account_invalid, account_unassigned,
  role_unassigned, profile_unknown,
}
use secretd.Prelude.Word.{saturating_add}
use secretd.Aws.Defs.{
  AwsAccessLevel, read_only, admin, AwsTarget, AwsDiscoveredAccount, AwsSsoToken, AwsConfiguration,
  AwsSettings, AwsSettingsSummary,
}

unfoldable pub role : AwsTarget → AwsAccessLevel → Text
role target read_only = target.read_only_role
role target admin = target.admin_role

unfoldable pub validate_identifier : Text → Text → Result (Unit {0})
validate_identifier value label =
    fail_if
      (not (same_text (trim value) value)
        || is_empty value
        || ltb 128 (byte_len value)
        || any is_control value)
      (identifier_invalid label)

abbrev pub is_profile_byte : ℕ → Bool
is_profile_byte c = is_ascii_alphanumeric c || (c == b'-') || (c == b'_')

unfoldable pub validate_aws_profile : Text → Result (Unit {0})
validate_aws_profile profile =
    fail_if (is_empty profile || ltb 128 (byte_len profile) || not (all is_profile_byte profile))
      profile_invalid

-- a text of twelve ASCII digits
abbrev pub is_account_id : Text → Bool
is_account_id id = (byte_len id == 12) && all is_ascii_digit id

validate_region : Text → Result (Unit {0})
validate_region region =
    if is_empty region then ok tt else validate_identifier region (codes "AWS region")

-- one round of the loop over the targets, without the test for a duplicate
unfoldable pub validate_roles : AwsTarget → Result (Unit {0})
unfolding validate_region
validate_roles target = do
  fail_if (not (is_account_id target.account_id)) (account_invalid target.profile)
  validate_identifier target.read_only_role (codes "read-only role")
  validate_identifier target.admin_role (codes "admin role")
  validate_region target.region

-- `profiles` holds the profiles of the targets before.
unfoldable pub validate_targets : List Text → List AwsTarget → Result (Unit {0})
unfolding validate_roles
validate_targets profiles [] = ok tt
validate_targets profiles (target ∷ targets) = do
  validate_aws_profile target.profile
  fail_if (contains_text target.profile profiles) (profile_duplicated target.profile)
  validate_roles target
  validate_targets (target.profile ∷ profiles) targets

unfoldable pub validate_role_names : List Text → Result (Unit {0})
validate_role_names [] = ok tt
validate_role_names (name ∷ names) = do
  validate_identifier name (codes "AWS role")
  validate_role_names names

unfoldable pub validate_accounts : List Text → List AwsDiscoveredAccount → Result (Unit {0})
validate_accounts seen [] = ok tt
validate_accounts seen (account ∷ accounts) = do
  fail_if (not (is_account_id account.account_id) || contains_text account.account_id seen)
      discovery_account
  fail_if (any is_control account.account_name || any is_control account.email_address)
      discovery_metadata
  validate_role_names account.roles
  validate_accounts (account.account_id ∷ seen) accounts

abbrev pub is_account : Text → AwsDiscoveredAccount → Bool
is_account id account = same_text account.account_id id

abbrev pub offers_roles : AwsTarget → AwsDiscoveredAccount → Bool
offers_roles target account =
    contains_text target.read_only_role account.roles
    && contains_text target.admin_role account.roles

unfoldable pub validate_assignments : List AwsDiscoveredAccount → List AwsTarget → Result (Unit {0})
validate_assignments accounts [] = ok tt
validate_assignments accounts (target ∷ targets) = do
  account ← ok_or (find (is_account target.account_id) accounts) (account_unassigned target.profile)
  fail_if (not (offers_roles target account)) (role_unassigned target.profile)
  validate_assignments accounts targets

-- nothing is assigned before the first discovery
unfoldable pub validate_discovered : List AwsDiscoveredAccount → List AwsTarget → Result (Unit {0})
unfolding validate_assignments
validate_discovered [] targets = ok tt
validate_discovered (account ∷ accounts) targets = validate_assignments (account ∷ accounts) targets

unfoldable pub validate : AwsSettings → Result (Unit {0})
validate settings = do
  fail_if
      (not (starts_with settings.start_url (codes "https://")) || any is_control settings.start_url)
      portal_url
  validate_identifier settings.sso_region (codes "SSO region")
  validate_targets [] settings.targets
  validate_accounts [] settings.discovered_accounts
  validate_discovered settings.discovered_accounts settings.targets

abbrev pub has_profile : Text → AwsTarget → Bool
has_profile profile target = same_text target.profile profile

-- `AwsSettings::target`
unfoldable pub target : Text → AwsSettings → Result AwsTarget
target profile settings =
    ok_or (find (has_profile profile) settings.targets) (profile_unknown profile)

abbrev pub expiry_skew_seconds : ℕ
expiry_skew_seconds = 60

unfoldable pub token_expired : ℕ → AwsSsoToken → Bool
token_expired now_seconds token =
    leb token.access_token_expires_at (saturating_add now_seconds expiry_skew_seconds)

unfoldable pub logged_in : ℕ → AwsSettings → Bool
unfolding token_expired
logged_in now_seconds settings = elim settings.token [
  | none ↦ false
  | some token ↦ not (is_empty token.refresh_token) || not (token_expired now_seconds token)
]

unfoldable pub summary : ℕ → AwsSettings → AwsSettingsSummary
unfolding logged_in
summary now_seconds settings = record {
  configuration = record {
    start_url = settings.start_url;
    sso_region = settings.sso_region;
    targets = settings.targets;
  };
  discovered_accounts = settings.discovered_accounts;
  discovery_complete = settings.discovery_complete;
  logged_in = logged_in now_seconds settings;
  access_token_expires_at =
      Option.map (λ (token : AwsSsoToken). token.access_token_expires_at) settings.token;
}

abbrev pub configured : AwsConfiguration → AwsSettings → AwsSettings
configured configuration settings = record settings {
  start_url = configuration.start_url;
  sso_region = configuration.sso_region;
  targets = configuration.targets;
}

-- the settings without a session, a discovery and targets
abbrev pub disconnected : AwsSettings → AwsSettings
disconnected settings = record settings {
  registration = none;
  token = none;
  discovered_accounts = [];
  discovery_complete = false;
  targets = [];
}

abbrev pub connection_changed : AwsConfiguration → AwsSettings → Bool
connection_changed configuration settings =
    not (same_text settings.start_url configuration.start_url)
    || not (same_text settings.sso_region configuration.sso_region)

-- `update_configuration`: the caller drops the settings where the new ones are refused.
unfoldable pub update_configuration : AwsConfiguration → AwsSettings → Result AwsSettings
update_configuration configuration settings =
    let updated = configured configuration settings in
    do
      validate updated
      ok (if connection_changed configuration settings then disconnected updated else updated)

unfoldable pub from_configuration : AwsConfiguration → Result AwsSettings
from_configuration configuration =
    let settings : AwsSettings = record {
      start_url = configuration.start_url;
      sso_region = configuration.sso_region;
      targets = configuration.targets;
      discovered_accounts = [];
      discovery_complete = false;
      registration = none;
      token = none;
    } in
    do validate settings; ok settings
