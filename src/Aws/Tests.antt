-- ===== src/Aws/Tests.antt =====
-- The AWS settings at concrete inputs.
use secretd.Prelude.{
  ℕ, ◌≡◌, ◌↔◌, ◌≢◌, ◌⊎◌, inl, inr, refl, true, false, some, none, List, [], ◌∷◌, ap, Bool, arith,
  first,
}
use secretd.Prelude.Text.{Text, codes}
use secretd.Prelude.Result.{ok}
use secretd.Aws.{
  AwsTarget, AwsDiscoveredAccount, AwsConfiguration, AwsSettings, validate, validate_aws_profile,
  update_configuration, configured, disconnected, from_configuration,
}
use secretd.Aws.Valid.{IsValid}
use secretd.Aws.Accepted.{validate_iff}
use secretd.Aws.Configuration.{update_configuration-IsValid}

abbrev pub production : AwsTarget
production = record {
  profile = codes "production";
  account_id = codes "123456789012";
  read_only_role = codes "ReadOnly";
  admin_role = codes "Admin";
  region = codes "eu-west-1";
}

abbrev pub setup : AwsConfiguration
setup = record {
  start_url = codes "https://example.awsapps.com/start";
  sso_region = codes "eu-west-1";
  targets = production ∷ [];
}

abbrev pub saved : AwsSettings
saved = record {
  start_url = setup.start_url;
  sso_region = setup.sso_region;
  targets = production ∷ [];
  discovered_accounts = [];
  discovery_complete = false;
  registration = none;
  token = none;
}

abbrev moved : AwsConfiguration
moved = record setup { sso_region = codes "us-east-1" }

moves : update_configuration moved saved ≡ ok (disconnected (configured moved saved))
unfolding update_configuration validate secretd.Prelude.Text.starts_with secretd.Prelude.any
    secretd.Prelude.Text.is_control secretd.Aws.validate_identifier secretd.Prelude.Text.same_text
    secretd.Prelude.Text.trim secretd.Prelude.Text.byte_len secretd.Aws.validate_targets
    validate_aws_profile secretd.Prelude.all secretd.Prelude.Text.is_ascii_alphanumeric
    secretd.Prelude.Text.contains_text secretd.Aws.validate_accounts secretd.Aws.validate_discovered
moves = refl

validate_example : (validate saved ≡ ok tt) ↔ IsValid saved
validate_example = validate_iff saved

update_configuration_example : IsValid (disconnected (configured moved saved))
update_configuration_example =
    update_configuration-IsValid moved saved (disconnected (configured moved saved)) moves
