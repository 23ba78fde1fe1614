-- ===== src/App/Aliases.antt =====
-- src/app.rs: the aliases that the owner gives to the accounts.
use mathlib.Core.Option
use secretd.Aws.{read_only, admin, AwsAccessLevel, AwsTarget, AwsDiscoveredAccount}
use secretd.Prelude.{
  ℕ, Option, none, some, List, [], ◌∷◌, ◌++◌, map, if◌then◌else◌, retain, unwrap_or, leb, not, find,
  ◌&&◌, any, ◌+◌,
}
use secretd.Prelude.Result.{
  Result, ok, fail_if, ◌>>=◌, ◌>>◌, read_only_role_unselected, admin_role_unselected,
}
use secretd.Prelude.Text.{
  Text, split, is_ascii_alphanumeric, is_empty, codes, contains_text, trim, same_text, contains,
  to_ascii_lowercase, slice_from,
}

-- a letter or digit in lower case, and a dash for every other character
abbrev pub alias_character : ℕ → ℕ
alias_character c =
    if is_ascii_alphanumeric c then (if leb b'A' c && leb c b'Z' then c + 32 else c) else b'-'

-- `join("-")`
unfoldable pub join_dashes : List Text → Text
join_dashes [] = []
join_dashes (part ∷ []) = part
join_dashes (part ∷ next ∷ parts) = part ++ b'-' ∷ join_dashes (next ∷ parts)

-- `filter(|part| !part.is_empty())`
abbrev pub without_empty : List Text → List Text
without_empty parts = retain (λ part. not (is_empty part)) parts

-- `none` where the slice of the account's ID panics
unfoldable pub suggested_alias : Text → Text → Option Text
unfolding join_dashes split slice_from
suggested_alias account_name account_id =
    let alias = join_dashes (without_empty (split b'-' (map alias_character account_name))) in
    if is_empty alias
    then Option.map (λ end. codes "account-" ++ end) (slice_from 8 account_id)
    else some alias

abbrev keywords : AwsAccessLevel → List Text
keywords read_only =
    codes "readonly"
    ∷ codes "read-only"
    ∷ codes "viewonly"
    ∷ codes "view-only"
    ∷ codes "viewer"
    ∷ codes "audit"
    ∷ []
keywords admin = codes "administrator" ∷ codes "admin" ∷ []

unfoldable pub suggested_role : List Text → AwsAccessLevel → Text
suggested_role roles level =
    unwrap_or (find (λ role. any (contains (to_ascii_lowercase role)) (keywords level)) roles) []

-- The inputs for an account, as the form begins with them.
pub record AwsAliasInputs : Type 0 where
  pub account_id : Text
  pub account_name : Text
  pub email_address : Text
  pub roles : List Text
  pub profile : Text
  pub read_only_role : Text
  pub admin_role : Text
  pub region : Text

-- the profile, with the end of the account's ID where it is used before
unfoldable pub unused_profile : List Text → Text → Text → Option Text
unfolding slice_from
unused_profile used profile account_id =
    if contains_text profile used
    then Option.map (λ end. profile ++ b'-' ∷ end) (slice_from 8 account_id)
    else some profile

-- The profile that the form begins with; `none` where a slice panics.
unfoldable pub profile_for : List Text → Option AwsTarget → AwsDiscoveredAccount → Option Text
unfolding unused_profile suggested_alias
profile_for used (some target) account = unused_profile used target.profile account.account_id
profile_for used none account =
    Option.bind (suggested_alias account.account_name account.account_id)
      λ profile. unused_profile used profile account.account_id

unfoldable pub inputs_for : Text → Option AwsTarget → AwsDiscoveredAccount → AwsAliasInputs
unfolding suggested_role
inputs_for profile existing account = record {
  account_id = account.account_id;
  account_name = account.account_name;
  email_address = account.email_address;
  roles = account.roles;
  profile = profile;
  read_only_role = elim existing [
    | none ↦ suggested_role account.roles read_only
    | some target ↦ target.read_only_role
  ];
  admin_role = elim existing [
    | none ↦ suggested_role account.roles admin
    | some target ↦ target.admin_role
  ];
  region = elim existing [ none ↦ [] | some target ↦ target.region ];
}

-- the loop of `open_aws_aliases`; `none` where it panics
unfoldable pub alias_inputs :
    List AwsTarget → List Text → List AwsDiscoveredAccount → Option (List AwsAliasInputs)
unfolding inputs_for profile_for
alias_inputs targets used [] = some []
alias_inputs targets used (account ∷ accounts) =
    let existing =
      find (λ (target : AwsTarget). same_text target.account_id account.account_id) targets in
    Option.bind (profile_for used existing account) λ profile.
      Option.map (λ inputs. inputs_for profile existing account ∷ inputs)
        (alias_inputs targets (profile ∷ used) accounts)

-- the loop of `save_aws_aliases`
unfoldable pub targets_from : List AwsAliasInputs → Result (List AwsTarget)
targets_from [] = ok []
targets_from (input ∷ inputs) =
    let profile = trim input.profile in
    let rest = targets_from inputs in
    if is_empty profile then rest else (do
      fail_if (not (contains_text input.read_only_role input.roles))
          (read_only_role_unselected profile)
      fail_if (not (contains_text input.admin_role input.roles)) (admin_role_unselected profile)
      targets ← rest
      ok (
          record {
            profile = profile;
            account_id = input.account_id;
            read_only_role = input.read_only_role;
            admin_role = input.admin_role;
            region = input.region;
          }
          ∷ targets))
