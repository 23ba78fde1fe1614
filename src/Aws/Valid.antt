-- ===== src/Aws/Valid.antt =====
-- What `AwsSettings::validate` accepts.
use secretd.Prelude.{
  ◌≤◌, ◌≡◌, ◌≢◌, refl, ◌↔◌, ◌⊎◌, inl, inr, Bool, true, false, not, some, List, [], ◌∷◌, arith, All,
  any-false_iff, all_iff, find, ltb, ◌==◌, if◌then◌else◌,
}
use secretd.Prelude.Text.{
  Text, codes, same_text_iff, trim, byte_len, is_control, is_ascii_digit, starts_with, is_empty,
}
use secretd.Prelude.Result.{Result, ok, err, ◌>>◌, fail_if, Failure, account_invalid}
use secretd.Aws.Defs.{AwsTarget, AwsDiscoveredAccount, AwsSettings}
use secretd.Aws.Check.{
  validate_identifier, validate_aws_profile, is_profile_byte, is_account_id, validate_roles,
  validate_role_names, is_account, offers_roles,
}

pub record IsIdentifier (value : Text) : Type 0 where
  pub trimmed : trim value ≡ value
  pub not_empty : value ≢ []
  pub short : byte_len value ≤ 128
  pub printable : All (λ c. is_control c ≡ false) value

pub record IsProfile (profile : Text) : Type 0 where
  pub not_empty : profile ≢ []
  pub short : byte_len profile ≤ 128
  pub plain : All (λ c. is_profile_byte c ≡ true) profile

-- twelve ASCII digits
pub record IsAccountId (id : Text) : Type 0 where
  pub twelve : byte_len id ≡ 12
  pub digits : All (λ c. is_ascii_digit c ≡ true) id

pub record IsTarget (target : AwsTarget) : Type 0 where
  pub profile : IsProfile target.profile
  pub account : IsAccountId target.account_id
  pub read_only : IsIdentifier target.read_only_role
  pub admin : IsIdentifier target.admin_role
  pub region : (target.region ≡ []) ⊎ IsIdentifier target.region

pub record IsAccount (account : AwsDiscoveredAccount) : Type 0 where
  pub id : IsAccountId account.account_id
  pub name : All (λ c. is_control c ≡ false) account.account_name
  pub email : All (λ c. is_control c ≡ false) account.email_address
  pub roles : All IsIdentifier account.roles

-- no two elements have the same key
abbrev pub DistinctBy : {A : Type 0} → (A → Text) → List A → Type 0
DistinctBy key [] = Unit
DistinctBy key (x ∷ xs) = All (λ y. key y ≢ key x) xs × DistinctBy key xs

-- the account with the target's number offers both of its roles
abbrev pub IsAssigned : List AwsDiscoveredAccount → AwsTarget → Type 0
IsAssigned accounts target =
    (account : AwsDiscoveredAccount) × (find (is_account target.account_id) accounts ≡ some account)
    × (account.account_id ≡ target.account_id)
    × (offers_roles target account ≡ true)

pub record IsValid (settings : AwsSettings) : Type 0 where
  pub https : starts_with settings.start_url (codes "https://") ≡ true
  pub printable : All (λ c. is_control c ≡ false) settings.start_url
  pub region : IsIdentifier settings.sso_region
  pub targets : All IsTarget settings.targets
  pub profiles : DistinctBy (λ (target : AwsTarget). target.profile) settings.targets
  pub accounts : All IsAccount settings.discovered_accounts
  pub account_ids :
      DistinctBy
        (λ (account : AwsDiscoveredAccount). account.account_id)
        settings.discovered_accounts
  pub assigned :
      (settings.discovered_accounts ≡ [])
      ⊎ All (IsAssigned settings.discovered_accounts) settings.targets

pub empty_iff : (s : Text) → (is_empty s ≡ false) ↔ (s ≢ [])
empty_iff [] = (λ e. cc, λ h. absurd (h refl))
empty_iff (c ∷ s) = (λ e p. cc, λ h. refl)

pub validate_identifier_iff :
    (value label : Text) → (validate_identifier value label ≡ ok tt) ↔ IsIdentifier value
unfolding validate_identifier
validate_identifier_iff value label =
    let trims = same_text_iff (trim value) value in
    let fills = empty_iff value in
    let prints = any-false_iff is_control value in
    (
      λ e. record {
        trimmed = trims.0 (ground arith);
        not_empty = fills.0 (ground arith);
        short = ground arith;
        printable = prints.0 (ground arith);
      },
      λ h.
          let long : ltb 128 (byte_len value) ≡ false = ground (arith, h.short) in
          rw (trims.1 h.trimmed, fills.1 h.not_empty, long, prints.1 h.printable) refl,
    )

-- A profile is accepted exactly when it is not empty, has at most 128 bytes and consists of ASCII
-- letters, digits, dashes and underscores.
pub validate_aws_profile_iff :
    (profile : Text) → (validate_aws_profile profile ≡ ok tt) ↔ IsProfile profile
unfolding validate_aws_profile
validate_aws_profile_iff profile =
    let fills = empty_iff profile in
    let bytes = all_iff is_profile_byte profile in
    (
      λ e. record {
        not_empty = fills.0 (ground arith);
        short = ground arith;
        plain = bytes.0 (ground arith);
      },
      λ h.
          let long : ltb 128 (byte_len profile) ≡ false = ground (arith, h.short) in
          rw (fills.1 h.not_empty, long, bytes.1 h.plain) refl,
    )

pub is_account_id_iff : (id : Text) → (is_account_id id ≡ true) ↔ IsAccountId id
is_account_id_iff id =
    let digits = all_iff is_ascii_digit id in
    (
      λ e. record { twelve = ground arith; digits = digits.0 (ground arith) },
      λ h.
          let twelve : (byte_len id == 12) ≡ true = ground (arith, h.twelve) in
          rw twelve (digits.1 h.digits),
    )

-- a step that passes leaves the rest
pub then_iff :
    (step rest : Result (Unit {0})) → ((step >> rest) ≡ ok tt) ↔ ((step ≡ ok tt) × (rest ≡ ok tt))
then_iff (ok tt) rest = (λ e. (refl, e), λ h. h.1)
then_iff (err f) rest = (λ e. cc, λ h. cc (h.0))

region_iff :
    (region : Text)
    → ((if is_empty region then ok tt else validate_identifier region (codes "AWS region")) ≡ ok tt)
      ↔ ((region ≡ []) ⊎ IsIdentifier region)
region_iff [] = (λ e. inl refl, λ h. refl)
region_iff (c ∷ s) =
    let id = validate_identifier_iff (c ∷ s) (codes "AWS region") in
    (λ e. inr (id.0 e), λ h. elim h [ inl e ↦ cc | inr i ↦ id.1 i ])

pub roles_iff : (names : List Text) → (validate_role_names names ≡ ok tt) ↔ All IsIdentifier names
unfolding validate_role_names
roles_iff [] = (λ e. tt, λ h. refl)
roles_iff (name ∷ names) =
    let both = then_iff (validate_identifier name (codes "AWS role")) (validate_role_names names) in
    let id = validate_identifier_iff name (codes "AWS role") in
    let ih = roles_iff names in
    (λ e. let p = both.0 e in (id.0 p.0, ih.0 p.1), λ h. both.1 (id.1 h.0, ih.1 h.1))

pub fail_if_iff : (test : Bool) (e : Failure) → (fail_if test e ≡ ok tt) ↔ (test ≡ false)
fail_if_iff true e = (λ h. cc, λ h. cc)
fail_if_iff false e = (λ h. refl, λ h. refl)

pub not_iff : (b : Bool) → (not b ≡ false) ↔ (b ≡ true)
not_iff b = ground arith

pub IsTarget-iff :
    (target : AwsTarget)
    → ((validate_aws_profile target.profile ≡ ok tt) × (validate_roles target ≡ ok tt))
      ↔ IsTarget target
unfolding validate_roles
IsTarget-iff target =
    let profile = validate_aws_profile_iff target.profile in
    let account = is_account_id_iff target.account_id in
    let number =
      fail_if_iff (not (is_account_id target.account_id)) (account_invalid target.profile) in
    let flip = not_iff (is_account_id target.account_id) in
    let read_only = validate_identifier_iff target.read_only_role (codes "read-only role") in
    let admin = validate_identifier_iff target.admin_role (codes "admin role") in
    let region = region_iff target.region in
    (
      λ e.
          let first = (then_iff _ _).0 e.1 in
          let second = (then_iff _ _).0 first.1 in
          let third = (then_iff _ _).0 second.1 in
          record {
            profile = profile.0 e.0;
            account = account.0 (flip.0 (number.0 first.0));
            read_only = read_only.0 second.0;
            admin = admin.0 third.0;
            region = region.0 third.1;
          },
      λ h. (
        profile.1 h.profile,
        (then_iff _ _).1 (
          number.1 (flip.1 (account.1 h.account)),
          (then_iff _ _).1
              (read_only.1 h.read_only, (then_iff _ _).1 (admin.1 h.admin, region.1 h.region)),
        ),
      ),
    )
