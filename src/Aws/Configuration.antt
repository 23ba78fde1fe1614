-- ===== src/Aws/Configuration.antt =====
-- What a change of the configuration does to the saved session.
use secretd.Prelude.{◌≡◌, ◌≢◌, refl, sym, subst, ◌⊎◌, inl, inr, true, false, arith, Bool-cases}
use secretd.Prelude.Text.{same_text_iff}
use secretd.Prelude.Result.{Result, ok, err, ◌>>◌}
use secretd.Aws.Defs.{AwsConfiguration, AwsSettings}
use secretd.Aws.Check.{update_configuration, configured, disconnected, connection_changed}
use secretd.Aws.Valid.{IsValid}
use secretd.Aws.Accepted.{validate_iff}

then-ok :
    (r : Result (Unit {0})) (s updated : AwsSettings)
    → (r >> ok s) ≡ ok updated
    → (r ≡ ok tt) × (s ≡ updated)
then-ok (ok tt) s updated e = (refl, ground arith)
then-ok (err f) s updated e = cc

changed_iff :
    (configuration : AwsConfiguration) (settings : AwsSettings)
    → (settings.start_url ≢ configuration.start_url)
      ⊎ (settings.sso_region ≢ configuration.sso_region)
    → connection_changed configuration settings ≡ true
changed_iff configuration settings change =
    let url = same_text_iff settings.start_url configuration.start_url in
    let region = same_text_iff settings.sso_region configuration.sso_region in
    elim (Bool-cases (connection_changed configuration settings)) [
      | inl t ↦ t
      | inr t ↦ elim change [
        | inl differs ↦ absurd (differs (url.0 (ground arith)))
        | inr differs ↦ absurd (differs (region.0 (ground arith)))
      ]
    ]

-- A new configuration for the same portal and region, if accepted, replaces the targets alone: the
-- registration, the token and the discovery stay.
pub update_same_connection :
    (configuration : AwsConfiguration) (settings updated : AwsSettings)
    → settings.start_url ≡ configuration.start_url
    → settings.sso_region ≡ configuration.sso_region
    → update_configuration configuration settings ≡ ok updated
    → updated ≡ record settings { targets = configuration.targets }
unfolding update_configuration
update_same_connection configuration settings updated url region e =
    let same : connection_changed configuration settings ≡ false = ground (
      arith,
      same_text_iff settings.start_url configuration.start_url,
      same_text_iff settings.sso_region configuration.sso_region,
    ) in
    let result = (then-ok _ _ _ e).1 in cc (sym result, same, url, region)

-- After an accepted change of the portal or of the region nothing of the old session is left, no
-- registration, no token and no discovered account, and no target either, not even a new one.
pub update_new_connection :
    (configuration : AwsConfiguration) (settings updated : AwsSettings)
    → (settings.start_url ≢ configuration.start_url)
      ⊎ (settings.sso_region ≢ configuration.sso_region)
    → update_configuration configuration settings ≡ ok updated
    → updated ≡ disconnected (configured configuration settings)
unfolding update_configuration
update_new_connection configuration settings updated change e =
    let result = (then-ok _ _ _ e).1 in
    sym (rw (changed_iff configuration settings change) at result)

disconnected-IsValid : (settings : AwsSettings) → IsValid settings → IsValid (disconnected settings)
disconnected-IsValid settings v = record {
  https = v.https;
  printable = v.printable;
  region = v.region;
  targets = tt;
  profiles = tt;
  accounts = tt;
  account_ids = tt;
  assigned = inl refl;
}

-- What an accepted change of the configuration returns is valid.
pub update_configuration-IsValid :
    (configuration : AwsConfiguration) (settings updated : AwsSettings)
    → update_configuration configuration settings ≡ ok updated
    → IsValid updated
unfolding update_configuration
update_configuration-IsValid configuration settings updated e =
    let parts = then-ok _ _ _ e in
    let v = (validate_iff (configured configuration settings)).0 parts.0 in
    subst IsValid parts.1 (elim (Bool-cases (connection_changed configuration settings)) [
      | inl t ↦ rw t (disconnected-IsValid (configured configuration settings) v)
      | inr t ↦ rw t v
    ])
