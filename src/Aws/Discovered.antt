-- ===== src/Aws/Discovered.antt =====
-- What a discovery leaves.
use secretd.Prelude.{ℕ, ◌≡◌, true, none, List, [], All, All-retain, any, inr, refl}
use secretd.Prelude.Exec.{Exec, modify, ◌>>◌}
use secretd.Prelude.Result.{ok}
use secretd.Prelude.Text.{Text}
use secretd.Aws.Defs.{AwsDiscoveredAccount, AwsSettings, AwsTarget}
use secretd.Aws.Discovery.{
  with_accounts, discover_accounts, first_of_each, account_before, pages, fetch_accounts,
  is_assigned,
}
use secretd.Aws.Sdk.{Session}
use secretd.Aws.Token.{set_settings, refresh_access_token, fresh_access_token}
use secretd.Aws.Valid.{IsValid, IsAccount, IsAssigned, IsTarget}
use secretd.Aws.Check.{validate, is_account}
use secretd.Prelude.Sort.{sort_by, All-sort_by, sort_by-All}
use secretd.Aws.Accepted.{validate_iff}
use secretd.Aws.Deduplicated.{
  IsFoundIn, found_self, All-first_of_each, first_of_each-DistinctBy, first_of_each-kept,
  DistinctBy-retain, retain-IsAssigned,
}

-- The settings after a discovery that found these accounts: every ID that was found is there, and
-- nothing that was not found; every target has an account that is there with both its roles.
pub record IsDiscovered (found : List AwsDiscoveredAccount) (settings : AwsSettings) : Type 0 where
  pub valid : IsValid settings
  pub complete : settings.discovery_complete ≡ true
  pub kept :
      All
        (λ (account : AwsDiscoveredAccount).
          any (is_account account.account_id) settings.discovered_accounts ≡ true)
        found
  pub known : All (IsFoundIn found) settings.discovered_accounts
  pub assigned : All (IsAssigned settings.discovered_accounts) settings.targets

abbrev one_of_each : List AwsDiscoveredAccount → List AwsDiscoveredAccount
one_of_each found = first_of_each [] (sort_by account_before found)

All-one_of_each :
    (P : AwsDiscoveredAccount → Type 0) (found : List AwsDiscoveredAccount)
    → All P found
    → All P (one_of_each found)
All-one_of_each P found h =
    All-first_of_each P [] (sort_by account_before found) (All-sort_by account_before P found h)

with_accounts-IsDiscovered :
    (found : List AwsDiscoveredAccount) (settings : AwsSettings)
    → All IsAccount found
    → IsValid settings
    → IsDiscovered found (with_accounts (one_of_each found) settings)
unfolding with_accounts
with_accounts-IsDiscovered found settings accounts h =
    let kept = one_of_each found in
    let apart = first_of_each-DistinctBy (sort_by account_before found) in
    let assigned = retain-IsAssigned kept settings.targets apart in
    record {
      valid = record {
        https = h.https;
        printable = h.printable;
        region = h.region;
        targets = All-retain IsTarget (is_assigned kept) settings.targets h.targets;
        profiles =
            DistinctBy-retain (λ (target : AwsTarget). target.profile) (is_assigned kept)
              settings.targets h.profiles;
        accounts = All-one_of_each IsAccount found accounts;
        account_ids = apart;
        assigned = inr assigned;
      };
      complete = refl;
      kept = sort_by-All account_before _ found (first_of_each-kept (sort_by account_before found));
      known = All-one_of_each (IsFoundIn found) found (found_self found);
      assigned = assigned;
    }

-- the end of a discovery, behind the pages
abbrev keep_accounts : List AwsDiscoveredAccount → Exec Session (Unit {0})
keep_accounts accounts = do
  modify (λ s. set_settings (with_accounts (one_of_each accounts) s.settings) s)
  λ s. (validate s.settings, s)

keep_accounts-IsDiscovered :
    (found : List AwsDiscoveredAccount) (s : Session)
    → All IsAccount found
    → IsValid s.settings
    → (t : Session) × (keep_accounts found s ≡ (ok tt, t)) × IsDiscovered found t.settings
keep_accounts-IsDiscovered found s accounts h =
    let t = set_settings (with_accounts (one_of_each found) s.settings) s in
    let discovered = with_accounts-IsDiscovered found s.settings accounts h in
    (t, rw ((validate_iff t.settings).1 discovered.valid) refl, discovered)

-- A discovery of valid settings, whose token is renewed if it has to be and is current then, and
-- whose pages can be read, give accounts that are well formed and leave the settings valid, succeeds,
-- also where the service lists an account several times. Then the settings are valid and the
-- discovery is complete; each ID that was found is there once, and no account that was not found; and
-- each target that is left has an account with both its roles.
pub discover_accounts-IsValid :
    (fuel : ℕ) (s v x u : Session) (access_token : Text) (found : List AwsDiscoveredAccount)
    → validate s.settings ≡ ok tt
    → refresh_access_token s ≡ (ok tt, v)
    → fresh_access_token v ≡ (ok access_token, x)
    → pages fuel (fetch_accounts fuel x.settings.sso_region access_token) none x ≡ (ok found, u)
    → All IsAccount found
    → IsValid u.settings
    → (t : Session) × (discover_accounts fuel s ≡ (ok tt, t)) × IsDiscovered found t.settings
unfolding discover_accounts
discover_accounts-IsValid fuel s v x u access_token found valid renewed fresh paged accounts h =
    let (t, e, discovered) = keep_accounts-IsDiscovered found u accounts h in
    (t, rw (valid, renewed) (rw fresh (rw paged e)), discovered)
