-- ===== src/Aws/Discovery.antt =====
-- src/aws.rs: `discover_accounts` and `list_account_roles`. The loops over the pages stop at fuel;
-- a service that never ends its pages keeps the source in the loop.
use secretd.Prelude.{zero, suc}
use secretd.Prelude.Exec.{Exec, pure, throw, lift, read, modify, ◌>>=◌, ◌>>◌}
use secretd.Aws.Sdk.{unauthorized, call, lists_roles, lists_accounts}
use secretd.Prelude.{
  ℕ, Option, none, some, List, [], ◌∷◌, ◌++◌, Bool, if◌then◌else◌, not, any, retain, ◌||◌, true,
  ◌&&◌, suc, unwrap_or,
}
use secretd.Prelude.Text.{
  Text, none_or_empty, same_text, to_ascii_lowercase, contains_text, text_lt, same_option, codes,
}
use secretd.Prelude.Result.{
  Failure, session_expired, pages_unfinished, Result, ok, err, roles_failed, accounts_failed,
}
use secretd.Aws.Token.{
  aws_error_message, required, refresh_access_token, fresh_access_token, set_settings,
}
use secretd.Prelude.Sort.{sort_by}
use secretd.Aws.Defs.{AwsDiscoveredAccount, AwsTarget, AwsSettings}
use secretd.Prelude.Exec.{Exec, throw, pure}
use secretd.Aws.Sdk.{
  SdkError, Answer, AccountInfo, Session, SsoError, RolesOutput, AccountsOutput, answered, refused,
}
use secretd.Aws.Check.{validate, is_account, offers_roles}

-- the last page: no token follows, or the one that was asked with
abbrev pub is_last_page : Option Text → Option Text → Bool
is_last_page requested next = none_or_empty next || same_option next requested

-- The loop over the pages; `fetch` asks for one, and gives its items and the token that follows.
unfoldable pub pages :
    {A : Type 0}
    → ℕ
    → (Option Text → Exec Session (List A × Option Text))
    → Option Text
    → Exec Session (List A)
pages zero fetch requested = throw pages_unfinished
pages (suc fuel) fetch requested = do
  page ← fetch requested
  let rest = pages fuel fetch page.1
  if is_last_page requested page.1 then pure page.0 else (do items ← rest; pure (page.0 ++ items))

-- the names that are there
abbrev pub named_roles : List (Option Text) → List Text
named_roles [] = []
named_roles (none ∷ names) = named_roles names
named_roles (some name ∷ names) = name ∷ named_roles names

unfoldable pub sso_failure : Failure → SdkError SsoError → Failure
sso_failure other error = elim error.service [ some unauthorized ↦ session_expired | _ ↦ other ]

roles_answer : Text → Answer SsoError RolesOutput → Result (List Text × Option Text)
unfolding sso_failure aws_error_message
roles_answer account_id (answered output) = ok (named_roles output.role_names, output.next_token)
roles_answer account_id (refused error) =
    err (sso_failure (roles_failed account_id (aws_error_message error)) error)

unfoldable pub fetch_roles :
    Text → Text → Text → Option Text → Exec Session (List Text × Option Text)
unfolding roles_answer
fetch_roles region access_token account_id requested = do
  answer ← λ s.
      call (lists_roles region access_token account_id requested)
        (λ n. s.service.list_account_roles n region access_token account_id requested) s
  lift (roles_answer account_id answer)

-- `sort_by_key(to_ascii_lowercase)`
abbrev pub role_before : Text → Text → Bool
role_before left right = not (text_lt (to_ascii_lowercase right) (to_ascii_lowercase left))

-- `dedup`: a text goes where the one before it, that was kept, is the same.
unfoldable pub dedup_after : Text → List Text → List Text
dedup_after kept [] = []
dedup_after kept (t ∷ ts) =
    let dropped = dedup_after kept ts in
    let rest = dedup_after t ts in if same_text kept t then dropped else t ∷ rest

unfoldable pub dedup : List Text → List Text
unfolding dedup_after
dedup [] = []
dedup (t ∷ ts) = t ∷ dedup_after t ts

unfoldable pub list_account_roles : ℕ → Text → Text → Text → Exec Session (List Text)
unfolding fetch_roles dedup sort_by pages
list_account_roles fuel region access_token account_id = do
  roles ← pages fuel (fetch_roles region access_token account_id) none
  pure (dedup (sort_by role_before roles))

-- the accounts of one page, with their roles
unfoldable pub with_roles :
    ℕ → Text → Text → List AccountInfo → Exec Session (List AwsDiscoveredAccount)
unfolding list_account_roles required
with_roles fuel region access_token [] = pure []
with_roles fuel region access_token (account ∷ accounts) = do
  account_id ← lift (required account.account_id (codes "account ID"))
  roles ← list_account_roles fuel region access_token account_id
  rest ← with_roles fuel region access_token accounts
  pure (
      record {
        account_id = account_id;
        account_name = unwrap_or account.account_name [];
        email_address = unwrap_or account.email_address [];
        roles = roles;
      }
      ∷ rest)

accounts_answer : Answer SsoError AccountsOutput → Result AccountsOutput
unfolding sso_failure aws_error_message
accounts_answer (answered output) = ok output
accounts_answer (refused error) =
    err (sso_failure (accounts_failed (aws_error_message error)) error)

unfoldable pub fetch_accounts :
    ℕ → Text → Text → Option Text → Exec Session (List AwsDiscoveredAccount × Option Text)
unfolding accounts_answer with_roles
fetch_accounts fuel region access_token requested = do
  answer ← λ s.
      call (lists_accounts region access_token requested)
        (λ n. s.service.list_accounts n region access_token requested) s
  output ← lift (accounts_answer answer)
  accounts ← with_roles fuel region access_token output.account_list
  pure (accounts, output.next_token)

-- by the name in lower case, then by the ID
abbrev pub account_before : AwsDiscoveredAccount → AwsDiscoveredAccount → Bool
account_before left right =
    let l = to_ascii_lowercase left.account_name in
    let r = to_ascii_lowercase right.account_name in
    text_lt l r || (same_text l r && not (text_lt right.account_id left.account_id))

-- `retain(|account| seen.insert(account.account_id))`
unfoldable pub first_of_each : List Text → List AwsDiscoveredAccount → List AwsDiscoveredAccount
first_of_each seen [] = []
first_of_each seen (account ∷ accounts) =
    let dropped = first_of_each seen accounts in
    let rest = first_of_each (account.account_id ∷ seen) accounts in
    if contains_text account.account_id seen then dropped else account ∷ rest

-- a target whose account is there with both roles
abbrev pub is_assigned : List AwsDiscoveredAccount → AwsTarget → Bool
is_assigned accounts target =
    any (λ account. is_account target.account_id account && offers_roles target account) accounts

unfoldable pub with_accounts : List AwsDiscoveredAccount → AwsSettings → AwsSettings
with_accounts accounts settings = record settings {
  targets = retain (is_assigned accounts) settings.targets;
  discovered_accounts = accounts;
  discovery_complete = true;
}

unfoldable pub discover_accounts : ℕ → Exec Session (Unit {0})
unfolding refresh_access_token fresh_access_token fetch_accounts pages first_of_each sort_by
    with_accounts validate
discover_accounts fuel = do
  λ s. (validate s.settings, s)
  refresh_access_token
  access_token ← fresh_access_token
  region ← read (λ s. s.settings.sso_region)
  accounts ← pages fuel (fetch_accounts fuel region access_token) none
  modify (λ s.
      set_settings (with_accounts (first_of_each [] (sort_by account_before accounts)) s.settings)
        s)
  λ s. (validate s.settings, s)
