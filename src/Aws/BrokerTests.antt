-- ===== src/Aws/BrokerTests.antt =====
-- The broker at concrete inputs.
use secretd.Prelude.{
  ℕ, ◌≡◌, refl, true, false, none, some, Option, List, [], ◌∷◌, ◌++◌, arith, ◌↔◌, ◌≤◌,
  any-false_iff,
}
use secretd.Prelude.Text.{Text, codes, is_control}
use secretd.Prelude.Int.{pos}
use secretd.Prelude.Exec.{Exec}
use secretd.Prelude.Result.{ok, err, session_expired}
use secretd.Aws.Tests.{saved}
use secretd.Aws.Sdk.{SdkError, Service, Session, TokenError, refused, answered, AccountInfo}
use secretd.Aws.Defs.{AwsSettings, AwsDiscoveredAccount}
use secretd.Aws.Token.{refresh_access_token, fresh_access_token}
use secretd.Aws.Renewal.{Failed, refresh_access_token-Failed}
use secretd.Aws.Browser.{UrlCrate, parse_callback}
use secretd.Aws.Callback.{IsCompleted, parse_callback-IsCompleted}
use secretd.Aws.Pages.{Served, pages_complete}
use secretd.Aws.Discovery.{pages, discover_accounts, fetch_accounts}
use secretd.Aws.Valid.{IsAccount, is_account_id_iff, roles_iff}
use secretd.Aws.Discovered.{discover_accounts-IsValid, IsDiscovered}
use secretd.Aws.Check.{validate}
use secretd.Aws.Accepted.{validate_iff}

abbrev rejected : SdkError TokenError
rejected = record {
  service = some TokenError.invalid_grant;
  message = codes "rejected";
  sources = [];
}

-- A service that rejects every token, has one account with two roles, and gives credentials.
abbrev pub service : Service
service = record {
  create_token = λ n request. refused rejected;
  register_client = λ n region url. refused (record { service = none; message = []; sources = [] });
  list_accounts = λ n region token next. answered (record {
    account_list =
        record {
          account_id = some (codes "123456789012");
          account_name = some (codes "Main");
          email_address = none;
        }
        ∷ [];
    next_token = none;
  });
  list_account_roles = λ n region token account next. answered (record {
    role_names = some (codes "ReadOnly") ∷ some (codes "Admin") ∷ [];
    next_token = none;
  });
  get_role_credentials = λ n region account role token. answered (
      some (record {
        access_key_id = some (codes "key");
        secret_access_key = some (codes "secret");
        session_token = some (codes "session");
        expiration = pos 5000;
      }));
  resolve_endpoint = λ region. ok (codes "https://oidc.example.com/");
  format_millis = λ n. some (codes "1970-01-01T00:00:05Z");
}

abbrev pub with_session : ℕ → AwsSettings
with_session expires_at = record saved {
  registration = some (record {
    client_id = codes "client";
    client_secret = codes "hidden";
    client_secret_expires_at = 9000;
    authorization_endpoint = codes "https://oidc.example.com/authorize";
  });
  token = some (record {
    access_token = codes "access";
    access_token_expires_at = expires_at;
    refresh_token = codes "refresh";
  });
}

abbrev pub session : ℕ → Session
session expires_at = record {
  settings = with_session expires_at;
  service = service;
  log = [];
  seconds = λ n. 1000;
  reads = 0;
}

abbrev after_rejection : Session
after_rejection = (refresh_access_token (session 900)).1

rejects : refresh_access_token (session 900) ≡ (err session_expired, after_rejection)
unfolding refresh_access_token secretd.Aws.Check.token_expired secretd.Aws.Token.refresh_token_error
rejects = refl

refresh_access_token_example : Failed session_expired (session 900) after_rejection
refresh_access_token_example =
    refresh_access_token-Failed (session 900) after_rejection session_expired rejects

abbrev urls : UrlCrate
urls = record {
  scheme_and_host = λ url. none;
  append_pairs = λ url pairs. url;
  join = λ url target.
      some (codes "/oauth/callback", (codes "state", codes "s1") ∷ (codes "code", codes "c1") ∷ []);
}

abbrev callback : Text
callback = codes "GET /oauth/callback?state=s1&code=c1 HTTP/1.1"

completes :
    parse_callback urls callback (codes "http://127.0.0.1") (codes "s1") ≡ some (ok (codes "c1"))
unfolding parse_callback secretd.Prelude.Text.same_text
completes = refl

parse_callback_example :
    IsCompleted urls callback (codes "http://127.0.0.1") (codes "s1") (codes "c1")
parse_callback_example =
    parse_callback-IsCompleted urls callback (codes "http://127.0.0.1") (codes "s1") (codes "c1")
      completes

-- two pages
abbrev fetch : Option Text → Exec Session (List ℕ × Option Text)
fetch none s = (ok (1 ∷ [], some (codes "next")), s)
fetch (some token) s = (ok (2 ∷ [], none), s)

pages_example :
    (pages 5 fetch none (session 900) ≡ (ok (1 ∷ 2 ∷ []), session 900))
    ↔ ((n : ℕ) × (n ≤ 5) × Served fetch n none (session 900) (1 ∷ 2 ∷ []) (session 900))
pages_example = pages_complete fetch 5 none (session 900) (session 900) (1 ∷ 2 ∷ [])

-- a service that lists the account twice
abbrev main_info : AccountInfo
main_info = record {
  account_id = some (codes "123456789012");
  account_name = some (codes "Main");
  email_address = none;
}

abbrev twice : Session
twice = record (session 5000) {
  service = record service {
    list_accounts = λ n region token next.
        answered (record { account_list = main_info ∷ main_info ∷ []; next_token = none });
  };
}

abbrev main_account : AwsDiscoveredAccount
main_account = record {
  account_id = codes "123456789012";
  account_name = codes "Main";
  email_address = [];
  roles = codes "Admin" ∷ codes "ReadOnly" ∷ [];
}

abbrev renewed : Session
renewed = (refresh_access_token twice).1

abbrev ready : Session
ready = (fresh_access_token renewed).1

abbrev read_pages : Session
read_pages = (pages 3 (fetch_accounts 3 ready.settings.sso_region (codes "access")) none ready).1

accepts : validate twice.settings ≡ ok tt
unfolding validate secretd.Prelude.Text.starts_with secretd.Prelude.any is_control
    secretd.Aws.Check.validate_identifier secretd.Prelude.Text.same_text secretd.Prelude.Text.trim
    secretd.Prelude.Text.byte_len secretd.Aws.Check.validate_targets
    secretd.Aws.Check.validate_aws_profile secretd.Prelude.all
    secretd.Prelude.Text.is_ascii_alphanumeric secretd.Prelude.Text.contains_text
    secretd.Aws.Check.validate_accounts secretd.Aws.Check.validate_discovered
accepts = refl

renews : refresh_access_token twice ≡ (ok tt, renewed)
unfolding refresh_access_token secretd.Aws.Check.token_expired
renews = refl

is_fresh : fresh_access_token renewed ≡ (ok (codes "access"), ready)
unfolding fresh_access_token secretd.Aws.Token.fresh_token refresh_access_token
    secretd.Aws.Check.token_expired
is_fresh = refl

reads :
    pages 3 (fetch_accounts 3 ready.settings.sso_region (codes "access")) none ready
    ≡ (ok (main_account ∷ main_account ∷ []), read_pages)
unfolding pages fetch_accounts fresh_access_token secretd.Aws.Token.fresh_token refresh_access_token
    secretd.Aws.Check.token_expired secretd.Prelude.Text.text_lt
    secretd.Prelude.Text.to_ascii_lowercase secretd.Prelude.Text.same_text
reads = refl

unchanged : validate read_pages.settings ≡ ok tt
unfolding pages fetch_accounts fresh_access_token secretd.Aws.Token.fresh_token refresh_access_token
    secretd.Aws.Check.token_expired secretd.Prelude.Text.text_lt
    secretd.Prelude.Text.to_ascii_lowercase secretd.Prelude.Text.same_text validate
    secretd.Prelude.Text.starts_with secretd.Prelude.any is_control
    secretd.Aws.Check.validate_identifier secretd.Prelude.Text.trim secretd.Prelude.Text.byte_len
    secretd.Aws.Check.validate_targets secretd.Aws.Check.validate_aws_profile secretd.Prelude.all
    secretd.Prelude.Text.is_ascii_alphanumeric secretd.Prelude.Text.contains_text
    secretd.Aws.Check.validate_accounts secretd.Aws.Check.validate_discovered
unchanged = refl

main_account-IsAccount : IsAccount main_account
unfolding secretd.Prelude.Text.byte_len secretd.Prelude.all secretd.Prelude.Text.is_ascii_digit
    secretd.Prelude.any is_control secretd.Aws.Check.validate_role_names
    secretd.Aws.Check.validate_identifier secretd.Prelude.Text.same_text secretd.Prelude.Text.trim
main_account-IsAccount = record {
  id = (is_account_id_iff main_account.account_id).0 refl;
  name = (any-false_iff is_control main_account.account_name).0 refl;
  email = tt;
  roles = (roles_iff main_account.roles).0 refl;
}

discover_accounts_example :
    (t : Session) × (discover_accounts 3 twice ≡ (ok tt, t))
    × IsDiscovered (main_account ∷ main_account ∷ []) t.settings
discover_accounts_example =
    discover_accounts-IsValid 3 twice renewed ready read_pages (codes "access")
      (main_account ∷ main_account ∷ []) accepts renews is_fresh reads
      (main_account-IsAccount, (main_account-IsAccount, tt))
      ((validate_iff read_pages.settings).0 unchanged)
