-- ===== src/Prelude/Result.antt =====
-- `Result<T, VaultError>` and `Result<T, String>`. The source's errors are messages; here each
-- message is a constructor, with the parts that `format!` puts in.
use mathlib.Core.Path.{◌≡◌, refl}
use mathlib.Core.Logic.{◌⊎◌, inl, inr}
use mathlib.Core.Bool.{Bool, true, false}
use mathlib.Core.Option.{Option, none, some}
use secretd.Prelude.Text.{Text}

pub data Failure : Type 0 where
  vault_exists password_too_short vault_locked secret_not_found : Failure
  name_invalid name_control name_segment name_reserved name_taken : Failure
  kdf_invalid unsupported_format unsupported_plaintext vault_missing : Failure
  vault_file_invalid vault_not_json salt_invalid iv_invalid ciphertext_invalid : Failure
  key_invalid bad_password plaintext_invalid encode_failed encrypt_failed : Failure
  no_parent : Failure
  io_error : Text → Failure
  grant_duration request_not_pending unverified_once no_process launchd_boundary : Failure
  process_not_in_tree grant_inactive invalid_pid : Failure
  aws_not_configured aws_login_unconfigured aws_login_running aws_setup_changed : Failure
  session_unsaved : Failure → Failure → Failure
  portal_url profile_invalid discovery_account discovery_metadata session_expired : Failure
  identifier_invalid profile_duplicated account_invalid account_unassigned : Text → Failure
  role_unassigned profile_unknown : Text → Failure
  login_failed refresh_failed register_failed accounts_failed endpoint_failed : Text → Failure
  roles_failed : Text → Text → Failure
  credentials_failed : Text → Text → Text → Failure
  missing_output : Text → Failure
  no_role_credentials credential_expiration token_expiration client_expiration : Failure
  registration_unavailable authorization_url login_timed_out login_declined : Failure
  callback_unavailable : Text → Failure
  authentication_failed invalid_request request_too_large process_unreadable : Failure
  request_denied aws_denied aws_denied_or_timed_out credentials_unencoded : Failure
  login_not_started : Text → Failure
  desktop_not_running runtime_invalid request_unencoded invalid_response : Failure
  connection_failed send_failed read_failed : Text → Failure
  connection_closed request_failed : Failure
  remote : Text → Failure
  home_unset passwords_differ no_alias connection_gone : Failure
  read_only_role_unselected admin_role_unselected : Text → Failure
  -- a loop over pages has not ended within the fuel of the model
  pages_unfinished : Failure

pub data Result {ℓ} (A : Type ℓ) : Type ℓ where
  ok : A → Result A
  err : Failure → Result A

-- `?`
infixl 5 ◌>>=◌ ◌>>◌
abbrev pub ◌>>=◌ {ℓ κ} : {A : Type ℓ} {B : Type κ} → Result A → (A → Result B) → Result B
ok a >>= f = f a
err e >>= f = err e

abbrev pub ◌>>◌ {ℓ} : {B : Type ℓ} → Result (Unit {0}) → Result B → Result B
ok u >> k = k
err e >> k = err e

-- `if test { return Err(e); }`
abbrev pub fail_if : Bool → Failure → Result (Unit {0})
fail_if true e = err e
fail_if false e = ok tt

abbrev pub ok_or {ℓ} : {A : Type ℓ} → Option A → Failure → Result A
ok_or none e = err e
ok_or (some a) e = ok a

abbrev pub is_ok {ℓ} : {A : Type ℓ} → Result A → Bool
is_ok (ok a) = true
is_ok (err e) = false

-- A chain that succeeds has passed its first step, and what follows has succeeded on its value.
pub bind-ok {ℓ κ} :
    {A : Type ℓ} {B : Type κ} (m : Result A) (k : A → Result B) {b : B}
    → (m >>= k) ≡ ok b
    → (a : A) × (m ≡ ok a) × (k a ≡ ok b)
bind-ok (ok a) k e = (a, refl, e)
bind-ok (err f) k e = cc

pub ok_or-ok {ℓ} : {A : Type ℓ} (o : Option A) (f : Failure) {a : A} → ok_or o f ≡ ok a → o ≡ some a
ok_or-ok none f e = cc
ok_or-ok (some x) f e = cc

pub fail_if-ok : (test : Bool) (f : Failure) {u : Unit {0}} → fail_if test f ≡ ok u → test ≡ false
fail_if-ok true f e = cc
fail_if-ok false f e = refl

pub Result-cases {ℓ} :
    {A : Type ℓ} (r : Result A) → ((a : A) × (r ≡ ok a)) ⊎ ((f : Failure) × (r ≡ err f))
Result-cases (ok a) = inl (a, refl)
Result-cases (err f) = inr (f, refl)
