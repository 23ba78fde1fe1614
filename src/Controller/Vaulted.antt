-- ===== src/Controller/Vaulted.antt =====
-- src/controller.rs: the operations on the vault, the snapshot and the lock.
use mathlib.Core.List.{reverse}
use mathlib.Core.Option
use secretd.Prelude.{ℕ, false, Option, none, some, List, [], ◌∷◌, retain, if◌then◌else◌, ltb}
use secretd.Prelude.Text.{Text, same_text}
use secretd.Prelude.Map.{values, keys}
use secretd.Prelude.Sort.{sort_by_key}
use secretd.Prelude.Result.{Result, ok, err}
use secretd.Prelude.Exec.{Exec, pure, lift, modify, ◌>>=◌, ◌>>◌}
use secretd.Grants.{Grant, max_grant_seconds, list_grants}
use secretd.Aws.{AwsSettings, AwsSettingsSummary, summary}
use secretd.Aws.LoginStatus.{idle}
use secretd.Vault.{
  Platform, Host, SecretSummary, normalize_secret_name, unlocked, exists, create, unlock,
  change_password, reveal, list, rename, aws_settings,
}
use secretd.Vault
use secretd.Controller.State.{
  deny, AppSnapshot, PendingRequest, PendingAwsCredentialRequest, AwsCredentialGrant,
  AwsCredentialDenial, AwsRequestResolution, Controller,
}
use secretd.Controller.Audit.{now_millis, after_reading, send_aws}
use secretd.Controller.Requests.{prepare_waiting_requests, revoke_grant, respond}
use secretd.Controller.Session.{on_vault}

abbrev pub ok_or_default {ℓ} : {A : Type ℓ} → Result A → A → A
ok_or_default (ok a) d = a
ok_or_default (err e) d = d

-- `aws_settings().ok().flatten().map(|settings| settings.summary())`
summarized : ℕ → Result (Option AwsSettings) → Option AwsSettingsSummary
summarized now_seconds (ok settings) = Option.map (summary now_seconds) settings
summarized now_seconds (err e) = none

-- What the snapshot first drops: the decisions and denials that have run out.
unfoldable pub forget_expired : Controller → Controller
forget_expired c = record (after_reading c) {
  aws_process_decisions =
      retain (λ (grant : AwsCredentialGrant). ltb (now_millis c) grant.expires_at)
        c.aws_process_decisions;
  aws_process_denials =
      retain (λ (denial : AwsCredentialDenial). ltb (now_millis c) denial.expires_at)
        c.aws_process_denials;
}

unfoldable pub snapshot : Controller → AppSnapshot × Controller
unfolding summarized forget_expired
snapshot c =
    let d = forget_expired c in
    let (grants, store) = list_grants (now_millis d) d.grants in
    let available = unlocked d.vault in
    (
      record {
        vault_exists = ok_or_default (exists d.vault) false;
        unlocked = available;
        secrets = if available then ok_or_default (list d.vault) [] else [];
        pending = sort_by_key (λ (r : PendingRequest). r.requested_at) (values d.pending);
        pending_aws =
            sort_by_key (λ (r : PendingAwsCredentialRequest). r.requested_at)
              (values d.pending_aws);
        grants = grants;
        aws_grants = d.aws_process_decisions;
        aws_denials = d.aws_process_denials;
        audit = reverse d.audit;
        max_grant_seconds = max_grant_seconds;
        aws =
            if available
            then summarized (d.world.seconds d.world.reads) (aws_settings d.vault)
            else none;
        aws_login = d.aws_login;
      },
      record (after_reading d) { grants = store },
    )

unfoldable pub create_vault : Platform → Host → Text → Exec Controller (Unit {0})
create_vault p host password = do on_vault (create p host password); modify prepare_waiting_requests

-- `Controller::unlock`
unfoldable pub unlock_vault : Platform → Host → Text → Exec Controller (Unit {0})
unlock_vault p host password = do on_vault (unlock p host password); modify prepare_waiting_requests

-- `self.grants.list()` and a `revoke_grant` for each
unfoldable pub revoke_each : List Grant → Controller → Controller
revoke_each [] c = c
revoke_each (grant ∷ grants) c = revoke_each grants (revoke_grant grant.id c)

unfoldable pub listed : Controller → List Grant × Controller
listed c =
    let (grants, store) = list_grants (now_millis c) c.grants in
    (grants, record (after_reading c) { grants = store })

unfoldable pub revoke_all : Controller → Controller
unfolding revoke_each listed
revoke_all c = let (grants, c') = listed c in revoke_each grants c'

-- `let _ = self.respond(&id, Deny, None, None)` for each
unfoldable pub deny_each : List Text → Controller → Controller
deny_each [] c = c
deny_each (id ∷ ids) c = deny_each ids (respond id deny none none c).1

unfoldable pub deny_each_aws : List Text → Controller → Controller
deny_each_aws [] c = c
deny_each_aws (id ∷ ids) c = deny_each_aws ids (send_aws id AwsRequestResolution.denied c)

abbrev pub forget_aws : Controller → Controller
forget_aws c = record c {
  pending_aws = [];
  aws_process_decisions = [];
  aws_process_denials = [];
  aws_login = idle;
}

-- `Controller::lock`
unfoldable pub lock_all : Controller → Controller
unfolding revoke_all deny_each deny_each_aws
lock_all c =
    let locked = record c { vault = Vault.lock c.vault } in
    let revoked = revoke_all locked in
    let answered = deny_each (keys revoked.pending) revoked in
    forget_aws (deny_each_aws (keys answered.pending_aws_resolutions) answered)

-- the renaming of `save_secret`, where there is a previous name that differs
unfoldable pub rename_first : Platform → Host → Option Text → Text → Exec Controller (Unit {0})
rename_first p host none name = pure tt
rename_first p host (some previous) name = do
  old ← lift (normalize_secret_name previous)
  new ← lift (normalize_secret_name name)
  if same_text old new then pure tt else on_vault (rename p host previous name)

-- Two writes of the vault, so two hosts.
unfoldable pub save_controller_secret :
    Platform → Host → Host → Text → Text → Option Text → Exec Controller (Unit {0})
unfolding rename_first
save_controller_secret p renaming saving name value previous_name = do
  rename_first p renaming previous_name name
  on_vault (Vault.save_secret p saving name value)

unfoldable pub reveal_secret : Text → Controller → Result Text
reveal_secret name c = reveal name c.vault

-- `revoke_grant` for each listed grant of the secret
unfoldable pub revoke_named : Text → List Grant → Controller → Controller
revoke_named name [] c = c
revoke_named name (grant ∷ grants) c =
    revoke_named name grants (if same_text grant.resource name then revoke_grant grant.id c else c)

unfoldable pub delete_secret : Platform → Host → Text → Exec Controller (Unit {0})
unfolding revoke_named listed
delete_secret p host name = do
  normalized ← lift (normalize_secret_name name)
  on_vault (Vault.delete p host normalized)
  modify (λ c. let (grants, c') = listed c in revoke_named normalized grants c')

unfoldable pub change_master_password : Platform → Host → Text → Exec Controller (Unit {0})
change_master_password p host password = on_vault (change_password p host password)
