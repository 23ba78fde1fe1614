-- ===== src/Controller/ConsistentOwner.antt =====
-- The owner's commands on the vault, on the AWS settings and on the AWS grants keep the invariant of
-- the controller.
use secretd.Prelude.{
  ℕ, none, some, Option, List, [], ◌∷◌, Bool, refl, if◌then◌else◌, inl, inr, Bool-cases, arith, not,
  true, false, Option-cases, find,
}
use secretd.Prelude.Exec.{Exec, lift, pure, modify, ◌>>=◌, ◌>>◌, read}
use secretd.Prelude.Keeps.{Keeps, bind-Keeps, then-Keeps, if-Keeps}
use secretd.Controller.Consistent.{IsConsistent, audited}
use secretd.Controller.ConsistentAws.{other_fields}
use secretd.Controller.Requested.{prepare_each-keeps, revoke_grant-keeps}
use secretd.Vault.{
  unlocked, VaultStore, Platform, Host, create, change_password, aws_settings,
  normalize_secret_name, rename, unlocked,
}
use secretd.Prelude.Result.{
  Result, ok, err, Result-cases, Failure, ok_or, grant_inactive, fail_if, vault_locked,
}
use secretd.Vault
use secretd.Controller.Requests.{prepare_waiting_requests}
use secretd.Controller.Vaulted.{
  create_vault, save_controller_secret, listed, delete_secret, change_master_password, rename_first,
  revoke_named,
}
use secretd.Controller.Session.{
  save_aws_configuration, save_aws_connection, persist_aws_session, on_vault, completed,
  complete_aws_login, discovery_failed, complete_aws_discovery_failure, prepare_aws_login,
}
use secretd.Prelude.Map.{keys}
use secretd.Prelude.Text.{Text, same_text}
use secretd.Controller.State.{Controller, AwsCredentialGrant}
use secretd.Aws.{AwsConfiguration, AwsSettings, AwsAccessLevel}
use secretd.Controller.AwsGrants.{
  revoke_aws_denial, revoke_aws_grant, switch_level, set_aws_grant_level, lift_denial, drop_grant,
  same_level, has_denial_id, has_grant_id,
}
use secretd.Grants.{Grant}
use secretd.Controller.AwsRequests.{prune_exited_aws_grants}

on_vault-Keeps : {A : Type 0} (m : Exec VaultStore A) → Keeps IsConsistent (on_vault m)
on_vault-Keeps m c h = other_fields c (on_vault m c).1 refl refl refl refl refl h

lift-Keeps : {A : Type 0} (r : Result A) → Keeps IsConsistent (lift r)
lift-Keeps r c h = h

pub prepare_waiting-Keeps : Keeps IsConsistent (modify prepare_waiting_requests)
unfolding prepare_waiting_requests
prepare_waiting-Keeps c h =
    prepare_each-keeps (keys c.waiting_for_unlock) _ (other_fields c _ refl refl refl refl refl h)

pub create_vault-Keeps :
    (p : Platform) (host : Host) (password : Text)
    → Keeps IsConsistent (create_vault p host password)
unfolding create_vault
create_vault-Keeps p host password =
    then-Keeps IsConsistent (on_vault (create p host password)) (modify prepare_waiting_requests)
      (on_vault-Keeps (create p host password)) prepare_waiting-Keeps

rename_first-Keeps :
    (p : Platform) (host : Host) (previous : Option Text) (name : Text)
    → Keeps IsConsistent (rename_first p host previous name)
unfolding rename_first
rename_first-Keeps p host none name = λ c h. h
rename_first-Keeps p host (some previous) name =
    let last : Text → Text → Exec Controller (Unit {0}) =
      λ old new. if same_text old new then pure tt else on_vault (rename p host previous name) in
    bind-Keeps IsConsistent (lift (normalize_secret_name previous))
      (λ old. lift (normalize_secret_name name) >>= last old)
      (lift-Keeps (normalize_secret_name previous))
      (λ old.
        bind-Keeps IsConsistent (lift (normalize_secret_name name)) (last old)
          (lift-Keeps (normalize_secret_name name))
          (λ new.
            if-Keeps IsConsistent (same_text old new) (pure tt)
              (on_vault (rename p host previous name)) (λ c h. h)
              (on_vault-Keeps (rename p host previous name))))

pub save_controller_secret-Keeps :
    (p : Platform) (renaming saving : Host) (name value : Text) (previous : Option Text)
    → Keeps IsConsistent (save_controller_secret p renaming saving name value previous)
unfolding save_controller_secret
save_controller_secret-Keeps p renaming saving name value previous =
    then-Keeps IsConsistent (rename_first p renaming previous name)
      (on_vault (Vault.save_secret p saving name value))
      (rename_first-Keeps p renaming previous name)
      (on_vault-Keeps (Vault.save_secret p saving name value))

revoke_named-keeps :
    (name : Text) (grants : List Grant) (c : Controller)
    → IsConsistent c
    → IsConsistent (revoke_named name grants c)
unfolding revoke_named
revoke_named-keeps name [] c h = h
revoke_named-keeps name (g ∷ grants) c h = elim (Bool-cases (same_text g.resource name)) [
  | inl same ↦ rw same (revoke_named-keeps name grants _ (revoke_grant-keeps g.id c h))
  | inr other ↦ rw other (revoke_named-keeps name grants c h)
]

revoke_of-Keeps :
    (name : Text)
    → Keeps IsConsistent (modify (λ c. let (grants, c') = listed c in revoke_named name grants c'))
unfolding listed
revoke_of-Keeps name c h =
    let (grants, d) = listed c in
    revoke_named-keeps name grants d (other_fields c d refl refl refl refl refl h)

pub delete_secret-Keeps :
    (p : Platform) (host : Host) (name : Text) → Keeps IsConsistent (delete_secret p host name)
unfolding delete_secret
delete_secret-Keeps p host name =
    let last : Text → Exec Controller (Unit {0}) =
      λ n. modify (λ c. let (grants, c') = listed c in revoke_named n grants c') in
    bind-Keeps IsConsistent (lift (normalize_secret_name name))
      (λ n. on_vault (Vault.delete p host n) >> last n) (lift-Keeps (normalize_secret_name name))
      (λ n.
        then-Keeps IsConsistent (on_vault (Vault.delete p host n)) (last n)
          (on_vault-Keeps (Vault.delete p host n)) (revoke_of-Keeps n))

pub change_master_password-Keeps :
    (p : Platform) (host : Host) (password : Text)
    → Keeps IsConsistent (change_master_password p host password)
unfolding change_master_password
change_master_password-Keeps p host password = on_vault-Keeps (change_password p host password)

pub save_aws_configuration-Keeps :
    (p : Platform) (host : Host) (configuration : AwsConfiguration)
    → Keeps IsConsistent (save_aws_configuration p host configuration)
unfolding save_aws_configuration
save_aws_configuration-Keeps p host configuration c h =
    other_fields c (save_aws_configuration p host configuration c).1 (ground arith) (ground arith)
      (ground arith) (ground arith) (ground arith) h

pub save_aws_connection-Keeps :
    (p : Platform) (host : Host) (start_url sso_region : Text)
    → Keeps IsConsistent (save_aws_connection p host start_url sso_region)
unfolding save_aws_connection
save_aws_connection-Keeps p host start_url sso_region c h =
    elim (Result-cases (aws_settings c.vault)) [
      | inr (f, locked) ↦ rw locked h
      | inl (saved, opened) ↦ rw opened (save_aws_configuration-Keeps p host _ c h)
    ]

pub persist_aws_session-Keeps :
    (p : Platform) (host : Host) (session : AwsSettings) (include_discovery : Bool)
    → Keeps IsConsistent (persist_aws_session p host session include_discovery)
unfolding persist_aws_session
persist_aws_session-Keeps p host session include_discovery c h =
    other_fields c (persist_aws_session p host session include_discovery c).1 (ground arith)
      (ground arith) (ground arith) (ground arith) (ground arith) h

completed-keeps :
    (p : Platform) (host : Host) (expires_at : ℕ) (step : Result (Unit {0}) × Controller)
    → IsConsistent step.1
    → IsConsistent (completed p host expires_at step)
unfolding completed
completed-keeps p host expires_at (ok u, c) h = other_fields c _ refl refl refl refl refl h
completed-keeps p host expires_at (err f, c) h = other_fields c _ refl refl refl refl refl h

pub complete_aws_login-keeps :
    (p : Platform) (host : Host) (result : Result AwsSettings) (c : Controller)
    → IsConsistent c
    → IsConsistent (complete_aws_login p host result c)
unfolding complete_aws_login
complete_aws_login-keeps p host (err f) c h = other_fields c _ refl refl refl refl refl h
complete_aws_login-keeps p host (ok settings) c h =
    completed-keeps p host _ _ (persist_aws_session-Keeps p host settings true c h)

discovery_failed-keeps :
    (p : Platform) (host : Host) (error : Failure) (step : Result (Unit {0}) × Controller)
    → IsConsistent step.1
    → IsConsistent (discovery_failed p host error step)
unfolding discovery_failed
discovery_failed-keeps p host error (ok u, c) h = other_fields c _ refl refl refl refl refl h
discovery_failed-keeps p host error (err f, c) h = other_fields c _ refl refl refl refl refl h

pub complete_aws_discovery_failure-keeps :
    (p : Platform) (host : Host) (settings : AwsSettings) (error : Failure) (c : Controller)
    → IsConsistent c
    → IsConsistent (complete_aws_discovery_failure p host settings error c)
unfolding complete_aws_discovery_failure
complete_aws_discovery_failure-keeps p host settings error c h =
    discovery_failed-keeps p host error _ (persist_aws_session-Keeps p host settings false c h)

pub prepare_aws_login-Keeps : Keeps IsConsistent prepare_aws_login
unfolding prepare_aws_login
prepare_aws_login-Keeps c h =
    other_fields c (prepare_aws_login c).1 (ground arith) (ground arith) (ground arith)
      (ground arith) (ground arith) h

pub revoke_aws_denial-keeps :
    (id : Text) (c : Controller) → IsConsistent c → IsConsistent (revoke_aws_denial id c)
unfolding revoke_aws_denial lift_denial
revoke_aws_denial-keeps id c h =
    elim (Option-cases (find (has_denial_id id) c.aws_process_denials)) [
      | inl none_is ↦ rw none_is h
      | inr (denial, found) ↦
          rw found (audited _ _ _ _ _ (other_fields c _ refl refl refl refl refl h))
    ]

pub revoke_aws_grant-keeps :
    (id : Text) (c : Controller) → IsConsistent c → IsConsistent (revoke_aws_grant id c)
unfolding revoke_aws_grant drop_grant
revoke_aws_grant-keeps id c h =
    elim (Option-cases (find (has_grant_id id) c.aws_process_decisions)) [
      | inl none_is ↦ rw none_is h
      | inr (grant, found) ↦
          rw found (audited _ _ _ _ _ (other_fields c _ refl refl refl refl refl h))
    ]

switch_level-Keeps :
    (id : Text) (level : AwsAccessLevel) (grant : AwsCredentialGrant)
    → Keeps IsConsistent (modify (switch_level id level grant))
unfolding switch_level
switch_level-Keeps id level grant c h = elim (Bool-cases (same_level grant.level level)) [
  | inl same ↦ rw same h
  | inr other ↦ rw other (audited _ _ _ _ _ (other_fields c _ refl refl refl refl refl h))
]

pub set_aws_grant_level-Keeps :
    (id : Text) (level : AwsAccessLevel) → Keeps IsConsistent (set_aws_grant_level id level)
unfolding set_aws_grant_level prune_exited_aws_grants
set_aws_grant_level-Keeps id level =
    let chosen : Exec Controller AwsCredentialGrant =
      λ c. (ok_or (find (has_grant_id id) c.aws_process_decisions) grant_inactive, c) in
    let last : Exec Controller (Unit {0}) =
      chosen >>= (λ grant. modify (switch_level id level grant)) in
    bind-Keeps IsConsistent (read (λ c. unlocked c.vault))
      (λ available.
        lift (fail_if (not available) vault_locked) >> (modify prune_exited_aws_grants >> last))
      (λ c h. h)
      (λ available.
        then-Keeps IsConsistent (lift (fail_if (not available) vault_locked))
          (modify prune_exited_aws_grants >> last)
          (lift-Keeps (fail_if (not available) vault_locked))
          (then-Keeps IsConsistent (modify prune_exited_aws_grants) last
            (λ c h. other_fields c _ refl refl refl refl refl h)
            (bind-Keeps IsConsistent chosen (λ grant. modify (switch_level id level grant))
              (λ c h. h) (switch_level-Keeps id level))))
