-- ===== src/Controller/AwsGrants.antt =====
-- src/controller.rs: revoking, extending and switching AWS grants, and lifting denials.
use secretd.Prelude.{
  ℕ, Bool, ◌&&◌, not, Option, none, some, find, remove_first, update_first, ltb, if◌then◌else◌,
  true, false,
}
use secretd.Prelude.Text.{Text, same_text}
use secretd.Prelude.Result.{fail_if, ok_or, vault_locked, grant_inactive}
use secretd.Prelude.Exec.{Exec, lift, read, modify, ◌>>=◌, ◌>>◌}
use secretd.Grants.{extended}
use secretd.Aws.{AwsAccessLevel, read_only, admin}
use secretd.Vault.{unlocked}
use secretd.Controller.State.{
  AuditAction, AwsCredentialGrant, AwsCredentialDenial, Controller, aws_access_changed,
}
use secretd.Controller.Audit.{now_millis, after_reading, record_audit, aws_audit_resource}
use secretd.Controller.AwsRequests.{prune_exited_aws_grants}

abbrev pub has_denial_id : Text → AwsCredentialDenial → Bool
has_denial_id id denial = same_text denial.id id

abbrev pub has_grant_id : Text → AwsCredentialGrant → Bool
has_grant_id id grant = same_text grant.id id

unfoldable pub lift_denial : Text → Option AwsCredentialDenial → Controller → Controller
lift_denial id none c = c
lift_denial id (some denial) c =
    record_audit AuditAction.unblocked (aws_audit_resource denial.profile) none denial.process
      (record c { aws_process_denials = remove_first (has_denial_id id) c.aws_process_denials })

unfoldable pub revoke_aws_denial : Text → Controller → Controller
unfolding lift_denial
revoke_aws_denial id c = lift_denial id (find (has_denial_id id) c.aws_process_denials) c

unfoldable pub drop_grant : Text → Option AwsCredentialGrant → Controller → Controller
drop_grant id none c = c
drop_grant id (some grant) c =
    record_audit AuditAction.revoked (aws_audit_resource grant.profile) none grant.process
      (record c { aws_process_decisions = remove_first (has_grant_id id) c.aws_process_decisions })

unfoldable pub revoke_aws_grant : Text → Controller → Controller
unfolding drop_grant
revoke_aws_grant id c = drop_grant id (find (has_grant_id id) c.aws_process_decisions) c

unfoldable pub same_level : AwsAccessLevel → AwsAccessLevel → Bool
same_level read_only read_only = true
same_level admin admin = true
same_level _ _ = false

abbrev pub with_level : AwsAccessLevel → AwsCredentialGrant → AwsCredentialGrant
with_level level grant = record grant { level = level }

unfoldable pub switch_level : Text → AwsAccessLevel → AwsCredentialGrant → Controller → Controller
switch_level id level grant c =
    if same_level grant.level level
    then c
    else record_audit (aws_access_changed level) (aws_audit_resource grant.profile) none
        grant.process
        (record c {
          aws_process_decisions =
              update_first (has_grant_id id) (with_level level) c.aws_process_decisions;
        })

unfoldable pub set_aws_grant_level : Text → AwsAccessLevel → Exec Controller (Unit {0})
unfolding switch_level
set_aws_grant_level id level = do
  available ← read (λ c. unlocked c.vault)
  lift (fail_if (not available) vault_locked)
  modify prune_exited_aws_grants
  grant ← λ c. (ok_or (find (has_grant_id id) c.aws_process_decisions) grant_inactive, c)
  modify (switch_level id level grant)

-- the grant of the ID that is still running
abbrev pub is_extendable : Text → ℕ → AwsCredentialGrant → Bool
is_extendable id now grant = same_text grant.id id && ltb now grant.expires_at

abbrev pub longer : ℕ → AwsCredentialGrant → AwsCredentialGrant
longer now grant = record grant { expires_at = extended now grant.expires_at }

unfoldable pub extend_aws_grant : Text → Controller → Controller
extend_aws_grant id c = record (after_reading c) {
  aws_process_decisions =
      update_first (is_extendable id (now_millis c)) (longer (now_millis c))
        c.aws_process_decisions;
}
