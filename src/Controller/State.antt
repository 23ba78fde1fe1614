-- ===== src/Controller/State.antt =====
-- src/controller.rs: the data types, and the state of the controller.
use secretd.Prelude.{ℕ, Bool, Option, List, []}
use secretd.Prelude.Text.{Text}
use secretd.Prelude.Map.{TextMap, TextSet}
use secretd.Prelude.Result.{Failure}
use secretd.Process.{ProcessIdentity, ProcFs}
use secretd.Grants.{Grant, GrantStore}
use secretd.Aws.{AwsAccessLevel, AwsSettingsSummary}
use secretd.Aws.LoginStatus.{AwsLoginStatus, idle}
use secretd.Vault.{SecretSummary, VaultStore, Disk, new_store}

pub data ApprovalDecision : Type 0 where
  deny once temporary : ApprovalDecision

pub data RequestResolution : Type 0 where
  approved denied : RequestResolution
  failed : Failure → RequestResolution

pub data AuditAction : Type 0 where
  allowed_once granted_temporarily auto_granted denied timed_out revoked unblocked : AuditAction
  aws_access_changed : AwsAccessLevel → AuditAction

pub record AuditEntry : Type 0 where
  pub id : Text
  pub occurred_at : ℕ
  pub action : AuditAction
  pub secret : Text
  pub ttl_seconds : Option ℕ
  pub process : ProcessIdentity

pub record PendingRequest : Type 0 where
  pub id : Text
  pub secret : Text
  pub verified : Bool
  pub process_tree : List ProcessIdentity
  pub origin : ProcessIdentity
  pub requested_at : ℕ

pub record PendingAwsCredentialRequest : Type 0 where
  pub id : Text
  pub profile : Text
  pub verified : Bool
  pub process_tree : List ProcessIdentity
  pub origin : ProcessIdentity
  pub requested_at : ℕ

pub data AwsRequestResolution : Type 0 where
  approved : AwsAccessLevel → AwsRequestResolution
  denied : AwsRequestResolution

-- The receiver of a pending request is known by the request's ID.
pub data AwsRequestOutcome : Type 0 where
  immediate : AwsAccessLevel → AwsRequestOutcome
  denied : AwsRequestOutcome
  pending : Text → AwsRequestOutcome

pub data RequestOutcome : Type 0 where
  immediate : Text → RequestOutcome
  pending : Text → RequestOutcome

pub record AwsCredentialGrant : Type 0 where
  pub id : Text
  pub profile : Text
  pub level : AwsAccessLevel
  pub process : ProcessIdentity
  pub created_at : ℕ
  pub expires_at : ℕ

pub record AwsCredentialDenial : Type 0 where
  pub id : Text
  pub profile : Text
  pub process : ProcessIdentity
  pub created_at : ℕ
  pub expires_at : ℕ

pub record AppSnapshot : Type 0 where
  pub vault_exists : Bool
  pub unlocked : Bool
  pub secrets : List SecretSummary
  pub pending : List PendingRequest
  pub pending_aws : List PendingAwsCredentialRequest
  pub grants : List Grant
  pub aws_grants : List AwsCredentialGrant
  pub aws_denials : List AwsCredentialDenial
  pub audit : List AuditEntry
  pub max_grant_seconds : ℕ
  pub aws : Option AwsSettingsSummary
  pub aws_login : AwsLoginStatus

-- What the controller reads of the system: the clock, whose n-th reading is `clock n`, the UUIDs,
-- and the files of /proc. The two counters say how many readings and UUIDs have been used.
pub record World : Type 0 where
  pub clock : ℕ → ℕ
  pub seconds : ℕ → ℕ
  pub reads : ℕ
  pub uuid : ℕ → Text
  pub draws : ℕ
  pub processes : ProcFs

-- The senders of a channel are known by the request's ID; `sent` and `sent_aws` are the messages
-- that have gone out through them, the oldest first.
pub record Controller : Type 0 where
  pub vault : VaultStore
  pub grants : GrantStore
  pub pending : TextMap PendingRequest
  pub pending_resolutions : TextSet
  pub waiting_for_unlock : TextSet
  pub audit : List AuditEntry
  pub pending_aws : TextMap PendingAwsCredentialRequest
  pub pending_aws_resolutions : TextSet
  pub aws_process_decisions : List AwsCredentialGrant
  pub aws_process_denials : List AwsCredentialDenial
  pub aws_login : AwsLoginStatus
  pub sent : List (Text × RequestResolution)
  pub sent_aws : List (Text × AwsRequestResolution)
  pub world : World

-- `Controller::new`, over the disk and the system that the program starts with.
unfoldable pub new_controller : Disk → World → Controller
new_controller disk world = record {
  vault = new_store disk;
  grants = record { grants = [] };
  pending = [];
  pending_resolutions = [];
  waiting_for_unlock = [];
  audit = [];
  pending_aws = [];
  pending_aws_resolutions = [];
  aws_process_decisions = [];
  aws_process_denials = [];
  aws_login = idle;
  sent = [];
  sent_aws = [];
  world = world;
}
