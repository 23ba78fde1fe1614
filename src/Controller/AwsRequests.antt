-- ===== src/Controller/AwsRequests.antt =====
-- src/controller.rs: the requests for AWS credentials.
use secretd.Prelude.{
  ℕ, ◌*◌, Bool, true, false, ◌&&◌, ◌||◌, not, Option, none, some, List, [], ◌∷◌, ◌++◌, retain, any,
  find_last, first, if◌then◌else◌, unwrap_or, is_some, ltb,
}
use secretd.Prelude.Text.{Text, same_text, trim}
use secretd.Prelude.Map.{get, insert, remove, values}
use secretd.Prelude.Word.{saturating_add, saturating_mul}
use secretd.Prelude.Result.{
  Result, ok, err, Failure, fail_if, ok_or, request_not_pending, vault_locked, no_process,
  aws_not_configured,
}
use secretd.Prelude.Result
use secretd.Prelude.Exec.{Exec, pure, lift, read, modify, ◌>>=◌, ◌>>◌}
use secretd.Process.{
  ProcessIdentity, ProcFs, same_process, omit_secretd_client_processes, process_is_alive,
}
use secretd.Grants.{default_grant_seconds}
use secretd.Aws.{AwsAccessLevel, AwsSettings, AwsTarget, validate_aws_profile, target}
use secretd.Vault.{unlocked, aws_settings}
use secretd.Controller.State.{
  AuditAction, AwsRequestResolution, AwsRequestOutcome, PendingAwsCredentialRequest,
  AwsCredentialGrant, AwsCredentialDenial, Controller,
}
use secretd.Controller.Audit.{
  now_millis, after_reading, new_uuid, after_draw, record_audit, aws_audit_resource, send_aws,
}
use secretd.Controller.Boundary.{validated_grant_process, validated_grant_seconds}

unfoldable pub normalize_aws_profile : Text → Result Text
normalize_aws_profile profile =
    Result.◌>>◌ (validate_aws_profile (trim profile)) (ok (trim profile))

-- `aws_settings()?.ok_or_else(...)?`
unfoldable pub configured_settings : Controller → Result AwsSettings
configured_settings c =
    Result.◌>>=◌ (aws_settings c.vault) λ settings. ok_or settings aws_not_configured

unfoldable pub find_target : Text → Controller → Result AwsTarget
unfolding configured_settings
find_target profile c = Result.◌>>=◌ (configured_settings c) λ settings. target profile settings

abbrev pub is_running : ProcFs → ℕ → AwsCredentialGrant → Bool
is_running processes now grant =
    ltb now grant.expires_at && process_is_alive processes grant.process

unfoldable pub prune_exited_aws_grants : Controller → Controller
prune_exited_aws_grants c = record (after_reading c) {
  aws_process_decisions =
      retain (is_running c.world.processes (now_millis c)) c.aws_process_decisions;
}

abbrev pub is_current_denial : ℕ → AwsCredentialDenial → Bool
is_current_denial now denial = ltb now denial.expires_at

unfoldable pub prune_denials : Controller → Controller
prune_denials c = record (after_reading c) {
  aws_process_denials = retain (is_current_denial (now_millis c)) c.aws_process_denials;
}

abbrev pub denies : Text → List ProcessIdentity → AwsCredentialDenial → Bool
denies profile process_tree denial =
    same_text denial.profile profile
    && any (λ process. same_process denial.process process) process_tree

abbrev pub decides : Text → ProcessIdentity → AwsCredentialGrant → Bool
decides profile process decision =
    same_text decision.profile profile && same_process decision.process process

-- The newest decision of the nearest process that has one.
unfoldable pub find_decision :
    List AwsCredentialGrant → Text → List ProcessIdentity → Option AwsCredentialGrant
find_decision decisions profile [] = none
find_decision decisions profile (process ∷ tree) =
    elim (find_last (decides profile process) decisions) [
      | some decision ↦ some decision
      | none ↦ find_decision decisions profile tree
    ]

unfoldable pub queue_aws_request :
    Text
    → List ProcessIdentity
    → ProcessIdentity
    → Bool
    → Controller
    → AwsRequestOutcome × Controller
queue_aws_request profile process_tree origin verified c =
    let id = new_uuid c in
    let request : PendingAwsCredentialRequest = record {
      id = id;
      profile = profile;
      verified = verified;
      process_tree = process_tree;
      origin = origin;
      requested_at = now_millis c;
    } in
    (
      AwsRequestOutcome.pending id,
      record (after_reading (after_draw c)) {
        pending_aws = insert id request c.pending_aws;
        pending_aws_resolutions = insert id tt c.pending_aws_resolutions;
      },
    )

unfoldable pub queued :
    Text → List ProcessIdentity → ProcessIdentity → Bool → Exec Controller AwsRequestOutcome
unfolding queue_aws_request
queued profile process_tree origin verified c =
    let (outcome, c') = queue_aws_request profile process_tree origin verified c in (ok outcome, c')

-- the part of `begin_aws_request` behind the settings: a decision, or a question
unfoldable pub answer_aws :
    Text → List ProcessIdentity → ProcessIdentity → Bool → Exec Controller AwsRequestOutcome
unfolding queued
answer_aws profile process_tree origin verified c =
    elim (if verified then find_decision c.aws_process_decisions profile process_tree else none) [
      | some decision ↦ (
        ok (AwsRequestOutcome.immediate decision.level),
        record_audit AuditAction.auto_granted (aws_audit_resource profile) none origin c,
      )
      | none ↦ queued profile process_tree origin verified c
    ]

unfoldable pub begin_aws_request :
    Text → List ProcessIdentity → Bool → Exec Controller AwsRequestOutcome
unfolding answer_aws find_target
begin_aws_request profile_input tree verified = do
  profile ← lift (normalize_aws_profile profile_input)
  modify prune_exited_aws_grants
  modify prune_denials
  let process_tree = omit_secretd_client_processes tree
  origin ← lift (ok_or (first process_tree) no_process)
  refused ← read (λ c. verified && any (denies profile process_tree) c.aws_process_denials)
  if refused then pure AwsRequestOutcome.denied else do
    available ← read (λ c. unlocked c.vault)
    if available
        then (do
          _ ← λ c. (find_target profile c, c)
          answer_aws profile process_tree origin verified)
        else queued profile process_tree origin verified

-- a decision or a denial for another profile or another process
abbrev pub other_grant : Text → ProcessIdentity → AwsCredentialGrant → Bool
other_grant profile process grant =
    not (same_text grant.profile profile) || not (same_process grant.process process)

abbrev pub other_denial : Text → ProcessIdentity → AwsCredentialDenial → Bool
other_denial profile process denial =
    not (same_text denial.profile profile) || not (same_process denial.process process)

unfoldable pub remember_aws_denial : Text → ProcessIdentity → Controller → Controller
remember_aws_denial profile process c =
    let denial : AwsCredentialDenial = record {
      id = new_uuid c;
      profile = profile;
      process = process;
      created_at = now_millis c;
      expires_at = saturating_add (now_millis c) (default_grant_seconds * 1000);
    } in
    record (after_reading (after_draw c)) {
      aws_process_denials =
          retain (other_denial profile process) c.aws_process_denials ++ denial ∷ [];
    }

-- the new decision of `respond_aws`, which replaces those for the profile and the process
unfoldable pub remember_aws_grant :
    Text → AwsAccessLevel → ProcessIdentity → ℕ → Controller → Controller
remember_aws_grant profile level process seconds c =
    let grant : AwsCredentialGrant = record {
      id = new_uuid c;
      profile = profile;
      level = level;
      process = process;
      created_at = now_millis c;
      expires_at = saturating_add (now_millis c) (saturating_mul seconds 1000);
    } in
    record (after_reading (after_draw c)) {
      aws_process_decisions =
          retain (other_grant profile process) c.aws_process_decisions ++ grant ∷ [];
      aws_process_denials = retain (other_denial profile process) c.aws_process_denials;
    }

abbrev pub is_covered_aws : Text → ProcessIdentity → PendingAwsCredentialRequest → Bool
is_covered_aws profile process request =
    request.verified
    && same_text request.profile profile
    && any (λ ancestor. same_process process ancestor) request.process_tree

abbrev pub resolved_action : AwsRequestResolution → AuditAction
resolved_action (AwsRequestResolution.approved level) = AuditAction.auto_granted
resolved_action AwsRequestResolution.denied = AuditAction.denied

unfoldable pub resolve_each :
    Text → AwsRequestResolution → List PendingAwsCredentialRequest → Controller → Controller
resolve_each profile resolution [] c = c
resolve_each profile resolution (request ∷ requests) c = resolve_each profile resolution requests (
    record_audit (resolved_action resolution) (aws_audit_resource profile) none request.origin
      (send_aws request.id resolution (record c { pending_aws = remove request.id c.pending_aws })))

unfoldable pub resolve_pending_aws_requests :
    Text → ProcessIdentity → AwsRequestResolution → Controller → Controller
unfolding resolve_each
resolve_pending_aws_requests profile process resolution c =
    resolve_each profile resolution (retain (is_covered_aws profile process) (values c.pending_aws))
      c

-- the process that the answer is for, where the request was verified and is to be remembered
unfoldable pub aws_boundary :
    Bool → Option ProcessIdentity → PendingAwsCredentialRequest → Result (Option ProcessIdentity)
aws_boundary remembered selected request =
    if request.verified && remembered
    then (Result.◌>>=◌ (validated_grant_process request.process_tree request.origin selected)
        λ process. ok (some process))
    else ok none

-- the new decision for a boundary; an unverified request has none
unfoldable pub grant_boundary :
    PendingAwsCredentialRequest
    → AwsAccessLevel
    → Option ℕ
    → Option ProcessIdentity
    → Exec Controller (Unit {0})
grant_boundary request level ttl_seconds none = pure tt
grant_boundary request level ttl_seconds (some process) = do
  seconds ← lift (validated_grant_seconds ttl_seconds)
  modify (remember_aws_grant request.profile level process seconds)

unfoldable pub approve_aws :
    PendingAwsCredentialRequest
    → AwsAccessLevel
    → Option ℕ
    → Option ProcessIdentity
    → Exec Controller AwsRequestResolution
unfolding grant_boundary find_target
approve_aws request level ttl_seconds boundary = do
  available ← read (λ c. unlocked c.vault)
  lift (fail_if (not available) vault_locked)
  _ ← λ c. (find_target request.profile c, c)
  grant_boundary request level ttl_seconds boundary
  modify (
      record_audit
        (if request.verified then AuditAction.granted_temporarily else AuditAction.allowed_once)
        (aws_audit_resource request.profile)
        (if request.verified then some (unwrap_or ttl_seconds default_grant_seconds) else none)
        (unwrap_or boundary request.origin))
  pure (AwsRequestResolution.approved level)

unfoldable pub remember_boundary : Text → Option ProcessIdentity → Controller → Controller
remember_boundary profile none c = c
remember_boundary profile (some process) c = remember_aws_denial profile process c

unfoldable pub deny_aws :
    PendingAwsCredentialRequest
    → Bool
    → Option ProcessIdentity
    → Exec Controller AwsRequestResolution
unfolding remember_boundary
deny_aws request remember_denial boundary = do
  modify (remember_boundary request.profile boundary)
  modify (
      record_audit AuditAction.denied (aws_audit_resource request.profile)
        (if request.verified && remember_denial then some default_grant_seconds else none)
        (unwrap_or boundary request.origin))
  pure AwsRequestResolution.denied

unfoldable pub answer_request :
    PendingAwsCredentialRequest
    → Option AwsAccessLevel
    → Option ℕ
    → Bool
    → Option ProcessIdentity
    → Exec Controller AwsRequestResolution
unfolding approve_aws deny_aws
answer_request request (some level) ttl_seconds remember_denial boundary =
    approve_aws request level ttl_seconds boundary
answer_request request none ttl_seconds remember_denial boundary =
    deny_aws request remember_denial boundary

unfoldable pub resolve_boundary :
    Text → Option ProcessIdentity → AwsRequestResolution → Controller → Controller
unfolding resolve_pending_aws_requests
resolve_boundary profile none resolution c = c
resolve_boundary profile (some process) resolution c =
    resolve_pending_aws_requests profile process resolution c

unfoldable pub respond_aws_with_denial :
    Text
    → Option AwsAccessLevel
    → Option ProcessIdentity
    → Option ℕ
    → Bool
    → Exec Controller (Unit {0})
unfolding answer_request resolve_boundary aws_boundary
respond_aws_with_denial id level selected ttl_seconds remember_denial = do
  request ← λ c. (ok_or (get id c.pending_aws) request_not_pending, c)
  boundary ← lift (aws_boundary (is_some level || remember_denial) selected request)
  resolution ← answer_request request level ttl_seconds remember_denial boundary
  modify (λ c. record c { pending_aws = remove id c.pending_aws })
  modify (send_aws id resolution)
  modify (resolve_boundary request.profile boundary resolution)

unfoldable pub respond_aws :
    Text → Option AwsAccessLevel → Option ProcessIdentity → Option ℕ → Exec Controller (Unit {0})
unfolding respond_aws_with_denial
respond_aws id level selected ttl_seconds =
    respond_aws_with_denial id level selected ttl_seconds true

unfoldable pub dismiss_aws_request : Text → Exec Controller (Unit {0})
unfolding respond_aws_with_denial
dismiss_aws_request id = respond_aws_with_denial id none none none false

-- the denial of a request that nobody answered, for its own process
unfoldable pub remember_timeout : PendingAwsCredentialRequest → Controller → Controller
unfolding remember_aws_denial resolve_pending_aws_requests
remember_timeout request c =
    if request.verified
    then resolve_pending_aws_requests request.profile request.origin AwsRequestResolution.denied
        (remember_aws_denial request.profile request.origin c)
    else c

unfoldable pub timed_out_aws_request :
    Text → Option PendingAwsCredentialRequest → Controller → Controller
unfolding remember_timeout
timed_out_aws_request id none c = c
timed_out_aws_request id (some request) c =
    record_audit AuditAction.timed_out (aws_audit_resource request.profile)
      (if request.verified then some default_grant_seconds else none) request.origin
      (remember_timeout request (record c {
        pending_aws = remove id c.pending_aws;
        pending_aws_resolutions = remove id c.pending_aws_resolutions;
      }))

unfoldable pub timeout_aws_request : Text → Controller → Controller
unfolding timed_out_aws_request
timeout_aws_request id c = timed_out_aws_request id (get id c.pending_aws) c
