-- ===== src/Controller/Requests.antt =====
-- src/controller.rs: the requests for secrets, and the grants for them.
use secretd.Prelude.{
  ℕ, Bool, true, false, ◌&&◌, not, Option, none, some, List, [], ◌∷◌, retain, any, first,
  if◌then◌else◌, unwrap_or, is_some,
}
use secretd.Prelude.Text.{Text, same_text}
use secretd.Prelude.Map.{get, insert, remove, member, values, keys}
use secretd.Prelude.Result.{
  Result, ok, err, Failure, fail_if, ok_or, request_not_pending, vault_locked, unverified_once,
  no_process,
}
use secretd.Prelude.Result
use secretd.Prelude.Exec.{Exec, pure, lift, read, modify, ◌>>=◌, ◌>>◌}
use secretd.Process.{ProcessIdentity, same_process, omit_secretd_client_processes}
use secretd.Grants.{Grant, default_grant_seconds, add_grant, find_grant, revoke, extend}
use secretd.Vault.{normalize_secret_name, unlocked, reveal}
use secretd.Controller.State.{
  ApprovalDecision, deny, once, temporary, RequestResolution, AuditAction, PendingRequest,
  RequestOutcome, Controller,
}
use secretd.Controller.Audit.{now_millis, after_reading, new_uuid, after_draw, record_audit, send}
use secretd.Controller.Boundary.{validated_grant_process, validated_grant_seconds}

-- `GrantStore::revoke`, and an entry in the history if there was such a grant
unfoldable pub revoked_grant : Option Grant → Controller → Controller
revoked_grant none c = c
revoked_grant (some grant) c = record_audit AuditAction.revoked grant.resource none grant.process c

unfoldable pub revoke_grant : Text → Controller → Controller
unfolding revoked_grant
revoke_grant id c =
    let (grant, grants) = revoke id c.grants in revoked_grant grant (record c { grants = grants })

unfoldable pub extend_grant : Text → Controller → Controller
extend_grant id c =
    let cleaned = now_millis c in
    let now = now_millis (after_reading c) in
    let (_, grants) = extend cleaned now id c.grants in
    record (after_reading (after_reading c)) { grants = grants }

unfoldable pub queue_request :
    Text
    → List ProcessIdentity
    → ProcessIdentity
    → Bool
    → Bool
    → Controller
    → RequestOutcome × Controller
queue_request secret process_tree origin verified waiting_for_unlock c =
    let id = new_uuid c in
    let request : PendingRequest = record {
      id = id;
      secret = secret;
      verified = verified;
      process_tree = process_tree;
      origin = origin;
      requested_at = now_millis c;
    } in
    (
      RequestOutcome.pending id,
      record (after_reading (after_draw c)) {
        pending = insert id request c.pending;
        pending_resolutions = insert id tt c.pending_resolutions;
        waiting_for_unlock =
            if waiting_for_unlock then insert id tt c.waiting_for_unlock else c.waiting_for_unlock;
      },
    )

-- an operation that cannot fail, as an action
abbrev pub total : {A : Type 0} → (Controller → A × Controller) → Exec Controller A
total f c = let (a, c') = f c in (ok a, c')

-- `verified && self.grants.find(...).is_some()`: an unverified request does not look.
unfoldable pub has_grant : Bool → Text → List ProcessIdentity → Controller → Bool × Controller
has_grant false secret process_tree c = (false, c)
has_grant true secret process_tree c =
    let (grant, grants) = find_grant (now_millis c) secret process_tree c.grants in
    (is_some grant, record (after_reading c) { grants = grants })

-- the part of `begin_request` with the vault unlocked
unfoldable pub begin_unlocked :
    Text → List ProcessIdentity → ProcessIdentity → Bool → Exec Controller RequestOutcome
unfolding has_grant queue_request
begin_unlocked secret process_tree origin verified = do
  _ ← λ c. (reveal secret c.vault, c)
  granted ← total (has_grant verified secret process_tree)
  if granted
      then (do
        modify (record_audit AuditAction.auto_granted secret none origin)
        value ← λ c. (reveal secret c.vault, c)
        pure (RequestOutcome.immediate value))
      else total (queue_request secret process_tree origin verified false)

unfoldable pub begin_request : Text → List ProcessIdentity → Bool → Exec Controller RequestOutcome
unfolding begin_unlocked
begin_request secret_input tree verified = do
  secret ← lift (normalize_secret_name secret_input)
  let process_tree = omit_secretd_client_processes tree
  origin ← lift (ok_or (first process_tree) no_process)
  available ← read (λ c. unlocked c.vault)
  if available
      then begin_unlocked secret process_tree origin verified
      else total (queue_request secret process_tree origin verified true)

-- one request that waited for the vault
unfoldable pub prepare_one : Text → Option PendingRequest → Controller → Controller
prepare_one id none c = c
prepare_one id (some request) c = elim (reveal request.secret c.vault) [
  | ok value ↦ c
  | err error ↦
      send id (RequestResolution.failed error) (record c { pending = remove id c.pending })
]

unfoldable pub prepare_each : List Text → Controller → Controller
unfolding prepare_one
prepare_each [] c = c
prepare_each (id ∷ ids) c = prepare_each ids (prepare_one id (get id c.pending) c)

unfoldable pub prepare_waiting_requests : Controller → Controller
unfolding prepare_each
prepare_waiting_requests c =
    prepare_each (keys c.waiting_for_unlock) (record c { waiting_for_unlock = [] })

abbrev pub is_deny : ApprovalDecision → Bool
is_deny deny = true
is_deny _ = false

abbrev pub is_temporary : ApprovalDecision → Bool
is_temporary temporary = true
is_temporary _ = false

abbrev pub action_of : ApprovalDecision → AuditAction
action_of deny = AuditAction.denied
action_of once = AuditAction.allowed_once
action_of temporary = AuditAction.granted_temporarily

abbrev pub resolution_of : ApprovalDecision → RequestResolution
resolution_of deny = RequestResolution.denied
resolution_of _ = RequestResolution.approved

-- the process that a temporary grant is for
unfoldable pub boundary_of :
    ApprovalDecision → PendingRequest → Option ProcessIdentity → Result (Option ProcessIdentity)
boundary_of temporary request selected =
    Result.◌>>=◌ (validated_grant_process request.process_tree request.origin selected)
      λ process. ok (some process)
boundary_of _ request selected = ok none

-- `self.grants.add(...)`
unfoldable pub add_to_grants : Text → ProcessIdentity → ℕ → Exec Controller (Unit {0})
add_to_grants secret process seconds c =
    let (result, grants) = add_grant secret process seconds (now_millis c) (new_uuid c) c.grants in
    elim result [
      | err e ↦ (err e, record c { grants = grants })
      | ok grant ↦ (ok tt, record (after_reading (after_draw c)) { grants = grants })
    ]

unfoldable pub store_grant : Text → Option ProcessIdentity → Option ℕ → Exec Controller (Unit {0})
unfolding add_to_grants
store_grant secret none ttl_seconds = pure tt
store_grant secret (some process) ttl_seconds = do
  seconds ← lift (validated_grant_seconds ttl_seconds)
  add_to_grants secret process seconds

abbrev pub settled : Text → Controller → Controller
settled id c = record c {
  pending = remove id c.pending;
  waiting_for_unlock = remove id c.waiting_for_unlock;
}

-- a verified request for the secret with the process in its tree
abbrev pub is_covered : Text → ProcessIdentity → PendingRequest → Bool
is_covered secret process request =
    request.verified
    && same_text request.secret secret
    && any (λ ancestor. same_process process ancestor) request.process_tree

unfoldable pub approve_each : List PendingRequest → Controller → Controller
approve_each [] c = c
approve_each (request ∷ requests) c = approve_each requests (
    record_audit AuditAction.auto_granted request.secret none request.origin
      (send request.id RequestResolution.approved (settled request.id c)))

unfoldable pub approve_covered : Text → Option ProcessIdentity → Controller → Controller
unfolding approve_each
approve_covered secret none c = c
approve_covered secret (some process) c =
    approve_each (retain (is_covered secret process) (values c.pending)) c

-- the guards of `respond`, which come before every change
unfoldable pub respond_guards :
    Text → ApprovalDecision → PendingRequest → Controller → Result (Unit {0})
respond_guards id decision request c =
    Result.◌>>◌ (fail_if (member id c.waiting_for_unlock && not (is_deny decision)) vault_locked)
      (fail_if (is_temporary decision && not request.verified) unverified_once)

unfoldable pub respond :
    Text → ApprovalDecision → Option ℕ → Option ProcessIdentity → Exec Controller (Unit {0})
unfolding store_grant approve_covered respond_guards boundary_of
respond id decision ttl_seconds selected = do
  request ← λ c. (ok_or (get id c.pending) request_not_pending, c)
  λ c. (respond_guards id decision request c, c)
  boundary ← lift (boundary_of decision request selected)
  store_grant request.secret boundary ttl_seconds
  modify (
      record_audit (action_of decision) request.secret
        (if is_temporary decision then some (unwrap_or ttl_seconds default_grant_seconds) else none)
        (unwrap_or boundary request.origin))
  modify (settled id)
  modify (send id (resolution_of decision))
  modify (approve_covered request.secret boundary)

unfoldable pub timed_out_request : Text → Option PendingRequest → Controller → Controller
timed_out_request id none c = c
timed_out_request id (some request) c =
    record_audit AuditAction.timed_out request.secret none request.origin
      (record (settled id c) { pending_resolutions = remove id c.pending_resolutions })

unfoldable pub timeout_request : Text → Controller → Controller
unfolding timed_out_request
timeout_request id c = timed_out_request id (get id c.pending) c

unfoldable pub release_after_approval : Text → Controller → Result Text
release_after_approval secret c = reveal secret c.vault
