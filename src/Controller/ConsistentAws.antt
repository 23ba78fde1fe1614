-- ===== src/Controller/ConsistentAws.antt =====
-- The operations of the requests for AWS credentials keep the invariant of the controller.
use secretd.Prelude.{
  ℕ, ◌&&◌, ◌||◌, not, true, false, none, some, Option, List, [], ◌∷◌, Bool, if◌then◌else◌, retain,
  any, first, is_some, unwrap_or, ◌≡◌, Option-cases, Bool-cases, inl, refl, inr,
}
use secretd.Prelude.Text.{Text}
use secretd.Prelude.Map.{get, values, remove}
use secretd.Prelude.Keyed.{IsKeyed-remove, IsKeyed-insert}
use secretd.Prelude.Keeps.{Keeps, bind-Keeps, then-Keeps, if-Keeps}
use secretd.Prelude.Result.{
  ok_or, fail_if, request_not_pending, vault_locked, no_process, Result-cases,
}
use secretd.Prelude.Exec.{Exec, lift, read, pure, modify, ◌>>=◌, ◌>>◌}
use secretd.Process.{ProcessIdentity, omit_secretd_client_processes}
use secretd.Grants.{default_grant_seconds}
use secretd.Aws.{AwsAccessLevel}
use secretd.Vault.{unlocked}
use secretd.Controller.State.{
  Controller, PendingAwsCredentialRequest, AuditAction, AwsRequestResolution, AwsRequestOutcome,
}
use secretd.Controller.Audit.{record_audit, aws_audit_resource}
use secretd.Controller.Boundary.{validated_grant_seconds}
use secretd.Controller.AwsRequests.{
  normalize_aws_profile, find_target, prune_exited_aws_grants, prune_denials, denies, find_decision,
  queued, answer_aws, begin_aws_request, queue_aws_request, remember_aws_denial, remember_aws_grant,
  resolve_each, resolve_pending_aws_requests, is_covered_aws, aws_boundary, grant_boundary,
  approve_aws, remember_boundary, deny_aws, answer_request, resolve_boundary,
  respond_aws_with_denial, remember_timeout, timed_out_aws_request, timeout_aws_request,
}
use secretd.Controller.Consistent.{
  Heard-remove, Heard-remove_both, Heard-insert, get-remove_same, IsConsistent, aws_request_id,
  audited, sent_aws,
}

-- what a change of other fields keeps
pub other_fields :
    (c c' : Controller)
    → c'.audit ≡ c.audit
    → c'.pending ≡ c.pending
    → c'.pending_aws ≡ c.pending_aws
    → c'.pending_resolutions ≡ c.pending_resolutions
    → c'.pending_aws_resolutions ≡ c.pending_aws_resolutions
    → IsConsistent c
    → IsConsistent c'
other_fields c c' a p q r s h = record {
  short = rw a h.short;
  keyed = rw p h.keyed;
  keyed_aws = rw q h.keyed_aws;
  heard = rw (p, r) h.heard;
  heard_aws = rw (q, s) h.heard_aws;
}

removed :
    (id : Text) (c : Controller)
    → IsConsistent c
    → IsConsistent (record c { pending_aws = remove id c.pending_aws })
removed id c h = record {
  short = h.short;
  keyed = h.keyed;
  keyed_aws = IsKeyed-remove aws_request_id id c.pending_aws h.keyed_aws;
  heard = h.heard;
  heard_aws = Heard-remove id c.pending_aws c.pending_aws_resolutions h.heard_aws;
}

resolve_each-IsConsistent :
    (profile : Text) (resolution : AwsRequestResolution)
    (requests : List PendingAwsCredentialRequest) (c : Controller)
    → IsConsistent c
    → IsConsistent (resolve_each profile resolution requests c)
unfolding resolve_each
resolve_each-IsConsistent profile resolution [] c h = h
resolve_each-IsConsistent profile resolution (r ∷ requests) c h =
    resolve_each-IsConsistent profile resolution requests _ (
      audited _ _ _ _ _
        (sent_aws r.id _ _ (get-remove_same r.id c.pending_aws []) (removed r.id c h)))

resolve_pending-IsConsistent :
    (profile : Text) (process : ProcessIdentity) (resolution : AwsRequestResolution)
    (c : Controller)
    → IsConsistent c
    → IsConsistent (resolve_pending_aws_requests profile process resolution c)
unfolding resolve_pending_aws_requests
resolve_pending-IsConsistent profile process resolution c h =
    resolve_each-IsConsistent profile resolution
      (retain (is_covered_aws profile process) (values c.pending_aws)) c h

resolve_boundary-IsConsistent :
    (profile : Text) (boundary : Option ProcessIdentity) (resolution : AwsRequestResolution)
    (c : Controller)
    → IsConsistent c
    → IsConsistent (resolve_boundary profile boundary resolution c)
unfolding resolve_boundary
resolve_boundary-IsConsistent profile none resolution c h = h
resolve_boundary-IsConsistent profile (some process) resolution c h =
    resolve_pending-IsConsistent profile process resolution c h

denial-IsConsistent :
    (profile : Text) (process : ProcessIdentity) (c : Controller)
    → IsConsistent c
    → IsConsistent (remember_aws_denial profile process c)
unfolding remember_aws_denial
denial-IsConsistent profile process c h =
    other_fields c (remember_aws_denial profile process c) refl refl refl refl refl h

remember_boundary-IsConsistent :
    (profile : Text) (boundary : Option ProcessIdentity) (c : Controller)
    → IsConsistent c
    → IsConsistent (remember_boundary profile boundary c)
unfolding remember_boundary
remember_boundary-IsConsistent profile none c h = h
remember_boundary-IsConsistent profile (some process) c h = denial-IsConsistent profile process c h

grant_boundary-IsConsistent :
    (request : PendingAwsCredentialRequest) (level : AwsAccessLevel) (ttl : Option ℕ)
    (boundary : Option ProcessIdentity)
    → Keeps IsConsistent (grant_boundary request level ttl boundary)
unfolding grant_boundary remember_aws_grant
grant_boundary-IsConsistent request level ttl none c h = h
grant_boundary-IsConsistent request level ttl (some process) c h =
    elim (Result-cases (validated_grant_seconds ttl)) [
      | inl (seconds, valid) ↦ rw valid (
          other_fields c (remember_aws_grant request.profile level process seconds c) refl refl refl
            refl refl h)
      | inr (f, invalid) ↦ rw invalid h
    ]

approve_aws-IsConsistent :
    (request : PendingAwsCredentialRequest) (level : AwsAccessLevel) (ttl : Option ℕ)
    (boundary : Option ProcessIdentity)
    → Keeps IsConsistent (approve_aws request level ttl boundary)
unfolding approve_aws
approve_aws-IsConsistent request level ttl boundary =
    let action =
      if request.verified then AuditAction.granted_temporarily else AuditAction.allowed_once in
    let resource = aws_audit_resource request.profile in
    let seconds = if request.verified then some (unwrap_or ttl default_grant_seconds) else none in
    let process = unwrap_or boundary request.origin in
    let noted : Exec Controller AwsRequestResolution = do
      modify (record_audit action resource seconds process)
      pure (AwsRequestResolution.approved level)
    in let granted : Exec Controller AwsRequestResolution = do
      grant_boundary request level ttl boundary
      noted
      in let checked : Exec Controller AwsRequestResolution = do
        _ ← λ c. (find_target request.profile c, c)
        granted
        in bind-Keeps IsConsistent (read (λ c. unlocked c.vault))
          (λ available. lift (fail_if (not available) vault_locked) >> checked) (λ c h. h)
          λ available.
            then-Keeps IsConsistent (lift (fail_if (not available) vault_locked)) checked (λ c h. h)
              (bind-Keeps IsConsistent (λ c. (find_target request.profile c, c)) (λ _. granted)
                (λ c h. h)
                λ target.
                  then-Keeps IsConsistent (grant_boundary request level ttl boundary) noted
                    (grant_boundary-IsConsistent request level ttl boundary)
                    (audited action resource seconds process))

answer-IsConsistent :
    (request : PendingAwsCredentialRequest) (level : Option AwsAccessLevel) (ttl : Option ℕ)
    (remembered : Bool) (boundary : Option ProcessIdentity)
    → Keeps IsConsistent (answer_request request level ttl remembered boundary)
unfolding answer_request deny_aws
answer-IsConsistent request (some level) ttl remembered boundary c h =
    approve_aws-IsConsistent request level ttl boundary c h
answer-IsConsistent request none ttl remembered boundary c h =
    audited _ _ _ _ _ (remember_boundary-IsConsistent request.profile boundary c h)

pub respond_aws-IsConsistent :
    (id : Text) (level : Option AwsAccessLevel) (selected : Option ProcessIdentity) (ttl : Option ℕ)
    (remembered : Bool)
    → Keeps IsConsistent (respond_aws_with_denial id level selected ttl remembered)
unfolding respond_aws_with_denial
respond_aws-IsConsistent id level selected ttl remembered =
    bind-Keeps IsConsistent (λ c. (ok_or (get id c.pending_aws) request_not_pending, c)) _
      (λ c h. h)
      λ request.
        bind-Keeps IsConsistent (lift (aws_boundary (is_some level || remembered) selected request))
          _ (λ c h. h)
          λ boundary.
            bind-Keeps IsConsistent (answer_request request level ttl remembered boundary) _
              (answer-IsConsistent request level ttl remembered boundary)
              (λ resolution c h.
                resolve_boundary-IsConsistent request.profile boundary resolution _
                  (sent_aws id resolution _ (get-remove_same id c.pending_aws []) (removed id c h)))

timed_out-IsConsistent :
    (id : Text) (request : Option PendingAwsCredentialRequest) (c : Controller)
    → IsConsistent c
    → IsConsistent (timed_out_aws_request id request c)
unfolding timed_out_aws_request remember_timeout
timed_out-IsConsistent id none c h = h
timed_out-IsConsistent id (some request) c h =
    let d = record c {
      pending_aws = remove id c.pending_aws;
      pending_aws_resolutions = remove id c.pending_aws_resolutions;
    } in
    let before : IsConsistent d = record {
      short = h.short;
      keyed = h.keyed;
      keyed_aws = IsKeyed-remove aws_request_id id c.pending_aws h.keyed_aws;
      heard = h.heard;
      heard_aws = Heard-remove_both id c.pending_aws c.pending_aws_resolutions h.heard_aws;
    } in
    elim (Bool-cases request.verified) [
      | inl t ↦ rw t (
          audited _ _ _ _ _ (
            resolve_pending-IsConsistent request.profile request.origin AwsRequestResolution.denied
              _ (denial-IsConsistent request.profile request.origin d before)))
      | inr t ↦ rw t (audited _ _ _ _ _ before)
    ]

pub timeout_aws-IsConsistent :
    (id : Text) (c : Controller) → IsConsistent c → IsConsistent (timeout_aws_request id c)
unfolding timeout_aws_request
timeout_aws-IsConsistent id c h = timed_out-IsConsistent id (get id c.pending_aws) c h

queued_aws-IsConsistent :
    (profile : Text) (tree : List ProcessIdentity) (origin : ProcessIdentity) (verified : Bool)
    → Keeps IsConsistent (queued profile tree origin verified)
unfolding queued queue_aws_request
queued_aws-IsConsistent profile tree origin verified c h = record {
  short = h.short;
  keyed = h.keyed;
  keyed_aws = IsKeyed-insert aws_request_id _ c.pending_aws h.keyed_aws;
  heard = h.heard;
  heard_aws = Heard-insert _ c.pending_aws c.pending_aws_resolutions _ h.heard_aws;
}

answer_aws-IsConsistent :
    (profile : Text) (tree : List ProcessIdentity) (origin : ProcessIdentity) (verified : Bool)
    → Keeps IsConsistent (answer_aws profile tree origin verified)
unfolding answer_aws
answer_aws-IsConsistent profile tree origin true c h =
    elim (Option-cases (find_decision c.aws_process_decisions profile tree)) [
      | inl nothing ↦
          rw (answer_aws, nothing) (queued_aws-IsConsistent profile tree origin true c h)
      | inr (decision, found) ↦ rw (answer_aws, found) (audited _ _ _ _ c h)
    ]
answer_aws-IsConsistent profile tree origin false c h =
    queued_aws-IsConsistent profile tree origin false c h

pub begin_aws-IsConsistent :
    (input : Text) (tree : List ProcessIdentity) (verified : Bool)
    → Keeps IsConsistent (begin_aws_request input tree verified)
unfolding begin_aws_request prune_exited_aws_grants prune_denials
begin_aws-IsConsistent input tree verified =
    let clients = omit_secretd_client_processes tree in
    bind-Keeps IsConsistent (lift (normalize_aws_profile input)) _ (λ c h. h)
      λ profile.
        let refusal : Exec Controller AwsRequestOutcome = pure AwsRequestOutcome.denied in
        let known : ProcessIdentity → Exec Controller AwsRequestOutcome = λ origin. do
          _ ← λ c. (find_target profile c, c)
          answer_aws profile clients origin verified
        in let open_vault : ProcessIdentity → Exec Controller AwsRequestOutcome = λ origin. do
          available ← read (λ c. unlocked c.vault)
          if available then known origin else queued profile clients origin verified
          in let decided : ProcessIdentity → Exec Controller AwsRequestOutcome = λ origin. do
            refused ← read (λ c. verified && any (denies profile clients) c.aws_process_denials)
            if refused then refusal else open_vault origin
            in let found : Exec Controller AwsRequestOutcome = do
              origin ← lift (ok_or (first clients) no_process)
              decided origin
              in let pruned : Exec Controller AwsRequestOutcome = do modify prune_denials; found
                in then-Keeps IsConsistent (modify prune_exited_aws_grants) pruned
                  (λ c h. other_fields c (prune_exited_aws_grants c) refl refl refl refl refl h)
                  (then-Keeps IsConsistent (modify prune_denials) found
                    (λ c h. other_fields c (prune_denials c) refl refl refl refl refl h)
                    (bind-Keeps IsConsistent (lift (ok_or (first clients) no_process)) decided
                      (λ c h. h)
                      λ origin.
                        bind-Keeps IsConsistent
                          (read
                            (λ c. verified && any (denies profile clients) c.aws_process_denials))
                          (λ b. if b then refusal else open_vault origin) (λ c h. h)
                          (λ b.
                            if-Keeps IsConsistent b refusal (open_vault origin) (λ c h. h)
                              (bind-Keeps IsConsistent (read (λ c. unlocked c.vault))
                                (λ b.
                                  if b
                                  then known origin
                                  else queued profile clients origin verified)
                                (λ c h. h)
                                (λ b.
                                  if-Keeps IsConsistent b (known origin)
                                    (queued profile clients origin verified)
                                    (bind-Keeps IsConsistent (λ c. (find_target profile c, c))
                                      (λ _. answer_aws profile clients origin verified) (λ c h. h)
                                      (λ _.
                                        answer_aws-IsConsistent profile clients origin verified))
                                    (queued_aws-IsConsistent profile clients origin verified))))))
