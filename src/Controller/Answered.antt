-- ===== src/Controller/Answered.antt =====
-- What the invariant gives: a pending request is never left without an answer by an accepted answer
-- or by a lock.
use secretd.Vault
use secretd.Prelude.{
  ◌∙◌, ◌⊎◌, subst, ℕ, ◌≡◌, refl, true, Option, none, some, List, [], ◌∷◌, arith, inl, inr, Any,
  is_some, Option-cases, Bool-cases,
}
use secretd.Prelude.Text.{Text, same_text, same_text_iff}
use secretd.Prelude.Map.{get, keys, TextMap, get-remove}
use secretd.Prelude.Result.{ok}
use secretd.Vault.{Disk}
use secretd.Controller.State.{
  World, ApprovalDecision, Controller, new_controller, deny, RequestResolution, AuditAction,
  AwsRequestResolution, PendingRequest,
}
use secretd.Controller.Reachable.{Event, handle_all, handle_all-IsConsistent, revoke_each-keeps}
use secretd.Process.{ProcessIdentity}
use secretd.Controller.Requests.{
  respond, resolution_of, respond_guards, revoke_grant, boundary_of, revoked_grant, store_grant,
  settled, approve_covered,
}
use secretd.Controller.Told.{
  Told, respond_tells, Told-send, record_audit-sent, send-Told, record_audit-resolutions,
}
use secretd.Controller.Covered.{respond-Accepted}
use secretd.Controller.Audit.{send, record_audit, send_aws}
use secretd.Controller.Consistent.{IsConsistent, respond-IsConsistent}
use secretd.Controller.Vaulted.{deny_each, revoke_each, deny_each_aws, lock_all, revoke_all, listed}
use secretd.Grants.{Grant}
use secretd.Controller.ConsistentAws.{other_fields}

-- From a new controller, after whatever has happened, an accepted answer to a request is sent to
-- its client, without any condition on the client.
pub handle_all-Told :
    (disk : Disk) (world : World) (events : List Event) (id : Text) (decision : ApprovalDecision)
    (ttl : Option ℕ) (selected : Option ProcessIdentity) (c' : Controller)
    → respond id decision ttl selected (handle_all events (new_controller disk world)) ≡ (ok tt, c')
    → Told id (resolution_of decision) c'
handle_all-Told disk world events id decision ttl selected c' e =
    let c = handle_all events (new_controller disk world) in
    let consistent = handle_all-IsConsistent disk world events in
    let accepted = respond-Accepted id decision ttl selected c c' e in
    respond_tells id decision ttl selected c c' (consistent.heard id (ground arith)) e

denied_one :
    (id : Text) (request : PendingRequest) (c : Controller)
    → get id c.pending ≡ some request
    → (respond id deny none none c).1
      ≡ send id RequestResolution.denied
          (settled id (record_audit AuditAction.denied request.secret none request.origin c))
unfolding respond respond_guards boundary_of store_grant approve_covered
denied_one id request c there = ground arith

refused_one :
    (id : Text) (c : Controller) → get id c.pending ≡ none → (respond id deny none none c).1 ≡ c
unfolding respond
refused_one id c gone = ground arith

send-pending :
    (id : Text) (r : RequestResolution) (c : Controller) → (send id r c).pending ≡ c.pending
unfolding send
send-pending id r c = ground arith

record_audit-pending :
    (a : AuditAction) (s : Text) (t : Option ℕ) (p : ProcessIdentity) (c : Controller)
    → (record_audit a s t p c).pending ≡ c.pending
unfolding record_audit
record_audit-pending a s t p c = refl

-- The client has been told, or its request still stands among those to be denied.
abbrev Reached : Text → List Text → Controller → Type 0
Reached id ids c =
    Told id RequestResolution.denied c
    ⊎ ((is_some (get id c.pending) ≡ true) × Any (λ j. j ≡ id) ids)

deny_step :
    (id j : Text) (ids : List Text) (c : Controller)
    → IsConsistent c
    → Reached id (j ∷ ids) c
    → Reached id ids (respond j deny none none c).1
deny_step id j ids c h reached = elim (Option-cases (get j c.pending)) [
  | inl gone ↦ rw (refused_one j c gone) (elim reached [
    | inl told ↦ inl told
    | inr (waits, inl same) ↦ absurd (ground arith)
    | inr (waits, inr later) ↦ inr (waits, later)
  ])
  | inr (request, there) ↦
      let noted = record_audit AuditAction.denied request.secret none request.origin c in
      let ready = settled j noted in
      rw (denied_one j request c there) (elim reached [
        | inl told ↦ inl (
            Told-send id j RequestResolution.denied RequestResolution.denied ready
              (rw record_audit-sent told))
        | inr (waits, place) ↦ elim (Bool-cases (same_text j id)) [
          | inl same ↦
              let is_id : j ≡ id = (same_text_iff j id).0 same in
              inl (
                subst (λ x. Told x RequestResolution.denied (send j RequestResolution.denied ready))
                  is_id
                  (send-Told j RequestResolution.denied ready
                    (rw record_audit-resolutions (h.heard j (ground arith)))))
          | inr other ↦ elim place [
            | inl same ↦ absurd (ground (arith, same_text_iff j id))
            | inr later ↦ inr (
              rw (send-pending, record_audit-pending) (ground (arith, get-remove j id c.pending)),
              later,
            )
          ]
        ]
      ])
]

deny_each_tells :
    (id : Text) (ids : List Text) (c : Controller)
    → IsConsistent c
    → Reached id ids c
    → Told id RequestResolution.denied (deny_each ids c)
unfolding deny_each
deny_each_tells id [] c h (inl told) = told
deny_each_tells id [] c h (inr (waits, nowhere)) = absurd nowhere
deny_each_tells id (j ∷ ids) c h reached =
    deny_each_tells id ids (respond j deny none none c).1
      (respond-IsConsistent j deny none none c h) (deny_step id j ids c h reached)

keys-Any :
    {V : Type 0} (id : Text) (m : TextMap V)
    → is_some (get id m) ≡ true
    → Any (λ j. j ≡ id) (keys m)
unfolding get
keys-Any id [] e = absurd (ground arith)
keys-Any id ((j, v) ∷ m) e = elim (Bool-cases (same_text j id)) [
  | inl same ↦ inl ((same_text_iff j id).0 same)
  | inr other ↦ inr (keys-Any id m (ground arith))
]

revoke_grant-pending : (id : Text) (c : Controller) → ((revoke_grant id c).pending ≡ c.pending)
unfolding revoke_grant revoked_grant record_audit
revoke_grant-pending id c = ground arith

revoke_each-pending :
    (grants : List Grant) (c : Controller) → (revoke_each grants c).pending ≡ c.pending
unfolding revoke_each
revoke_each-pending [] c = refl
revoke_each-pending (g ∷ grants) c =
    revoke_each-pending grants (revoke_grant g.id c) ∙ revoke_grant-pending g.id c

deny_each_aws-sent : (ids : List Text) (c : Controller) → (deny_each_aws ids c).sent ≡ c.sent
unfolding deny_each_aws send_aws
deny_each_aws-sent [] c = refl
deny_each_aws-sent (id ∷ ids) c =
    ground (arith, deny_each_aws-sent ids (send_aws id AwsRequestResolution.denied c))

-- From a new controller, after whatever has happened, a lock of the vault tells the client of every
-- request for a secret that still waits that it was denied: no client waits on for nothing.
pub lock_all_tells :
    (disk : Disk) (world : World) (events : List Event) (id : Text)
    → is_some (get id (handle_all events (new_controller disk world)).pending) ≡ true
    → Told id RequestResolution.denied (lock_all (handle_all events (new_controller disk world)))
unfolding lock_all revoke_all listed
lock_all_tells disk world events id waits =
    let c = handle_all events (new_controller disk world) in
    let h = handle_all-IsConsistent disk world events in
    let locked = record c { vault = Vault.lock c.vault } in
    let (grants, d) = listed locked in
    let revoked = revoke_each grants d in
    let kept = revoke_each-keeps grants d (other_fields c d refl refl refl refl refl h) in
    let here : is_some (get id revoked.pending) ≡ true = rw revoke_each-pending waits in
    rw deny_each_aws-sent (
      deny_each_tells id (keys revoked.pending) revoked kept
        (inr (here, keys-Any id revoked.pending here)))
