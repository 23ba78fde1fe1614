-- ===== src/Controller/Covered.antt =====
-- What an accepted answer to a request for a secret does to it and to the other requests.
use secretd.Prelude.{
  ◌≡◌, refl, ◌∙◌, Bool, false, Option, some, none, List, [], ◌∷◌, arith, any, retain, if◌then◌else◌,
  ℕ, Option-cases, inl, inr, unwrap_or, subst, ap, sym,
}
use secretd.Prelude.Text.{Text, same_text}
use secretd.Prelude.Map.{get, remove, values, get-remove}
use secretd.Prelude.Keyed.{IsKeyed, any-retain-values, IsKeyed-remove}
use secretd.Process.{ProcessIdentity}
use secretd.Controller.State.{
  Controller, PendingRequest, RequestResolution, AuditAction, ApprovalDecision,
}
use secretd.Controller.Audit.{record_audit, send}
use secretd.Controller.Requests.{
  approve_covered, approve_each, settled, is_covered, respond, store_grant, respond_guards,
  boundary_of, resolution_of, action_of, is_temporary,
}
use secretd.Prelude.Result.{ok, Result-cases}
use secretd.Grants.{add_grant, default_grant_seconds}

abbrev pub request_id : PendingRequest → Text
request_id r = r.id

-- the requests that a boundary covers, none without one
abbrev pub covered_by : Text → Option ProcessIdentity → PendingRequest → Bool
covered_by secret none request = false
covered_by secret (some process) request = is_covered secret process request

-- the entry of a request, unless it passes the test
abbrev pub unless {ℓ} : {A : Type ℓ} → (A → Bool) → Option A → Option A
unless test none = none
unless test (some a) = if test a then none else some a

pub record_audit-pending :
    (a : AuditAction) (s : Text) (t : Option ℕ) (p : ProcessIdentity) (c : Controller)
    → (record_audit a s t p c).pending ≡ c.pending
unfolding record_audit
record_audit-pending a s t p c = refl

pub send-pending :
    (id : Text) (r : RequestResolution) (c : Controller) → (send id r c).pending ≡ c.pending
unfolding send
send-pending id r c = ground arith

approve_each-pending :
    (j : Text) (requests : List PendingRequest) (c : Controller)
    → get j (approve_each requests c).pending
      ≡ (if any (λ r. same_text r.id j) requests then none else get j c.pending)
unfolding approve_each any
approve_each-pending j [] c = refl
approve_each-pending j (r ∷ requests) c =
    let next =
      record_audit AuditAction.auto_granted r.secret none r.origin
        (send r.id RequestResolution.approved (settled r.id c)) in
    let same : next.pending ≡ remove r.id c.pending =
      record_audit-pending _ _ _ _ _
      ∙ send-pending r.id RequestResolution.approved (settled r.id c) in
    approve_each-pending j requests next ∙ rw same (ground (arith, get-remove r.id j c.pending))

approve_covered-pending :
    (j secret : Text) (boundary : Option ProcessIdentity) (c : Controller)
    → IsKeyed request_id c.pending
    → get j (approve_covered secret boundary c).pending
      ≡ unless (covered_by secret boundary) (get j c.pending)
unfolding approve_covered
approve_covered-pending j secret none c h = ground arith
approve_covered-pending j secret (some process) c h =
    approve_each-pending j (retain (is_covered secret process) (values c.pending)) c
    ∙ ground (arith, any-retain-values request_id (is_covered secret process) j c.pending h)

-- What an accepted answer has passed, and the state that it leaves.
pub record Accepted (id : Text) (decision : ApprovalDecision) (ttl : Option ℕ)
    (selected : Option ProcessIdentity) (c c' : Controller) : Type 0 where
  pub request : PendingRequest
  pub boundary : Option ProcessIdentity
  pub there : get id c.pending ≡ some request
  pub guarded : respond_guards id decision request c ≡ ok tt
  pub inside : boundary_of decision request selected ≡ ok boundary
  pub stored : (store_grant request.secret boundary ttl c).0 ≡ ok tt
  pub left :
      c'
      ≡ approve_covered request.secret boundary (
          send id (resolution_of decision) (
            settled id (
              record_audit
                (action_of decision)
                request.secret
                (if is_temporary decision then some (unwrap_or ttl default_grant_seconds) else none)
                (unwrap_or boundary request.origin)
                (store_grant request.secret boundary ttl c).1)))

pub respond-Accepted :
    (id : Text) (decision : ApprovalDecision) (ttl : Option ℕ) (selected : Option ProcessIdentity)
    (c c' : Controller)
    → respond id decision ttl selected c ≡ (ok tt, c')
    → Accepted id decision ttl selected c c'
unfolding respond
respond-Accepted id decision ttl selected c c' e = elim (Option-cases (get id c.pending)) [
  | inl gone ↦ absurd (ground arith)
  | inr (request, there) ↦ elim (Result-cases (respond_guards id decision request c)) [
    | inr (g, guarded) ↦ absurd (ground arith)
    | inl (u, passed) ↦ elim (Result-cases (boundary_of decision request selected)) [
      | inr (g, outside) ↦ absurd (ground arith)
      | inl (boundary, inside) ↦ elim (Result-cases (store_grant request.secret boundary ttl c).0) [
        | inr (g, refused) ↦ absurd (ground arith)
        | inl (v, stored) ↦ record {
          request = request;
          boundary = boundary;
          there = there;
          guarded = passed;
          inside = inside;
          stored = stored;
          left = ground arith;
        }
      ]
    ]
  ]
]

store_grant-pending :
    (secret : Text) (boundary : Option ProcessIdentity) (ttl : Option ℕ) (c : Controller)
    → (store_grant secret boundary ttl c).1.pending ≡ c.pending
unfolding store_grant add_grant
store_grant-pending secret none ttl c = refl
store_grant-pending secret (some process) ttl c = ground arith

answered-pending :
    (id j secret : Text) (boundary : Option ProcessIdentity) (c before : Controller)
    → IsKeyed request_id c.pending
    → before.pending ≡ remove id c.pending
    → get j (approve_covered secret boundary before).pending
      ≡ (if same_text id j then none else unless (covered_by secret boundary) (get j c.pending))
answered-pending id j secret boundary c before keyed e =
    approve_covered-pending j secret boundary before
      (subst (IsKeyed request_id) (sym e) (IsKeyed-remove request_id id c.pending keyed))
    ∙ rw e (ground (arith, get-remove id j c.pending))

-- Where each pending request stands under its own ID: after an accepted answer its request is not
-- pending any more; nor is any request that the new grant covers, a verified one for the same
-- secret with the chosen process in its tree. Every other request stays pending, unchanged.
pub respond_pending :
    (id : Text) (decision : ApprovalDecision) (ttl : Option ℕ) (selected : Option ProcessIdentity)
    (c c' : Controller) (j : Text)
    → IsKeyed request_id c.pending
    → respond id decision ttl selected c ≡ (ok tt, c')
    → (request : PendingRequest) × (boundary : Option ProcessIdentity) × (get id c.pending
        ≡ some request)
      × (boundary_of decision request selected ≡ ok boundary)
      × (get j c'.pending ≡ (
          if same_text id j
          then none
          else unless (covered_by request.secret boundary) (get j c.pending)))
respond_pending id decision ttl selected c c' j keyed e =
    let a = respond-Accepted id decision ttl selected c c' e in
    let granted = (store_grant a.request.secret a.boundary ttl c).1 in
    let audited =
      record_audit (action_of decision) a.request.secret
        (if is_temporary decision then some (unwrap_or ttl default_grant_seconds) else none)
        (unwrap_or a.boundary a.request.origin) granted in
    let before = send id (resolution_of decision) (settled id audited) in
    let removed : before.pending ≡ remove id c.pending =
      send-pending id (resolution_of decision) (settled id audited)
      ∙ ap (remove id) (
          record_audit-pending _ _ _ _ granted
          ∙ store_grant-pending a.request.secret a.boundary ttl c) in
    (
      a.request,
      a.boundary,
      a.there,
      a.inside,
      ap (λ (x : Controller). get j x.pending) a.left
          ∙ answered-pending id j a.request.secret a.boundary c before keyed removed,
    )
