-- ===== src/Controller/Told.antt =====
-- What an accepted answer to a request for a secret tells the clients.
use secretd.Prelude.{
  ◌≡◌, refl, inl, inr, List, [], ◌∷◌, ◌++◌, arith, Any, Bool-cases, subst, sym, true, Option, some,
  none, ℕ, retain,
}
use secretd.Prelude.Text.{Text}
use secretd.Prelude.Map.{values, member}
use secretd.Prelude.Result.{ok}
use secretd.Process.{ProcessIdentity}
use secretd.Grants.{add_grant}
use secretd.Controller.State.{
  Controller, PendingRequest, RequestResolution, AuditAction, ApprovalDecision,
}
use secretd.Controller.Audit.{record_audit, send}
use secretd.Controller.Requests.{
  approve_covered, approve_each, settled, is_covered, respond, store_grant, resolution_of,
}
use secretd.Controller.Covered.{respond-Accepted}

-- The client of a request has been sent an answer.
abbrev pub Told : Text → RequestResolution → Controller → Type 0
Told id r c = Any (λ message. message ≡ (id, r)) c.sent

Any-append_left : {A : Type 0} (P : A → Type 0) (xs ys : List A) → Any P xs → Any P (xs ++ ys)
Any-append_left P [] ys h = absurd h
Any-append_left P (x ∷ xs) ys (inl p) = inl p
Any-append_left P (x ∷ xs) ys (inr h) = inr (Any-append_left P xs ys h)

Any-append_right : {A : Type 0} (P : A → Type 0) (xs ys : List A) → Any P ys → Any P (xs ++ ys)
Any-append_right P [] ys h = h
Any-append_right P (x ∷ xs) ys h = inr (Any-append_right P xs ys h)

pub Told-send :
    (id j : Text) (r s : RequestResolution) (c : Controller) → Told id r c → Told id r (send j s c)
unfolding send
Told-send id j r s c h = elim (Bool-cases (member j c.pending_resolutions)) [
  | inl t ↦ rw t (Any-append_left (λ message. message ≡ (id, r)) c.sent ((j, s) ∷ []) h)
  | inr t ↦ rw t h
]

pub send-Told :
    (id : Text) (r : RequestResolution) (c : Controller)
    → member id c.pending_resolutions ≡ true
    → Told id r (send id r c)
unfolding send
send-Told id r c h =
    rw h (Any-append_right (λ message. message ≡ (id, r)) c.sent ((id, r) ∷ []) (inl refl))

pub record_audit-sent :
    (a : AuditAction) (s : Text) (t : Option ℕ) (p : ProcessIdentity) (c : Controller)
    → (record_audit a s t p c).sent ≡ c.sent
unfolding record_audit
record_audit-sent a s t p c = refl

Told-approve_each :
    (id : Text) (r : RequestResolution) (requests : List PendingRequest) (c : Controller)
    → Told id r c
    → Told id r (approve_each requests c)
unfolding approve_each
Told-approve_each id r [] c h = h
Told-approve_each id r (q ∷ requests) c h =
    Told-approve_each id r requests
      (record_audit AuditAction.auto_granted q.secret none q.origin
        (send q.id RequestResolution.approved (settled q.id c)))
      (rw record_audit-sent (Told-send id q.id r RequestResolution.approved (settled q.id c) h))

Told-approve_covered :
    (id secret : Text) (r : RequestResolution) (boundary : Option ProcessIdentity) (c : Controller)
    → Told id r c
    → Told id r (approve_covered secret boundary c)
unfolding approve_covered
Told-approve_covered id secret r none c h = h
Told-approve_covered id secret r (some process) c h =
    Told-approve_each id r (retain (is_covered secret process) (values c.pending)) c h

store_grant-resolutions :
    (secret : Text) (boundary : Option ProcessIdentity) (ttl : Option ℕ) (c : Controller)
    → (store_grant secret boundary ttl c).1.pending_resolutions ≡ c.pending_resolutions
unfolding store_grant add_grant
store_grant-resolutions secret none ttl c = refl
store_grant-resolutions secret (some process) ttl c = ground arith

pub record_audit-resolutions :
    (a : AuditAction) (s : Text) (t : Option ℕ) (p : ProcessIdentity) (c : Controller)
    → (record_audit a s t p c).pending_resolutions ≡ c.pending_resolutions
unfolding record_audit
record_audit-resolutions a s t p c = refl

-- The client whose request is answered, and which still listens, is told the decision, if the
-- answer is accepted.
pub respond_tells :
    (id : Text) (decision : ApprovalDecision) (ttl : Option ℕ) (selected : Option ProcessIdentity)
    (c c' : Controller)
    → member id c.pending_resolutions ≡ true
    → respond id decision ttl selected c ≡ (ok tt, c')
    → Told id (resolution_of decision) c'
respond_tells id decision ttl selected c c' listens e =
    let a = respond-Accepted id decision ttl selected c c' e in
    subst (Told id (resolution_of decision)) (sym a.left) (
      Told-approve_covered id a.request.secret (resolution_of decision) a.boundary _ (
        send-Told id (resolution_of decision) _
          (rw (record_audit-resolutions, store_grant-resolutions) listens)))
