-- ===== src/Controller/Consistent.antt =====
-- The invariant of the controller, and that every operation of requests keeps it.
use secretd.Prelude.{
  ◌≡◌, inl, inr, Bool-cases, is_some, false, ℕ, ◌≤◌, true, none, some, Option, List, [], ◌∷◌, arith,
  length, Bool, retain, first, if◌then◌else◌,
}
use secretd.Prelude.Text.{Text, same_text_iff, same_text_refl}
use secretd.Prelude.Map.{
  remove, insert, get-remove, get-insert, TextMap, TextSet, member, get, values,
}
use secretd.Prelude.Keyed.{IsKeyed, IsKeyed-remove, IsKeyed-insert}
use secretd.Prelude.Keeps.{Keeps, bind-Keeps, then-Keeps, if-Keeps}
use secretd.Prelude.Result.{ok_or, request_not_pending, no_process}
use secretd.Process.{ProcessIdentity, omit_secretd_client_processes}
use secretd.Grants.{add_grant}
use secretd.Vault.{reveal, normalize_secret_name}
use secretd.Controller.State.{
  Controller, PendingRequest, PendingAwsCredentialRequest, AuditAction, RequestResolution,
  AwsRequestResolution, ApprovalDecision, RequestOutcome,
}
use secretd.Controller.Audit.{max_audit_entries, record_audit, send, send_aws}
use secretd.Controller.History.{record_audit-short}
use secretd.Controller.Requests.{
  has_grant, total, begin_unlocked, begin_request, is_covered, respond_guards, boundary_of,
}
use secretd.Vault.{unlocked}
use secretd.Prelude.Exec.{Exec, lift, read, pure, modify, ◌>>=◌, ◌>>◌}
use secretd.Controller.Requests.{
  settled, queue_request, approve_each, store_grant, approve_covered, respond, begin_unlocked,
  add_to_grants, has_grant,
}

abbrev pub secret_request_id : PendingRequest → Text
secret_request_id r = r.id

abbrev pub aws_request_id : PendingAwsCredentialRequest → Text
aws_request_id r = r.id

-- Every key of the one is in the other.
abbrev pub Heard : {V : Type 0} → TextMap V → TextSet → Type 0
Heard m listeners = (id : Text) → is_some (get id m) ≡ true → member id listeners ≡ true

module _ {V : Type 0} (id : Text) (m : TextMap V) (listeners : TextSet) where
  pub Heard-remove : Heard m listeners → Heard (remove id m) listeners
  Heard-remove h j p = h j (ground (arith, get-remove id j m))

  -- the listener of a key that is gone may go too
  pub Heard-remove_both : Heard m listeners → Heard (remove id m) (remove id listeners)
  Heard-remove_both h j p = ground (arith, get-remove id j m, get-remove id j listeners, h j)

  pub Heard-remove_listener : get id m ≡ none → Heard m listeners → Heard m (remove id listeners)
  Heard-remove_listener gone h j p =
      ground (arith, gone, get-remove id j listeners, h j, same_text_iff id j)

  pub Heard-insert : (v : V) → Heard m listeners → Heard (insert id v m) (insert id tt listeners)
  Heard-insert v h j p = ground (arith, get-insert id j v m, get-insert id j tt listeners, h j)

  pub get-remove_same : get id (remove id m) ≡ none
  get-remove_same = ground (arith, get-remove id id m, same_text_refl id)

pub Heard-none : (V : Type 0) (listeners : TextSet) → Heard {V = V} [] listeners
unfolding get
Heard-none V listeners id p = cc

-- At most 500 entries in the history, every pending request under its own ID, once, and a client
-- that still listens for each.
pub record IsConsistent (c : Controller) : Type 0 where
  pub short : length c.audit ≤ max_audit_entries
  pub keyed : IsKeyed secret_request_id c.pending
  pub keyed_aws : IsKeyed aws_request_id c.pending_aws
  pub heard : Heard c.pending c.pending_resolutions
  pub heard_aws : Heard c.pending_aws c.pending_aws_resolutions

pub audited :
    (action : AuditAction) (secret : Text) (ttl : Option ℕ) (process : ProcessIdentity)
    (c : Controller)
    → IsConsistent c
    → IsConsistent (record_audit action secret ttl process c)
unfolding record_audit
audited action secret ttl process c h = record {
  short = record_audit-short action secret ttl process c;
  keyed = h.keyed;
  keyed_aws = h.keyed_aws;
  heard = h.heard;
  heard_aws = h.heard_aws;
}

pub sent :
    (id : Text) (r : RequestResolution) (c : Controller)
    → get id c.pending ≡ none
    → IsConsistent c
    → IsConsistent (send id r c)
unfolding send
sent id r c gone h = elim (Bool-cases (member id c.pending_resolutions)) [
  | inr deaf ↦ rw deaf h
  | inl listens ↦ rw listens (record {
    short = h.short;
    keyed = h.keyed;
    keyed_aws = h.keyed_aws;
    heard = Heard-remove_listener id c.pending c.pending_resolutions gone h.heard;
    heard_aws = h.heard_aws;
  })
]

pub sent_aws :
    (id : Text) (r : AwsRequestResolution) (c : Controller)
    → get id c.pending_aws ≡ none
    → IsConsistent c
    → IsConsistent (send_aws id r c)
unfolding send_aws
sent_aws id r c gone h = elim (Bool-cases (member id c.pending_aws_resolutions)) [
  | inr deaf ↦ rw deaf h
  | inl listens ↦ rw listens (record {
    short = h.short;
    keyed = h.keyed;
    keyed_aws = h.keyed_aws;
    heard = h.heard;
    heard_aws = Heard-remove_listener id c.pending_aws c.pending_aws_resolutions gone h.heard_aws;
  })
]

pub settled-IsConsistent :
    (id : Text) (c : Controller) → IsConsistent c → IsConsistent (settled id c)
settled-IsConsistent id c h = record {
  short = h.short;
  keyed = IsKeyed-remove secret_request_id id c.pending h.keyed;
  keyed_aws = h.keyed_aws;
  heard = Heard-remove id c.pending c.pending_resolutions h.heard;
  heard_aws = h.heard_aws;
}

settled_sent :
    (id : Text) (r : RequestResolution) (c : Controller)
    → IsConsistent c
    → IsConsistent (send id r (settled id c))
settled_sent id r c h =
    sent id r (settled id c) (get-remove_same id c.pending c.pending_resolutions)
      (settled-IsConsistent id c h)

queued-IsConsistent :
    (secret : Text) (tree : List ProcessIdentity) (origin : ProcessIdentity)
    (verified waiting : Bool) (c : Controller)
    → IsConsistent c
    → IsConsistent (queue_request secret tree origin verified waiting c).1
unfolding queue_request
queued-IsConsistent secret tree origin verified waiting c h = record {
  short = h.short;
  keyed = IsKeyed-insert secret_request_id _ c.pending h.keyed;
  keyed_aws = h.keyed_aws;
  heard = Heard-insert _ c.pending c.pending_resolutions _ h.heard;
  heard_aws = h.heard_aws;
}

approve_each-IsConsistent :
    (requests : List PendingRequest) (c : Controller)
    → IsConsistent c
    → IsConsistent (approve_each requests c)
unfolding approve_each
approve_each-IsConsistent [] c h = h
approve_each-IsConsistent (r ∷ requests) c h =
    approve_each-IsConsistent requests _ (audited _ _ _ _ _ (settled_sent r.id _ c h))

store_grant-IsConsistent :
    (secret : Text) (boundary : Option ProcessIdentity) (ttl : Option ℕ)
    → Keeps IsConsistent (store_grant secret boundary ttl)
unfolding store_grant add_to_grants add_grant
store_grant-IsConsistent secret none ttl c h = h
store_grant-IsConsistent secret (some process) ttl c h = record {
  short = ground (arith, h.short);
  keyed = ground (arith, h.keyed);
  keyed_aws = ground (arith, h.keyed_aws);
  heard = λ id p. ground (arith, h.heard id);
  heard_aws = λ id p. ground (arith, h.heard_aws id);
}

covered-IsConsistent :
    (secret : Text) (boundary : Option ProcessIdentity) (c : Controller)
    → IsConsistent c
    → IsConsistent (approve_covered secret boundary c)
unfolding approve_covered
covered-IsConsistent secret none c h = h
covered-IsConsistent secret (some process) c h =
    approve_each-IsConsistent (retain (is_covered secret process) (values c.pending)) c h

pub respond-IsConsistent :
    (id : Text) (decision : ApprovalDecision) (ttl : Option ℕ) (selected : Option ProcessIdentity)
    → Keeps IsConsistent (respond id decision ttl selected)
unfolding respond
respond-IsConsistent id decision ttl selected =
    bind-Keeps IsConsistent (λ c. (ok_or (get id c.pending) request_not_pending, c)) _ (λ c h. h)
      λ request.
        then-Keeps IsConsistent (λ c. (respond_guards id decision request c, c)) _ (λ c h. h)
          (bind-Keeps IsConsistent (lift (boundary_of decision request selected)) _ (λ c h. h)
            λ boundary.
              then-Keeps IsConsistent (store_grant request.secret boundary ttl) _
                (store_grant-IsConsistent request.secret boundary ttl)
                (λ c h.
                  covered-IsConsistent request.secret boundary _
                    (settled_sent id _ _ (audited _ _ _ _ c h))))

looked_up-IsConsistent :
    (verified : Bool) (secret : Text) (tree : List ProcessIdentity) (c : Controller)
    → IsConsistent c
    → IsConsistent (has_grant verified secret tree c).1
unfolding has_grant
looked_up-IsConsistent true secret tree c h = record {
  short = h.short;
  keyed = h.keyed;
  keyed_aws = h.keyed_aws;
  heard = h.heard;
  heard_aws = h.heard_aws;
}
looked_up-IsConsistent false secret tree c h = h

begin_unlocked-IsConsistent :
    (secret : Text) (tree : List ProcessIdentity) (origin : ProcessIdentity) (verified : Bool)
    → Keeps IsConsistent (begin_unlocked secret tree origin verified)
unfolding begin_unlocked
begin_unlocked-IsConsistent secret tree origin verified =
    let granted : Exec Controller RequestOutcome = do
      modify (record_audit AuditAction.auto_granted secret none origin)
      value ← λ c. (reveal secret c.vault, c)
      pure (RequestOutcome.immediate value)
    in let asked : Exec Controller RequestOutcome =
        total (queue_request secret tree origin verified false) in
      bind-Keeps IsConsistent (λ c. (reveal secret c.vault, c)) _ (λ c h. h)
        λ v.
          bind-Keeps IsConsistent (total (has_grant verified secret tree))
            (λ b. if b then granted else asked) (looked_up-IsConsistent verified secret tree)
            (λ b.
              if-Keeps IsConsistent b granted asked
                (λ c h.
                  bind-Keeps IsConsistent (λ (d : Controller). (reveal secret d.vault, d))
                    (λ value. pure (RequestOutcome.immediate value)) (λ d h. h) (λ value d h. h)
                    (record_audit AuditAction.auto_granted secret none origin c)
                    (audited _ _ _ _ c h))
                (queued-IsConsistent secret tree origin verified false))

pub begin_request-IsConsistent :
    (input : Text) (tree : List ProcessIdentity) (verified : Bool)
    → Keeps IsConsistent (begin_request input tree verified)
unfolding begin_request
begin_request-IsConsistent input tree verified =
    let clients = omit_secretd_client_processes tree in
    bind-Keeps IsConsistent (lift (normalize_secret_name input)) _ (λ c h. h)
      λ secret.
        bind-Keeps IsConsistent (lift (ok_or (first clients) no_process)) _ (λ c h. h)
          λ origin.
            bind-Keeps IsConsistent (read (λ c. unlocked c.vault))
              (λ b.
                if b
                then begin_unlocked secret clients origin verified
                else total (queue_request secret clients origin verified true))
              (λ c h. h)
              (λ b.
                if-Keeps IsConsistent b (begin_unlocked secret clients origin verified)
                  (total (queue_request secret clients origin verified true))
                  (begin_unlocked-IsConsistent secret clients origin verified)
                  (queued-IsConsistent secret clients origin verified true))
