-- ===== src/Controller/Requested.antt =====
-- Timeouts, revocations and the requests that waited for the vault keep the invariant.
use secretd.Prelude.{none, some, Option, List, [], ◌∷◌, inl, inr, refl}
use secretd.Prelude.Text.{Text}
use secretd.Prelude.Map.{get, remove}
use secretd.Prelude.Keyed.{IsKeyed-remove}
use secretd.Prelude.Result.{Result-cases}
use secretd.Grants.{Grant, revoke}
use secretd.Vault.{reveal}
use secretd.Controller.State.{Controller, PendingRequest, RequestResolution}
use secretd.Controller.Requests.{
  timed_out_request, revoke_grant, revoked_grant, prepare_one, prepare_each,
}
use secretd.Controller.Consistent.{
  Heard-remove, Heard-remove_both, get-remove_same, IsConsistent, secret_request_id, audited, sent,
  settled-IsConsistent,
}
use secretd.Controller.ConsistentAws.{other_fields}

pub timed_out-keeps :
    (id : Text) (request : Option PendingRequest) (c : Controller)
    → IsConsistent c
    → IsConsistent (timed_out_request id request c)
unfolding timed_out_request
timed_out-keeps id none c h = h
timed_out-keeps id (some request) c h =
    let s = settled-IsConsistent id c h in
    audited _ _ _ _ _ (record {
      short = s.short;
      keyed = s.keyed;
      keyed_aws = s.keyed_aws;
      heard = Heard-remove_both id c.pending c.pending_resolutions h.heard;
      heard_aws = s.heard_aws;
    })

revoked-keeps :
    (grant : Option Grant) (c : Controller) → IsConsistent c → IsConsistent (revoked_grant grant c)
unfolding revoked_grant
revoked-keeps none c h = h
revoked-keeps (some grant) c h = audited _ _ _ _ c h

pub revoke_grant-keeps :
    (id : Text) (c : Controller) → IsConsistent c → IsConsistent (revoke_grant id c)
unfolding revoke_grant
revoke_grant-keeps id c h =
    let (grant, grants) = revoke id c.grants in
    revoked-keeps grant (record c { grants = grants })
      (other_fields c (record c { grants = grants }) refl refl refl refl refl h)

prepare_one-keeps :
    (id : Text) (request : Option PendingRequest) (c : Controller)
    → IsConsistent c
    → IsConsistent (prepare_one id request c)
unfolding prepare_one
prepare_one-keeps id none c h = h
prepare_one-keeps id (some request) c h = elim (Result-cases (reveal request.secret c.vault)) [
  | inl (value, found) ↦ rw (prepare_one, found) h
  | inr (error, hidden) ↦
      rw (prepare_one, hidden)
        (sent id (RequestResolution.failed error) (record c { pending = remove id c.pending })
          (get-remove_same id c.pending [])
          (record {
            short = h.short;
            keyed = IsKeyed-remove secret_request_id id c.pending h.keyed;
            keyed_aws = h.keyed_aws;
            heard = Heard-remove id c.pending c.pending_resolutions h.heard;
            heard_aws = h.heard_aws;
          }))
]

pub prepare_each-keeps :
    (ids : List Text) (c : Controller) → IsConsistent c → IsConsistent (prepare_each ids c)
unfolding prepare_each
prepare_each-keeps [] c h = h
prepare_each-keeps (id ∷ ids) c h =
    prepare_each-keeps ids _ (prepare_one-keeps id (get id c.pending) c h)
