-- ===== src/Controller/Release.antt =====
-- When a client gets a secret without a question.
use secretd.Prelude.{◌≡◌, refl, Bool, true, false, List, arith, Any, first, inr, inl, Option-cases}
use secretd.Prelude.Text.{Text}
use secretd.Prelude.Result.{ok, Result-cases}
use secretd.Process.{ProcessIdentity, omit_secretd_client_processes}
use secretd.Grants.Lookup.{Covers, find_grant_iff}
use secretd.Vault.{normalize_secret_name, unlocked, reveal}
use secretd.Controller.State.{Controller, RequestOutcome}
use secretd.Controller.Audit.{now_millis, record_audit}
use secretd.Controller.Requests.{begin_request, begin_unlocked, has_grant, queue_request}

-- The conditions under which a secret is handed out at once.
pub record IsReleased (input : Text) (tree : List ProcessIdentity) (verified : Bool)
    (c : Controller) (value : Text) : Type 0 where
  pub secret : Text
  pub named : normalize_secret_name input ≡ ok secret
  pub connection : verified ≡ true
  pub available : unlocked c.vault ≡ true
  pub revealed : reveal secret c.vault ≡ ok value
  pub granted :
      Any
        (λ process. Any (Covers (now_millis c) secret process) c.grants.grants)
        (omit_secretd_client_processes tree)

has_grant-Covers :
    (verified : Bool) (secret : Text) (tree : List ProcessIdentity) (c : Controller)
    → (has_grant verified secret tree c).0 ≡ true
    → (verified ≡ true)
      × Any (λ process. Any (Covers (now_millis c) secret process) c.grants.grants) tree
unfolding has_grant
has_grant-Covers false secret tree c e = cc
has_grant-Covers true secret tree c e =
    (refl, (find_grant_iff (now_millis c) secret tree c.grants).0 e)

begin_unlocked-immediate :
    (secret : Text) (tree : List ProcessIdentity) (origin : ProcessIdentity) (verified : Bool)
    (c c' : Controller) (value : Text)
    → begin_unlocked secret tree origin verified c ≡ (ok (RequestOutcome.immediate value), c')
    → ((has_grant verified secret tree c).0 ≡ true) × (reveal secret c.vault ≡ ok value)
unfolding begin_unlocked has_grant record_audit
begin_unlocked-immediate secret tree origin verified c c' value e = ground arith

-- a request that is answered at once has got to the unlocked part
begin_request-unlocked :
    (input : Text) (tree : List ProcessIdentity) (verified : Bool) (c c' : Controller)
    (value : Text)
    → begin_request input tree verified c ≡ (ok (RequestOutcome.immediate value), c')
    → (secret : Text) × (origin : ProcessIdentity) × (normalize_secret_name input ≡ ok secret)
      × (unlocked c.vault ≡ true)
      × (begin_unlocked secret (omit_secretd_client_processes tree) origin verified c
          ≡ (ok (RequestOutcome.immediate value), c'))
unfolding begin_request queue_request
begin_request-unlocked input tree verified c c' value e =
    elim (Result-cases (normalize_secret_name input)) [
      | inr (f, bad) ↦ absurd (ground arith)
      | inl (secret, named) ↦ elim (Option-cases (first (omit_secretd_client_processes tree))) [
        | inl nobody ↦ absurd (ground arith)
        | inr (origin, first_is) ↦ (secret, origin, named, ground arith, ground arith)
      ]
    ]

-- A client gets a secret without a question only if the name is valid, its connection was verified,
-- the vault is unlocked and holds the secret with that value, and a process of its tree, without
-- the client programs of secretd, has a grant for the secret that has not expired.
pub begin_request-IsReleased :
    (input : Text) (tree : List ProcessIdentity) (verified : Bool) (c c' : Controller)
    (value : Text)
    → begin_request input tree verified c ≡ (ok (RequestOutcome.immediate value), c')
    → IsReleased input tree verified c value
begin_request-IsReleased input tree verified c c' value e =
    let (secret, origin, named, available, rest) =
      begin_request-unlocked input tree verified c c' value e in
    let parts =
      begin_unlocked-immediate secret (omit_secretd_client_processes tree) origin verified c c'
        value rest in
    let covers = has_grant-Covers verified secret (omit_secretd_client_processes tree) c parts.0 in
    record {
      secret = secret;
      named = named;
      connection = covers.0;
      available = available;
      revealed = parts.1;
      granted = covers.1;
    }
