-- ===== src/Controller/Locking.antt =====
-- What locking the vault leaves.
use secretd.Prelude.{
  ℕ, ◌≡◌, ◌∙◌, refl, sym, subst, inl, inr, none, List, [], ◌∷◌, arith, retain, length, Option-cases,
  Bool-cases, remove_first, if◌then◌else◌, ◌-◌, Bool, any, false, is_some, ap,
}
use secretd.Prelude.Text.{Text, same_text, same_text_refl, same_text_iff}
use secretd.Prelude.Map.{get, get-remove, member, TextMap, keys}
use secretd.Prelude.Sort.{insert_by_key, sort_by_key}
use secretd.Grants.{Grant, GrantStore, revoke, list_grants}
use secretd.Grants
use secretd.Controller.State.{Controller, deny, AwsRequestResolution}
use secretd.Controller.Audit.{record_audit, send, send_aws}
use secretd.Controller.Requests.{
  respond, approve_covered, revoke_grant, store_grant, boundary_of, respond_guards, revoked_grant,
}
use secretd.Controller.Vaulted.{revoke_all, revoke_each, listed, deny_each, deny_each_aws, lock_all}
use secretd.Vault.{unlocked}
use secretd.Vault
use secretd.Vault.Failures.{RefusesAll, lock-RefusesAll}

-- how many grants have the ID
count : Text → List Grant → ℕ
count id grants = length (retain (Grants.has_id id) grants)

count-insert_by_key :
    (id : Text) (key : Grant → ℕ) (g : Grant) (grants : List Grant)
    → count id (insert_by_key key g grants) ≡ count id (g ∷ grants)
unfolding count insert_by_key retain
count-insert_by_key id key g [] = refl
count-insert_by_key id key g (h ∷ grants) = ground (arith, count-insert_by_key id key g grants)

count-sort_by_key :
    (id : Text) (key : Grant → ℕ) (grants : List Grant)
    → count id (sort_by_key key grants) ≡ count id grants
unfolding count sort_by_key retain
count-sort_by_key id key [] = refl
count-sort_by_key id key (g ∷ grants) =
    count-insert_by_key id key g (sort_by_key key grants)
    ∙ ground (arith, count-sort_by_key id key grants)

count-remove_first :
    (id j : Text) (grants : List Grant)
    → count id (remove_first (Grants.has_id j) grants)
      ≡ (if same_text j id then count id grants - 1 else count id grants)
unfolding count remove_first retain
count-remove_first id j [] = ground arith
count-remove_first id j (g ∷ grants) = ground (
  arith,
  count-remove_first id j grants,
  same_text_iff g.id id,
  same_text_iff g.id j,
  same_text_iff j id,
)

revoke_grant-grants :
    (id : Text) (c : Controller)
    → (revoke_grant id c).grants.grants ≡ remove_first (Grants.has_id id) c.grants.grants
unfolding revoke_grant revoked_grant revoke record_audit
revoke_grant-grants id c = ground arith

revoke_grant-vault : (id : Text) (c : Controller) → (revoke_grant id c).vault ≡ c.vault
unfolding revoke_grant revoked_grant revoke record_audit
revoke_grant-vault id c = ground arith

no_grants : (grants : List Grant) → ((k : Text) → count k grants ≡ 0) → grants ≡ []
unfolding count retain
no_grants [] h = refl
no_grants (g ∷ grants) h = absurd (ground (arith, h g.id, same_text_refl g.id))

revoke_each-none :
    (listed : List Grant) (c : Controller)
    → ((k : Text) → count k listed ≡ count k c.grants.grants)
    → (revoke_each listed c).grants.grants ≡ []
unfolding revoke_each count retain
revoke_each-none [] c h = no_grants c.grants.grants (λ k. sym (h k))
revoke_each-none (g ∷ listed) c h = revoke_each-none listed (revoke_grant g.id c) (λ k.
    subst (λ x. count k listed ≡ count k x) (sym (revoke_grant-grants g.id c))
      (ground (arith, h k, count-remove_first k g.id c.grants.grants)))

revoke_each-vault : (listed : List Grant) (c : Controller) → (revoke_each listed c).vault ≡ c.vault
unfolding revoke_each
revoke_each-vault [] c = refl
revoke_each-vault (g ∷ listed) c =
    revoke_each-vault listed (revoke_grant g.id c) ∙ revoke_grant-vault g.id c

-- Revoking everything leaves no grant.
revoke_all-none : (c : Controller) → (revoke_all c).grants.grants ≡ []
unfolding revoke_all listed list_grants
revoke_all-none c =
    let (grants, c') = listed c in
    revoke_each-none grants c' (λ k. count-sort_by_key k (λ g. g.expires_at) c'.grants.grants)

revoke_all-vault : (c : Controller) → (revoke_all c).vault ≡ c.vault
unfolding revoke_all listed list_grants
revoke_all-vault c = let (grants, c') = listed c in revoke_each-vault grants c'

-- a denial takes the request out, tells its client, and leaves the vault and the grants alone
record Denies (id : Text) (c c' : Controller) : Type 0 where
  taken : (j : Text) → get j c'.pending ≡ (if same_text id j then none else get j c.pending)
  vault : c'.vault ≡ c.vault
  grants : c'.grants ≡ c.grants

respond-Denies : (id : Text) (c : Controller) → Denies id c (respond id deny none none c).1
unfolding respond respond_guards boundary_of store_grant approve_covered record_audit send
respond-Denies id c = elim (Option-cases (get id c.pending)) [
  | inl gone ↦
      let same : (respond id deny none none c).1 ≡ c = ground arith in
      rw same (record {
        taken = λ j. ground (arith, gone, same_text_iff id j);
        vault = refl;
        grants = refl;
      })
  | inr (request, there) ↦ elim (Bool-cases (member id c.waiting_for_unlock)) [
    | inl w ↦ elim (Bool-cases (member id c.pending_resolutions)) [
      | inl l ↦ rw there (
          rw w
            (rw l (record { taken = λ j. get-remove id j c.pending; vault = refl; grants = refl })))
      | inr l ↦ rw there (
          rw w
            (rw l (record { taken = λ j. get-remove id j c.pending; vault = refl; grants = refl })))
    ]
    | inr w ↦ elim (Bool-cases (member id c.pending_resolutions)) [
      | inl l ↦ rw there (
          rw w
            (rw l (record { taken = λ j. get-remove id j c.pending; vault = refl; grants = refl })))
      | inr l ↦ rw there (
          rw w
            (rw l (record { taken = λ j. get-remove id j c.pending; vault = refl; grants = refl })))
    ]
  ]
]

abbrev is_id : Text → Text → Bool
is_id j id = same_text id j

any-keys : {V : Type 0} (j : Text) (m : TextMap V) → any (is_id j) (keys m) ≡ is_some (get j m)
unfolding any get
any-keys j [] = refl
any-keys j ((i, v) ∷ m) = ground (arith, any-keys j m)

deny_each-taken :
    (ids : List Text) (c : Controller) (j : Text)
    → get j (deny_each ids c).pending ≡ (if any (is_id j) ids then none else get j c.pending)
unfolding deny_each any
deny_each-taken [] c j = refl
deny_each-taken (id ∷ ids) c j =
    deny_each-taken ids (respond id deny none none c).1 j
    ∙ ground (arith, (respond-Denies id c).taken j)

deny_each-kept :
    (ids : List Text) (c : Controller)
    → ((deny_each ids c).vault ≡ c.vault) × ((deny_each ids c).grants ≡ c.grants)
unfolding deny_each
deny_each-kept [] c = (refl, refl)
deny_each-kept (id ∷ ids) c =
    let denied = respond-Denies id c in
    let rest = deny_each-kept ids (respond id deny none none c).1 in
    (rest.0 ∙ denied.vault, rest.1 ∙ denied.grants)

send_aws-told :
    (id : Text) (r : AwsRequestResolution) (c : Controller) (j : Text)
    → get j (send_aws id r c).pending_aws_resolutions
      ≡ (if same_text id j then none else get j c.pending_aws_resolutions)
unfolding send_aws
send_aws-told id r c j =
    ground (arith, get-remove id j c.pending_aws_resolutions, same_text_iff id j)

-- what denying the AWS requests leaves alone
record ToldDenied (ids : List Text) (c c' : Controller) : Type 0 where
  told :
      (j : Text)
      → get j c'.pending_aws_resolutions
        ≡ (if any (is_id j) ids then none else get j c.pending_aws_resolutions)
  vault : c'.vault ≡ c.vault
  grants : c'.grants ≡ c.grants
  pending : c'.pending ≡ c.pending

deny_each_aws-ToldDenied :
    (ids : List Text) (c : Controller) → ToldDenied ids c (deny_each_aws ids c)
unfolding deny_each_aws any send_aws
deny_each_aws-ToldDenied [] c = record {
  told = λ j. refl;
  vault = refl;
  grants = refl;
  pending = refl;
}
deny_each_aws-ToldDenied (id ∷ ids) c =
    let rest = deny_each_aws-ToldDenied ids (send_aws id AwsRequestResolution.denied c) in
    record {
      told = λ j. rest.told j ∙ ground (arith, send_aws-told id AwsRequestResolution.denied c j);
      vault = rest.vault ∙ ground arith;
      grants = rest.grants ∙ ground arith;
      pending = rest.pending ∙ ground arith;
    }

emptied :
    {V : Type 0} (j : Text) (m : TextMap V)
    → (if any (is_id j) (keys m) then none else get j m) ≡ none
emptied j m = ground (arith, any-keys j m)

-- Nothing is left open: the vault is locked and refuses every operation, and there is no grant,
-- pending request, client that waits for AWS credentials, AWS decision or denial.
pub record IsLocked (c : Controller) : Type 0 where
  pub locked : unlocked c.vault ≡ false
  pub refuses : RefusesAll c.vault
  pub no_grant : c.grants.grants ≡ []
  pub no_request : (id : Text) → get id c.pending ≡ none
  pub no_aws_request : c.pending_aws ≡ []
  pub no_aws_client : (id : Text) → get id c.pending_aws_resolutions ≡ none
  pub no_aws_grant : c.aws_process_decisions ≡ []
  pub no_aws_denial : c.aws_process_denials ≡ []

-- After a lock, whatever was there before, the vault is locked and refuses every operation, there
-- is no grant for a secret, no AWS decision and no denial, no request is pending, and no client
-- waits for AWS credentials.
pub lock_all-IsLocked : (c : Controller) → IsLocked (lock_all c)
unfolding lock_all unlocked Vault.lock
lock_all-IsLocked c =
    let revoked = revoke_all (record c { vault = Vault.lock c.vault }) in
    let answered = deny_each (keys revoked.pending) revoked in
    let told = deny_each_aws-ToldDenied (keys answered.pending_aws_resolutions) answered in
    let kept = deny_each-kept (keys revoked.pending) revoked in
    let vault = told.vault ∙ kept.0 ∙ revoke_all-vault (record c { vault = Vault.lock c.vault }) in
    record {
      locked = rw vault refl;
      refuses = subst RefusesAll (sym vault) (lock-RefusesAll c.vault);
      no_grant =
          ap (λ (s : GrantStore). s.grants) (told.grants ∙ kept.1)
          ∙ revoke_all-none (record c { vault = Vault.lock c.vault });
      no_request = λ id.
          rw told.pending
            (deny_each-taken (keys revoked.pending) revoked id ∙ emptied id revoked.pending);
      no_aws_request = refl;
      no_aws_client = λ id. told.told id ∙ emptied id answered.pending_aws_resolutions;
      no_aws_grant = refl;
      no_aws_denial = refl;
    }
