-- ===== src/Controller/AwsMemory.antt =====
-- What the answers to requests for AWS credentials leave for later requests.
use secretd.Prelude.{
  ℕ, ◌<◌, ◌*◌, ◌≡◌, refl, Bool, true, false, some, List, [], ◌∷◌, ◌++◌, arith, any, retain,
  find_last, first, lt→ltb, update_first, map, find, Bool-cases, inl, inr, Option-cases,
}
use secretd.Prelude.Text.{Text, same_text_refl}
use secretd.Prelude.Word.{saturating_add, saturating_mul}
use secretd.Prelude.Result.{ok}
use secretd.Process.{ProcessIdentity, same_process, omit_secretd_client_processes}
use secretd.Process.Identity.{same_process_refl}
use secretd.Grants.{default_grant_seconds}
use secretd.Aws.{read_only, admin, AwsAccessLevel}
use secretd.Vault.{unlocked}
use secretd.Controller.State.{
  Controller, AwsCredentialGrant, AwsCredentialDenial, AwsRequestOutcome,
}
use secretd.Controller.Audit.{now_millis, after_reading, new_uuid, record_audit}
use secretd.Controller.AwsRequests.{
  normalize_aws_profile, find_decision, decides, denies, other_denial, other_grant,
  begin_aws_request, remember_aws_grant, remember_aws_denial, prune_exited_aws_grants,
  prune_denials, is_current_denial,
}
use secretd.Controller.AwsGrants.{
  set_aws_grant_level, switch_level, has_grant_id, with_level, same_level,
}

find_last-append :
    {A : Type 0} (test : A → Bool) (xs : List A) (x : A)
    → test x ≡ true
    → find_last test (xs ++ x ∷ []) ≡ some x
unfolding find_last
find_last-append test [] x h = ground (arith, h)
find_last-append test (y ∷ xs) x h = ground (arith, find_last-append test xs x h)

any-append_last :
    {A : Type 0} (test : A → Bool) (xs : List A) (x : A)
    → test x ≡ true
    → any test (xs ++ x ∷ []) ≡ true
unfolding any
any-append_last test [] x h = ground (arith, h)
any-append_last test (y ∷ xs) x h = ground (arith, any-append_last test xs x h)

retain-append :
    {A : Type 0} (keep : A → Bool) (xs : List A) (x : A)
    → keep x ≡ true
    → retain keep (xs ++ x ∷ []) ≡ retain keep xs ++ x ∷ []
unfolding retain
retain-append keep [] x h = ground (arith, h)
retain-append keep (y ∷ xs) x h = ground (arith, retain-append keep xs x h)

no_denial :
    (profile : Text) (process : ProcessIdentity) (denials : List AwsCredentialDenial)
    → any (denies profile (process ∷ [])) (retain (other_denial profile process) denials) ≡ false
unfolding any retain
no_denial profile process [] = refl
no_denial profile process (d ∷ denials) = ground (arith, no_denial profile process denials)

-- After an approval is remembered, the nearest decision for a tree that starts at the process is
-- the new one, with its level, whatever was decided before, and no denial of the profile for the
-- process itself is left.
pub remember_aws_grant_lem :
    (profile : Text) (level : AwsAccessLevel) (process : ProcessIdentity) (seconds : ℕ)
    (tree : List ProcessIdentity) (c : Controller)
    → let after = remember_aws_grant profile level process seconds c in
      ((decision : AwsCredentialGrant) × (find_decision after.aws_process_decisions profile
            (process ∷ tree)
          ≡ some decision)
        × (decision.level ≡ level)
        × (decision.created_at ≡ now_millis c))
      × (any (denies profile (process ∷ [])) after.aws_process_denials ≡ false)
unfolding remember_aws_grant find_decision
remember_aws_grant_lem profile level process seconds tree c =
    let grant : AwsCredentialGrant = record {
      id = new_uuid c;
      profile = profile;
      level = level;
      process = process;
      created_at = now_millis c;
      expires_at = saturating_add (now_millis c) (saturating_mul seconds 1000);
    } in
    let found =
      find_last-append (decides profile process)
        (retain (other_grant profile process) c.aws_process_decisions) grant
        (ground (arith, same_text_refl profile, same_process_refl process)) in
    ((grant, ground (arith, found), refl, refl), no_denial profile process c.aws_process_denials)

-- After a denial is remembered, and as long as it holds, a verified request for the profile with
-- the process in its tree, behind the leading client processes of secretd, is denied without a
-- question.
pub begin-remember_aws_denial :
    (input profile : Text) (process origin : ProcessIdentity) (tree : List ProcessIdentity)
    (c : Controller)
    → normalize_aws_profile input ≡ ok profile
    → first (omit_secretd_client_processes tree) ≡ some origin
    → any (same_process process) (omit_secretd_client_processes tree) ≡ true
    → let after = remember_aws_denial profile process c in
      now_millis (after_reading after)
        < saturating_add (now_millis c) (default_grant_seconds * 1000)
      → (begin_aws_request input tree true after).0 ≡ ok AwsRequestOutcome.denied
unfolding begin_aws_request remember_aws_denial prune_exited_aws_grants prune_denials
begin-remember_aws_denial input profile process origin tree c named nearest inside holds =
    let denial : AwsCredentialDenial = record {
      id = new_uuid c;
      profile = profile;
      process = process;
      created_at = now_millis c;
      expires_at = saturating_add (now_millis c) (default_grant_seconds * 1000);
    } in
    let others = retain (other_denial profile process) c.aws_process_denials in
    let now = now_millis (after_reading (remember_aws_denial profile process c)) in
    let kept = retain-append (is_current_denial now) others denial (lt→ltb _ _ holds) in
    let t = omit_secretd_client_processes tree in
    let found : any (denies profile t) (retain (is_current_denial now) (others ++ denial ∷ []))
        ≡ true =
      rw kept (
        any-append_last (denies profile t) (retain (is_current_denial now) others) denial
          (ground (arith, same_text_refl profile, inside))) in
    ground (arith, named, nearest, found)

-- what a switch of the level leaves alone
abbrev pub shape : AwsCredentialGrant → Text × Text × ProcessIdentity × ℕ × ℕ
shape g = (g.id, g.profile, g.process, g.created_at, g.expires_at)

map-update_first :
    (id : Text) (level : AwsAccessLevel) (grants : List AwsCredentialGrant)
    → map shape (update_first (has_grant_id id) (with_level level) grants) ≡ map shape grants
unfolding update_first
map-update_first id level [] = refl
map-update_first id level (g ∷ grants) = ground (arith, map-update_first id level grants)

find-update_first :
    (id : Text) (level : AwsAccessLevel) (grants : List AwsCredentialGrant)
    (grant : AwsCredentialGrant)
    → find (has_grant_id id) grants ≡ some grant
    → find (has_grant_id id) (update_first (has_grant_id id) (with_level level) grants)
      ≡ some (record grant { level = level })
unfolding update_first find
find-update_first id level [] grant e = absurd (ground arith)
find-update_first id level (g ∷ grants) grant e = elim (Bool-cases (has_grant_id id g)) [
  | inl here ↦ ground arith
  | inr elsewhere ↦ ground (arith, find-update_first id level grants grant)
]

same_level-equal : (l m : AwsAccessLevel) → same_level l m ≡ true → l ≡ m
unfolding same_level
same_level-equal read_only read_only h = refl
same_level-equal admin admin h = refl
same_level-equal read_only admin h = absurd (ground arith)
same_level-equal admin read_only h = absurd (ground arith)

-- Where the level of an AWS grant is switched successfully, the grant has the new level, and, but
-- for the grants that have run out or whose process has exited, all grants keep their order,
-- their processes and the times at which they end.
pub set_aws_grant_level_lem :
    (id : Text) (level : AwsAccessLevel) (c c' : Controller)
    → set_aws_grant_level id level c ≡ (ok tt, c')
    → (map shape c'.aws_process_decisions
        ≡ map shape (prune_exited_aws_grants c).aws_process_decisions)
      × (grant : AwsCredentialGrant) × (find (has_grant_id id) c'.aws_process_decisions
          ≡ some grant)
      × (grant.level ≡ level)
unfolding set_aws_grant_level switch_level record_audit same_level
set_aws_grant_level_lem id level c c' e =
    let pruned = prune_exited_aws_grants c in
    elim (Bool-cases (unlocked c.vault)) [
      | inr locked ↦ absurd (ground arith)
      | inl available ↦ elim (Option-cases (find (has_grant_id id) pruned.aws_process_decisions)) [
        | inl nothing ↦ absurd (ground arith)
        | inr (grant, found) ↦ elim (Bool-cases (same_level grant.level level)) [
          | inl same ↦
              let left : c' ≡ pruned = ground arith in
              (rw left refl, grant, rw left found, same_level-equal grant.level level same)
          | inr other ↦
              let left : c'.aws_process_decisions
                  ≡ update_first (has_grant_id id) (with_level level) pruned.aws_process_decisions =
                ground arith in
              (
                rw left (map-update_first id level pruned.aws_process_decisions),
                record grant { level = level },
                rw left (find-update_first id level pruned.aws_process_decisions grant found),
                refl,
              )
        ]
      ]
    ]
