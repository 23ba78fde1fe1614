-- ===== src/Controller/AwsAnswers.antt =====
-- When a client gets credentials of AWS without a question.
use secretd.Prelude.{
  ℕ, ◌<◌, ◌≡◌, inl, inr, Bool, true, false, some, List, [], ◌∷◌, arith, Any, any, retain, find_last,
  Option-cases, first, Bool-cases, ap, subst,
}
use secretd.Prelude.Text.{Text, same_text_iff}
use secretd.Prelude.Result.{ok, Result-cases}
use secretd.Process.{
  ProcessIdentity, ProcFs, same_process, process_is_alive, omit_secretd_client_processes,
}
use secretd.Aws.{AwsAccessLevel, AwsTarget}
use secretd.Vault.{unlocked}
use secretd.Controller.State.{Controller, AwsCredentialGrant, AwsRequestOutcome}
use secretd.Controller.Audit.{now_millis, after_reading}
use secretd.Controller.AwsRequests.{
  queued, normalize_aws_profile, find_target, find_decision, decides, denies, is_running,
  is_current_denial, begin_aws_request, answer_aws, prune_exited_aws_grants, prune_denials,
}

-- A decision for the profile and the level that has not run out, for the process, which is the one
-- that was asked about and still runs.
abbrev pub Decides :
    ProcFs → ℕ → Text → AwsAccessLevel → ProcessIdentity → AwsCredentialGrant → Type 0
Decides processes now profile level process decision =
    (now < decision.expires_at)
    × (process_is_alive processes decision.process ≡ true)
    × (decision.profile ≡ profile)
    × (decision.level ≡ level)
    × (same_process decision.process process ≡ true)

-- The conditions under which credentials are handed out at once.
pub record IsDecided (input : Text) (tree : List ProcessIdentity) (verified : Bool) (c : Controller)
    (level : AwsAccessLevel) : Type 0 where
  pub profile : Text
  pub named : normalize_aws_profile input ≡ ok profile
  pub connection : verified ≡ true
  pub available : unlocked c.vault ≡ true
  pub enabled : (target : AwsTarget) × (find_target profile c ≡ ok target)
  pub not_denied :
      any
        (denies profile (omit_secretd_client_processes tree))
        (retain (is_current_denial (now_millis (after_reading c))) c.aws_process_denials)
      ≡ false
  pub decided :
      Any
        (λ process.
          Any
            (Decides c.world.processes (now_millis c) profile level process)
            c.aws_process_decisions)
        (omit_secretd_client_processes tree)

find_last-Any :
    {A : Type 0} (P : A → Type 0) (keep test : A → Bool) (x : A)
    → ((y : A) → keep y ≡ true → test y ≡ true → y ≡ x → P y)
    → (xs : List A) → find_last test (retain keep xs) ≡ some x
    → Any P xs
unfolding find_last retain
find_last-Any P keep test x h [] e = absurd (ground arith)
find_last-Any P keep test x h (y ∷ xs) e = elim (Bool-cases (keep y)) [
  | inr dropped ↦ inr (find_last-Any P keep test x h xs (ground arith))
  | inl kept ↦ elim (Option-cases (find_last test (retain keep xs))) [
    | inr (z, later) ↦ inr (find_last-Any P keep test x h xs (ground arith))
    | inl nothing ↦ inl (h y kept (ground arith) (ground arith))
  ]
]

find_decision-Decides :
    (processes : ProcFs) (now : ℕ) (profile : Text) (decisions : List AwsCredentialGrant)
    (tree : List ProcessIdentity) (decision : AwsCredentialGrant)
    → find_decision (retain (is_running processes now) decisions) profile tree ≡ some decision
    → Any (λ process. Any (Decides processes now profile decision.level process) decisions) tree
unfolding find_decision
find_decision-Decides processes now profile decisions [] decision e = absurd (ground arith)
find_decision-Decides processes now profile decisions (process ∷ tree) decision e =
    elim (Option-cases
      (find_last (decides profile process) (retain (is_running processes now) decisions))) [
        | inl nothing ↦
            inr (find_decision-Decides processes now profile decisions tree decision (ground arith))
        | inr (d, found) ↦ inl (
            find_last-Any (Decides processes now profile decision.level process)
              (is_running processes now) (decides profile process) decision
              (λ y kept passes same. (
                ground arith,
                ground arith,
                ground (arith, same_text_iff y.profile profile),
                ap (λ (g : AwsCredentialGrant). g.level) same,
                ground arith,
              ))
              decisions (ground arith))
      ]

-- Credentials are handed out without a question only if the profile's name is valid, the connection
-- was verified, the vault is unlocked and its settings have the profile, no denial that still holds
-- is for the profile and a process of the client's tree, and a decision for the profile and this
-- level, which has not run out, is for a process of the tree that still runs.
pub begin_aws_request-IsDecided :
    (input : Text) (tree : List ProcessIdentity) (verified : Bool) (c c' : Controller)
    (level : AwsAccessLevel)
    → begin_aws_request input tree verified c ≡ (ok (AwsRequestOutcome.immediate level), c')
    → IsDecided input tree verified c level
unfolding begin_aws_request answer_aws queued prune_exited_aws_grants prune_denials
begin_aws_request-IsDecided input tree verified c c' level e =
    let t = omit_secretd_client_processes tree in
    let pruned = prune_denials (prune_exited_aws_grants c) in
    elim (Result-cases (normalize_aws_profile input)) [
      | inr (f, bad) ↦ absurd (ground arith)
      | inl (profile, named) ↦ elim (Option-cases (first t)) [
        | inl nobody ↦ absurd (ground arith)
        | inr (origin, first_is) ↦ elim (Bool-cases verified) [
          | inr unverified ↦ absurd (ground arith)
          | inl connection ↦ elim (Bool-cases (any (denies profile t) pruned.aws_process_denials)) [
            | inl denied ↦ absurd (ground arith)
            | inr free ↦ elim (Bool-cases (unlocked c.vault)) [
              | inr locked ↦ absurd (ground arith)
              | inl available ↦ elim (Result-cases (find_target profile pruned)) [
                | inr (f, unknown) ↦ absurd (ground arith)
                | inl (target, enabled) ↦
                    elim (Option-cases (find_decision pruned.aws_process_decisions profile t)) [
                      | inl undecided ↦ absurd (ground arith)
                      | inr (decision, found) ↦ record {
                        profile = profile;
                        named = named;
                        connection = connection;
                        available = available;
                        enabled = (target, enabled);
                        not_denied = free;
                        decided =
                            subst
                              (λ x.
                                Any
                                  (λ process.
                                    Any (Decides c.world.processes (now_millis c) profile x process)
                                      c.aws_process_decisions)
                                  t)
                              (ground arith)
                              (find_decision-Decides c.world.processes (now_millis c) profile
                                c.aws_process_decisions t decision found);
                      }
                    ]
              ]
            ]
          ]
        ]
      ]
    ]
